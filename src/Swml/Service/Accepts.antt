-- ===== src/Swml/Service/Accepts.antt =====
-- Which requests the basic authentication lets through.
use mathlib.Core.Option.{some-injective}
use signalwire_agents_cpp.Prelude.{
  ℕ, suc, ◌≡◌, ◌↔◌, ◌<◌, refl, sym, ap, ap₂, ◌∙◌, subst, Option, none, some, ◌∷◌, [], ◌++◌, Bytes,
  codes, length, find, find_sound, find-append, take, drop, take-append, drop-suc-append,
  take-append-drop, str_eq, str_eq_iff, Lacks, arith, Option-cases, inl, inr,
}
use signalwire_agents_cpp.Security.Base64.{base64_decode, base64_decode-nil}
use signalwire_agents_cpp.Security.Crypto.{Crypto, timing_safe_compare_iff}
use signalwire_agents_cpp.Swml.Service.{
  Auth, authorized, check_credentials, check_header, validate_auth,
}

module _ (k : Crypto) (a : Auth) where
  check_credentials_sound :
      (decoded : Bytes)
      → check_credentials k a decoded ≡ authorized
      → Lacks b':' a.user × (decoded ≡ a.user ++ b':' ∷ a.pass)
  check_credentials_sound decoded h = elim (Option-cases (find b':' decoded)) [
    | inl e ↦ absurd (no_colon e)
    | inr (i, e) ↦
        let (clean, split) = find_sound b':' decoded i e in
        let (same_user, same_pass) = equal_parts i e in
        (subst (Lacks b':') same_user clean, split ∙ ap₂ (λ u p. u ++ b':' ∷ p) same_user same_pass)
  ]
    where
      no_colon : find b':' decoded ≡ none → ⊥
      no_colon e = ground (arith, h, e)

      equal_parts :
          (i : ℕ)
          → find b':' decoded ≡ some i
          → (take i decoded ≡ a.user) × (drop (suc i) decoded ≡ a.pass)
      equal_parts i e = ground (
        arith,
        h,
        e,
        timing_safe_compare_iff k (take i decoded) a.user,
        timing_safe_compare_iff k (drop (suc i) decoded) a.pass,
      )

  check_credentials_complete :
      Lacks b':' a.user → check_credentials k a (a.user ++ b':' ∷ a.pass) ≡ authorized
  check_credentials_complete clean =
      rw
        (
          check_credentials,
          find-append b':' a.user a.pass clean,
          take-append a.user (b':' ∷ a.pass),
          drop-suc-append a.user a.pass b':',
          (timing_safe_compare_iff k a.user a.user).1 refl,
          (timing_safe_compare_iff k a.pass a.pass).1 refl,
        )
        refl

  check_header_sound :
      (header : Bytes)
      → check_header k a header ≡ authorized
      → (header ≡ codes "Basic " ++ drop 6 header)
        × (check_credentials k a (base64_decode (drop 6 header)) ≡ authorized)
  check_header_sound header h = (
    sym (take-append-drop 6 header)
        ∙ ap (λ t. t ++ drop 6 header)
            ((str_eq_iff (take 6 header) (codes "Basic ")).0 (ground (arith, h))),
    ground (arith, h),
  )

  check_header_complete :
      (encoded : Bytes)
      → 0 < length encoded
      → check_credentials k a (base64_decode encoded) ≡ authorized
      → check_header k a (codes "Basic " ++ encoded) ≡ authorized
  unfolding str_eq
  check_header_complete encoded long h = ground (arith, long, h)

  -- What decodes to the credentials is not empty.
  encoded_length :
      (encoded : Bytes) → base64_decode encoded ≡ a.user ++ b':' ∷ a.pass → 0 < length encoded
  encoded_length [] h = absurd (not_nil a.user (sym base64_decode-nil ∙ h))
    where
      not_nil : (user : Bytes) → [] ≡ user ++ b':' ∷ a.pass → ⊥
      not_nil [] e = cc
      not_nil (c ∷ user) e = cc
  encoded_length (c ∷ encoded) h = omega arith

  -- A request is let through exactly when its header is "Basic " and a text that decodes to the user
  -- name, a colon and the password, and the user name holds no colon.
  pub validate_auth_iff :
      (header : Option Bytes)
      → (validate_auth k a header ≡ authorized) ↔ (
          Lacks b':' a.user
          × ((encoded : Bytes) × (header ≡ some (codes "Basic " ++ encoded))
              × (base64_decode encoded ≡ a.user ++ b':' ∷ a.pass)))
  unfolding validate_auth
  validate_auth_iff none = (λ h. absurd cc, λ (clean, (encoded, e, d)). absurd cc)
  validate_auth_iff (some header) = (sound, complete)
    where
      sound :
          check_header k a header ≡ authorized
          → Lacks b':' a.user
            × ((encoded : Bytes) × (some header ≡ some (codes "Basic " ++ encoded))
                × (base64_decode encoded ≡ a.user ++ b':' ∷ a.pass))
      sound h =
          let (shape, inner) = check_header_sound header h in
          let (clean, decoded) = check_credentials_sound (base64_decode (drop 6 header)) inner in
          (clean, (drop 6 header, ap some shape, decoded))

      complete :
          Lacks b':' a.user
            × ((encoded : Bytes) × (some header ≡ some (codes "Basic " ++ encoded))
                × (base64_decode encoded ≡ a.user ++ b':' ∷ a.pass))
          → check_header k a header ≡ authorized
      complete (clean, (encoded, shape, decoded)) = rw (some-injective _ _ shape) (
          check_header_complete encoded (encoded_length encoded decoded)
            (rw decoded (check_credentials_complete clean)))
