-- ===== src/Security/Session/Tokens.antt =====
-- A created token is valid until it expires, and a valid token was signed with the secret.
use signalwire_agents_cpp.Prelude.{
  suc, ◌≡◌, refl, sym, ap, ◌∙◌, none, Bool, true, false, not, ◌++◌, ◌∷◌, Bytes, take, drop, find,
  find_sound, find-append, if◌then◌else◌, Lacks, IsByte, All, All-append, arith, take-append,
  drop-suc-append, Option-cases, inl, inr,
}
use signalwire_agents_cpp.Prelude.Int.{ℤ, ◌+ℤ◌, ltb_ℤ}
use signalwire_agents_cpp.Security.Crypto.{Crypto, timing_safe_compare, timing_safe_compare_iff}
use signalwire_agents_cpp.Security.Base64.{base64_encode, base64_decode}
use signalwire_agents_cpp.Security.Base64.RoundTrip.{base64_decode-encode, base64_encode-Lacks}
use signalwire_agents_cpp.Security.Decimal.{to_string, IsInt64}
use signalwire_agents_cpp.Security.Decimal.RoundTrip.{stoll-to_string, to_string-IsByte}
use signalwire_agents_cpp.Security.Session.{
  SessionManager, payload_of, is_live, check_payload, signature, create_token, validate_token,
}
use signalwire_agents_cpp.Security.Session.Payload.{check_payload_sound, check_payload-payload_of}

both_hold : (a b : Bool) → (if not a then false else b) ≡ true → (a ≡ true) × (b ≡ true)
both_hold a b h = ground arith

module _ (k : Crypto) (m : SessionManager) where
  -- A token cut at its first dot.
  validate_token_cut :
      (encoded sig function_name call_id : Bytes) (now : ℤ)
      → Lacks b'.' encoded
      → validate_token k m (encoded ++ b'.' ∷ sig) function_name call_id now ≡ (
          if not (timing_safe_compare k sig (signature k m encoded))
          then false
          else check_payload (base64_decode encoded) function_name call_id now)
  unfolding validate_token
  validate_token_cut encoded sig f c now h = rw (
    find-append b'.' encoded sig h,
    validate_token,
    take-append encoded (b'.' ∷ sig),
    drop-suc-append encoded sig b'.',
  )

  validate_token_no_dot :
      (token function_name call_id : Bytes) (now : ℤ)
      → find b'.' token ≡ none
      → validate_token k m token function_name call_id now ≡ false
  unfolding validate_token
  validate_token_no_dot token f c now e = rw (e, validate_token)

  payload_of-IsByte :
      (f c : Bytes) (z : ℤ)
      → All IsByte f
      → All IsByte c
      → All IsByte (payload_of f c (to_string z))
  unfolding payload_of
  payload_of-IsByte f c z hf hc =
      All-append IsByte f _ hf
        (omega arith, All-append IsByte c _ hc (omega arith, to_string-IsByte z))

  -- A token is valid when it is checked for the names that it was created for, none of which holds a
  -- colon, as long as its expiry, which fits `int64_t`, has not passed; and not any longer.
  pub validate_token-create_token :
      (function_name call_id : Bytes) (expiry_seconds created now : ℤ)
      → All IsByte function_name
      → All IsByte call_id
      → Lacks b':' function_name
      → Lacks b':' call_id
      → IsInt64 (created +ℤ expiry_seconds)
      → validate_token k m
          (create_token k m function_name call_id expiry_seconds created)
          function_name
          call_id
          now
        ≡ not (ltb_ℤ (created +ℤ expiry_seconds) now)
  unfolding create_token is_live
  validate_token-create_token f c secs created now bf bc lf lc fits =
      let payload = payload_of f c (to_string (created +ℤ secs)) in
      let encoded = base64_encode payload in
      validate_token_cut encoded _ f c now (base64_encode-Lacks payload)
      ∙ rw (
        (timing_safe_compare_iff k _ _).1 refl,
        base64_decode-encode payload (payload_of-IsByte f c _ bf bc),
        check_payload-payload_of f c _ now lf lc,
        is_live,
        stoll-to_string _ fits,
      )

  -- A token that validates is an encoded payload, a dot and the hexadecimal HMAC of that encoded
  -- payload under the secret; the payload decodes to the two names asked for and an expiry that is
  -- a number and not in the past, and neither name holds a colon.
  pub validate_token_sound :
      (token function_name call_id : Bytes) (now : ℤ)
      → validate_token k m token function_name call_id now ≡ true
      → (encoded t : Bytes) × (token ≡ encoded ++ b'.' ∷ signature k m encoded)
        × (base64_decode encoded ≡ payload_of function_name call_id t)
        × (is_live t now ≡ true)
        × Lacks b':' function_name
        × Lacks b':' call_id
  validate_token_sound token f c now h = elim (Option-cases (find b'.' token)) [
    | inl e ↦ absurd (cc (validate_token_no_dot token f c now e))
    | inr (i, e) ↦
        let (cut, split) = find_sound b'.' token i e in
        let encoded = take i token in
        let sig = drop (suc i) token in
        let h' =
          sym (validate_token_cut encoded sig f c now cut)
          ∙ ap (λ s. validate_token k m s f c now) (sym split)
          ∙ h in
        let (same, rest) = both_hold (timing_safe_compare k sig (signature k m encoded)) _ h' in
        let (t, payload, live, lf, lc) = check_payload_sound _ f c now rest in
        (
          encoded,
          t,
          split ∙ ap (λ s. encoded ++ b'.' ∷ s) ((timing_safe_compare_iff k _ _).0 same),
          payload,
          live,
          lf,
          lc,
        )
  ]
