-- ===== src/Security/Session/Payload.antt =====
-- How the payload of a token is taken apart.
use signalwire_agents_cpp.Prelude.{
  ℕ, suc, ◌+◌, ◌-◌, ◌≡◌, sym, ap, ◌∙◌, none, some, Bool, true, false, not, ◌++◌, ◌∷◌, Bytes, length,
  take, drop, find, find_from, find_sound, find-append, str_eq, str_eq_iff, str_eq_refl,
  if◌then◌else◌, Lacks, arith, drop-drop, take-append, drop-suc-append, Option-cases, inl, inr,
  subst,
}
use signalwire_agents_cpp.Prelude.Int.{ℤ}
use signalwire_agents_cpp.Security.Session.{payload_of, is_live, check_payload}

-- The three parts against what is asked for.
check_parts : Bytes → Bytes → Bytes → Bytes → Bytes → ℤ → Bool
check_parts f c t function_name call_id now =
    if not (str_eq f function_name)
    then false
    else if not (str_eq c call_id)
    then false
    else is_live t now

module _ (p function_name call_id : Bytes) (now : ℤ) where
  -- With both colons found, the checks are on the texts between them.
  check_payload_found :
      (i j : ℕ)
      → find b':' p ≡ some i
      → find b':' (drop (suc i) p) ≡ some j
      → check_payload p function_name call_id now
        ≡ check_parts
            (take i p)
            (take j (drop (suc i) p))
            (drop (suc j) (drop (suc i) p))
            function_name
            call_id
            now
  unfolding check_payload find_from check_parts
  check_payload_found i j hi hj =
      let e : suc i + j - i - 1 ≡ j = omega arith in
      let d : suc (suc i + j) ≡ suc i + suc j = omega arith in
      rw (hi, check_payload, hj, e, d, drop-drop (suc i) (suc j) p)

  check_payload_no_colon : find b':' p ≡ none → check_payload p function_name call_id now ≡ false
  unfolding check_payload
  check_payload_no_colon e = rw (e, check_payload)

  check_payload_one_colon :
      (i : ℕ)
      → find b':' p ≡ some i
      → find b':' (drop (suc i) p) ≡ none
      → check_payload p function_name call_id now ≡ false
  unfolding check_payload find_from
  check_payload_one_colon i hi e = rw (hi, check_payload, e)

  check_parts_sound :
      (f c t : Bytes)
      → check_parts f c t function_name call_id now ≡ true
      → (f ≡ function_name) × (c ≡ call_id) × (is_live t now ≡ true)
  unfolding check_parts
  check_parts_sound f c t h = ground (arith, str_eq_iff f function_name, str_eq_iff c call_id)

  -- A payload that passes is the function's name, the call's id and a live expiry, and neither name
  -- holds a colon.
  pub check_payload_sound :
      check_payload p function_name call_id now ≡ true
      → (t : Bytes) × (p ≡ payload_of function_name call_id t)
        × (is_live t now ≡ true)
        × Lacks b':' function_name
        × Lacks b':' call_id
  unfolding payload_of
  check_payload_sound h = elim (Option-cases (find b':' p)) [
    | inl e ↦ absurd (cc (check_payload_no_colon e))
    | inr (i, hi) ↦ elim (Option-cases (find b':' (drop (suc i) p))) [
      | inl e ↦ absurd (cc (check_payload_one_colon i hi e))
      | inr (j, hj) ↦
          let (ef, ec, live) = check_parts_sound _ _ _ (sym (check_payload_found i j hi hj) ∙ h) in
          let (lf, sf) = find_sound b':' p i hi in
          let (lc, sc) = find_sound b':' (drop (suc i) p) j hj in
          (
            drop (suc j) (drop (suc i) p),
            cc,
            live,
            subst (Lacks b':') ef lf,
            subst (Lacks b':') ec lc,
          )
    ]
  ]

-- A payload made from names without colons is checked part by part.
pub check_payload-payload_of :
    (f c t : Bytes) (now : ℤ)
    → Lacks b':' f
    → Lacks b':' c
    → check_payload (payload_of f c t) f c now ≡ is_live t now
unfolding payload_of check_parts
check_payload-payload_of f c t now lf lc =
    let rest = c ++ b':' ∷ t in
    let split = drop-suc-append f rest b':' in
    check_payload_found (payload_of f c t) f c now (length f) (length c)
      (find-append b':' f rest lf) (ap (find b':') split ∙ find-append b':' c t lc)
    ∙ rw (
      take-append f (b':' ∷ rest),
      split,
      take-append c (b':' ∷ t),
      drop-suc-append c t b':',
      str_eq_refl f,
      str_eq_refl c,
    )
