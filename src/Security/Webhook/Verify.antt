-- ===== src/Security/Webhook/Verify.antt =====
-- Which signatures the validator accepts.
use mathlib.Core.List.{cons-ne-nil}
use signalwire_agents_cpp.Prelude.{
  Bool, true, false, ◌≡◌, ◌≢◌, ◌↔◌, ◌⊎◌, inl, inr, refl, ap, ◌++◌, ◌∷◌, [], List, Bytes,
  if◌then◌else◌, Any, arith, Bool-cases,
}
use signalwire_agents_cpp.Security.Crypto.{Crypto, timing_safe_compare, timing_safe_compare_iff}
use signalwire_agents_cpp.Security.Webhook.Url.{candidate_urls}
use signalwire_agents_cpp.Security.Webhook.Form.{parse_form_body, sorted_concat_pairs}
use signalwire_agents_cpp.Security.Webhook.Form.Sorting.{flatten, sorted_concat_flatten}
use signalwire_agents_cpp.Security.Webhook.{
  verdict, form_params, hex_hmac_sha1, b64_hmac_sha1, check_body_sha256, try_shapes, try_candidates,
  validate_webhook_signature, try_params, validate_request,
}

-- The shapes of the parameters that scheme B tries: those of the body, and none.
abbrev pub shapes_of : Bytes → List (List (Bytes × Bytes))
shapes_of body = parse_form_body body ∷ [] ∷ []

module _ (k : Crypto) (key signature : Bytes) where
  -- Scheme B over one URL and one shape: the digest matches, and the URL's body digest, if any, too.
  abbrev pub MatchesShape : Bytes → Bytes → List (Bytes × Bytes) → Type 0
  MatchesShape body url shape =
      (b64_hmac_sha1 k key (url ++ sorted_concat_pairs shape) ≡ signature)
      × (check_body_sha256 k url body ≡ true)

  -- Scheme A, or scheme B over one of the candidate URLs and one of the shapes.
  abbrev pub IsSigned : Bytes → Bytes → Type 0
  IsSigned url body =
      (hex_hmac_sha1 k key (url ++ body) ≡ signature)
      ⊎ Any (λ candidate. Any (MatchesShape body candidate) (shapes_of body)) (candidate_urls url)

  try_shapes_sound :
      (url body : Bytes) (shapes : List (List (Bytes × Bytes)))
      → try_shapes k key signature url body shapes ≡ true
      → Any (MatchesShape body url) shapes
  unfolding try_shapes
  try_shapes_sound url body [] h = cc
  try_shapes_sound url body (s ∷ ss) h = ground (
    arith,
    timing_safe_compare_iff k (b64_hmac_sha1 k key (url ++ sorted_concat_pairs s)) signature,
    try_shapes_sound url body ss,
  )

  try_shapes_complete :
      (url body : Bytes) (shapes : List (List (Bytes × Bytes)))
      → Any (MatchesShape body url) shapes
      → try_shapes k key signature url body shapes ≡ true
  unfolding try_shapes
  try_shapes_complete url body [] h = absurd h
  try_shapes_complete url body (s ∷ ss) h = ground (
    arith,
    timing_safe_compare_iff k (b64_hmac_sha1 k key (url ++ sorted_concat_pairs s)) signature,
    try_shapes_complete url body ss,
  )

  try_candidates_sound :
      (body : Bytes) (shapes : List (List (Bytes × Bytes))) (urls : List Bytes)
      → try_candidates k key signature body shapes urls ≡ true
      → Any (λ url. Any (MatchesShape body url) shapes) urls
  unfolding try_candidates
  try_candidates_sound body shapes [] h = cc
  try_candidates_sound body shapes (u ∷ us) h =
      elim (Bool-cases (try_shapes k key signature u body shapes)) [
        | inl e ↦ inl (try_shapes_sound u body shapes e)
        | inr e ↦ inr (try_candidates_sound body shapes us (ground arith))
      ]

  try_candidates_complete :
      (body : Bytes) (shapes : List (List (Bytes × Bytes))) (urls : List Bytes)
      → Any (λ url. Any (MatchesShape body url) shapes) urls
      → try_candidates k key signature body shapes urls ≡ true
  unfolding try_candidates
  try_candidates_complete body shapes [] h = absurd h
  try_candidates_complete body shapes (u ∷ us) (inl h) = rw (try_shapes_complete u body shapes h)
  try_candidates_complete body shapes (u ∷ us) (inr h) =
      let e = try_candidates_complete body shapes us h in ground arith

  -- With both texts present the verdict is that of the two schemes.
  decide_iff :
      (url body : Bytes)
      → ((if timing_safe_compare k (hex_hmac_sha1 k key (url ++ body)) signature
            then verdict true
            else verdict
                (try_candidates k key signature body (shapes_of body) (candidate_urls url)))
          ≡ verdict true)
        ↔ IsSigned url body
  decide_iff url body = (sound, complete)
    where
      sound :
          ((if timing_safe_compare k (hex_hmac_sha1 k key (url ++ body)) signature
              then verdict true
              else verdict
                  (try_candidates k key signature body (shapes_of body) (candidate_urls url)))
            ≡ verdict true)
          → IsSigned url body
      sound h =
          elim (Bool-cases (timing_safe_compare k (hex_hmac_sha1 k key (url ++ body)) signature)) [
            | inl e ↦ inl ((timing_safe_compare_iff k _ signature).0 e)
            | inr e ↦
                inr (try_candidates_sound body (shapes_of body) (candidate_urls url) (ground arith))
          ]

      either : (b : Bool) → (if b then verdict true else verdict true) ≡ verdict true
      either true = refl
      either false = refl

      complete :
          IsSigned url body
          → (if timing_safe_compare k (hex_hmac_sha1 k key (url ++ body)) signature
              then verdict true
              else verdict
                  (try_candidates k key signature body (shapes_of body) (candidate_urls url)))
            ≡ verdict true
      complete (inl e) = rw ((timing_safe_compare_iff k _ signature).1 e)
      complete (inr h) = rw (try_candidates_complete body _ _ h) (either _)

-- A request is accepted exactly when its key and signature are not empty and the signature is
-- that of scheme A, or that of scheme B over a candidate URL whose body digest, if it has one, is right.
pub validate_webhook_signature_iff :
    (k : Crypto) (key signature url body : Bytes)
    → (validate_webhook_signature k key signature url body ≡ verdict true)
      ↔ ((key ≢ []) × (signature ≢ []) × IsSigned k key signature url body)
unfolding validate_webhook_signature
validate_webhook_signature_iff k [] signature url body = (λ h. cc, λ h. absurd (h.0 refl))
validate_webhook_signature_iff k (c ∷ key) [] url body = (λ h. cc, λ h. absurd (h.1 refl))
validate_webhook_signature_iff k (c ∷ key) (d ∷ signature) url body =
    let e = decide_iff k (c ∷ key) (d ∷ signature) url body in
    (λ h. (cons-ne-nil c key, cons-ne-nil d signature, e.0 h), λ h. e.1 h.2)

module _ (k : Crypto) (key signature concat : Bytes) where
  try_params_sound :
      (urls : List Bytes)
      → try_params k key signature concat urls ≡ true
      → Any (λ url. b64_hmac_sha1 k key (url ++ concat) ≡ signature) urls
  unfolding try_params
  try_params_sound [] h = cc
  try_params_sound (u ∷ us) h =
      elim (Bool-cases (timing_safe_compare k (b64_hmac_sha1 k key (u ++ concat)) signature)) [
        | inl e ↦ inl ((timing_safe_compare_iff k _ signature).0 e)
        | inr e ↦ inr (try_params_sound us (ground arith))
      ]

  try_params_complete :
      (urls : List Bytes)
      → Any (λ url. b64_hmac_sha1 k key (url ++ concat) ≡ signature) urls
      → try_params k key signature concat urls ≡ true
  unfolding try_params
  try_params_complete [] h = absurd h
  try_params_complete (u ∷ us) (inl e) = rw ((timing_safe_compare_iff k _ signature).1 e)
  try_params_complete (u ∷ us) (inr h) = let e = try_params_complete us h in ground arith

-- A request with parsed parameters is accepted exactly when its key and signature are not empty and
-- the signature is that of scheme B over a candidate URL and the parameters spelled out one by one.
pub validate_request_params_iff :
    (k : Crypto) (key signature url : Bytes) (params : List (Bytes × List Bytes))
    → (validate_request k key signature url (form_params params) ≡ verdict true) ↔ (
        (key ≢ [])
        × (signature ≢ [])
        × Any
            (λ candidate.
              b64_hmac_sha1 k key (candidate ++ sorted_concat_pairs (flatten params)) ≡ signature)
            (candidate_urls url))
unfolding validate_request
validate_request_params_iff k [] signature url params = (λ h. cc, λ h. absurd (h.0 refl))
validate_request_params_iff k (c ∷ key) [] url params = (λ h. cc, λ h. absurd (h.1 refl))
validate_request_params_iff k (c ∷ key) (d ∷ signature) url params =
    rw (sorted_concat_flatten params) (
      λ h. (cons-ne-nil c key, cons-ne-nil d signature, try_params_sound k _ _ _ _ (cc)),
      λ h. ap verdict (try_params_complete k _ _ _ _ h.2),
    )
