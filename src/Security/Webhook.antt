-- ===== src/Security/Webhook.antt =====
-- Webhook signatures: src/security/webhook_validator.cpp. OpenSSL is the parameter `k`.
pub mod Url
pub mod Form
pub mod Verify
pub mod Middleware
use signalwire_agents_cpp.Prelude.{
  Option, none, some, Bool, true, false, ◌≡◌, ◌++◌, ◌∷◌, [], List, Bytes, codes, if◌then◌else◌,
  is_empty,
}
use signalwire_agents_cpp.Security.Crypto.{Crypto, timing_safe_compare}
use signalwire_agents_cpp.Security.Base64.{base64_encode}
use signalwire_agents_cpp.Security.Hex.{hex_encode}
use Url.{parse_url, candidate_urls}
use Form.{parse_form_body, sorted_concat_pairs, sorted_concat_form_params, find_query_param}

-- `std::invalid_argument("signing_key is required")`, or the verdict.
pub data Verdict : Type 0 where
  signing_key_required : Verdict
  verdict : Bool → Verdict

pub data ParamsOrBody : Type 0 where
  raw_body : Bytes → ParamsOrBody
  form_params : List (Bytes × List Bytes) → ParamsOrBody

module _ (k : Crypto) where
  pub hex_hmac_sha1 : Bytes → Bytes → Bytes
  hex_hmac_sha1 key message = hex_encode (k.hmac_sha1 key message)

  pub b64_hmac_sha1 : Bytes → Bytes → Bytes
  b64_hmac_sha1 key message = base64_encode (k.hmac_sha1 key message)

  pub sha256_hex : Bytes → Bytes
  sha256_hex s = hex_encode (k.sha256 s)

  -- The `bodySHA256` parameter, when the URL has one, must be the digest of the body.
  pub check_body_sha256 : Bytes → Bytes → Bool
  check_body_sha256 url body =
      let query = (parse_url url).query in
      let expected = find_query_param query (codes "bodySHA256") in
      if is_empty query
      then true
      else if is_empty expected
      then true
      else timing_safe_compare k (sha256_hex body) expected

  -- The inner loop of scheme B, over the shapes of the parameters, for one URL.
  pub try_shapes : Bytes → Bytes → Bytes → Bytes → List (List (Bytes × Bytes)) → Bool
  try_shapes key signature candidate body [] = false
  try_shapes key signature candidate body (shape ∷ shapes) =
      let rest = try_shapes key signature candidate body shapes in
      if timing_safe_compare k (b64_hmac_sha1 key (candidate ++ sorted_concat_pairs shape))
        signature
      then if check_body_sha256 candidate body then true else rest
      else rest

  -- The outer loop, over the candidates.
  pub try_candidates : Bytes → Bytes → Bytes → List (List (Bytes × Bytes)) → List Bytes → Bool
  try_candidates key signature body shapes [] = false
  try_candidates key signature body shapes (candidate ∷ candidates) =
      let rest = try_candidates key signature body shapes candidates in
      if try_shapes key signature candidate body shapes then true else rest

  pub validate_webhook_signature : Bytes → Bytes → Bytes → Bytes → Verdict
  validate_webhook_signature key signature url body =
      if is_empty key
      then signing_key_required
      else if is_empty signature
      then verdict false
      else if timing_safe_compare k (hex_hmac_sha1 key (url ++ body)) signature
      then verdict true
      else verdict
          (try_candidates key signature body (parse_form_body body ∷ [] ∷ []) (candidate_urls url))

  -- The loop for parameters that are parsed already: there is no body to check.
  pub try_params : Bytes → Bytes → Bytes → List Bytes → Bool
  try_params key signature concat [] = false
  try_params key signature concat (candidate ∷ candidates) =
      let rest = try_params key signature concat candidates in
      if timing_safe_compare k (b64_hmac_sha1 key (candidate ++ concat)) signature
      then true
      else rest

  pub validate_request : Bytes → Bytes → Bytes → ParamsOrBody → Verdict
  validate_request key signature url (raw_body body) =
      if is_empty key
      then signing_key_required
      else if is_empty signature
      then verdict false
      else validate_webhook_signature key signature url body
  validate_request key signature url (form_params params) =
      if is_empty key
      then signing_key_required
      else if is_empty signature
      then verdict false
      else verdict
          (try_params key signature (sorted_concat_form_params params) (candidate_urls url))
