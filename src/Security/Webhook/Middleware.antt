-- ===== src/Security/Webhook/Middleware.antt =====
-- `WrapWithSignatureValidation` of src/security/webhook_middleware.cpp. A request of the HTTP library
-- is a record; its headers are visited in the order in which the library keeps them. The handler
-- behind the wrapper is the parameter `handler`, and the value of SWML_PROXY_URL_BASE an argument.
pub mod Passes
mod Tests
use signalwire_agents_cpp.Prelude.{
  Option, none, some, Bool, true, false, ◌∷◌, [], ◌++◌, List, map, Bytes, codes, is_empty, str_eq,
  if◌then◌else◌, ◌==◌,
}
use signalwire_agents_cpp.Prelude.Strings.{to_lower}
use signalwire_agents_cpp.Security.Crypto.{Crypto}
use signalwire_agents_cpp.Security.Webhook.{
  Verdict, signing_key_required, verdict, validate_webhook_signature,
}
use signalwire_agents_cpp.Utils.UrlEncoding.{url_encode}

pub record Request : Type 0 where
  pub path : Bytes
  pub params : List (Bytes × Bytes)
  pub headers : List (Bytes × Bytes)
  pub body : Bytes

pub record WebhookValidatorOptions : Type 0 where
  pub trust_proxy : Bool
  pub proxy_url_base : Bytes

unfoldable pub ascii_lower : Bytes → Bytes
unfolding to_lower
ascii_lower s = map to_lower s

-- The first header of that name, whatever the case; empty when there is none.
unfoldable pub header_ci : List (Bytes × Bytes) → Bytes → Bytes
unfolding ascii_lower
header_ci [] name = []
header_ci ((k, v) ∷ headers) name =
    if str_eq (ascii_lower k) (ascii_lower name) then v else header_ci headers name

-- `key=value` for each parameter, escaped, with '&' between them.
unfoldable pub join_params : List (Bytes × Bytes) → Bytes
unfolding url_encode
join_params [] = []
join_params ((k, v) ∷ []) = url_encode k ++ (b'=' ∷ url_encode v)
join_params ((k, v) ∷ p ∷ ps) =
    url_encode k ++ (b'=' ∷ (url_encode v ++ (b'&' ∷ join_params (p ∷ ps))))

abbrev pub path_and_query : Request → Bytes
path_and_query req = elim req.params [
  | [] ↦ req.path
  | p ∷ ps ↦ req.path ++ (b'?' ∷ join_params (p ∷ ps))
]

abbrev all_slashes : Bytes → Bool
all_slashes [] = true
all_slashes (c ∷ s) = if c == b'/' then all_slashes s else false

-- `while (!s.empty() && s.back() == '/') s.pop_back();`
unfoldable pub strip_slashes : Bytes → Bytes
strip_slashes [] = []
strip_slashes (c ∷ s) = let rest = strip_slashes s in if all_slashes (c ∷ s) then [] else c ∷ rest

abbrev pub or_default : Bytes → Bytes → Bytes
or_default [] d = d
or_default (c ∷ s) d = c ∷ s

-- The scheme and the host that the request was sent to.
abbrev pub origin : Request → WebhookValidatorOptions → Bytes
origin req opts =
    let fwd_host = header_ci req.headers (codes "X-Forwarded-Host") in
    let fwd_proto =
      or_default (header_ci req.headers (codes "X-Forwarded-Proto")) (codes "https") in
    let host = header_ci req.headers (codes "Host") in
    let from_host = if is_empty host then codes "http://localhost" else codes "https://" ++ host in
    if opts.trust_proxy
    then if is_empty fwd_host then from_host else fwd_proto ++ (codes "://" ++ fwd_host)
    else from_host

unfoldable pub reconstruct_url : Request → WebhookValidatorOptions → Bytes → Bytes
unfolding header_ci join_params strip_slashes
reconstruct_url req opts env_proxy =
    let base = or_default opts.proxy_url_base env_proxy in
    (if is_empty base then origin req opts else strip_slashes base) ++ path_and_query req

-- The signature header, under its own name or the older one.
unfoldable pub signature_of : Request → Bytes
unfolding header_ci
signature_of req =
    or_default (header_ci req.headers (codes "X-SignalWire-Signature"))
      (header_ci req.headers (codes "X-Twilio-Signature"))

-- What the wrapped handler does: 403 without a reason, or what `handler` does.
pub data Wrapped (R : Type 0) : Type 0 where
  forbidden : Wrapped R
  handled : R → Wrapped R

-- The wrapper itself: without a key or a handler it throws (`none`).
module _ {R : Type 0} (k : Crypto) where
  abbrev pub decide : Verdict → R → Wrapped R
  decide signing_key_required r = forbidden
  decide (verdict false) r = forbidden
  decide (verdict true) r = handled r

  abbrev pub check_request :
      Bytes → (Request → R) → WebhookValidatorOptions → Bytes → Request → Wrapped R
  check_request key handler opts env_proxy req =
      let sig = signature_of req in
      if is_empty sig
      then forbidden
      else decide
          (validate_webhook_signature k key sig (reconstruct_url req opts env_proxy) req.body)
          (handler req)

  unfoldable pub wrap_with_signature_validation :
      Bytes → Option (Request → R) → WebhookValidatorOptions → Bytes → Option (Request → Wrapped R)
  unfolding signature_of reconstruct_url
  wrap_with_signature_validation key downstream opts env_proxy =
      if is_empty key then none else elim downstream [
        | none ↦ none
        | some handler ↦ some (check_request key handler opts env_proxy)
      ]
