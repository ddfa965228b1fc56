-- ===== src/Security/Webhook/Middleware/Tests.antt =====
-- The middleware at a concrete request, with the toy digests.
use signalwire_agents_cpp.Prelude.{
  some, false, ◌≡◌, ◌↔◌, refl, ◌∷◌, [], Bytes, codes, str_eq, All, IsByte, arith,
}
use signalwire_agents_cpp.Security.Crypto.{toy}
use signalwire_agents_cpp.Security.Webhook.Form.{urldecode_form}
use signalwire_agents_cpp.Security.Webhook.Middleware.{
  Request, WebhookValidatorOptions, reconstruct_url, handled, check_request,
  wrap_with_signature_validation,
}
use signalwire_agents_cpp.Security.Webhook.Middleware.Passes.{
  IsAdmitted, wrap_with_signature_validation_iff,
}
use signalwire_agents_cpp.Utils.UrlEncoding.{url_encode, urldecode_form-url_encode}

abbrev key : Bytes
key = codes "secret"

abbrev opts : WebhookValidatorOptions
opts = record { trust_proxy = false; proxy_url_base = [] }

abbrev request : Request
request = record {
  path = codes "/swaig";
  params = (codes "a b", codes "1") ∷ [];
  headers =
      (codes "host", codes "example.com")
      ∷ (codes "X-Forwarded-Host", codes "evil.example")
      ∷ (codes "x-signalwire-signature", codes "00")
      ∷ [];
  body = codes "{}";
}

-- A forwarded host counts for nothing unless the proxy is trusted.
untrusted : reconstruct_url request opts [] ≡ codes "https://example.com/swaig?a%20b=1"
unfolding reconstruct_url str_eq
untrusted = refl

-- A base URL wins, without its slashes at the end.
based :
    reconstruct_url request opts (codes "https://abcd.ngrok.io//")
    ≡ codes "https://abcd.ngrok.io/swaig?a%20b=1"
unfolding reconstruct_url str_eq
based = refl

-- The handler gives the body back.
abbrev handler : Request → Bytes
handler req = req.body

made :
    wrap_with_signature_validation toy key (some handler) opts []
    ≡ some (check_request toy key handler opts [])
unfolding wrap_with_signature_validation
made = refl

wrap_with_signature_validation_iff_example :
    (check_request toy key handler opts [] request ≡ handled (codes "{}"))
    ↔ IsAdmitted toy key handler opts [] request (codes "{}")
wrap_with_signature_validation_iff_example =
    wrap_with_signature_validation_iff toy key handler opts [] request (codes "{}")
      (check_request toy key handler opts []) made

abbrev raw : Bytes
raw = codes "a b&=%+~"

raw-IsByte : All IsByte raw
raw-IsByte = ground arith

urldecode_form-url_encode_example : urldecode_form (url_encode raw) ≡ raw
urldecode_form-url_encode_example = urldecode_form-url_encode raw raw-IsByte
