-- ===== src/Swml/Service/Tests.antt =====
-- The theorems of the service at concrete inputs, with the toy comparison.
use signalwire_agents_cpp.Prelude.{◌≡◌, ◌↔◌, ◌++◌, ◌∷◌, some, true, Bytes, codes, Lacks}
use signalwire_agents_cpp.Security.Base64.{base64_decode}
use signalwire_agents_cpp.Security.Crypto.{toy}
use signalwire_agents_cpp.Swml.Service.{Auth, authorized, validate_auth}
use signalwire_agents_cpp.Swml.Service.Accepts.{validate_auth_iff}

abbrev auth : Auth
auth = record { user = codes "agent"; pass = codes "secret"; initialized = true }

-- "agent:secret".
abbrev header : Bytes
header = codes "Basic YWdlbnQ6c2VjcmV0"

validate_auth_iff_example : (validate_auth toy auth (some header) ≡ authorized) ↔ (
    Lacks b':' auth.user
    × ((encoded : Bytes) × (some header ≡ some (codes "Basic " ++ encoded))
        × (base64_decode encoded ≡ auth.user ++ b':' ∷ auth.pass)))
validate_auth_iff_example = validate_auth_iff toy auth (some header)
