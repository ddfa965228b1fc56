-- ===== src/Security/Tests.antt =====
-- The theorems of the security components at concrete inputs, with the toy digests.
use signalwire_agents_cpp.Prelude.{
  ◌≡◌, ◌≢◌, ◌↔◌, refl, ◌∙◌, some, true, not, ◌++◌, ◌∷◌, [], List, Bytes, codes, Lacks, All, IsByte,
  arith,
}
use signalwire_agents_cpp.Prelude.Int.{pos, ◌+ℤ◌, ltb_ℤ}
use signalwire_agents_cpp.Security.Crypto.{toy}
use signalwire_agents_cpp.Security.Base64.{base64_encode, base64_decode}
use signalwire_agents_cpp.Security.Base64.RoundTrip.{base64_decode-encode}
use signalwire_agents_cpp.Security.Decimal.{to_string, stoll}
use signalwire_agents_cpp.Security.Decimal.RoundTrip.{stoll-to_string}
use signalwire_agents_cpp.Security.Session.{
  SessionManager, payload_of, is_live, check_payload, signature, create_token, validate_token,
}
use signalwire_agents_cpp.Security.Session.Payload.{check_payload-payload_of}
use signalwire_agents_cpp.Security.Session.Tokens.{
  validate_token-create_token, validate_token_sound,
}
use signalwire_agents_cpp.Security.Webhook.{verdict, validate_webhook_signature}
use signalwire_agents_cpp.Security.Webhook.Verify.{IsSigned, validate_webhook_signature_iff}

abbrev manager : SessionManager
manager = record { secret = codes "0123456789abcdef" }

abbrev swaig : Bytes
swaig = codes "fn"

abbrev caller : Bytes
caller = codes "c1"

swaig-IsByte : All IsByte swaig
swaig-IsByte = ground arith

caller-IsByte : All IsByte caller
caller-IsByte = ground arith

swaig-Lacks : Lacks b':' swaig
swaig-Lacks = ground arith

caller-Lacks : Lacks b':' caller
caller-Lacks = ground arith

base64_decode-encode_example : base64_decode (base64_encode caller) ≡ caller
base64_decode-encode_example = base64_decode-encode caller caller-IsByte

stoll-to_string_example : stoll (to_string (pos 1700000000)) ≡ some (pos 1700000000)
stoll-to_string_example = stoll-to_string (pos 1700000000) (omega arith)

validate_token-create_token_example :
    validate_token toy manager
      (create_token toy manager swaig caller (pos 3600) (pos 1000))
      swaig
      caller
      (pos 2000)
    ≡ not (ltb_ℤ (pos 1000 +ℤ pos 3600) (pos 2000))
unfolding ◌+ℤ◌
validate_token-create_token_example =
    validate_token-create_token toy manager swaig caller (pos 3600) (pos 1000) (pos 2000)
      swaig-IsByte caller-IsByte swaig-Lacks caller-Lacks (omega arith)

abbrev token : Bytes
token = create_token toy manager swaig caller (pos 3600) (pos 1000)

token-IsValid : validate_token toy manager token swaig caller (pos 2000) ≡ true
unfolding ◌+ℤ◌
token-IsValid =
    validate_token-create_token toy manager swaig caller (pos 3600) (pos 1000) (pos 2000)
      swaig-IsByte caller-IsByte swaig-Lacks caller-Lacks (omega arith)

validate_token_sound_example :
    (encoded t : Bytes) × (token ≡ encoded ++ b'.' ∷ signature toy manager encoded)
    × (base64_decode encoded ≡ payload_of swaig caller t)
    × (is_live t (pos 2000) ≡ true)
    × Lacks b':' swaig
    × Lacks b':' caller
validate_token_sound_example =
    validate_token_sound toy manager token swaig caller (pos 2000) token-IsValid

abbrev payload : Bytes
payload = payload_of swaig caller (to_string (pos 4600))

payload-IsChecked : check_payload payload swaig caller (pos 2000) ≡ true
unfolding is_live
payload-IsChecked =
    check_payload-payload_of swaig caller (to_string (pos 4600)) (pos 2000) swaig-Lacks caller-Lacks
    ∙ rw (is_live, stoll-to_string (pos 4600) (omega arith)) refl

abbrev webhook : Bytes
webhook = codes "https://example.com/hook?bodySHA256=00"

abbrev params : List (Bytes × List Bytes)
params = (codes "To", codes "+1" ∷ codes "+2" ∷ []) ∷ (codes "From", codes "+3" ∷ []) ∷ []

validate_webhook_signature_iff_example :
    (validate_webhook_signature toy swaig caller webhook (codes "a=b") ≡ verdict true)
    ↔ ((swaig ≢ []) × (caller ≢ []) × IsSigned toy swaig caller webhook (codes "a=b"))
validate_webhook_signature_iff_example =
    validate_webhook_signature_iff toy swaig caller webhook (codes "a=b")
