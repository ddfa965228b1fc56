-- ===== src/Security/Session.antt =====
-- `SessionManager` of src/security/session_manager.cpp. The clock is an argument of each call, and
-- OpenSSL is the parameter `k`. The sum of the clock and the lifetime is that of integers.
pub mod Payload
pub mod Tokens
use signalwire_agents_cpp.Prelude.{
  ℕ, suc, ◌+◌, ◌-◌, ◌≡◌, Option, none, some, Bool, true, false, not, ◌++◌, ◌∷◌, [], Bytes, length,
  drop, substr, find, find_from, str_eq, ltb, if◌then◌else◌,
}
use signalwire_agents_cpp.Prelude.Int.{ℤ, ◌+ℤ◌, ltb_ℤ}
use signalwire_agents_cpp.Security.Crypto.{Crypto, timing_safe_compare}
use signalwire_agents_cpp.Security.Base64.{base64_encode, base64_decode}
use signalwire_agents_cpp.Security.Hex.{hex_encode}
use signalwire_agents_cpp.Security.Decimal.{to_string, stoll}

pub record SessionManager : Type 0 where
  pub secret : Bytes

pub data SessionError : Type 0 where
  random_failed secret_too_short : SessionError

pub data Result (A : Type 0) : Type 0 where
  ok : A → Result A
  err : SessionError → Result A

-- The default constructor; the argument is what `RAND_bytes` delivers, `none` when it fails.
pub session_manager_random : Option Bytes → Result SessionManager
session_manager_random none = err random_failed
session_manager_random (some bytes) = ok (record { secret = bytes })

pub session_manager : Bytes → Result SessionManager
session_manager secret =
    if ltb (length secret) 16 then err secret_too_short else ok (record { secret = secret })

-- `function_name + ":" + call_id + ":" + expiry`.
pub payload_of : Bytes → Bytes → Bytes → Bytes
payload_of function_name call_id expiry = function_name ++ b':' ∷ (call_id ++ b':' ∷ expiry)

-- The expiry must be a number, and not in the past.
unfoldable pub is_live : Bytes → ℤ → Bool
is_live token_expiry_str now = elim (stoll token_expiry_str) [
  | none ↦ false
  | some expiry ↦ not (ltb_ℤ expiry now)
]

-- The checks on the decoded payload.
pub check_payload : Bytes → Bytes → Bytes → ℤ → Bool
check_payload payload function_name call_id now = elim (find b':' payload) [
  | none ↦ false
  | some first_colon ↦ elim (find_from b':' (suc first_colon) payload) [
    | none ↦ false
    | some second_colon ↦
        let token_func = substr payload 0 first_colon in
        let token_call_id = substr payload (suc first_colon) (second_colon - first_colon - 1) in
        let token_expiry_str = drop (suc second_colon) payload in
        if not (str_eq token_func function_name)
        then false
        else if not (str_eq token_call_id call_id)
        then false
        else is_live token_expiry_str now
  ]
]

module _ (k : Crypto) where
  -- The lower-case hexadecimal HMAC of the encoded payload.
  pub signature : SessionManager → Bytes → Bytes
  signature m encoded = hex_encode (k.hmac_sha256 m.secret encoded)

  pub create_token : SessionManager → Bytes → Bytes → ℤ → ℤ → Bytes
  create_token m function_name call_id expiry_seconds now =
      let encoded =
        base64_encode (payload_of function_name call_id (to_string (now +ℤ expiry_seconds))) in
      encoded ++ b'.' ∷ signature m encoded

  pub validate_token : SessionManager → Bytes → Bytes → Bytes → ℤ → Bool
  validate_token m token function_name call_id now = elim (find b'.' token) [
    | none ↦ false
    | some dot_pos ↦
        let encoded = substr token 0 dot_pos in
        let provided_sig = drop (suc dot_pos) token in
        if not (timing_safe_compare k provided_sig (signature m encoded))
        then false
        else check_payload (base64_decode encoded) function_name call_id now
  ]
