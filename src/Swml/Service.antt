-- ===== src/Swml/Service.antt =====
-- The basic authentication of `Service` in src/swml/service.cpp.
pub mod Accepts
pub mod Tools
pub mod Order
mod Tests
use signalwire_agents_cpp.Prelude.{
  ℕ, suc, Option, none, some, Bool, true, false, not, ◌&&◌, ◌||◌, ◌∷◌, [], Bytes, codes, is_empty,
  if◌then◌else◌, ltb, length, find, substr, drop, str_eq,
}
use signalwire_agents_cpp.Security.Base64.{base64_decode}
use signalwire_agents_cpp.Security.Crypto.{Crypto, timing_safe_compare}

pub record Auth : Type 0 where
  pub user : Bytes
  pub pass : Bytes
  pub initialized : Bool

unfoldable pub set_auth : Auth → Bytes → Bytes → Auth
set_auth a username password = record { user = username; pass = password; initialized = true }

-- `init_auth`: the variables of the environment are arguments, and so is what
-- `generate_random_hex(16)` gives; `none` is `std::runtime_error`.
unfoldable pub init_auth : Auth → Bytes → Bytes → Bytes → Option Auth
init_auth a env_user env_pass random =
    let pass = if is_empty env_pass then random else env_pass in
    if a.initialized
    then some a
    else if is_empty pass
    then none
    else some (record {
      user = if is_empty env_user then codes "agent" else env_user;
      pass = pass;
      initialized = true;
    })

-- The answer to a request: 401 with one of four messages, or none.
pub data Answer : Type 0 where
  authorized unauthorized invalid_auth_scheme malformed_credentials invalid_credentials : Answer

module _ (k : Crypto) where
  unfoldable pub validate_basic_auth : Auth → Bytes → Bytes → Bool
  validate_basic_auth a username password =
      timing_safe_compare k username a.user && timing_safe_compare k password a.pass

  abbrev pub check_credentials : Auth → Bytes → Answer
  check_credentials a decoded = elim (find b':' decoded) [
    | none ↦ malformed_credentials
    | some colon ↦
        if not (timing_safe_compare k (substr decoded 0 colon) a.user)
          || not (timing_safe_compare k (drop (suc colon) decoded) a.pass)
        then invalid_credentials
        else authorized
  ]

  abbrev pub check_header : Auth → Bytes → Answer
  check_header a header =
      if ltb (length header) 7 || not (str_eq (substr header 0 6) (codes "Basic "))
      then invalid_auth_scheme
      else check_credentials a (base64_decode (drop 6 header))

  -- `validate_auth`, on the header "Authorization" of the request.
  unfoldable pub validate_auth : Auth → Option Bytes → Answer
  validate_auth a none = unauthorized
  validate_auth a (some header) = check_header a header
