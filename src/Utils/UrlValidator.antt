-- ===== src/Utils/UrlValidator.antt =====
-- src/utils/url_validator.cpp. The network functions of the system are the parameter `n`; the
-- resolver that tests may set and the environment variable are arguments.
pub mod Bits
pub mod Blocked
mod Tests
use Prim.Native.Nat.{bit_and}
use signalwire_agents_cpp.Prelude.{
  ℕ, zero, suc, ◌+◌, ◌-◌, ◌*◌, ◌/◌, ◌%◌, ◌^◌, ◌≡◌, refl, Option, none, some, Bool, true, false, not,
  ◌||◌, ◌&&◌, ◌∷◌, [], List, map, Bytes, codes, length, take, drop, substr, find, str_eq, ltb, leb,
  ◌==◌, if◌then◌else◌, is_empty, get_or, min, All, IsByte,
}
use signalwire_agents_cpp.Prelude.Int.{ℤ, pos, negsuc}
use signalwire_agents_cpp.Prelude.Strings.{rfind, to_lower}
use signalwire_agents_cpp.Security.Decimal.{stoll}

-- `inet_pton` for the two families, with the bytes of the address, and the addresses that
-- `getaddrinfo` finds, printed by `inet_ntop`; `none` on failure.
pub record Network : Type 0 where
  pub inet_pton4 : Bytes → Option Bytes
  pub inet_pton6 : Bytes → Option Bytes
  pub getaddrinfo : Bytes → Option (List Bytes)
  pub pton4_IsByte : (s a : Bytes) → inet_pton4 s ≡ some a → (length a ≡ 4) × All IsByte a
  pub pton6_IsByte : (s a : Bytes) → inet_pton6 s ≡ some a → (length a ≡ 16) × All IsByte a

abbrev pub blocked_networks : List Bytes
blocked_networks =
    codes "10.0.0.0/8"
    ∷ codes "172.16.0.0/12"
    ∷ codes "192.168.0.0/16"
    ∷ codes "127.0.0.0/8"
    ∷ codes "169.254.0.0/16"
    ∷ codes "0.0.0.0/8"
    ∷ codes "::1/128"
    ∷ codes "fc00::/7"
    ∷ codes "fe80::/10"
    ∷ []

-- The value of SWML_ALLOW_PRIVATE_URLS.
pub env_allows_private : Option Bytes → Bool
env_allows_private none = false
env_allows_private (some raw) =
    let v = map to_lower raw in
    str_eq v (codes "1") || str_eq v (codes "true") || str_eq v (codes "yes")

pub record ParsedUrl : Type 0 where
  pub scheme : Bytes
  pub host : Bytes
  pub ok : Bool

-- The text up to the first '/', '?' or '#'.
pub authority_of : Bytes → Bytes
authority_of [] = []
authority_of (c ∷ s) = if c == b'/' || c == b'?' || c == b'#' then [] else c ∷ authority_of s

pub strip_userinfo : Bytes → Bytes
strip_userinfo authority = elim (rfind b'@' authority) [
  | none ↦ authority
  | some at ↦ drop (suc at) authority
]

-- The host: between brackets, or up to the port.
pub host_of : Bytes → Bytes
host_of [] = []
host_of (c ∷ s) =
    if c == b'['
    then elim (find b']' (c ∷ s)) [ none ↦ [] | some rb ↦ substr (c ∷ s) 1 (rb - 1) ]
    else elim (find b':' (c ∷ s)) [ none ↦ c ∷ s | some colon ↦ take colon (c ∷ s) ]

-- The two slashes that begin the authority, and what follows.
pub after_slashes : Bytes → Option Bytes
after_slashes [] = none
after_slashes (a ∷ []) = none
after_slashes (a ∷ b ∷ s) = if a == b'/' && b == b'/' then some s else none

unfoldable pub parse_url : Bytes → ParsedUrl
unfolding authority_of strip_userinfo host_of after_slashes
parse_url url = elim (find b':' url) [
  | none ↦ record { scheme = []; host = []; ok = false }
  | some colon ↦
      let scheme = map to_lower (take colon url) in
      elim (after_slashes (drop (suc colon) url)) [
        | none ↦ record { scheme = scheme; host = []; ok = true }
        | some rest ↦ record {
          scheme = scheme;
          host = host_of (strip_userinfo (authority_of rest));
          ok = true;
        }
      ]
]

-- `std::atoi`, on a number that fits.
pub atoi : Bytes → ℤ
atoi s = elim (stoll s) [ none ↦ pos 0 | some z ↦ z ]

-- The first `full` bytes agree.
pub same_bytes : ℕ → Bytes → Bytes → Bool
same_bytes zero a b = true
same_bytes (suc full) (x ∷ a) (y ∷ b) =
    let rest = same_bytes full a b in if not (x == y) then false else rest
same_bytes (suc full) a b = false

-- The bytes where a network ends, under the mask of its last bits.
abbrev pub mask_of : ℕ → ℕ
mask_of rem = 255 * 2 ^ (8 - rem) % 256

pub same_rem : ℕ → ℕ → Bytes → Bytes → Bool
same_rem full rem a b =
    if ltb 0 rem
    then bit_and (get_or a full 0) (mask_of rem) == bit_and (get_or b full 0) (mask_of rem)
    else true

pub same_prefix : ℕ → Bytes → Bytes → Bool
unfolding same_bytes same_rem
same_prefix prefix a b =
    if not (same_bytes (prefix / 8) a b) then false else same_rem (prefix / 8) (prefix % 8) a b

module _ (n : Network) where
  -- Empty on failure.
  pub ip_to_bytes : Bytes → Bytes
  ip_to_bytes ip = elim (n.inet_pton4 ip) [
    | some a4 ↦ a4
    | none ↦ elim (n.inet_pton6 ip) [ some a6 ↦ a6 | none ↦ [] ]
  ]

  -- The comparison of two addresses under a prefix that must be in range.
  pub contains_bytes : ℤ → Bytes → Bytes → Bool
  unfolding same_prefix
  contains_bytes (negsuc prefix) ip_bytes net_bytes = false
  contains_bytes (pos prefix) ip_bytes net_bytes =
      if is_empty ip_bytes || is_empty net_bytes
      then false
      else if not (length ip_bytes == length net_bytes)
      then false
      else if ltb (length ip_bytes * 8) prefix
      then false
      else same_prefix prefix ip_bytes net_bytes

  pub cidr_contains : Bytes → Bytes → Bool
  unfolding contains_bytes ip_to_bytes
  cidr_contains cidr ip = elim (find b'/' cidr) [
    | none ↦ false
    | some slash ↦
        contains_bytes (atoi (drop (suc slash) cidr)) (ip_to_bytes ip)
          (ip_to_bytes (take slash cidr))
  ]

  -- A literal address stands for itself; an empty answer counts as a failure.
  pub resolve : Option (Bytes → Option (List Bytes)) → Bytes → Option (List Bytes)
  unfolding ip_to_bytes
  resolve (some resolver) hostname = resolver hostname
  resolve none hostname =
      if not (is_empty (ip_to_bytes hostname))
      then some (hostname ∷ [])
      else elim (n.getaddrinfo hostname) [
        | none ↦ none
        | some ips ↦ elim ips [ [] ↦ none | x ∷ xs ↦ some (x ∷ xs) ]
      ]

  pub in_networks : List Bytes → Bytes → Bool
  in_networks [] ip = false
  in_networks (cidr ∷ cidrs) ip = cidr_contains cidr ip || in_networks cidrs ip

  -- The loops over the addresses and the networks.
  pub none_blocked : List Bytes → Bool
  unfolding in_networks
  none_blocked [] = true
  none_blocked (ip ∷ ips) =
      let rest = none_blocked ips in if in_networks blocked_networks ip then false else rest

  pub validate_url : Option (Bytes → Option (List Bytes)) → Option Bytes → Bytes → Bool → Bool
  unfolding none_blocked resolve parse_url env_allows_private
  validate_url resolver env url allow_private =
      let p = parse_url url in
      if not p.ok
      then false
      else if not (str_eq p.scheme (codes "http")) && not (str_eq p.scheme (codes "https"))
      then false
      else if is_empty p.host
      then false
      else if allow_private || env_allows_private env
      then true
      else elim (resolve resolver p.host) [
        | none ↦ false
        | some ips ↦ elim ips [ [] ↦ false | x ∷ xs ↦ none_blocked (x ∷ xs) ]
      ]
