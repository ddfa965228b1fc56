-- ===== src/Security/Webhook/Url.antt =====
-- `parse_url`, `build_url` and `candidate_urls` of src/security/webhook_validator.cpp.
use signalwire_agents_cpp.Prelude.{
  ℕ, suc, ◌+◌, ◌-◌, ◌≡◌, refl, Option, none, some, Bool, true, false, not, ◌||◌, ◌++◌, ◌∷◌, [],
  List, map, Bytes, codes, length, take, drop, substr, find, str_eq, if◌then◌else◌, min, is_empty,
  ◌==◌,
}
use signalwire_agents_cpp.Prelude.Strings.{rfind, find_text, to_lower}

pub record ParsedUrl : Type 0 where
  pub scheme : Bytes
  pub host : Bytes
  pub host_is_ipv6 : Bool
  pub port : Bytes
  pub path : Bytes
  pub query : Bytes
  pub fragment : Bytes

abbrev pub empty_url : ParsedUrl
empty_url = record {
  scheme = [];
  host = [];
  host_is_ipv6 = false;
  port = [];
  path = [];
  query = [];
  fragment = [];
}

-- A position, or the size where there is none.
abbrev pub pos_or : Option ℕ → ℕ → ℕ
pos_or none n = n
pos_or (some i) n = i

-- Whether the text begins with a character.
abbrev pub front_is : ℕ → Bytes → Bool
front_is c [] = false
front_is c (x ∷ s) = x == c

-- The authority without what stands before its last '@'.
pub skip_userinfo : Bytes → Bytes
skip_userinfo authority = elim (rfind b'@' authority) [
  | none ↦ authority
  | some at ↦ drop (suc at) authority
]

-- `host[:port]`, with a host in brackets read as IPv6.
pub parse_authority : Bytes → ParsedUrl → ParsedUrl
parse_authority authority p =
    if front_is b'[' authority
    then elim (find b']' authority) [
      | none ↦ record p { host = authority }
      | some close ↦ record p {
        host = substr authority 1 (close - 1);
        host_is_ipv6 = true;
        port =
            if front_is b':' (drop (suc close) authority)
            then drop (suc (suc close)) authority
            else p.port;
      }
    ]
    else elim (rfind b':' authority) [
      | none ↦ record p { host = authority }
      | some colon ↦ record p { host = take colon authority; port = drop (suc colon) authority }
    ]

-- The path: up to the first '?' or '#'.
pub split_path : Bytes → Bytes × Bytes
split_path remainder =
    if is_empty remainder || front_is b'?' remainder || front_is b'#' remainder
    then ([], remainder)
    else (let n = length remainder in
        let end = min (pos_or (find b'?' remainder) n) (pos_or (find b'#' remainder) n) in
        (take end remainder, drop end remainder))

-- The query: behind a '?', up to the first '#'.
pub split_query : Bytes → Bytes × Bytes
split_query remainder =
    if front_is b'?' remainder
    then (let end = pos_or (find b'#' remainder) (length remainder) in
        (substr remainder 1 (end - 1), drop end remainder))
    else ([], remainder)

-- The fragment: behind a '#'.
pub split_fragment : Bytes → Bytes
split_fragment remainder = if front_is b'#' remainder then drop 1 remainder else []

pub parse_tail : Bytes → ParsedUrl → ParsedUrl
unfolding split_path split_query split_fragment
parse_tail remainder p =
    let (path, after_path) = split_path remainder in
    let (query, after_query) = split_query after_path in
    record p { path = path; query = query; fragment = split_fragment after_query }

-- The end of the authority: the first '/', '?' or '#'.
pub authority_end : Bytes → ℕ
authority_end rest =
    let n = length rest in
    min n (
      min (pos_or (find b'/' rest) n) (min (pos_or (find b'?' rest) n) (pos_or (find b'#' rest) n)))

pub parse_url : Bytes → ParsedUrl
unfolding parse_authority parse_tail authority_end skip_userinfo
parse_url url = elim (find_text (codes "://") url) [
  | none ↦ record empty_url { path = url }
  | some scheme_end ↦
      let rest = drop (scheme_end + 3) url in
      let auth_end = authority_end rest in
      let authority = skip_userinfo (take auth_end rest) in
      parse_tail (drop auth_end rest) (
        parse_authority authority
          (record empty_url { scheme = map to_lower (take scheme_end url) }))
]

abbrev when : Bool → Bytes → Bytes
when b s = if b then s else []

pub build_url : ParsedUrl → Bytes → Bytes
build_url p port_override =
    when (not (is_empty p.scheme)) (p.scheme ++ codes "://")
    ++ (when (not (is_empty p.host))
          (if p.host_is_ipv6 then b'[' ∷ (p.host ++ b']' ∷ []) else p.host)
        ++ (when (not (is_empty port_override)) (b':' ∷ port_override)
            ++ (p.path
                ++ (when (not (is_empty p.query)) (b'?' ∷ p.query)
                    ++ when (not (is_empty p.fragment)) (b'#' ∷ p.fragment)))))

-- The default port of a scheme; empty for others.
pub standard_port : Bytes → Bytes
standard_port scheme =
    if str_eq scheme (codes "http")
    then codes "80"
    else if str_eq scheme (codes "https")
    then codes "443"
    else []

-- A variant is tried only if it differs from the URL.
pub variant_of : Bytes → Bytes → List Bytes
variant_of url other = if str_eq other url then [] else other ∷ []

pub other_candidates : Bytes → ParsedUrl → List Bytes
unfolding standard_port variant_of
other_candidates url p =
    let standard = standard_port p.scheme in
    if is_empty p.host || is_empty standard
    then []
    else if is_empty p.port
    then variant_of url (build_url p standard)
    else if str_eq p.port standard
    then variant_of url (build_url p [])
    else []

pub candidate_urls : Bytes → List Bytes
unfolding other_candidates parse_url build_url
candidate_urls url = url ∷ other_candidates url (parse_url url)

with_port :
    candidate_urls (codes "https://u@Ex.com/a?b=c#d")
    ≡ codes "https://u@Ex.com/a?b=c#d" ∷ codes "https://Ex.com:443/a?b=c#d" ∷ []
unfolding candidate_urls find_text to_lower rfind find str_eq
with_port = refl

stripped :
    candidate_urls (codes "http://[::1]:80/x")
    ≡ codes "http://[::1]:80/x" ∷ codes "http://[::1]/x" ∷ []
unfolding candidate_urls find_text to_lower rfind find str_eq
stripped = refl
