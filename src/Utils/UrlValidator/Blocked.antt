-- ===== src/Utils/UrlValidator/Blocked.antt =====
-- Which URLs `validate_url` lets through.
use mathlib.Core.List.{cons-ne-nil}
use signalwire_agents_cpp.Prelude.{
  ℕ, ◌*◌, ◌≤◌, ◌≡◌, ◌≢◌, ◌↔◌, ◌⊎◌, refl, inl, inr, Option, none, some, Bool, true, false, not, ◌||◌,
  ◌&&◌, ◌∷◌, [], ◌++◌, List, Bytes, codes, length, take, find-append, take-append, drop-suc-append,
  Lacks, str_eq, str_eq_iff, if◌then◌else◌, is_empty, All, IsByte, arith, Option-cases,
}
use signalwire_agents_cpp.Prelude.Int.{pos}
use signalwire_agents_cpp.Utils.UrlValidator.{
  Network, blocked_networks, env_allows_private, ParsedUrl, parse_url, atoi, ip_to_bytes,
  contains_bytes, cidr_contains, resolve, in_networks, none_blocked, validate_url,
}
use signalwire_agents_cpp.Utils.UrlValidator.Bits.{bits, same_prefix_iff}

module _ (n : Network) where
  ip_to_bytes-IsByte : (ip : Bytes) → All IsByte (ip_to_bytes n ip)
  unfolding ip_to_bytes
  ip_to_bytes-IsByte ip = elim (Option-cases (n.inet_pton4 ip)) [
    | inr (a, e) ↦ rw (e, ip_to_bytes) (n.pton4_IsByte ip a e).1
    | inl e ↦ elim (Option-cases (n.inet_pton6 ip)) [
      | inr (a, f) ↦ rw (e, ip_to_bytes, f) (n.pton6_IsByte ip a f).1
      | inl f ↦ rw (e, ip_to_bytes, f) tt
    ]
  ]

  contains_bytes_iff :
      (prefix : ℕ) (a b : Bytes)
      → All IsByte a
      → All IsByte b
      → b ≢ []
      → prefix ≤ 8 * length b
      → (contains_bytes n (pos prefix) a b ≡ true)
        ↔ ((length a ≡ length b) × (take prefix (bits a) ≡ take prefix (bits b)))
  unfolding contains_bytes
  contains_bytes_iff prefix a [] ha hb ne le = absurd (ne refl)
  contains_bytes_iff prefix [] (y ∷ b) ha hb ne le = (λ h. cc, λ h. absurd (omega (arith, h.0)))
  contains_bytes_iff prefix (x ∷ a) (y ∷ b) ha hb ne le = (
    λ h.
        let same : length (x ∷ a) ≡ length (y ∷ b) = ground (arith, h) in
        (
          same,
          (same_prefix_iff prefix (x ∷ a) (y ∷ b) ha hb same (omega arith)).0 (ground (arith, h)),
        ),
    λ h.
        let t = (same_prefix_iff prefix (x ∷ a) (y ∷ b) ha hb h.0 (omega (arith, h.0))).1 h.1 in
        ground (arith, t, h.0),
  )

  -- An address is in a network, written as an address that is read, a slash and the length of the
  -- prefix, which is not above the size of the address, exactly when it is of the same family and the
  -- first bits, as many as the prefix has, are the same.
  pub cidr_contains_iff :
      (net digits ip : Bytes) (prefix : ℕ)
      → Lacks b'/' net
      → atoi digits ≡ pos prefix
      → ip_to_bytes n net ≢ []
      → prefix ≤ 8 * length (ip_to_bytes n net)
      → (cidr_contains n (net ++ b'/' ∷ digits) ip ≡ true) ↔ (
          (length (ip_to_bytes n ip) ≡ length (ip_to_bytes n net))
          × (take prefix (bits (ip_to_bytes n ip)) ≡ take prefix (bits (ip_to_bytes n net))))
  unfolding cidr_contains
  cidr_contains_iff net digits ip prefix lacks num ne le =
      rw
        (
          find-append b'/' net digits lacks,
          cidr_contains,
          take-append net (b'/' ∷ digits),
          drop-suc-append net digits b'/',
          num,
        )
        (contains_bytes_iff prefix _ _ (ip_to_bytes-IsByte ip) (ip_to_bytes-IsByte net) ne le)

  -- An address outside all the networks.
  abbrev pub IsOutside : List Bytes → Bytes → Type 0
  IsOutside cidrs ip = All (λ cidr. cidr_contains n cidr ip ≡ false) cidrs

  in_networks_iff :
      (cidrs : List Bytes) (ip : Bytes) → (in_networks n cidrs ip ≡ false) ↔ IsOutside cidrs ip
  unfolding in_networks
  in_networks_iff [] ip = (λ h. tt, λ h. refl)
  in_networks_iff (cidr ∷ cidrs) ip =
      let later = in_networks_iff cidrs ip in
      (
        λ h. (ground (arith, h), later.0 (ground (arith, h))),
        λ h. let t = later.1 h.1 in ground (arith, h.0, t),
      )

  none_blocked_iff :
      (ips : List Bytes) → (none_blocked n ips ≡ true) ↔ All (IsOutside blocked_networks) ips
  unfolding none_blocked
  none_blocked_iff [] = (λ h. tt, λ h. refl)
  none_blocked_iff (ip ∷ ips) =
      let first = in_networks_iff blocked_networks ip in
      let later = none_blocked_iff ips in
      (
        λ h. (first.0 (ground (arith, h)), later.0 (ground (arith, h))),
        λ h. let s = first.1 h.0 in let t = later.1 h.1 in ground (arith, s, t),
      )

  -- The name resolves, and to addresses outside the blocked networks only.
  abbrev pub ResolvesOutside : Option (List Bytes) → Type 0
  ResolvesOutside none = ⊥
  ResolvesOutside (some ips) = (ips ≢ []) × All (IsOutside blocked_networks) ips

  resolved_iff :
      (ips : Option (List Bytes))
      → (elim ips [
        | none ↦ false
        | some ips ↦ elim ips [ [] ↦ false | x ∷ xs ↦ none_blocked n (x ∷ xs) ]
      ]
          ≡ true)
        ↔ ResolvesOutside ips
  resolved_iff none = (λ h. cc, λ h. absurd h)
  resolved_iff (some []) = (λ h. cc, λ h. absurd (h.0 refl))
  resolved_iff (some (x ∷ xs)) = (
    λ h. (cons-ne-nil x xs, (none_blocked_iff (x ∷ xs)).0 h),
    λ h. (none_blocked_iff (x ∷ xs)).1 h.1,
  )

  -- What is asked of a parsed URL.
  pub record IsAccepted (resolver : Option (Bytes → Option (List Bytes))) (env : Option Bytes)
      (p : ParsedUrl) (allow_private : Bool) : Type 0 where
    pub parsed : p.ok ≡ true
    pub web : (p.scheme ≡ codes "http") ⊎ (p.scheme ≡ codes "https")
    pub has_host : is_empty p.host ≡ false
    pub outside :
        ((allow_private || env_allows_private env) ≡ true)
        ⊎ ResolvesOutside (resolve n resolver p.host)

  web_iff :
      (s : Bytes)
      → ((not (str_eq s (codes "http")) && not (str_eq s (codes "https"))) ≡ false)
        ↔ ((s ≡ codes "http") ⊎ (s ≡ codes "https"))
  web_iff s = ground (arith, str_eq_iff s (codes "http"), str_eq_iff s (codes "https"))

  -- The four tests in their order.
  tests_iff :
      (a b c d e : Bool)
      → ((if not a then false else if b then false else if c then false else if d then true else e)
          ≡ true)
        ↔ ((a ≡ true) × (b ≡ false) × (c ≡ false) × ((d ≡ true) ⊎ (e ≡ true)))
  tests_iff a b c d e = ground arith

  -- A URL is accepted exactly when it is read with the scheme "http" or "https" and a host, and private
  -- addresses are allowed, by the caller or the environment, or the host resolves to one address or
  -- more, none of which is in a blocked network.
  pub validate_url_iff :
      (resolver : Option (Bytes → Option (List Bytes))) (env : Option Bytes) (url : Bytes)
      (allow_private : Bool)
      → (validate_url n resolver env url allow_private ≡ true)
        ↔ IsAccepted resolver env (parse_url url) allow_private
  unfolding validate_url
  validate_url_iff resolver env url allow_private =
      let p = parse_url url in
      let t =
        tests_iff p.ok
          (not (str_eq p.scheme (codes "http")) && not (str_eq p.scheme (codes "https")))
          (is_empty p.host) (allow_private || env_allows_private env) _ in
      let w = web_iff p.scheme in
      let r = resolved_iff (resolve n resolver p.host) in
      (
        λ h. record {
          parsed = (t.0 h).0;
          web = w.0 (t.0 h).1;
          has_host = (t.0 h).2;
          outside = elim (t.0 h).3 [ inl d ↦ inl d | inr e ↦ inr (r.0 e) ];
        },
        λ v. t.1 (
          v.parsed,
          w.1 v.web,
          v.has_host,
          elim v.outside [ inl d ↦ inl d | inr e ↦ inr (r.1 e) ],
        ),
      )
