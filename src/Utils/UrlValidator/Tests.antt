-- ===== src/Utils/UrlValidator/Tests.antt =====
-- The theorems of the URL check on a network that knows one address.
use signalwire_agents_cpp.Prelude.{
  ◌≡◌, ◌↔◌, refl, subst, Option, none, some, true, false, ◌∷◌, [], ◌++◌, Bytes, codes, length, take,
  str_eq, if◌then◌else◌, All, IsByte, Lacks, arith,
}
use signalwire_agents_cpp.Prelude.Int.{pos}
use signalwire_agents_cpp.Security.Decimal.{stoll}
use signalwire_agents_cpp.Utils.UrlValidator.{
  Network, parse_url, ip_to_bytes, cidr_contains, validate_url, atoi,
}
use signalwire_agents_cpp.Utils.UrlValidator.Bits.{bits}
use signalwire_agents_cpp.Utils.UrlValidator.Blocked.{
  IsAccepted, cidr_contains_iff, validate_url_iff,
}

abbrev loopback : Bytes
loopback = 127 ∷ 0 ∷ 0 ∷ 1 ∷ []

abbrev pton4 : Bytes → Option Bytes
pton4 s = if str_eq s (codes "127.0.0.1") then some loopback else none

only_loopback : (s a : Bytes) → pton4 s ≡ some a → loopback ≡ a
only_loopback s a e = ground arith

loopback-IsByte : (length loopback ≡ 4) × All IsByte loopback
loopback-IsByte = ground arith

abbrev network : Network
network = record {
  inet_pton4 = pton4;
  inet_pton6 = λ s. none;
  getaddrinfo = λ s. none;
  pton4_IsByte =
      λ s a e. subst (λ x. (length x ≡ 4) × All IsByte x) (only_loopback s a e) loopback-IsByte;
  pton6_IsByte = λ s a e. absurd (cc e);
}

eight_is_read : atoi (codes "8") ≡ pos 8
unfolding atoi stoll
eight_is_read = refl

loopback_is_read : ip_to_bytes network (codes "127.0.0.1") ≡ loopback
unfolding ip_to_bytes str_eq
loopback_is_read = refl

no_slash : Lacks b'/' (codes "127.0.0.1")
no_slash = ground arith

cidr_contains_iff_example :
    (cidr_contains network (codes "127.0.0.1" ++ b'/' ∷ codes "8") (codes "127.0.0.1") ≡ true) ↔ (
      (length (ip_to_bytes network (codes "127.0.0.1"))
        ≡ length (ip_to_bytes network (codes "127.0.0.1")))
      × (take 8 (bits (ip_to_bytes network (codes "127.0.0.1")))
          ≡ take 8 (bits (ip_to_bytes network (codes "127.0.0.1")))))
cidr_contains_iff_example =
    cidr_contains_iff network (codes "127.0.0.1") (codes "8") (codes "127.0.0.1") 8 no_slash
      eight_is_read (rw loopback_is_read (λ e. cc e)) (rw loopback_is_read (omega arith))

validate_url_iff_example :
    (validate_url network none none (codes "http://127.0.0.1:80/x") false ≡ true)
    ↔ IsAccepted network none none (parse_url (codes "http://127.0.0.1:80/x")) false
validate_url_iff_example = validate_url_iff network none none (codes "http://127.0.0.1:80/x") false
