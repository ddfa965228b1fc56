-- ===== src/Utils/UrlEncoding.antt =====
-- `url_encode` of include/signalwire/common.hpp.
use signalwire_agents_cpp.Prelude.{
  ℕ, ◌/◌, ◌%◌, ◌<◌, Bool, true, ◌≡◌, refl, ap, ◌∙◌, ◌++◌, ◌∷◌, [], Bytes, codes, get_or,
  if◌then◌else◌, All, arith, leb, ◌==◌, ◌&&◌, ◌||◌, IsByte, Bool-cases, inl, inr, passes_under,
  passes_under_at,
}
use signalwire_agents_cpp.Security.Webhook.Form.{is_xdigit, hex_to_int, plain, urldecode_form}
use signalwire_agents_cpp.Security.Webhook.Form.RoundTrip.{urldecode_plain}

-- `std::uppercase`.
unfoldable pub upper_digit : ℕ → ℕ
upper_digit n = get_or (codes "0123456789ABCDEF") n 0

abbrev pub is_safe : ℕ → Bool
is_safe c =
    (leb b'0' c && leb c b'9')
    || ((leb b'A' c && leb c b'Z')
        || ((leb b'a' c && leb c b'z') || (c == b'-' || (c == b'_' || (c == b'.' || c == b'~')))))

unfoldable pub encode_byte : ℕ → Bytes
unfolding upper_digit
encode_byte c =
    if is_safe c then c ∷ [] else b'%' ∷ upper_digit (c / 16) ∷ upper_digit (c % 16) ∷ []

unfoldable pub url_encode : Bytes → Bytes
unfolding encode_byte
url_encode [] = []
url_encode (c ∷ s) = encode_byte c ++ url_encode s

upper_table :
    passes_under (λ n. is_xdigit (upper_digit n) && hex_to_int (upper_digit n) == n) 16 ≡ true
unfolding passes_under is_xdigit hex_to_int upper_digit
upper_table = refl

xdigit-upper_digit :
    (n : ℕ) → n < 16 → (is_xdigit (upper_digit n) ≡ true) × (hex_to_int (upper_digit n) ≡ n)
xdigit-upper_digit n h =
    let t =
      passes_under_at (λ n. is_xdigit (upper_digit n) && hex_to_int (upper_digit n) == n) 16 n h
        upper_table in
    ground arith

urldecode_upper :
    (c : ℕ) (s : Bytes)
    → IsByte c
    → urldecode_form (b'%' ∷ upper_digit (c / 16) ∷ upper_digit (c % 16) ∷ s) ≡ c ∷ urldecode_form s
unfolding urldecode_form
urldecode_upper c s h = ground (arith, xdigit-upper_digit (c / 16), xdigit-upper_digit (c % 16))

urldecode-encode_byte :
    (c : ℕ) (s : Bytes) → IsByte c → urldecode_form (encode_byte c ++ s) ≡ c ∷ urldecode_form s
unfolding plain encode_byte
urldecode-encode_byte c s h = elim (Bool-cases (is_safe c)) [
  | inl e ↦ rw e (urldecode_plain c s (ground arith) ∙ ground arith)
  | inr e ↦ rw e (urldecode_upper c s h)
]

-- A text that the agent escapes for a URL is read back by the decoder of the webhook validator, for
-- every string of bytes.
pub urldecode_form-url_encode : (s : Bytes) → All IsByte s → urldecode_form (url_encode s) ≡ s
unfolding url_encode
urldecode_form-url_encode [] h = unfold urldecode_form in refl
urldecode_form-url_encode (c ∷ s) (hc, h) =
    urldecode-encode_byte c (url_encode s) hc ∙ ap (◌∷◌ c) (urldecode_form-url_encode s h)
