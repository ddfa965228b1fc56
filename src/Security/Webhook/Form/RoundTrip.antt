-- ===== src/Security/Webhook/Form/RoundTrip.antt =====
-- A form written by the rules of application/x-www-form-urlencoded is parsed back to its pairs.
use signalwire_agents_cpp.Prelude.{
  ℕ, zero, suc, ◌/◌, ◌%◌, ◌<◌, Bool, true, false, ◌≡◌, ◌≢◌, inl, inr, refl, ap, ◌∙◌, ◌++◌, ◌∷◌, [],
  List, Bytes, if◌then◌else◌, All, arith, Bool-cases, take-length, ap₂, leb, ◌==◌, ◌&&◌, ◌||◌,
  IsByte, Lacks, All-append, passes_under, passes_under_at, length, find-append, find-Lacks,
  take-append, drop-suc-append, length-append,
}
use signalwire_agents_cpp.Security.Hex.{hex_digit}
use signalwire_agents_cpp.Security.Webhook.Form.{
  is_xdigit, hex_to_int, plain, urldecode_form, decode_pair, parse_pairs, parse_form_body,
}

abbrev is_unreserved : ℕ → Bool
is_unreserved c =
    (leb b'0' c && leb c b'9')
    || (leb b'A' c && leb c b'Z')
    || (leb b'a' c && leb c b'z')
    || c == b'-'
    || c == b'.'
    || c == b'_'
    || c == b'*'

abbrev encode_char : ℕ → Bytes
encode_char c =
    if is_unreserved c
    then c ∷ []
    else if c == 32
    then b'+' ∷ []
    else b'%' ∷ hex_digit (c / 16) ∷ hex_digit (c % 16) ∷ []

-- Letters, digits and "-._*" stand for themselves, a space is '+', any other byte an escape.
pub form_encode : Bytes → Bytes
form_encode [] = []
form_encode (c ∷ s) = encode_char c ++ form_encode s

pub encode_pair : Bytes × Bytes → Bytes
encode_pair (k, v) = form_encode k ++ b'=' ∷ form_encode v

-- The pairs, with '&' between them.
pub encode_pairs : List (Bytes × Bytes) → Bytes
encode_pairs [] = []
encode_pairs (item ∷ []) = encode_pair item
encode_pairs (item ∷ next ∷ items) = encode_pair item ++ b'&' ∷ encode_pairs (next ∷ items)

hex_table : passes_under (λ n. is_xdigit (hex_digit n) && hex_to_int (hex_digit n) == n) 16 ≡ true
unfolding passes_under is_xdigit hex_to_int hex_digit
hex_table = refl

xdigit-hex_digit :
    (n : ℕ) → n < 16 → (is_xdigit (hex_digit n) ≡ true) × (hex_to_int (hex_digit n) ≡ n)
xdigit-hex_digit n h =
    let t =
      passes_under_at (λ n. is_xdigit (hex_digit n) && hex_to_int (hex_digit n) == n) 16 n h
        hex_table in
    ground arith

-- A character that begins no escape is decoded by itself.
pub urldecode_plain :
    (c : ℕ) (s : Bytes) → c ≢ b'%' → urldecode_form (c ∷ s) ≡ plain c ∷ urldecode_form s
unfolding urldecode_form
urldecode_plain c [] h = refl
urldecode_plain c (d ∷ []) h = refl
urldecode_plain c (d ∷ e ∷ s) h = ground arith

urldecode_escape :
    (c : ℕ) (s : Bytes)
    → IsByte c
    → urldecode_form (b'%' ∷ hex_digit (c / 16) ∷ hex_digit (c % 16) ∷ s) ≡ c ∷ urldecode_form s
unfolding urldecode_form
urldecode_escape c s h = ground (arith, xdigit-hex_digit (c / 16), xdigit-hex_digit (c % 16))

urldecode-encode_char :
    (c : ℕ) (s : Bytes) → IsByte c → urldecode_form (encode_char c ++ s) ≡ c ∷ urldecode_form s
unfolding plain
urldecode-encode_char c s h = elim (Bool-cases (is_unreserved c)) [
  | inl e ↦ rw e (urldecode_plain c s (ground arith) ∙ ground arith)
  | inr e ↦ rw e (ground (arith, urldecode_plain b'+' s (omega arith), urldecode_escape c s h))
]

-- Decoding undoes encoding, for every string of bytes.
pub urldecode_form-form_encode : (s : Bytes) → All IsByte s → urldecode_form (form_encode s) ≡ s
unfolding form_encode
urldecode_form-form_encode [] h = unfold urldecode_form in refl
urldecode_form-form_encode (c ∷ s) (hc, h) =
    urldecode-encode_char c (form_encode s) hc ∙ ap (◌∷◌ c) (urldecode_form-form_encode s h)

-- Digits hold neither of the two separators.
separator_table : passes_under (λ n. is_unreserved (hex_digit n)) 16 ≡ true
unfolding passes_under hex_digit
separator_table = refl

hex_digit-ne : (n d : ℕ) → n < 16 → is_unreserved d ≡ false → hex_digit n ≢ d
hex_digit-ne n d h hd e =
    let t = passes_under_at (λ x. is_unreserved (hex_digit x)) 16 n h separator_table in
    let u = ap is_unreserved e in cc

module _ (d : ℕ) (reserved : is_unreserved d ≡ false) (ne : d ≢ b'%') (nf : d ≢ b'+') where
  encode_char-Lacks : (c : ℕ) → IsByte c → Lacks d (encode_char c)
  encode_char-Lacks c h = elim (Bool-cases (is_unreserved c)) [
    | inl e ↦ rw e ((λ eq. cc (ap is_unreserved eq)), tt)
    | inr e ↦ rw e (ground (arith, hex_digit-ne (c / 16) d, hex_digit-ne (c % 16) d))
  ]

  form_encode-Lacks : (s : Bytes) → All IsByte s → Lacks d (form_encode s)
  unfolding form_encode
  form_encode-Lacks [] h = tt
  form_encode-Lacks (c ∷ s) (hc, h) =
      All-append _ (encode_char c) (form_encode s) (encode_char-Lacks c hc) (form_encode-Lacks s h)

abbrev pub ArePairs : List (Bytes × Bytes) → Type 0
ArePairs = All (λ item. All IsByte item.0 × All IsByte item.1)

decode-encode_pair :
    (k v : Bytes) → All IsByte k → All IsByte v → decode_pair (encode_pair (k, v)) ≡ (k, v)
unfolding decode_pair encode_pair
decode-encode_pair k v hk hv = rw (
  find-append b'=' (form_encode k) (form_encode v)
      (form_encode-Lacks b'=' refl (omega arith) (omega arith) k hk),
  decode_pair,
  take-append (form_encode k) (b'=' ∷ form_encode v),
  drop-suc-append (form_encode k) (form_encode v) b'=',
  urldecode_form-form_encode k hk,
  urldecode_form-form_encode v hv,
)

encode_pair-Lacks : (k v : Bytes) → All IsByte k → All IsByte v → Lacks b'&' (encode_pair (k, v))
unfolding encode_pair
encode_pair-Lacks k v hk hv =
    All-append _ (form_encode k) (b'=' ∷ form_encode v)
      (form_encode-Lacks b'&' refl (omega arith) (omega arith) k hk)
      (omega arith, form_encode-Lacks b'&' refl (omega arith) (omega arith) v hv)

encode_pair-ne-nil : (k v : Bytes) → encode_pair (k, v) ≢ []
unfolding encode_pair
encode_pair-ne-nil k v = append-ne-nil (form_encode k)
  where
    append-ne-nil : (t : Bytes) → t ++ b'=' ∷ form_encode v ≢ []
    append-ne-nil [] e = cc
    append-ne-nil (c ∷ t) e = cc

parse_last :
    (fuel : ℕ) (pair : Bytes)
    → pair ≢ []
    → Lacks b'&' pair
    → parse_pairs (suc fuel) pair ≡ decode_pair pair ∷ []
unfolding parse_pairs
parse_last fuel [] ne h = absurd (ne refl)
parse_last fuel (c ∷ p) ne h = rw (find-Lacks b'&' (c ∷ p) h, take-length (c ∷ p))

parse_next :
    (fuel : ℕ) (pair rest : Bytes)
    → pair ≢ []
    → Lacks b'&' pair
    → parse_pairs (suc fuel) (pair ++ b'&' ∷ rest) ≡ decode_pair pair ∷ parse_pairs fuel rest
unfolding parse_pairs
parse_next fuel [] rest ne h = absurd (ne refl)
parse_next fuel (c ∷ p) rest ne h = rw (
  find-append b'&' (c ∷ p) rest h,
  take-append (c ∷ p) (b'&' ∷ rest),
  drop-suc-append (c ∷ p) rest b'&',
)

encode_pairs_one : (item : Bytes × Bytes) → encode_pairs (item ∷ []) ≡ encode_pair item
unfolding encode_pairs
encode_pairs_one item = refl

encode_pairs_more :
    (item next : Bytes × Bytes) (items : List (Bytes × Bytes))
    → encode_pairs (item ∷ next ∷ items) ≡ encode_pair item ++ b'&' ∷ encode_pairs (next ∷ items)
unfolding encode_pairs
encode_pairs_more item next items = refl

parse_pairs-encode_pairs :
    (items : List (Bytes × Bytes)) (fuel : ℕ)
    → ArePairs items
    → length (encode_pairs items) < fuel
    → parse_pairs fuel (encode_pairs items) ≡ items
parse_pairs-encode_pairs items zero h lt = absurd (omega arith)
parse_pairs-encode_pairs [] (suc fuel) h lt = unfold parse_pairs encode_pairs in refl
parse_pairs-encode_pairs ((k, v) ∷ []) (suc fuel) ((hk, hv), _) lt =
    rw
      (
        encode_pairs_one (k, v),
        parse_last fuel _ (encode_pair-ne-nil k v) (encode_pair-Lacks k v hk hv),
      )
      (ap (λ t. t ∷ []) (decode-encode_pair k v hk hv))
parse_pairs-encode_pairs ((k, v) ∷ next ∷ items) (suc fuel) ((hk, hv), h) lt =
    let rest = encode_pairs (next ∷ items) in
    let size = length-append (encode_pair (k, v)) (b'&' ∷ rest) in
    let lt' : length rest < fuel =
      omega (arith, size, ap length (encode_pairs_more (k, v) next items)) in
    rw
      (
        encode_pairs_more (k, v) next items,
        parse_next fuel _ rest (encode_pair-ne-nil k v) (encode_pair-Lacks k v hk hv),
      )
      (ap₂ ◌∷◌ (decode-encode_pair k v hk hv) (parse_pairs-encode_pairs (next ∷ items) fuel h lt'))

-- Parsing undoes encoding, for every list of pairs of byte strings, in the order of the pairs.
pub parse_form_body-encode_pairs :
    (items : List (Bytes × Bytes)) → ArePairs items → parse_form_body (encode_pairs items) ≡ items
unfolding parse_form_body
parse_form_body-encode_pairs items h =
    parse_pairs-encode_pairs items (suc (length (encode_pairs items))) h (omega arith)
