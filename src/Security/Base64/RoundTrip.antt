-- ===== src/Security/Base64/RoundTrip.antt =====
-- Decoding undoes encoding.
use signalwire_agents_cpp.Prelude.{
  leb, ap, not, ◌≢◌, Lacks, All-append, ◌∙◌, ℕ, zero, suc, ◌+◌, ◌-◌, ◌*◌, ◌/◌, ◌%◌, ◌^◌, ◌<◌,
  Option, none, some, [], ◌∷◌, ◌++◌, ◌≡◌, refl, Bytes, Bool, true, false, All, IsByte, ◌==◌,
  passes_under, passes_under_at, arith, if◌then◌else◌, get_or, replicate,
}
use signalwire_agents_cpp.Security.Base64.{
  table, sextet_char, drain, encode_loop, padding, base64_encode, sextet, decode_loop,
  base64_decode,
}

abbrev is_sextet : Option ℕ → ℕ → Bool
is_sextet none v = false
is_sextet (some w) v = w == v

sextet-table : passes_under (λ v. is_sextet (sextet (get_or table v 0)) v) 64 ≡ true
unfolding passes_under sextet
sextet-table = refl

is_sextet_sound : (o : Option ℕ) (v : ℕ) → is_sextet o v ≡ true → o ≡ some v
is_sextet_sound none v h = cc
is_sextet_sound (some w) v h = ground arith

-- The decoding table inverts the alphabet.
sextet-sextet_char : (v : ℕ) → sextet (sextet_char v) ≡ some (v % 64)
unfolding sextet_char
sextet-sextet_char v =
    is_sextet_sound _ (v % 64) (passes_under_at _ 64 (v % 64) (omega arith) sextet-table)

encode_three :
    (a b c : ℕ) (s : Bytes) (v : ℕ)
    → encode_loop (a ∷ b ∷ c ∷ s) v 0 ≡ (
        let v1 = (v * 256 + a) % 2 ^ 32 in
        let v2 = (v1 * 256 + b) % 2 ^ 32 in
        let v3 = (v2 * 256 + c) % 2 ^ 32 in
        sextet_char (v1 / 4)
        ∷ sextet_char (v2 / 16)
        ∷ sextet_char (v3 / 64)
        ∷ sextet_char (v3 / 1)
        ∷ encode_loop s v3 0)
unfolding encode_loop drain
encode_three a b c s v = refl

-- One character of the alphabet, at any count of bits.
decode_char :
    (x : ℕ) (s : Bytes) (w bits : ℕ)
    → decode_loop (sextet_char x ∷ s) w bits ≡ (
        let w' = (w * 64 + x % 64) % 2 ^ 32 in
        if leb 8 (bits + 6)
        then (w' / 2 ^ (bits + 6 - 8) % 256) ∷ decode_loop s w' (bits + 6 - 8)
        else decode_loop s w' (bits + 6))
unfolding decode_loop
decode_char x s w bits = rw (sextet-sextet_char x, decode_loop)

decode_four :
    (x1 x2 x3 x4 : ℕ) (s : Bytes) (w : ℕ)
    → decode_loop (sextet_char x1 ∷ sextet_char x2 ∷ sextet_char x3 ∷ sextet_char x4 ∷ s) w 0 ≡ (
        let w1 = (w * 64 + x1 % 64) % 2 ^ 32 in
        let w2 = (w1 * 64 + x2 % 64) % 2 ^ 32 in
        let w3 = (w2 * 64 + x3 % 64) % 2 ^ 32 in
        let w4 = (w3 * 64 + x4 % 64) % 2 ^ 32 in
        (w2 / 16 % 256) ∷ (w3 / 4 % 256) ∷ (w4 / 1 % 256) ∷ decode_loop s w4 0)
decode_four x1 x2 x3 x4 s w = simp decode_char

first_byte :
    (v w a b : ℕ)
    → a < 256
    → b < 256
    → (let v1 = (v * 256 + a) % 2 ^ 32 in
        let v2 = (v1 * 256 + b) % 2 ^ 32 in
        ((w * 64 + v1 / 4 % 64) % 2 ^ 32 * 64 + v2 / 16 % 64) % 2 ^ 32 / 16 % 256)
      ≡ a
first_byte v w a b ha hb = omega arith

second_byte :
    (v w b c : ℕ)
    → b < 256
    → c < 256
    → (let v2 = (v * 256 + b) % 2 ^ 32 in
        let v3 = (v2 * 256 + c) % 2 ^ 32 in
        ((w * 64 + v2 / 16 % 64) % 2 ^ 32 * 64 + v3 / 64 % 64) % 2 ^ 32 / 4 % 256)
      ≡ b
second_byte v w b c hb hc = omega arith

third_byte :
    (v w c : ℕ)
    → c < 256
    → (let v3 = (v * 256 + c) % 2 ^ 32 in
        ((w * 64 + v3 / 64 % 64) % 2 ^ 32 * 64 + v3 / 1 % 64) % 2 ^ 32 / 1 % 256)
      ≡ c
third_byte v w c hc = omega arith

last_of_one :
    (v w a : ℕ)
    → a < 256
    → (let v1 = (v * 256 + a) % 2 ^ 32 in
        ((w * 64 + v1 / 4 % 64) % 2 ^ 32 * 64 + v1 * 256 % 2 ^ 32 / 16 % 64) % 2 ^ 32 / 16 % 256)
      ≡ a
last_of_one v w a ha = omega arith

last_of_two :
    (v w b : ℕ)
    → b < 256
    → (let v2 = (v * 256 + b) % 2 ^ 32 in
        ((w * 64 + v2 / 16 % 64) % 2 ^ 32 * 64 + v2 * 256 % 2 ^ 32 / 64 % 64) % 2 ^ 32 / 4 % 256)
      ≡ b
last_of_two v w b hb = omega arith

-- A full group of three bytes is read back from its four characters.
round_of_three :
    (a b c : ℕ) (s r : Bytes) (v w : ℕ)
    → IsByte a
    → IsByte b
    → IsByte c
    → (v' : ℕ) × (w' : ℕ) × (decode_loop (encode_loop (a ∷ b ∷ c ∷ s) v 0 ++ r) w 0
        ≡ a ∷ b ∷ c ∷ decode_loop (encode_loop s v' 0 ++ r) w' 0)
round_of_three a b c s r v w ha hb hc =
    let v1 = (v * 256 + a) % 2 ^ 32 in
    let v2 = (v1 * 256 + b) % 2 ^ 32 in
    let v3 = (v2 * 256 + c) % 2 ^ 32 in
    let w1 = (w * 64 + v1 / 4 % 64) % 2 ^ 32 in
    let w2 = (w1 * 64 + v2 / 16 % 64) % 2 ^ 32 in
    let w3 = (w2 * 64 + v3 / 64 % 64) % 2 ^ 32 in
    let w4 = (w3 * 64 + v3 / 1 % 64) % 2 ^ 32 in
    (
      v3,
      w4,
      rw (encode_three a b c s v) (
          decode_four _ _ _ _ (encode_loop s _ 0 ++ r) w
          ∙ cc (first_byte v w a b ha hb, second_byte _ _ b c hb hc, third_byte _ _ c hc)),
    )

decode-padding : (k w bits : ℕ) → decode_loop (replicate k b'=') w bits ≡ []
unfolding decode_loop sextet
decode-padding zero w bits = refl
decode-padding (suc k) w bits = refl

-- Whatever the two accumulators hold, the decoder reads back what the encoder writes.
decode-encode_loop :
    (s : Bytes) (v w k : ℕ)
    → All IsByte s
    → decode_loop (encode_loop s v 0 ++ replicate k b'=') w 0 ≡ s
unfolding encode_loop drain
decode-encode_loop [] v w k h = decode-padding k w 0
decode-encode_loop (a ∷ []) v w k (ha, _) =
    simp (decode_char, decode-padding) (ap (λ t. t ∷ []) (last_of_one v w a ha))
decode-encode_loop (a ∷ b ∷ []) v w k (ha, (hb, _)) =
    simp (decode_char, decode-padding) (cc (first_byte v w a b ha hb, last_of_two _ _ b hb))
decode-encode_loop (a ∷ b ∷ c ∷ s) v w k (ha, (hb, (hc, hs))) =
    let (v', w', e) = round_of_three a b c s (replicate k b'=') v w ha hb hc in
    e ∙ ap (λ t. a ∷ b ∷ c ∷ t) (decode-encode_loop s v' w' k hs)

-- Decoding undoes encoding, for every string of bytes.
pub base64_decode-encode : (s : Bytes) → All IsByte s → base64_decode (base64_encode s) ≡ s
unfolding base64_decode base64_encode padding
base64_decode-encode s h = decode-encode_loop s 0 0 _ h

-- No character of the alphabet is the dot that ends a token's payload.
char_table : passes_under (λ v. not (get_or table v 0 == b'.')) 64 ≡ true
unfolding passes_under
char_table = refl

sextet_char-ne-dot : (v : ℕ) → sextet_char v ≢ b'.'
unfolding sextet_char
sextet_char-ne-dot v =
    let h =
      passes_under_at (λ x. not (get_or table x 0 == b'.')) 64 (v % 64) (omega arith) char_table in
    ground arith

drain-Lacks : (fuel v bits : ℕ) → Lacks b'.' (drain fuel v bits).0
unfolding drain
drain-Lacks zero v bits = tt
drain-Lacks (suc fuel) v bits =
    ground (arith, drain-Lacks fuel v (bits - 6), sextet_char-ne-dot (v / 2 ^ (bits - 6)))

encode_loop-Lacks : (s : Bytes) (v bits : ℕ) → Lacks b'.' (encode_loop s v bits)
unfolding encode_loop
encode_loop-Lacks [] v bits = ground (arith, sextet_char-ne-dot (v * 256 % 2 ^ 32 / 2 ^ (bits + 2)))
encode_loop-Lacks (c ∷ s) v bits =
    let v' = (v * 256 + c) % 2 ^ 32 in
    All-append _ (drain (bits + 8) v' (bits + 8)).0 _ (drain-Lacks (bits + 8) v' (bits + 8))
      (encode_loop-Lacks s v' _)

replicate-Lacks : (n : ℕ) → Lacks b'.' (replicate n b'=')
replicate-Lacks zero = tt
replicate-Lacks (suc n) = (omega arith, replicate-Lacks n)

-- Encoded text holds no dot.
pub base64_encode-Lacks : (s : Bytes) → Lacks b'.' (base64_encode s)
unfolding base64_encode padding
base64_encode-Lacks s =
    All-append _ (encode_loop s 0 0) _ (encode_loop-Lacks s 0 0) (replicate-Lacks _)
