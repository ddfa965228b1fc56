-- ===== src/Security/Base64.antt =====
-- `base64_encode` and `base64_decode` of src/security/session_manager.cpp, and the same encoder in
-- src/security/webhook_validator.cpp. The accumulator `val` is an `int`: it keeps its low 32 bits.
-- The counter `valb` runs from -6 (encoder) and -8 (decoder); `bits` is `valb + 6`, `valb + 8`.
pub mod RoundTrip
use signalwire_agents_cpp.Prelude.{
  ℕ, zero, suc, ◌+◌, ◌-◌, ◌*◌, ◌/◌, ◌%◌, ◌^◌, Option, none, some, Bool, true, false, List, [], ◌∷◌,
  ◌++◌, ◌≡◌, refl, Bytes, codes, length, get_or, replicate, ltb, leb, if◌then◌else◌,
}

abbrev pub table : Bytes
table = codes "ABCDEFGHIJKLMNOPQRSTUVWXYZabcdefghijklmnopqrstuvwxyz0123456789+/"

-- `val & (2^k - 1)` after `val >> n`.
pub sextet_char : ℕ → ℕ
sextet_char v = get_or table (v % 64) 0

-- The inner `while (valb >= 0)`: a character for each six bits at hand. The count of bits is the fuel.
pub drain : ℕ → ℕ → ℕ → Bytes × ℕ
drain zero val bits = ([], bits)
drain (suc fuel) val bits = elim (leb 6 bits) [
  | true ↦
      let (out, left) = drain fuel val (bits - 6) in
      (sextet_char (val / 2 ^ (bits - 6)) ∷ out, left)
  | false ↦ ([], bits)
]

-- The loop over the bytes, and the last, partial character.
pub encode_loop : Bytes → ℕ → ℕ → Bytes
encode_loop [] val bits =
    if ltb 0 bits then sextet_char (val * 256 % 2 ^ 32 / 2 ^ (bits + 2)) ∷ [] else []
encode_loop (c ∷ s) val bits =
    let val' = (val * 256 + c) % 2 ^ 32 in
    let (out, left) = drain (bits + 8) val' (bits + 8) in out ++ encode_loop s val' left

-- `while (out.size() % 4) out.push_back('=')`: at most three rounds.
pub padding : ℕ → Bytes
padding size = replicate ((4 - size % 4) % 4) b'='

pub base64_encode : Bytes → Bytes
unfolding drain encode_loop padding sextet_char
base64_encode s = let out = encode_loop s 0 0 in out ++ padding (length out)

abbrev run : ℕ → ℕ → List (Option ℕ)
run zero v = []
run (suc n) v = some v ∷ run n (suc v)

abbrev blank : ℕ → List (Option ℕ)
blank n = replicate n none

-- The table `T`, with `none` for -1.
pub decode_table : List (Option ℕ)
decode_table =
    blank 43
    ++ (some 62 ∷ blank 3
        ++ (some 63 ∷ run 10 52
            ++ (blank 7 ++ (run 26 0 ++ (blank 6 ++ (run 26 26 ++ blank 133))))))

pub sextet : ℕ → Option ℕ
unfolding decode_table
sextet c = get_or decode_table c none

-- The loop over the characters: it stops at the first one outside the alphabet.
pub decode_loop : Bytes → ℕ → ℕ → Bytes
decode_loop [] val bits = []
decode_loop (c ∷ s) val bits = elim (sextet c) [
  | none ↦ []
  | some v ↦
      let val' = (val * 64 + v) % 2 ^ 32 in
      if leb 8 (bits + 6)
      then (val' / 2 ^ (bits + 6 - 8) % 256) ∷ decode_loop s val' (bits + 6 - 8)
      else decode_loop s val' (bits + 6)
]

pub base64_decode : Bytes → Bytes
unfolding decode_loop sextet
base64_decode s = decode_loop s 0 0

encode_man : base64_encode (codes "Ma:n") ≡ codes "TWE6bg=="
unfolding base64_encode
encode_man = refl

-- Nothing decodes to nothing.
pub base64_decode-nil : base64_decode [] ≡ []
unfolding base64_decode
base64_decode-nil = refl

decode_man : base64_decode (codes "TWE6bg==") ≡ codes "Ma:n"
unfolding base64_decode
decode_man = refl

length_of_table : length decode_table ≡ 256
unfolding decode_table
length_of_table = refl
