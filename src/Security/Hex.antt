-- ===== src/Security/Hex.antt =====
-- `hex_encode` of src/security/session_manager.cpp, and the same loop in `hex_hmac_sha1` and
-- `sha256_hex` of src/security/webhook_validator.cpp.
use signalwire_agents_cpp.Prelude.{
  ℕ, ◌/◌, ◌%◌, ◌*◌, [], ◌∷◌, ◌≡◌, refl, Bytes, codes, get_or, length, arith,
}

-- Two digits for each byte: `setw(2)` with fill `0`.
unfoldable pub hex_digit : ℕ → ℕ
hex_digit n = get_or (codes "0123456789abcdef") n 0

pub hex_encode : Bytes → Bytes
unfolding hex_digit
hex_encode [] = []
hex_encode (b ∷ s) = hex_digit (b / 16) ∷ hex_digit (b % 16) ∷ hex_encode s

hex_of_bytes : hex_encode (0 ∷ 171 ∷ 255 ∷ []) ≡ codes "00abff"
unfolding hex_encode
hex_of_bytes = refl

-- A text of n bytes has 2 * n digits.
pub length-hex_encode : (s : Bytes) → length (hex_encode s) ≡ 2 * length s
unfolding hex_encode
length-hex_encode [] = omega arith
length-hex_encode (b ∷ s) = omega (arith, length-hex_encode s)
