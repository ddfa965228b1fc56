-- ===== src/Security/Decimal.antt =====
-- `std::to_string` and `std::stoll` on `int64_t`, as the session tokens use them.
pub mod RoundTrip
use signalwire_agents_cpp.Prelude.{
  ℕ, zero, suc, ◌+◌, ◌-◌, ◌*◌, ◌/◌, ◌%◌, ◌^◌, ◌<◌, ◌≤◌, Option, none, some, Bool, true, false, List,
  [], ◌∷◌, ◌++◌, ◌≡◌, refl, Bytes, codes, ltb, leb, ◌==◌, ◌&&◌, ◌||◌, if◌then◌else◌, arith, All,
  Bool-cases, inl, inr, All-append,
}
use signalwire_agents_cpp.Prelude.Int.{ℤ, pos, negsuc}

-- Digits, the last one at the end; more than the value is enough fuel.
pub digits : ℕ → ℕ → Bytes
digits zero n = []
digits (suc fuel) n =
    let rest = digits fuel (n / 10) in (if ltb n 10 then [] else rest) ++ (b'0' + n % 10) ∷ []

pub to_string : ℤ → Bytes
unfolding digits
to_string (pos n) = digits (suc n) n
to_string (negsuc n) = b'-' ∷ digits (suc (suc n)) (suc n)

unfoldable pub is_digit : ℕ → Bool
is_digit c = leb b'0' c && leb c b'9'

unfoldable pub is_space : ℕ → Bool
is_space c = c == 32 || (leb 9 c && leb c 13)

-- The value of the leading digits.
pub scan_digits : Bytes → ℕ → ℕ
scan_digits [] n = n
scan_digits (c ∷ s) n = elim (is_digit c) [ true ↦ scan_digits s (n * 10 + (c - b'0')) | false ↦ n ]

abbrev negate : ℕ → ℤ
negate zero = pos 0
negate (suc n) = negsuc n

-- `std::out_of_range` is `none`.
in_range : Bool → ℕ → Option ℤ
in_range false n = if ltb n (2 ^ 63) then some (pos n) else none
in_range true n = if leb n (2 ^ 63) then some (negate n) else none

-- `std::invalid_argument`, when no digit follows, is `none`.
magnitude : Bool → Bytes → Option ℤ
unfolding scan_digits in_range
magnitude neg [] = none
magnitude neg (c ∷ s) = if is_digit c then in_range neg (scan_digits (c ∷ s) 0) else none

signed : Bytes → Option ℤ
unfolding magnitude
signed [] = none
signed (c ∷ s) =
    if c == b'-'
    then magnitude true s
    else if c == b'+'
    then magnitude false s
    else magnitude false (c ∷ s)

skip_spaces : Bytes → Bytes
skip_spaces [] = []
skip_spaces (c ∷ s) = if is_space c then skip_spaces s else c ∷ s

unfoldable pub stoll : Bytes → Option ℤ
unfolding signed skip_spaces is_digit is_space
stoll s = signed (skip_spaces s)

abbrev pub IsInt64 : ℤ → Type 0
IsInt64 (pos n) = n < 2 ^ 63
IsInt64 (negsuc n) = n < 2 ^ 63
