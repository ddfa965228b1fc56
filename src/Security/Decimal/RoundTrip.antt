-- ===== src/Security/Decimal/RoundTrip.antt =====
-- `std::stoll` reads back what `std::to_string` writes.
use mathlib.Core.List.{concat-ne-nil}
use signalwire_agents_cpp.Prelude.{
  ℕ, zero, suc, ◌+◌, ◌-◌, ◌*◌, ◌/◌, ◌%◌, ◌<◌, some, true, false, [], ◌∷◌, ◌++◌, ◌≡◌, ◌≢◌, refl,
  Bytes, ltb, arith, All, Bool-cases, inl, inr, All-append, ◌∙◌, IsByte,
}
use signalwire_agents_cpp.Prelude.Int.{ℤ, pos, negsuc}
use signalwire_agents_cpp.Security.Decimal.{
  digits, to_string, is_digit, scan_digits, in_range, magnitude, stoll, IsInt64,
}

IsDigit : ℕ → Type 0
IsDigit c = is_digit c ≡ true

scan_digits-append :
    (s : Bytes) (n d : ℕ)
    → All IsDigit s
    → d < 10
    → scan_digits (s ++ (b'0' + d) ∷ []) n ≡ scan_digits s n * 10 + d
unfolding scan_digits is_digit IsDigit
scan_digits-append [] n d h hd = ground arith
scan_digits-append (c ∷ s) n d (hc, h) hd =
    ground (arith, scan_digits-append s (n * 10 + (c - b'0')) d h hd)

scan_digits-nil : (n : ℕ) → scan_digits [] n ≡ n
unfolding scan_digits
scan_digits-nil n = refl

digits-IsDigit : (fuel n : ℕ) → All IsDigit (digits fuel n)
unfolding digits IsDigit is_digit
digits-IsDigit zero n = tt
digits-IsDigit (suc fuel) n = ground (
  arith,
  All-append IsDigit (digits fuel (n / 10)) ((b'0' + n % 10) ∷ []) (digits-IsDigit fuel (n / 10)),
)

-- Reading the digits of a number gives the number.
scan_digits-digits : (fuel n : ℕ) → n < fuel → scan_digits (digits fuel n) 0 ≡ n
unfolding digits
scan_digits-digits zero n h = absurd (omega arith)
scan_digits-digits (suc fuel) n h = elim (Bool-cases (ltb n 10)) [
  | inl e ↦ ground (arith, scan_digits-append [] 0 (n % 10) tt, scan_digits-nil 0)
  | inr e ↦ ground (
    arith,
    scan_digits-append (digits fuel (n / 10)) 0 (n % 10) (digits-IsDigit fuel (n / 10)),
    scan_digits-digits fuel (n / 10),
  )
]

digits-ne-nil : (fuel n : ℕ) → digits (suc fuel) n ≢ []
unfolding digits
digits-ne-nil fuel n = concat-ne-nil (b'0' + n % 10) _

stoll_unsigned : (s : Bytes) → All IsDigit s → s ≢ [] → stoll s ≡ in_range false (scan_digits s 0)
unfolding stoll IsDigit magnitude is_digit
stoll_unsigned [] h ne = absurd (ne refl)
stoll_unsigned (c ∷ s) (hc, h) ne = ground arith

stoll_minus :
    (s : Bytes) → All IsDigit s → s ≢ [] → stoll (b'-' ∷ s) ≡ in_range true (scan_digits s 0)
unfolding stoll IsDigit magnitude is_digit
stoll_minus [] h ne = absurd (ne refl)
stoll_minus (c ∷ s) (hc, h) ne = ground arith

-- Every `int64_t` is read back from its decimal print.
pub stoll-to_string : (z : ℤ) → IsInt64 z → stoll (to_string z) ≡ some z
unfolding to_string in_range
stoll-to_string (pos n) h =
    stoll_unsigned (digits (suc n) n) (digits-IsDigit (suc n) n) (digits-ne-nil n n)
    ∙ ground (arith, scan_digits-digits (suc n) n)
stoll-to_string (negsuc n) h =
    stoll_minus (digits (suc (suc n)) (suc n)) (digits-IsDigit (suc (suc n)) (suc n))
      (digits-ne-nil (suc n) (suc n))
    ∙ ground (arith, scan_digits-digits (suc (suc n)) (suc n))

IsDigit-IsByte : (s : Bytes) → All IsDigit s → All IsByte s
unfolding IsDigit is_digit
IsDigit-IsByte [] h = tt
IsDigit-IsByte (c ∷ s) (hc, h) = (ground arith, IsDigit-IsByte s h)

pub to_string-IsByte : (z : ℤ) → All IsByte (to_string z)
unfolding to_string
to_string-IsByte (pos n) = IsDigit-IsByte _ (digits-IsDigit (suc n) n)
to_string-IsByte (negsuc n) = (omega arith, IsDigit-IsByte _ (digits-IsDigit (suc (suc n)) (suc n)))
