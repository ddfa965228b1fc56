-- ===== src/Prelude/Xor.antt =====
-- The exclusive or of two numbers: its lowest digit, and that it undoes itself.
use Prim.Native.Nat.{
  ℕ, zero, suc, ◌+◌, ◌*◌, ◌/◌, ◌%◌, ◌≤◌, ◌<◌, bit_xor, bit_xor-bitwise, digits, differ,
}
use mathlib.Core.Path.{◌≡◌, refl, ap}
use native.Mathlib.Omega.{arith}

abbrev xor_digits : ℕ → ℕ → ℕ → ℕ
xor_digits n a b = digits (λ b. b) differ n a b

-- More digits to go than the number has change nothing.
enough_digits : (n m a b : ℕ) → a ≤ n → a ≤ m → xor_digits n a b ≡ xor_digits m a b
enough_digits zero zero a b p q = refl
enough_digits zero (suc m) zero b p q = refl
enough_digits zero (suc m) (suc a) b p q = absurd (omega arith)
enough_digits (suc n) zero zero b p q = refl
enough_digits (suc n) zero (suc a) b p q = absurd (omega arith)
enough_digits (suc n) (suc m) zero b p q = refl
enough_digits (suc n) (suc m) (suc a) b p q =
    omega (arith, enough_digits n m (suc a / 2) (b / 2) (omega arith) (omega arith))

differ_bits :
    (x y : ℕ) → x < 2 → y < 2 → (differ x y < 2) × (differ (differ x y) y ≡ x) × (differ 0 y ≡ y)
differ_bits zero zero p q = (omega arith, refl, refl)
differ_bits zero (suc zero) p q = (omega arith, refl, refl)
differ_bits zero (suc (suc y)) p q = absurd (omega arith)
differ_bits (suc zero) zero p q = (omega arith, refl, refl)
differ_bits (suc zero) (suc zero) p q = (omega arith, refl, refl)
differ_bits (suc zero) (suc (suc y)) p q = absurd (omega arith)
differ_bits (suc (suc x)) y p q = absurd (omega arith)

bit_xor-step : (a b : ℕ) → bit_xor a b ≡ bit_xor (a / 2) (b / 2) * 2 + differ (a % 2) (b % 2)
bit_xor-step zero b = omega (
  arith,
  bit_xor-bitwise 0 b,
  bit_xor-bitwise 0 (b / 2),
  differ_bits 0 (b % 2) (omega arith) (omega arith),
)
bit_xor-step (suc a) b = omega (
  arith,
  bit_xor-bitwise (suc a) b,
  bit_xor-bitwise (suc a / 2) (b / 2),
  enough_digits a (suc a / 2) (suc a / 2) (b / 2) (omega arith) (omega arith),
)

undone : (n a b : ℕ) → a ≤ n → b ≤ n → bit_xor (bit_xor a b) b ≡ a
undone zero zero zero p q = refl
undone zero zero (suc b) p q = absurd (omega arith)
undone zero (suc a) b p q = absurd (omega arith)
undone (suc n) a b p q =
    let c = bit_xor a b in
    let low = differ_bits (a % 2) (b % 2) (omega arith) (omega arith) in
    let half : c / 2 ≡ bit_xor (a / 2) (b / 2) = omega (arith, bit_xor-step a b, low) in
    let bit : c % 2 ≡ differ (a % 2) (b % 2) = omega (arith, bit_xor-step a b, low) in
    omega (
      arith,
      bit_xor-step c b,
      ap (λ h. bit_xor h (b / 2)) half,
      ap (λ d. differ d (b % 2)) bit,
      low,
      undone n (a / 2) (b / 2) (omega arith) (omega arith),
    )

pub bit_xor-bit_xor : (a b : ℕ) → bit_xor (bit_xor a b) b ≡ a
bit_xor-bit_xor a b = undone (a + b) a b (omega arith) (omega arith)
