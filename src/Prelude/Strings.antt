-- ===== src/Prelude/Strings.antt =====
-- More of `std::string`: searches from the end and for a text, lower case, and the order by bytes.
use signalwire_agents_cpp.Prelude.Text.{Bytes}
use signalwire_agents_cpp.Prelude.Tests.{ltb, leb, ◌==◌, if◌then◌else◌}
use Prim.Native.Nat.{ℕ, suc, ◌+◌}
use mathlib.Core.Bool.{Bool, true, false, ◌&&◌}
use mathlib.Core.List.{[], ◌∷◌}
use mathlib.Core.Option
use mathlib.Core.Option.{Option, none, some}
use mathlib.Core.Path.{◌≡◌, refl}
use native.Mathlib.Omega.{arith}

-- `s.rfind(c)`.
unfoldable pub rfind : ℕ → Bytes → Option ℕ
rfind c [] = none
rfind c (x ∷ s) = elim (rfind c s) [
  | some i ↦ some (suc i)
  | none ↦ if x == c then some 0 else none
]

unfoldable pub starts_with : Bytes → Bytes → Bool
starts_with [] s = true
starts_with (x ∷ p) [] = false
starts_with (x ∷ p) (y ∷ s) = x == y && starts_with p s

-- `s.find(p)`: the first position of a text.
unfoldable pub find_text : Bytes → Bytes → Option ℕ
unfolding starts_with
find_text p [] = if starts_with p [] then some 0 else none
find_text p (x ∷ s) = if starts_with p (x ∷ s) then some 0 else Option.map suc (find_text p s)

-- `std::tolower` in the C locale.
unfoldable pub to_lower : ℕ → ℕ
to_lower c = if leb b'A' c && leb c b'Z' then c + 32 else c

-- `a < b` on strings: bytes compared as unsigned numbers.
unfoldable pub str_ltb : Bytes → Bytes → Bool
str_ltb s [] = false
str_ltb [] (y ∷ t) = true
str_ltb (x ∷ s) (y ∷ t) = if ltb x y then true else if x == y then str_ltb s t else false

pub str_ltb_irrefl : (s : Bytes) → str_ltb s s ≡ false
unfolding str_ltb
str_ltb_irrefl [] = refl
str_ltb_irrefl (x ∷ s) = ground (arith, str_ltb_irrefl s)

-- The order is asymmetric and transitive in the form that sorting needs: `≤` is its complement.
pub str_ltb_asymm : (s t : Bytes) → str_ltb s t ≡ true → str_ltb t s ≡ false
unfolding str_ltb
str_ltb_asymm s [] h = ground arith
str_ltb_asymm [] (y ∷ t) h = refl
str_ltb_asymm (x ∷ s) (y ∷ t) h = ground (arith, str_ltb_asymm s t)

pub str_le_trans : (s t u : Bytes) → str_ltb t s ≡ false → str_ltb u t ≡ false → str_ltb u s ≡ false
unfolding str_ltb
str_le_trans [] t u h k = refl
str_le_trans (x ∷ s) [] u h k = cc
str_le_trans (x ∷ s) (y ∷ t) [] h k = cc
str_le_trans (x ∷ s) (y ∷ t) (z ∷ u) h k = ground (arith, str_le_trans s t u)
