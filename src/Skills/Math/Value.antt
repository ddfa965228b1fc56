-- ===== src/Skills/Math/Value.antt =====
-- Expressions in full parentheses: their text and their value.
use signalwire_agents_cpp.Prelude.{
  ℕ, ◌+◌, Option, none, some, Bool, true, false, not, ◌&&◌, ◌≡◌, refl, sym, ap, ◌∙◌, ◌∷◌, [], ◌++◌,
  Bytes, codes, if◌then◌else◌, ◌==◌, ==_iff, arith, Bool-cases, inl, inr, ◌>>=◌,
}
use signalwire_agents_cpp.Prelude.Strings.{starts_with}
use signalwire_agents_cpp.Security.Decimal.{is_digit}
use signalwire_agents_cpp.Skills.Math.{
  Doubles, Outcome, ok, throws, scan_number, is_number_char, is_sign, is_factor,
}

pub data Operator : Type 0 where
  plus minus times over modulo power : Operator

-- A number is its text.
pub data Expr : Type 0 where
  literal : ℕ → Bytes → Expr
  negated : Expr → Expr
  binary : Operator → Expr → Expr → Expr

abbrev pub operator_text : Operator → Bytes
operator_text plus = codes "+"
operator_text minus = codes "-"
operator_text times = codes "*"
operator_text over = codes "/"
operator_text modulo = codes "%"
operator_text power = codes "**"

-- The text of an expression, before another text.
abbrev pub text : Expr → Bytes → Bytes
text (literal c s) rest = c ∷ s ++ rest
text (negated e) rest = b'(' ∷ b'-' ∷ text e (b')' ∷ rest)
text (binary op a b) rest = b'(' ∷ text a (operator_text op ++ text b (b')' ∷ rest))

-- The characters of a number.
abbrev pub all_number : Bytes → Bool
all_number [] = true
all_number (c ∷ s) = is_number_char c && all_number s

abbrev pub IsWritten : Expr → Type 0
IsWritten (literal c s) = all_number (c ∷ s) ≡ true
IsWritten (negated e) = IsWritten e
IsWritten (binary op a b) = IsWritten a × IsWritten b

-- What can stand after a number.
abbrev pub ends_number : Bytes → Bool
ends_number [] = true
ends_number (c ∷ s) = not (is_number_char c)

pub scan_number-text :
    (s rest : Bytes)
    → all_number s ≡ true
    → ends_number rest ≡ true
    → scan_number (s ++ rest) ≡ (s, rest)
scan_number-text [] [] h k = refl
scan_number-text [] (c ∷ rest) h k = ground (arith, k)
scan_number-text (c ∷ s) rest h k =
    let tail = scan_number-text s rest (ground (arith, h)) k in
    let head : is_number_char c ≡ true = ground (arith, h) in rw (head, tail) refl

true_ne_false : {x y : Bool} → true ≡ false → x ≡ y
true_ne_false h = absurd cc

pub not_number :
    (c q : ℕ) (b : Bool)
    → (is_number_char c && b) ≡ true
    → is_number_char q ≡ false
    → (c == q) ≡ false
not_number c q b h k = elim (Bool-cases (c == q)) [
  | inl e ↦
      let number : is_number_char c ≡ true = ground (arith, h) in
      true_ne_false (sym number ∙ ap is_number_char ((==_iff c q).0 e) ∙ k)
  | inr e ↦ e
]

abbrev pub fuel_of : Expr → ℕ
fuel_of (literal c s) = 1
fuel_of (negated e) = 8 + fuel_of e
fuel_of (binary op a b) = 12 + fuel_of a + fuel_of b

-- The first character of an expression is no operator but a parenthesis or of a number.
pub begins :
    (e : Expr) (rest : Bytes)
    → IsWritten e
    → (c : ℕ) × (s : Bytes) × (text e rest ≡ c ∷ s)
      × ((c == b'-') ≡ false)
      × ((c == b'+') ≡ false)
      × ((c == b'*') ≡ false)
unfolding is_digit
begins (literal c s) rest w = (
  c,
  s ++ rest,
  refl,
  not_number c b'-' (all_number s) w refl,
  not_number c b'+' (all_number s) w refl,
  not_number c b'*' (all_number s) w refl,
)
begins (negated e) rest w = (_, _, refl, refl, refl, refl)
begins (binary op a b) rest w = (_, _, refl, refl, refl, refl)

abbrev pub no_power : Bytes → Bool
no_power [] = true
no_power (c ∷ s) = not (c == b'*' && starts_with (codes "*") s)

abbrev pub no_factor : Bytes → Bool
no_factor [] = true
no_factor (c ∷ s) = not (is_factor c)

abbrev pub no_sign : Bytes → Bool
no_sign [] = true
no_sign (c ∷ s) = not (is_sign c)

pub no_star :
    (t : Bytes) (c : ℕ) (s : Bytes)
    → t ≡ c ∷ s
    → (c == b'*') ≡ false
    → starts_with (codes "*") t ≡ false
unfolding starts_with
no_star t c s e h = rw e (ground (arith, h))

module _ {D : Type 0} (doubles : Doubles D) where
  abbrev pub apply_operator : Operator → D → D → Option D
  apply_operator plus a b = some (doubles.add a b)
  apply_operator minus a b = some (doubles.sub a b)
  apply_operator times a b = some (doubles.mul a b)
  apply_operator over a b = if doubles.is_zero b then none else some (doubles.div a b)
  apply_operator modulo a b = if doubles.is_zero b then none else some (doubles.fmod a b)
  apply_operator power a b = some (doubles.pow a b)

  -- The value, `none` where an operation throws.
  abbrev pub value : Expr → Option D
  value (literal c s) = doubles.stod (c ∷ s)
  value (negated e) = value e >>= λ v. some (doubles.neg v)
  value (binary op a b) = value a >>= λ x. value b >>= λ y. apply_operator op x y

  abbrev pub outcome : Option D → Bytes → Outcome D
  outcome none rest = throws
  outcome (some v) rest = ok v rest
