-- ===== src/Skills/Math.antt =====
-- `evaluate_expression` of src/skills/builtin/math.cpp: a recursive descent over the text without
-- its spaces, where a position is the rest of the text. Floating-point numbers are a parameter.
-- Each call takes one unit of fuel.
pub mod Fuel
pub mod Value
pub mod Operand
pub mod Binary
pub mod Correct
use signalwire_agents_cpp.Prelude.{
  ℕ, zero, suc, ◌+◌, ◌*◌, Option, none, some, Bool, true, false, not, ◌&&◌, ◌||◌, ◌∷◌, [], List,
  Bytes, codes, if◌then◌else◌, ◌==◌, length,
}
use signalwire_agents_cpp.Prelude.Strings.{starts_with}
use signalwire_agents_cpp.Security.Decimal.{is_digit, is_space}

-- The operations of `double` and of the C library; `stod` is `none` where it throws.
pub record Doubles (D : Type 0) : Type 0 where
  pub add : D → D → D
  pub sub : D → D → D
  pub mul : D → D → D
  pub div : D → D → D
  pub fmod : D → D → D
  pub pow : D → D → D
  pub neg : D → D
  pub is_zero : D → Bool
  pub stod : Bytes → Option D

-- A value with the rest of the text, or `std::runtime_error` and its like.
pub data Outcome (D : Type 0) : Type 0 where
  ok : D → Bytes → Outcome D
  throws : Outcome D
  out_of_fuel : Outcome D

abbrev pub and_then : {D : Type 0} → Outcome D → (D → Bytes → Outcome D) → Outcome D
and_then (ok v rest) f = f v rest
and_then throws f = throws
and_then out_of_fuel f = out_of_fuel

abbrev pub is_number_char : ℕ → Bool
is_number_char c = is_digit c || c == b'.'

abbrev pub cons_first : ℕ → Bytes × Bytes → Bytes × Bytes
cons_first c (number, rest) = (c ∷ number, rest)

-- The longest prefix of digits and points, and the rest.
abbrev pub scan_number : Bytes → Bytes × Bytes
scan_number [] = ([], [])
scan_number (c ∷ s) =
    let scanned = scan_number s in if is_number_char c then cons_first c scanned else ([], c ∷ s)

-- The next character of the text, if it is one of these.
abbrev pub is_sign : ℕ → Bool
is_sign c = c == b'+' || c == b'-'

abbrev pub is_factor : ℕ → Bool
is_factor c = c == b'*' || c == b'/' || c == b'%'

module _ {D : Type 0} (doubles : Doubles D) where
  abbrev pub of_stod : Option D → Bytes → Outcome D
  of_stod none rest = throws
  of_stod (some v) rest = ok v rest

  -- The end of `parse_atom`: the text is not at a parenthesis.
  abbrev pub number_of : Bytes × Bytes → Outcome D
  number_of ([], rest) = throws
  number_of (c ∷ number, rest) = of_stod (doubles.stod (c ∷ number)) rest

  abbrev pub skip_close : D → Bytes → Outcome D
  skip_close v [] = ok v []
  skip_close v (c ∷ s) = if c == b')' then ok v s else ok v (c ∷ s)

  abbrev pub sum_of : ℕ → D → D → D
  sum_of op a b = if op == b'+' then doubles.add a b else doubles.sub a b

  -- A step of `parse_term`; division and remainder by zero throw.
  abbrev pub product_of : ℕ → D → D → Bytes → Outcome D
  product_of op a b rest =
      if op == b'*'
      then ok (doubles.mul a b) rest
      else if doubles.is_zero b
      then throws
      else if op == b'/'
      then ok (doubles.div a b) rest
      else ok (doubles.fmod a b) rest

  unfoldable mutual
    pub parse_expr : ℕ → Bytes → Outcome D
    parse_expr zero s = out_of_fuel
    parse_expr (suc n) s = and_then (parse_term n s) (λ v rest. expr_loop n v rest)

    pub expr_loop : ℕ → D → Bytes → Outcome D
    expr_loop zero v s = out_of_fuel
    expr_loop (suc n) v [] = ok v []
    expr_loop (suc n) v (c ∷ s) = elim (is_sign c) [
      | true ↦ and_then (parse_term n s) (λ right rest. expr_loop n (sum_of c v right) rest)
      | false ↦ ok v (c ∷ s)
    ]

    pub parse_term : ℕ → Bytes → Outcome D
    parse_term zero s = out_of_fuel
    parse_term (suc n) s = and_then (parse_power n s) (λ v rest. term_loop n v rest)

    pub term_loop : ℕ → D → Bytes → Outcome D
    term_loop zero v s = out_of_fuel
    term_loop (suc n) v [] = ok v []
    term_loop (suc n) v (c ∷ s) =
        elim (is_factor c && not (c == b'*' && starts_with (codes "*") s)) [
          | true ↦
              and_then (parse_power n s) (λ right rest.
                and_then (product_of c v right rest) (λ p rest'. term_loop n p rest'))
          | false ↦ ok v (c ∷ s)
        ]

    pub parse_power : ℕ → Bytes → Outcome D
    parse_power zero s = out_of_fuel
    parse_power (suc n) s = and_then (parse_unary n s) (λ base rest. power_rest n base rest)

    -- The end of `parse_power`: an exponent, if there is one.
    pub power_rest : ℕ → D → Bytes → Outcome D
    power_rest zero base s = out_of_fuel
    power_rest (suc n) base [] = ok base []
    power_rest (suc n) base (c ∷ []) = ok base (c ∷ [])
    power_rest (suc n) base (c ∷ d ∷ s) = elim (c == b'*' && d == b'*') [
      | true ↦ and_then (parse_power n s) (λ exponent rest. ok (doubles.pow base exponent) rest)
      | false ↦ ok base (c ∷ d ∷ s)
    ]

    pub parse_unary : ℕ → Bytes → Outcome D
    parse_unary zero s = out_of_fuel
    parse_unary (suc n) [] = parse_atom n []
    parse_unary (suc n) (c ∷ s) = elim (c == b'-') [
      | true ↦ and_then (parse_atom n s) (λ v rest. ok (doubles.neg v) rest)
      | false ↦ elim (c == b'+') [ true ↦ parse_atom n s | false ↦ parse_atom n (c ∷ s) ]
    ]

    pub parse_atom : ℕ → Bytes → Outcome D
    parse_atom zero s = out_of_fuel
    parse_atom (suc n) [] = number_of ([], [])
    parse_atom (suc n) (c ∷ s) = elim (c == b'(') [
      | true ↦ and_then (parse_expr n s) skip_close
      | false ↦ number_of (scan_number (c ∷ s))
    ]

  abbrev pub remove_spaces : Bytes → Bytes
  remove_spaces [] = []
  remove_spaces (c ∷ s) = if is_space c then remove_spaces s else c ∷ remove_spaces s

  -- Seven calls for each character, and for the end.
  abbrev pub enough : Bytes → ℕ
  enough s = 8 * length s + 8

  -- What is left must be nothing.
  abbrev pub at_end : D → Bytes → Outcome D
  at_end v [] = ok v []
  at_end v (c ∷ s) = throws

  unfoldable pub evaluate_cleaned : Bytes → Outcome D
  unfolding parse_expr
  evaluate_cleaned [] = throws
  evaluate_cleaned (c ∷ s) = and_then (parse_expr (enough (c ∷ s)) (c ∷ s)) at_end

  unfoldable pub evaluate_expression : Bytes → Outcome D
  unfolding evaluate_cleaned
  evaluate_expression expr = evaluate_cleaned (remove_spaces expr)
