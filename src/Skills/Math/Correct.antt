-- ===== src/Skills/Math/Correct.antt =====
-- The evaluator gives the value of an expression that is written in full parentheses.
use signalwire_agents_cpp.Prelude.{
  ℕ, zero, suc, ◌+◌, ◌*◌, ◌-◌, ◌≤◌, Option, none, some, true, ◌≡◌, refl, sym, ap, subst, ◌∙◌, ◌∷◌,
  [], ◌++◌, Bytes, length, length-append, arith,
}
use signalwire_agents_cpp.Security.Decimal.{is_digit}
use signalwire_agents_cpp.Skills.Math.{
  Doubles, and_then, number_of, parse_expr, parse_atom, enough, evaluate_cleaned,
  evaluate_expression, remove_spaces, at_end,
}
use signalwire_agents_cpp.Skills.Math.Value.{
  Operator, plus, minus, times, over, modulo, power, Expr, literal, negated, binary, operator_text,
  text, all_number, IsWritten, ends_number, scan_number-text, not_number, begins, fuel_of, value,
  outcome,
}
use signalwire_agents_cpp.Skills.Math.Operand.{of_stod-outcome, expr_of, in_parens, negated_inner}
use signalwire_agents_cpp.Skills.Math.Binary.{binary_inner}

module _ {D : Type 0} (doubles : Doubles D) where
  parse_atom-text :
      (e : Expr) (n : ℕ) (rest : Bytes)
      → IsWritten e
      → fuel_of e ≤ n
      → ends_number rest ≡ true
      → parse_atom doubles n (text e rest) ≡ outcome doubles (value doubles e) rest
  unfolding parse_expr is_digit
  parse_atom-text (literal c s) zero rest w f k = absurd (omega (arith, f))
  parse_atom-text (literal c s) (suc n) rest w f k =
      let no_paren = not_number c b'(' (all_number s) w refl in
      rw (parse_atom, no_paren)
        (ap (number_of doubles) (scan_number-text (c ∷ s) rest w k)
          ∙ of_stod-outcome doubles (doubles.stod (c ∷ s)) rest)
  parse_atom-text (negated e) n rest w f k =
      let m = n - 5 in
      let shape : suc (suc (suc (suc (suc m)))) ≡ n = omega (arith, f) in
      subst
        (λ n.
          parse_atom doubles n (text (negated e) rest)
          ≡ outcome doubles (value doubles (negated e)) rest)
        shape
        (in_parens doubles (suc (suc (suc (suc m)))) (b'-' ∷ text e (b')' ∷ rest)) rest _ (
          negated_inner doubles e m rest
            (λ n' rest' le ends. parse_atom-text e n' rest' w (omega (arith, f, le)) ends)))
  parse_atom-text (binary op a b) n rest (wa, wb) f k =
      let m = n - 7 in
      let shape : suc (suc (suc (suc (suc (suc (suc m)))))) ≡ n = omega (arith, f) in
      subst
        (λ n.
          parse_atom doubles n (text (binary op a b) rest)
          ≡ outcome doubles (value doubles (binary op a b)) rest)
        shape
        (in_parens doubles (suc (suc (suc (suc (suc (suc m))))))
          (text a (operator_text op ++ text b (b')' ∷ rest))) rest _
          (binary_inner doubles a b wa wb m
            (λ n' rest' le ends. parse_atom-text a n' rest' wa (omega (arith, f, le)) ends)
            (λ n' rest' le ends. parse_atom-text b n' rest' wb (omega (arith, f, le)) ends) rest
            op))

  operator_length : (op : Operator) → 1 ≤ length (operator_text op)
  operator_length plus = omega arith
  operator_length minus = omega arith
  operator_length times = omega arith
  operator_length over = omega arith
  operator_length modulo = omega arith
  operator_length power = omega arith

  fuel_of-le : (e : Expr) (rest : Bytes) → fuel_of e + 8 * length rest ≤ 8 * length (text e rest)
  fuel_of-le (literal c s) rest = omega (arith, length-append s rest)
  fuel_of-le (negated e) rest = omega (arith, fuel_of-le e (b')' ∷ rest))
  fuel_of-le (binary op a b) rest =
      let inner = text b (b')' ∷ rest) in
      omega (
        arith,
        fuel_of-le a (operator_text op ++ inner),
        fuel_of-le b (b')' ∷ rest),
        length-append (operator_text op) inner,
        operator_length op,
      )

  at_end-outcome :
      (o : Option D) → and_then (outcome doubles o []) (at_end doubles) ≡ outcome doubles o []
  at_end-outcome none = refl
  at_end-outcome (some v) = refl

  not_empty :
      (t : Bytes) (c : ℕ) (s : Bytes)
      → t ≡ c ∷ s
      → evaluate_cleaned doubles t
        ≡ and_then (parse_expr doubles (enough doubles t) t) (at_end doubles)
  unfolding evaluate_cleaned
  not_empty t c s e = rw e refl

  evaluate_cleaned-text :
      (e : Expr)
      → IsWritten e
      → evaluate_cleaned doubles (text e []) ≡ outcome doubles (value doubles e) []
  unfolding evaluate_cleaned
  evaluate_cleaned-text e w =
      let t = text e [] in
      let n = enough doubles t - 4 in
      let bound = fuel_of-le e [] in
      let shape : suc (suc (suc (suc n))) ≡ enough doubles t = omega arith in
      let (c, s, starts, h, k, l) = begins e [] w in
      let whole : parse_expr doubles (suc (suc (suc (suc n)))) t
          ≡ outcome doubles (value doubles e) [] =
        expr_of doubles e n [] w (parse_atom-text e n [] w (omega (arith, bound)) refl) refl refl
          refl in
      not_empty t c s starts
      ∙ ap (λ o. and_then o (at_end doubles))
          (ap (λ fuel. parse_expr doubles fuel t) (sym shape) ∙ whole)
      ∙ at_end-outcome (value doubles e)

  -- A text that, without its spaces, writes an expression in full parentheses is evaluated to the value
  -- of the expression, and throws exactly when an operation of the expression has none: division and
  -- remainder by zero, and numbers that cannot be read.
  pub evaluate_expression-text :
      (e : Expr) (expr : Bytes)
      → IsWritten e
      → remove_spaces doubles expr ≡ text e []
      → evaluate_expression doubles expr ≡ outcome doubles (value doubles e) []
  unfolding evaluate_expression
  evaluate_expression-text e expr w h = rw h (evaluate_cleaned-text e w)
