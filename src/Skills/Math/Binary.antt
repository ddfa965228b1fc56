-- ===== src/Skills/Math/Binary.antt =====
-- Two operands and an operator between parentheses.
use signalwire_agents_cpp.Prelude.{
  ℕ, suc, Option, some, true, false, not, ◌&&◌, ◌≡◌, refl, ap, ◌∙◌, ◌∷◌, ◌++◌, Bytes, codes, ◌==◌,
  arith, ◌>>=◌,
}
use signalwire_agents_cpp.Prelude.Strings.{starts_with}
use signalwire_agents_cpp.Security.Decimal.{is_digit}
use signalwire_agents_cpp.Skills.Math.{
  Doubles, ok, and_then, is_number_char, is_sign, is_factor, sum_of, product_of, parse_expr,
  expr_loop, term_loop, power_rest,
}
use signalwire_agents_cpp.Skills.Math.Value.{
  Operator, plus, minus, times, over, modulo, power, Expr, binary, operator_text, text, IsWritten,
  begins, no_star, value, outcome, apply_operator,
}
use signalwire_agents_cpp.Skills.Math.Operand.{
  outcome_unless, and_then-outcome, term_loop-stops, expr_loop-stops, unary_of, power_of, term_of,
  and_then-bind, term_to_expr, power_to_expr, Reads,
}

module _ {D : Type 0} (doubles : Doubles D) where
  module _ (a b : Expr) (wa : IsWritten a) (wb : IsWritten b) (m : ℕ) (ra : Reads doubles a m)
      (rb : Reads doubles b m) (rest : Bytes) where
    sum_inner :
        (c : ℕ)
        → is_sign c ≡ true
        → is_factor c ≡ false
        → is_number_char c ≡ false
        → parse_expr doubles
            (suc (suc (suc (suc (suc (suc m))))))
            (text a (c ∷ text b (b')' ∷ rest)))
          ≡ outcome doubles
              (value doubles a >>= λ x. value doubles b >>= λ y. some (sum_of doubles c x y))
              (b')' ∷ rest)
    unfolding parse_expr is_digit
    sum_inner c sign factor number =
        ap (λ o. and_then o (λ v s. expr_loop doubles (suc (suc (suc (suc (suc m))))) v s))
          (term_of doubles a (suc (suc m)) (c ∷ text b (b')' ∷ rest)) wa
            (ra (suc (suc m)) (c ∷ text b (b')' ∷ rest)) (omega arith) (rw number refl))
            (ground (arith, factor)) (rw factor refl))
        ∙ and_then-bind doubles (value doubles a) (c ∷ text b (b')' ∷ rest)) (b')' ∷ rest) _
            (λ x. value doubles b >>= λ y. some (sum_of doubles c x y))
            (λ x.
              rw (expr_loop, sign)
                (ap
                    (λ o.
                      and_then o (λ v s.
                        expr_loop doubles (suc (suc (suc (suc m)))) (sum_of doubles c x v) s))
                    (term_of doubles b (suc m) (b')' ∷ rest) wb
                      (rb (suc m) (b')' ∷ rest) (omega arith) refl) refl refl)
                  ∙ and_then-bind doubles (value doubles b) (b')' ∷ rest) (b')' ∷ rest) _
                      (λ y. some (sum_of doubles c x y))
                      (λ y.
                        expr_loop-stops doubles (suc (suc (suc m))) (sum_of doubles c x y)
                          (b')' ∷ rest) refl)))

    factor_inner :
        (c : ℕ) (f : D → D → Option D)
        → is_factor c ≡ true
        → (c == b'*' && starts_with (codes "*") (text b (b')' ∷ rest))) ≡ false
        → is_number_char c ≡ false
        → ((x y : D)
            → product_of doubles c x y (b')' ∷ rest) ≡ outcome doubles (f x y) (b')' ∷ rest))
        → parse_expr doubles
            (suc (suc (suc (suc (suc (suc m))))))
            (text a (c ∷ text b (b')' ∷ rest)))
          ≡ outcome doubles (value doubles a >>= λ x. value doubles b >>= λ y. f x y) (b')' ∷ rest)
    unfolding parse_expr is_digit
    factor_inner c f factor single number product =
        term_to_expr doubles (suc (suc (suc (suc m)))) (text a (c ∷ text b (b')' ∷ rest))) rest _ (
          ap (λ o. and_then o (λ v s. term_loop doubles (suc (suc (suc (suc m)))) v s))
            (power_of doubles a (suc (suc m)) (c ∷ text b (b')' ∷ rest)) wa
              (ra (suc (suc m)) (c ∷ text b (b')' ∷ rest)) (omega arith) (rw number refl))
              (rw single refl))
          ∙ and_then-bind doubles (value doubles a) (c ∷ text b (b')' ∷ rest)) (b')' ∷ rest) _
              (λ x. value doubles b >>= λ y. f x y)
              (λ x.
                let here : (is_factor c
                      && not (c == b'*' && starts_with (codes "*") (text b (b')' ∷ rest))))
                    ≡ true =
                  rw (factor, single) refl in
                rw (term_loop, here)
                  (ap
                      (λ o. and_then o (λ v s.
                        and_then (product_of doubles c x v s)
                          (λ p s'. term_loop doubles (suc (suc (suc m))) p s')))
                      (power_of doubles b (suc m) (b')' ∷ rest) wb
                        (rb (suc m) (b')' ∷ rest) (omega arith) refl) refl)
                    ∙ and_then-bind doubles (value doubles b) (b')' ∷ rest) (b')' ∷ rest) _
                        (λ y. f x y)
                        (λ y.
                          ap (λ o. and_then o (λ p s'. term_loop doubles (suc (suc (suc m))) p s'))
                            (product x y)
                          ∙ and_then-outcome doubles (f x y) (b')' ∷ rest) _
                              (λ p. term_loop-stops doubles (suc (suc m)) p (b')' ∷ rest) refl)))))

    power_inner :
        parse_expr doubles
          (suc (suc (suc (suc (suc (suc m))))))
          (text a (b'*' ∷ b'*' ∷ text b (b')' ∷ rest)))
        ≡ outcome doubles
            (value doubles a >>= λ x. value doubles b >>= λ y. some (doubles.pow x y))
            (b')' ∷ rest)
    unfolding parse_expr is_digit
    power_inner =
        power_to_expr doubles (suc (suc (suc m))) (text a (b'*' ∷ b'*' ∷ text b (b')' ∷ rest))) rest
          _
          (ap (λ o. and_then o (λ v s. power_rest doubles (suc (suc (suc m))) v s))
              (unary_of doubles a (suc (suc m)) (b'*' ∷ b'*' ∷ text b (b')' ∷ rest)) wa
                (ra (suc (suc m)) (b'*' ∷ b'*' ∷ text b (b')' ∷ rest)) (omega arith) refl))
            ∙ and_then-bind doubles (value doubles a) (b'*' ∷ b'*' ∷ text b (b')' ∷ rest))
                (b')' ∷ rest) _ (λ x. value doubles b >>= λ y. some (doubles.pow x y))
                (λ x.
                  ap (λ o. and_then o (λ v s. ok (doubles.pow x v) s))
                    (power_of doubles b m (b')' ∷ rest) wb (rb m (b')' ∷ rest) (omega arith) refl)
                      refl)
                  ∙ and_then-bind doubles (value doubles b) (b')' ∷ rest) (b')' ∷ rest) _
                      (λ y. some (doubles.pow x y)) (λ y. refl)))

    pub binary_inner :
        (op : Operator)
        → parse_expr doubles
            (suc (suc (suc (suc (suc (suc m))))))
            (text a (operator_text op ++ text b (b')' ∷ rest)))
          ≡ outcome doubles (value doubles (binary op a b)) (b')' ∷ rest)
    unfolding is_digit
    binary_inner plus = sum_inner b'+' refl refl refl
    binary_inner minus = sum_inner b'-' refl refl refl
    binary_inner times =
        let (c, s, shape, h, k, l) = begins b (b')' ∷ rest) wb in
        factor_inner b'*' (λ x y. some (doubles.mul x y)) refl (no_star _ c s shape l) refl
          (λ x y. refl)
    binary_inner over =
        factor_inner b'/' (λ x y. apply_operator doubles over x y) refl refl refl
          (λ x y. outcome_unless doubles (doubles.is_zero y) (doubles.div x y) (b')' ∷ rest))
    binary_inner modulo =
        factor_inner b'%' (λ x y. apply_operator doubles modulo x y) refl refl refl
          (λ x y. outcome_unless doubles (doubles.is_zero y) (doubles.fmod x y) (b')' ∷ rest))
    binary_inner power = power_inner
