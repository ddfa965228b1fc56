-- ===== src/Skills/Math/Fuel.antt =====
-- The fuel of the evaluator is enough: it never runs out, and each call leaves less of the text.
use signalwire_agents_cpp.Prelude.{
  ℕ, zero, suc, ◌+◌, ◌*◌, ◌<◌, ◌≤◌, not, ◌&&◌, ◌≡◌, ◌≢◌, refl, ◌∷◌, [], Bytes, codes, ◌==◌, length,
  arith, Bool-cases, Option-cases, inl, inr,
}
use signalwire_agents_cpp.Prelude.Strings.{starts_with}
use signalwire_agents_cpp.Skills.Math.{
  Doubles, Outcome, ok, throws, out_of_fuel, and_then, cons_first, scan_number, is_number_char,
  is_sign, is_factor, number_of, skip_close, sum_of, product_of, parse_expr, expr_loop, parse_term,
  term_loop, parse_power, power_rest, parse_unary, parse_atom, enough, evaluate_cleaned,
  evaluate_expression, remove_spaces, at_end,
}

-- Not out of fuel, and with less than `k` characters left.
abbrev Fits : {D : Type 0} → ℕ → Outcome D → Type 0
Fits k (ok v rest) = length rest < k
Fits k throws = Unit
Fits k out_of_fuel = ⊥

Fits-le : {D : Type 0} (j k : ℕ) (o : Outcome D) → j ≤ k → Fits j o → Fits k o
Fits-le j k (ok v rest) h f = omega (arith, h, f)
Fits-le j k throws h f = tt
Fits-le j k out_of_fuel h f = f

Fits-and_then :
    {D : Type 0} (j k : ℕ) (o : Outcome D) (f : D → Bytes → Outcome D)
    → Fits j o
    → ((v : D) (rest : Bytes) → length rest < j → Fits k (f v rest))
    → Fits k (and_then o f)
Fits-and_then j k (ok v rest) f h g = g v rest h
Fits-and_then j k throws f h g = tt
Fits-and_then j k out_of_fuel f h g = h

length-cons_first :
    (c : ℕ) (scanned : Bytes × Bytes) {k : ℕ}
    → length scanned.0 + length scanned.1 ≡ k
    → length (cons_first c scanned).0 + length (cons_first c scanned).1 ≡ suc k
length-cons_first c (number, rest) h = omega (arith, h)

length-scan_number : (s : Bytes) → length (scan_number s).0 + length (scan_number s).1 ≡ length s
length-scan_number [] = refl
length-scan_number (c ∷ s) = elim (Bool-cases (is_number_char c)) [
  | inl e ↦ rw e (length-cons_first c (scan_number s) (length-scan_number s))
  | inr e ↦ rw e (omega arith)
]

module _ {D : Type 0} (doubles : Doubles D) where
  number_of-Fits :
      (number rest : Bytes) (k : ℕ)
      → length number + length rest ≡ k
      → Fits k (number_of doubles (number, rest))
  number_of-Fits [] rest k h = tt
  number_of-Fits (c ∷ number) rest k h = elim (Option-cases (doubles.stod (c ∷ number))) [
    | inl e ↦ rw e tt
    | inr (v, e) ↦ rw (Fits, e) (omega (arith, h))
  ]

  skip_close-Fits : (v : D) (s : Bytes) → Fits (suc (length s)) (skip_close doubles v s)
  skip_close-Fits v [] = omega arith
  skip_close-Fits v (c ∷ s) = elim (Bool-cases (c == b')')) [
    | inl e ↦ rw (Fits, e) (omega arith)
    | inr e ↦ rw (Fits, e) (omega arith)
  ]

  product_of-Fits :
      (op : ℕ) (a b : D) (rest : Bytes) → Fits (suc (length rest)) (product_of doubles op a b rest)
  product_of-Fits op a b rest = elim (Bool-cases (op == b'*')) [
    | inl e ↦ rw (Fits, e) (omega arith)
    | inr e ↦ elim (Bool-cases (doubles.is_zero b)) [
      | inl f ↦ rw (Fits, e, f) tt
      | inr f ↦ elim (Bool-cases (op == b'/')) [
        | inl g ↦ rw (e, f, g) (omega arith)
        | inr g ↦ rw (e, f, g) (omega arith)
      ]
    ]
  ]

  mutual
    unfolding parse_expr

    parse_expr-Fits :
        (n : ℕ) (s : Bytes) → 8 * length s + 5 ≤ n → Fits (length s) (parse_expr doubles n s)
    parse_expr-Fits zero s h = absurd (omega (arith, h))
    parse_expr-Fits (suc n) s h =
        Fits-and_then (length s) (length s) (parse_term doubles n s) _
          (parse_term-Fits n s (omega (arith, h)))
          (λ v rest less.
            Fits-le (suc (length rest)) (length s) (expr_loop doubles n v rest)
              (omega (arith, less)) (expr_loop-Fits n v rest (omega (arith, h, less))))

    expr_loop-Fits :
        (n : ℕ) (v : D) (s : Bytes)
        → 8 * length s + 1 ≤ n
        → Fits (suc (length s)) (expr_loop doubles n v s)
    expr_loop-Fits zero v s h = absurd (omega (arith, h))
    expr_loop-Fits (suc n) v [] h = omega arith
    expr_loop-Fits (suc n) v (c ∷ s) h = elim (Bool-cases (is_sign c)) [
      | inl e ↦
          rw (Fits, e)
            (Fits-and_then (length s) (suc (suc (length s))) (parse_term doubles n s) _
              (parse_term-Fits n s (omega (arith, h)))
              (λ right rest less.
                Fits-le (suc (length rest)) (suc (suc (length s)))
                  (expr_loop doubles n (sum_of doubles c v right) rest) (omega (arith, less))
                  (expr_loop-Fits n (sum_of doubles c v right) rest (omega (arith, h, less)))))
      | inr e ↦ rw (Fits, e) (omega arith)
    ]

    parse_term-Fits :
        (n : ℕ) (s : Bytes) → 8 * length s + 4 ≤ n → Fits (length s) (parse_term doubles n s)
    parse_term-Fits zero s h = absurd (omega (arith, h))
    parse_term-Fits (suc n) s h =
        Fits-and_then (length s) (length s) (parse_power doubles n s) _
          (parse_power-Fits n s (omega (arith, h)))
          (λ v rest less.
            Fits-le (suc (length rest)) (length s) (term_loop doubles n v rest)
              (omega (arith, less)) (term_loop-Fits n v rest (omega (arith, h, less))))

    term_loop-Fits :
        (n : ℕ) (v : D) (s : Bytes)
        → 8 * length s + 1 ≤ n
        → Fits (suc (length s)) (term_loop doubles n v s)
    term_loop-Fits zero v s h = absurd (omega (arith, h))
    term_loop-Fits (suc n) v [] h = omega arith
    term_loop-Fits (suc n) v (c ∷ s) h =
        elim (Bool-cases (is_factor c && not (c == b'*' && starts_with (codes "*") s))) [
          | inl e ↦
              rw (Fits, e)
                (Fits-and_then (length s) (suc (suc (length s))) (parse_power doubles n s) _
                  (parse_power-Fits n s (omega (arith, h)))
                  (λ right rest less.
                    Fits-and_then (suc (length rest)) (suc (suc (length s)))
                      (product_of doubles c v right rest) _ (product_of-Fits c v right rest)
                      (λ p rest' less'.
                        Fits-le (suc (length rest')) (suc (suc (length s)))
                          (term_loop doubles n p rest') (omega (arith, less, less'))
                          (term_loop-Fits n p rest' (omega (arith, h, less, less'))))))
          | inr e ↦ rw (Fits, e) (omega arith)
        ]

    parse_power-Fits :
        (n : ℕ) (s : Bytes) → 8 * length s + 3 ≤ n → Fits (length s) (parse_power doubles n s)
    parse_power-Fits zero s h = absurd (omega (arith, h))
    parse_power-Fits (suc n) s h =
        Fits-and_then (length s) (length s) (parse_unary doubles n s) _
          (parse_unary-Fits n s (omega (arith, h)))
          (λ v rest less.
            Fits-le (suc (length rest)) (length s) (power_rest doubles n v rest)
              (omega (arith, less)) (power_rest-Fits n v rest (omega (arith, h, less))))

    power_rest-Fits :
        (n : ℕ) (v : D) (s : Bytes)
        → 8 * length s + 1 ≤ n
        → Fits (suc (length s)) (power_rest doubles n v s)
    power_rest-Fits zero v s h = absurd (omega (arith, h))
    power_rest-Fits (suc n) v [] h = omega arith
    power_rest-Fits (suc n) v (c ∷ []) h = omega arith
    power_rest-Fits (suc n) v (c ∷ d ∷ s) h = elim (Bool-cases (c == b'*' && d == b'*')) [
      | inl e ↦
          rw (Fits, e)
            (Fits-and_then (length s) (suc (suc (suc (length s)))) (parse_power doubles n s) _
              (parse_power-Fits n s (omega (arith, h))) (λ exponent rest less. omega (arith, less)))
      | inr e ↦ rw (Fits, e) (omega arith)
    ]

    parse_unary-Fits :
        (n : ℕ) (s : Bytes) → 8 * length s + 2 ≤ n → Fits (length s) (parse_unary doubles n s)
    parse_unary-Fits zero s h = absurd (omega (arith, h))
    parse_unary-Fits (suc n) [] h = parse_atom-Fits n [] (omega (arith, h))
    parse_unary-Fits (suc n) (c ∷ s) h = elim (Bool-cases (c == b'-')) [
      | inl e ↦
          rw (Fits, e)
            (Fits-and_then (length s) (suc (length s)) (parse_atom doubles n s) _
              (parse_atom-Fits n s (omega (arith, h))) (λ v rest less. omega (arith, less)))
      | inr e ↦ elim (Bool-cases (c == b'+')) [
        | inl f ↦
            rw (Fits, e, f)
              (Fits-le (length s) (suc (length s)) (parse_atom doubles n s) (omega arith)
                (parse_atom-Fits n s (omega (arith, h))))
        | inr f ↦ rw (Fits, e, f) (parse_atom-Fits n (c ∷ s) (omega (arith, h)))
      ]
    ]

    parse_atom-Fits :
        (n : ℕ) (s : Bytes) → 8 * length s + 1 ≤ n → Fits (length s) (parse_atom doubles n s)
    parse_atom-Fits zero s h = absurd (omega (arith, h))
    parse_atom-Fits (suc n) [] h = tt
    parse_atom-Fits (suc n) (c ∷ s) h = elim (Bool-cases (c == b'(')) [
      | inl e ↦
          rw (Fits, e)
            (Fits-and_then (length s) (suc (length s)) (parse_expr doubles n s) _
              (parse_expr-Fits n s (omega (arith, h)))
              (λ v rest less.
                Fits-le (suc (length rest)) (suc (length s)) (skip_close doubles v rest)
                  (omega (arith, less)) (skip_close-Fits v rest)))
      | inr e ↦
          rw (Fits, e)
            (number_of-Fits (scan_number (c ∷ s)).0 (scan_number (c ∷ s)).1 _
              (length-scan_number (c ∷ s)))
    ]

  ne_of_Fits : (k : ℕ) (o : Outcome D) → Fits k o → o ≢ out_of_fuel
  ne_of_Fits k (ok v rest) f = λ e. cc
  ne_of_Fits k throws f = λ e. cc
  ne_of_Fits k out_of_fuel f = absurd f

  at_end-Fits : (k : ℕ) (v : D) (rest : Bytes) → length rest < k → Fits 1 (at_end doubles v rest)
  at_end-Fits k v [] less = omega arith
  at_end-Fits k v (d ∷ rest) less = tt

  evaluate_cleaned-Fits : (s : Bytes) → Fits 1 (evaluate_cleaned doubles s)
  unfolding evaluate_cleaned
  evaluate_cleaned-Fits [] = tt
  evaluate_cleaned-Fits (c ∷ s) =
      Fits-and_then (suc (length s)) 1 (parse_expr doubles (enough doubles (c ∷ s)) (c ∷ s)) _
        (parse_expr-Fits (enough doubles (c ∷ s)) (c ∷ s) (omega arith))
        (at_end-Fits (suc (length s)))

  -- Whatever the text and the operations on numbers, the evaluator gives a value or throws: the
  -- recursion of the descent and its loops end within the fuel.
  pub evaluate_expression_ends : (expr : Bytes) → evaluate_expression doubles expr ≢ out_of_fuel
  unfolding evaluate_expression
  evaluate_expression_ends expr =
      ne_of_Fits 1 (evaluate_cleaned doubles (remove_spaces doubles expr))
        (evaluate_cleaned-Fits (remove_spaces doubles expr))
