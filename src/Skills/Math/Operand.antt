-- ===== src/Skills/Math/Operand.antt =====
-- The calls of the descent around one operand.
use signalwire_agents_cpp.Prelude.{
  ℕ, suc, ◌≤◌, Option, none, some, Bool, true, false, not, ◌&&◌, ◌≡◌, refl, ap, ◌∙◌, ◌∷◌, [], Bytes,
  codes, if◌then◌else◌, ◌==◌, arith, ◌>>=◌,
}
use signalwire_agents_cpp.Prelude.Strings.{starts_with}
use signalwire_agents_cpp.Security.Decimal.{is_digit}
use signalwire_agents_cpp.Skills.Math.{
  Doubles, Outcome, ok, throws, and_then, is_sign, is_factor, of_stod, skip_close, parse_expr,
  expr_loop, parse_term, term_loop, parse_power, power_rest, parse_unary, parse_atom,
}
use signalwire_agents_cpp.Skills.Math.Value.{
  Expr, negated, text, IsWritten, ends_number, begins, no_power, no_factor, no_sign, value, outcome,
}

module _ {D : Type 0} (doubles : Doubles D) where
  pub outcome_unless :
      (b : Bool) (v : D) (rest : Bytes)
      → (if b then throws else ok v rest) ≡ outcome doubles (if b then none else some v) rest
  outcome_unless true v rest = refl
  outcome_unless false v rest = refl

  pub of_stod-outcome :
      (o : Option D) (rest : Bytes) → of_stod doubles o rest ≡ outcome doubles o rest
  of_stod-outcome none rest = refl
  of_stod-outcome (some v) rest = refl

  pub and_then-outcome :
      (o : Option D) (rest : Bytes) (f : D → Bytes → Outcome D)
      → ((v : D) → f v rest ≡ ok v rest)
      → and_then (outcome doubles o rest) f ≡ outcome doubles o rest
  and_then-outcome none rest f h = refl
  and_then-outcome (some v) rest f h = h v

  pub power_rest-stops :
      (n : ℕ) (v : D) (s : Bytes) → no_power s ≡ true → power_rest doubles (suc n) v s ≡ ok v s
  unfolding parse_expr starts_with
  power_rest-stops n v [] h = refl
  power_rest-stops n v (c ∷ []) h = refl
  power_rest-stops n v (c ∷ d ∷ s) h =
      let no_stars : (c == b'*' && d == b'*') ≡ false = ground (arith, h) in
      rw (power_rest, no_stars) refl

  pub term_loop-stops :
      (n : ℕ) (v : D) (s : Bytes) → no_factor s ≡ true → term_loop doubles (suc n) v s ≡ ok v s
  unfolding parse_expr
  term_loop-stops n v [] h = refl
  term_loop-stops n v (c ∷ s) h =
      let none_here : (is_factor c && not (c == b'*' && starts_with (codes "*") s)) ≡ false =
        ground (arith, h) in
      rw (term_loop, none_here) refl

  pub expr_loop-stops :
      (n : ℕ) (v : D) (s : Bytes) → no_sign s ≡ true → expr_loop doubles (suc n) v s ≡ ok v s
  unfolding parse_expr
  expr_loop-stops n v [] h = refl
  expr_loop-stops n v (c ∷ s) h =
      let none_here : is_sign c ≡ false = ground (arith, h) in rw (expr_loop, none_here) refl

  pub parse_unary-plain :
      (n : ℕ) (t : Bytes) (c : ℕ) (s : Bytes)
      → t ≡ c ∷ s
      → (c == b'-') ≡ false
      → (c == b'+') ≡ false
      → parse_unary doubles (suc n) t ≡ parse_atom doubles n t
  unfolding parse_expr
  parse_unary-plain n t c s e h k = rw e (rw (h, k) refl)

  -- The calls around an operand that is read as it should be.
  module _ (e : Expr) (n : ℕ) (rest : Bytes) (w : IsWritten e)
      (atom : parse_atom doubles n (text e rest) ≡ outcome doubles (value doubles e) rest) where
    pub unary_of :
        parse_unary doubles (suc n) (text e rest) ≡ outcome doubles (value doubles e) rest
    unary_of =
        let (c, s, shape, h, k, l) = begins e rest w in
        parse_unary-plain n (text e rest) c s shape h k ∙ atom

    pub power_of :
        no_power rest ≡ true
        → parse_power doubles (suc (suc n)) (text e rest) ≡ outcome doubles (value doubles e) rest
    unfolding parse_expr
    power_of h =
        ap (λ o. and_then o (λ v r. power_rest doubles (suc n) v r)) unary_of
        ∙ and_then-outcome (value doubles e) rest _ (λ v. power_rest-stops n v rest h)

    pub term_of :
        no_power rest ≡ true
        → no_factor rest ≡ true
        → parse_term doubles (suc (suc (suc n))) (text e rest)
          ≡ outcome doubles (value doubles e) rest
    unfolding parse_expr
    term_of h k =
        ap (λ o. and_then o (λ v r. term_loop doubles (suc (suc n)) v r)) (power_of h)
        ∙ and_then-outcome (value doubles e) rest _ (λ v. term_loop-stops (suc n) v rest k)

    pub expr_of :
        no_power rest ≡ true
        → no_factor rest ≡ true
        → no_sign rest ≡ true
        → parse_expr doubles (suc (suc (suc (suc n)))) (text e rest)
          ≡ outcome doubles (value doubles e) rest
    unfolding parse_expr
    expr_of h k l =
        ap (λ o. and_then o (λ v r. expr_loop doubles (suc (suc (suc n))) v r)) (term_of h k)
        ∙ and_then-outcome (value doubles e) rest _ (λ v. expr_loop-stops (suc (suc n)) v rest l)

  pub and_then-bind :
      (o : Option D) (rest rest' : Bytes) (f : D → Bytes → Outcome D) (g : D → Option D)
      → ((v : D) → f v rest ≡ outcome doubles (g v) rest')
      → and_then (outcome doubles o rest) f ≡ outcome doubles (o >>= g) rest'
  and_then-bind none rest rest' f g h = refl
  and_then-bind (some v) rest rest' f g h = h v

  -- From the level of a power to that of a parenthesis.
  pub in_parens :
      (n : ℕ) (t rest : Bytes) (o : Option D)
      → parse_expr doubles n t ≡ outcome doubles o (b')' ∷ rest)
      → parse_atom doubles (suc n) (b'(' ∷ t) ≡ outcome doubles o rest
  unfolding parse_expr
  in_parens n t rest o h = ap (λ r. and_then r (skip_close doubles)) h ∙ closed o
    where
      closed :
          (o : Option D)
          → and_then (outcome doubles o (b')' ∷ rest)) (skip_close doubles) ≡ outcome doubles o rest
      closed none = refl
      closed (some v) = refl

  pub term_to_expr :
      (n : ℕ) (t rest : Bytes) (o : Option D)
      → parse_term doubles (suc n) t ≡ outcome doubles o (b')' ∷ rest)
      → parse_expr doubles (suc (suc n)) t ≡ outcome doubles o (b')' ∷ rest)
  unfolding parse_expr
  term_to_expr n t rest o h =
      ap (λ r. and_then r (λ v s. expr_loop doubles (suc n) v s)) h
      ∙ and_then-outcome o (b')' ∷ rest) _ (λ v. expr_loop-stops n v (b')' ∷ rest) refl)

  pub power_to_expr :
      (n : ℕ) (t rest : Bytes) (o : Option D)
      → parse_power doubles (suc n) t ≡ outcome doubles o (b')' ∷ rest)
      → parse_expr doubles (suc (suc (suc n))) t ≡ outcome doubles o (b')' ∷ rest)
  unfolding parse_expr
  power_to_expr n t rest o h = term_to_expr (suc n) t rest o (
      ap (λ r. and_then r (λ v s. term_loop doubles (suc n) v s)) h
      ∙ and_then-outcome o (b')' ∷ rest) _ (λ v. term_loop-stops n v (b')' ∷ rest) refl))

  -- With this fuel or more, the expression is read as its value.
  abbrev pub Reads : Expr → ℕ → Type 0
  Reads e m =
      (n : ℕ) (rest : Bytes)
      → m ≤ n
      → ends_number rest ≡ true
      → parse_atom doubles n (text e rest) ≡ outcome doubles (value doubles e) rest

  pub negated_inner :
      (e : Expr) (m : ℕ) (rest : Bytes)
      → Reads e m
      → parse_expr doubles (suc (suc (suc (suc m)))) (b'-' ∷ text e (b')' ∷ rest))
        ≡ outcome doubles (value doubles (negated e)) (b')' ∷ rest)
  unfolding parse_expr is_digit
  negated_inner e m rest r = power_to_expr (suc m) (b'-' ∷ text e (b')' ∷ rest)) rest _ (
      ap
        (λ o.
          and_then (and_then o (λ v s. ok (doubles.neg v) s))
            (λ v s. power_rest doubles (suc m) v s))
        (r m (b')' ∷ rest) (omega arith) refl)
      ∙ ap (λ o. and_then o (λ v s. power_rest doubles (suc m) v s))
          (and_then-bind (value doubles e) (b')' ∷ rest) (b')' ∷ rest) _ (λ v. some (doubles.neg v))
            (λ v. refl))
      ∙ and_then-outcome _ (b')' ∷ rest) _ (λ v. power_rest-stops m v (b')' ∷ rest) refl))
