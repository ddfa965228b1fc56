-- ===== src/Pom/Scalar/RoundTrip.antt =====
-- A text that is written as a YAML scalar and read back.
use signalwire_agents_cpp.Prelude.{
  ℕ, suc, ◌-◌, ◌≡◌, refl, sym, ap, ◌∙◌, Bool, true, false, ◌||◌, ◌∷◌, [], ◌++◌, Bytes, codes,
  is_empty, if◌then◌else◌, ◌==◌, length, take, length-append, take-append, subst, ||-eq-false,
  arith, Bool-cases, inl, inr, find, is_some, ==_iff, ◌⊎◌,
}
use signalwire_agents_cpp.Prelude.Strings.{find_text}
use signalwire_agents_cpp.Prelude.Json.{Json, string}
use signalwire_agents_cpp.Security.Decimal.{is_space}
use signalwire_agents_cpp.Pom.Scalar.{
  trim_start, trim_end, trim, keep_end, ends_with, begins_with, is_quoted, between, undouble,
  double_quotes, quote_string, parse_trimmed, parse_scalar, needs_quoting, emit_text, is_numeric,
  one_of, true_texts, false_texts, null_texts, begins_special, reserved, special,
}

undouble-double_quotes : (s : Bytes) → undouble false (double_quotes s) ≡ s
unfolding undouble double_quotes
undouble-double_quotes [] = refl
undouble-double_quotes (c ∷ s) = elim (Bool-cases (c == b'\'')) [
  | inl e ↦
      let q : c ≡ 39 = (==_iff c 39).0 e in
      subst (λ x. undouble false (double_quotes (x ∷ s)) ≡ x ∷ s) (sym q)
        (ap (◌∷◌ 39) (undouble-double_quotes s))
  | inr e ↦ rw (e, e) (ap (◌∷◌ c) (undouble-double_quotes s))
]

trim_end-append : (s : Bytes) (c : ℕ) → is_space c ≡ false → trim_end (s ++ c ∷ []) ≡ s ++ c ∷ []
unfolding trim_end
trim_end-append [] c h = rw h refl
trim_end-append (d ∷ []) c h = rw h refl
trim_end-append (d ∷ e ∷ s) c h = rw (trim_end-append (e ∷ s) c h) refl

ends_with-append : (s : Bytes) (c : ℕ) → ends_with c (s ++ c ∷ []) ≡ true
ends_with-append [] c = ground arith
ends_with-append (d ∷ []) c = ground arith
ends_with-append (d ∷ e ∷ s) c = ends_with-append (e ∷ s) c

between-quotes : (q : ℕ) (s : Bytes) → between (q ∷ s ++ q ∷ []) ≡ s
between-quotes q s =
    let inner : suc (length (s ++ q ∷ [])) - 2 ≡ length s =
      omega (arith, length-append s (q ∷ [])) in
    ap (λ n. take n (s ++ q ∷ [])) inner ∙ take-append s (q ∷ [])

keep_end-append : (d c : ℕ) (s : Bytes) → keep_end d (s ++ c ∷ []) ≡ d ∷ s ++ c ∷ []
keep_end-append d c [] = refl
keep_end-append d c (e ∷ s) = refl

trim-quote_string : (s : Bytes) → trim (quote_string s) ≡ quote_string s
unfolding trim trim_start quote_string is_space
trim-quote_string s =
    rw (trim_end-append (double_quotes s) 39 refl) (keep_end-append 39 39 (double_quotes s))

not_double_quoted : (s : Bytes) → is_quoted b'"' (b'\'' ∷ s) ≡ false
not_double_quoted s = ground arith

single_quoted : (s : Bytes) → is_quoted b'\'' (b'\'' ∷ s ++ b'\'' ∷ []) ≡ true
single_quoted s = ground (arith, length-append s (39 ∷ []), ends_with-append (39 ∷ s) 39)

parse_trimmed-quote_string : (s : Bytes) → parse_trimmed (quote_string s) ≡ string s
unfolding parse_trimmed quote_string
parse_trimmed-quote_string s =
    let d = double_quotes s in
    rw (not_double_quoted (d ++ 39 ∷ []), single_quoted d, between-quotes 39 d)
      (ap string (undouble-double_quotes s))

passes_all :
    (a b c d e f g : Bool) (t u v w x y z r : Json)
    → (a || b || c || d || e || f || g) ≡ false
    → (if a
        then t
        else if b
        then u
        else if c
        then v
        else if d
        then w
        else if e
        then x
        else if f
        then y
        else if g
        then z
        else r)
      ≡ r
passes_all false false false false false false false t u v w x y z r h = refl
passes_all true b c d e f g t u v w x y z r h = cc
passes_all false true c d e f g t u v w x y z r h = cc
passes_all false false true d e f g t u v w x y z r h = cc
passes_all false false false true e f g t u v w x y z r h = cc
passes_all false false false false true f g t u v w x y z r h = cc
passes_all false false false false false true g t u v w x y z r h = cc
passes_all false false false false false false true t u v w x y z r h = cc

-- The tests that would read a text as something else are among those of `needs_quoting`.
not_quoted :
    (q : ℕ) (s : Bytes)
    → is_some (find q special) ≡ true
    → begins_special s ≡ false
    → is_quoted q s ≡ false
not_quoted q [] h k = refl
not_quoted q (c ∷ s) h k = elim (Bool-cases (c == q)) [
  | inl e ↦
      let bad : is_some (find q special) ≡ false =
        subst (λ x. is_some (find x special) ≡ false) ((==_iff c q).0 e) k in
      absurd (ground (arith, h, bad))
  | inr e ↦ ground (arith, e)
]

one_of-reserved :
    (s : Bytes)
    → one_of reserved s ≡ false
    → (one_of true_texts s ≡ false) × (one_of false_texts s ≡ false) × (one_of null_texts s ≡ false)
one_of-reserved s h = ground (arith, h)

parse_trimmed-plain : (s : Bytes) → needs_quoting s ≡ false → parse_trimmed s ≡ string s
unfolding parse_trimmed needs_quoting find is_numeric
parse_trimmed-plain s h =
    let (k8, h9) = ||-eq-false _ (is_numeric s) h in
    let (k7, h8) = ||-eq-false _ (one_of reserved s) k8 in
    let (k6, h7) = ||-eq-false _ (is_some (find 10 s)) k7 in
    let (k5, h6) = ||-eq-false _ (ends_with 58 s) k6 in
    let (k4, h5) = ||-eq-false _ (is_some (find_text (codes ": ") s)) k5 in
    let (k3, h4) = ||-eq-false _ (ends_with 32 s) k4 in
    let (k2, h3) = ||-eq-false _ (begins_with 32 s) k3 in
    let (h1, h2) = ||-eq-false (is_empty s) (begins_special s) k2 in
    let (r1, r2, r3) = one_of-reserved s h8 in
    passes_all (is_empty s) (is_quoted 34 s) (is_quoted 39 s) (one_of true_texts s)
      (one_of false_texts s) (one_of null_texts s) (is_numeric s) _ _ _ _ _ _ _ _
      (rw (h1, not_quoted 34 s refl h2, not_quoted 39 s refl h2, r1, r2, r3, h9) refl)

-- A text that is written in quotes, or that trimming leaves as it is, is read back as that text, and
-- not as a number, a truth value or null.
pub parse_scalar-emit_text :
    (s : Bytes) → (needs_quoting s ≡ true) ⊎ (trim s ≡ s) → parse_scalar (emit_text s) ≡ string s
unfolding parse_scalar emit_text
parse_scalar-emit_text s h = elim (Bool-cases (needs_quoting s)) [
  | inl e ↦ rw (e, trim-quote_string s) (parse_trimmed-quote_string s)
  | inr e ↦ let whole : trim s ≡ s = ground (arith, h, e) in rw (e, whole) (parse_trimmed-plain s e)
]
