-- ===== src/Swaig/DataMap/Premature.antt =====
-- Which chains of the calls of a data map throw.
use mathlib.Core.Option.{none-ne-some}
use signalwire_agents_cpp.Prelude.{
  ◌+◌, Option, none, some, Bool, true, false, not, ◌&&◌, ◌||◌, ◌≡◌, ◌↔◌, refl, ◌∷◌, [], List, Bytes,
  is_nil, if◌then◌else◌, length, arith, ap, subst, inl, inr, Option-cases, ◌>>=◌, sym, ◌∙◌,
}
use signalwire_agents_cpp.Prelude.Map.{Map}
use signalwire_agents_cpp.Prelude.Json.{Json}
use signalwire_agents_cpp.Swaig.DataMap.{DataMap, new_data_map, body, params}
use signalwire_agents_cpp.Swaig.DataMap.Calls.{
  Setting, purposes, parameters, expressions, webhooks, webhook_tests, bodies, params_of, foreachs,
  outputs, fallbacks, errors, global_errors, apply, run, needs_webhook, is_webhook, is_premature,
  count_webhooks, Collects, apply-Collects, on_some,
}

always : (d : DataMap) (b : Bool) → (some d ≡ none) ↔ ((b && false) ≡ true)
always d b = ground arith

when_none : (d : DataMap) (b : Bool) → ((if b then none else some d) ≡ none) ↔ ((b && true) ≡ true)
when_none d b = ground arith

apply-none :
    (d : DataMap) (c : Setting)
    → (apply d c ≡ none) ↔ ((is_nil d.webhooks && needs_webhook c) ≡ true)
unfolding apply body params
apply-none d (purposes desc) = always _ (is_nil d.webhooks)
apply-none d (parameters name type desc required values) = always _ (is_nil d.webhooks)
apply-none d (expressions test pattern result nomatch) = always _ (is_nil d.webhooks)
apply-none d (webhooks method url headers form args required) = always _ (is_nil d.webhooks)
apply-none d (webhook_tests tests) = always _ (is_nil d.webhooks)
apply-none d (bodies value) = when_none _ (is_nil d.webhooks)
apply-none d (params_of value) = when_none _ (is_nil d.webhooks)
apply-none d (foreachs value) = always _ (is_nil d.webhooks)
apply-none d (outputs result) = always _ (is_nil d.webhooks)
apply-none d (fallbacks result) = always _ (is_nil d.webhooks)
apply-none d (errors keys) = always _ (is_nil d.webhooks)
apply-none d (global_errors keys) = always _ (is_nil d.webhooks)

count_one : (c : Setting) → count_webhooks (c ∷ []) ≡ (if is_webhook c then 1 else 0)
count_one (purposes desc) = refl
count_one (parameters name type desc required values) = refl
count_one (expressions test pattern result nomatch) = refl
count_one (webhooks method url headers form args required) = refl
count_one (webhook_tests tests) = refl
count_one (bodies value) = refl
count_one (params_of value) = refl
count_one (foreachs value) = refl
count_one (outputs result) = refl
count_one (fallbacks result) = refl
count_one (errors keys) = refl
count_one (global_errors keys) = refl

has_webhook-step :
    (w : Bool) (ws ws' : List (Map Json))
    → length ws' ≡ length ws + (if w then 1 else 0)
    → (not (is_nil ws) || w) ≡ not (is_nil ws')
has_webhook-step true [] [] h = absurd (omega (arith, h))
has_webhook-step true [] (w ∷ ws') h = refl
has_webhook-step true (v ∷ ws) [] h = absurd (omega (arith, h))
has_webhook-step true (v ∷ ws) (w ∷ ws') h = refl
has_webhook-step false [] [] h = refl
has_webhook-step false [] (w ∷ ws') h = absurd (omega (arith, h))
has_webhook-step false (v ∷ ws) [] h = absurd (omega (arith, h))
has_webhook-step false (v ∷ ws) (w ∷ ws') h = refl

premature_now :
    (has needs rest : Bool) → (has && needs) ≡ true → ((not (not has) && needs) || rest) ≡ true
premature_now has needs rest h = ground arith

-- A call that succeeds leaves the question to the later calls.
premature_step :
    (has needs rest : Bool) → ¬ ((has && needs) ≡ true) → ((not (not has) && needs) || rest) ≡ rest
premature_step has needs rest h = ground arith

run_stops : {o : Option DataMap} (cs : List Setting) → o ≡ none → (o >>= λ x. run x cs) ≡ none
run_stops cs e = rw e refl

run_goes :
    {d : DataMap} {o : Option DataMap} (cs : List Setting)
    → o ≡ some d
    → (o >>= λ x. run x cs) ≡ none
    → run d cs ≡ none
run_goes {d} cs e h = subst (λ o. (o >>= λ x. run x cs) ≡ none) e h

run_went :
    {d : DataMap} {o : Option DataMap} (cs : List Setting)
    → o ≡ some d
    → run d cs ≡ none
    → (o >>= λ x. run x cs) ≡ none
run_went {d} cs e h = rw e h

run-none_from :
    (cs : List Setting) (d : DataMap)
    → (run d cs ≡ none) ↔ (is_premature (not (is_nil d.webhooks)) cs ≡ true)
unfolding run
run-none_from [] d = ground arith
run-none_from (c ∷ cs) d = elim (Option-cases (apply d c)) [
  | inl e ↦
      let needed = (apply-none d c).0 e in
      (λ h. premature_now (is_nil d.webhooks) (needs_webhook c) _ needed, λ h. run_stops cs e)
  | inr (d1, e) ↦
      let (counted, named) = on_some (Collects d c) (apply d c) d1 (apply-Collects d c) e in
      let has =
        has_webhook-step (is_webhook c) d.webhooks d1.webhooks (rw (← count_one c) counted) in
      let needless : ¬ ((is_nil d.webhooks && needs_webhook c) ≡ true) =
        λ t. none-ne-some d1 (sym ((apply-none d c).1 t) ∙ e) in
      let same : is_premature (not (is_nil d.webhooks)) (c ∷ cs)
          ≡ is_premature (not (is_nil d1.webhooks)) cs =
        premature_step (is_nil d.webhooks) (needs_webhook c) _ needless
        ∙ ap (λ b. is_premature b cs) has in
      let rest = run-none_from cs d1 in
      (λ h. same ∙ rest.0 (run_goes cs e h), λ h. run_went cs e (rest.1 (sym same ∙ h)))
]

-- A chain of calls on a new data map throws exactly when `body` or `params` is called before the
-- first `webhook`.
pub run-none_iff :
    (name : Bytes) (cs : List Setting)
    → (run (new_data_map name) cs ≡ none) ↔ (is_premature false cs ≡ true)
unfolding new_data_map
run-none_iff name cs = run-none_from cs (new_data_map name)
