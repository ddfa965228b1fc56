-- ===== src/Swaig/DataMap/Calls.antt =====
-- Chains of the builder's calls: which fail, and what the others collect.
use mathlib.Core.Option.{some-injective}
use signalwire_agents_cpp.Prelude.{
  ℕ, suc, ◌+◌, Option, none, some, Bool, true, false, not, ◌&&◌, ◌||◌, ◌≡◌, ◌↔◌, refl, ◌∷◌, [],
  ◌++◌, List, Bytes, is_nil, length, length-append, arith, ap, subst, inl, inr, Option-cases,
  if_elim, ◌>>=◌, append_assoc, append-nil, sym, ◌∙◌,
}
use signalwire_agents_cpp.Prelude.Map.{Map}
use signalwire_agents_cpp.Prelude.Json.{Json}
use signalwire_agents_cpp.Swaig.FunctionResult.{FunctionResult}
use signalwire_agents_cpp.Swaig.DataMap.{
  DataMap, Parameters, require, first_parameters, new_data_map, set_purpose, parameter, expression,
  webhook, set_last, webhook_expressions, body, params, foreach, set_output, fallback_output,
  set_error_keys, global_error_keys,
}

pub data Setting : Type 0 where
  purposes : Bytes → Setting
  parameters : Bytes → Bytes → Bytes → Bool → List Bytes → Setting
  expressions : Bytes → Bytes → FunctionResult → Option FunctionResult → Setting
  webhooks : Bytes → Bytes → Json → Bytes → Bool → List Bytes → Setting
  webhook_tests : List Json → Setting
  bodies : Json → Setting
  params_of : Json → Setting
  foreachs : Json → Setting
  outputs : FunctionResult → Setting
  fallbacks : FunctionResult → Setting
  errors : List Bytes → Setting
  global_errors : List Bytes → Setting

unfoldable pub apply : DataMap → Setting → Option DataMap
apply d (purposes desc) = some (set_purpose d desc)
apply d (parameters name type desc required values) =
    some (parameter d name type desc required values)
apply d (expressions test pattern result nomatch) = some (expression d test pattern result nomatch)
apply d (webhooks method url headers form args required) =
    some (webhook d method url headers form args required)
apply d (webhook_tests tests) = some (webhook_expressions d tests)
apply d (bodies value) = body d value
apply d (params_of value) = params d value
apply d (foreachs value) = some (foreach d value)
apply d (outputs result) = some (set_output d result)
apply d (fallbacks result) = some (fallback_output d result)
apply d (errors keys) = some (set_error_keys d keys)
apply d (global_errors keys) = some (global_error_keys d keys)

unfoldable pub run : DataMap → List Setting → Option DataMap
run d [] = some d
run d (c ∷ cs) = apply d c >>= λ d'. run d' cs

abbrev pub needs_webhook : Setting → Bool
needs_webhook (bodies v) = true
needs_webhook (params_of v) = true
needs_webhook c = false

abbrev pub is_webhook : Setting → Bool
is_webhook (webhooks m u h f a r) = true
is_webhook c = false

-- Whether some call needs a webhook while there is none.
abbrev pub is_premature : Bool → List Setting → Bool
is_premature has_webhook [] = false
is_premature has_webhook (c ∷ cs) =
    (not has_webhook && needs_webhook c) || is_premature (has_webhook || is_webhook c) cs

-- Calls of `webhook`, and the names of the required parameters, in order.
abbrev pub count_webhooks : List Setting → ℕ
count_webhooks [] = 0
count_webhooks (webhooks m u h f a r ∷ cs) = suc (count_webhooks cs)
count_webhooks (c ∷ cs) = count_webhooks cs

abbrev pub required_in : List Setting → List Bytes
required_in [] = []
required_in (parameters n t d true e ∷ cs) = n ∷ required_in cs
required_in (c ∷ cs) = required_in cs

abbrev names_of : Option (List Bytes) → List Bytes
names_of none = []
names_of (some ns) = ns

abbrev of_parameters : Option Parameters → List Bytes
of_parameters none = []
of_parameters (some p) = names_of p.required

abbrev pub required_names : DataMap → List Bytes
required_names d = of_parameters d.parameters

length-set_last :
    (k : Bytes) (v : Json) (ws : List (Map Json)) → length (set_last k v ws) ≡ length ws
unfolding set_last
length-set_last k v [] = refl
length-set_last k v (w ∷ []) = refl
length-set_last k v (w ∷ w' ∷ ws) = omega (arith, length-set_last k v (w' ∷ ws))

is_nil-length : (ws : List (Map Json)) → (is_nil ws ≡ true) ↔ (length ws ≡ 0)
is_nil-length [] = ground arith
is_nil-length (w ∷ ws) = ground arith

-- What one call does to the webhooks and to the required names.
abbrev pub Collects : DataMap → Setting → DataMap → Type 0
Collects d c d' =
    (length d'.webhooks ≡ length d.webhooks + count_webhooks (c ∷ []))
    × (required_names d' ≡ required_names d ++ required_in (c ∷ []))

abbrev pub OnSome : (DataMap → Type 0) → Option DataMap → Type 0
OnSome P none = Unit
OnSome P (some d) = P d

set_last-counted :
    (k : Bytes) (v : Json) (ws : List (Map Json)) → length (set_last k v ws) ≡ length ws + 0
set_last-counted k v ws = omega (arith, length-set_last k v ws)

require_keeps :
    (name : Bytes) (r : Option (List Bytes)) → names_of (require name r) ≡ names_of r ++ name ∷ []
require_keeps name none = refl
require_keeps name (some ns) = refl

kept_names : (ns : List Bytes) → ns ≡ ns ++ []
kept_names ns = sym (append-nil ns)

require-named :
    (name : Bytes) (o : Option Parameters)
    → names_of (require name (first_parameters o).required) ≡ of_parameters o ++ name ∷ []
require-named name none = refl
require-named name (some p) = require_keeps name p.required

kept-named :
    (o : Option Parameters) → names_of (first_parameters o).required ≡ of_parameters o ++ []
kept-named none = refl
kept-named (some p) = kept_names (names_of p.required)

pub apply-Collects : (d : DataMap) (c : Setting) → OnSome (Collects d c) (apply d c)
unfolding apply set_purpose parameter expression webhook webhook_expressions body params foreach
    set_output fallback_output set_error_keys global_error_keys
apply-Collects d (purposes desc) = (omega arith, kept_names (required_names d))
apply-Collects d (parameters name type desc true values) =
    (omega arith, require-named name d.parameters)
apply-Collects d (parameters name type desc false values) = (omega arith, kept-named d.parameters)
apply-Collects d (expressions test pattern result nomatch) =
    (omega arith, kept_names (required_names d))
apply-Collects d (webhooks method url headers form args required) =
    (length-append d.webhooks _, kept_names (required_names d))
apply-Collects d (webhook_tests tests) =
    (set_last-counted _ _ d.webhooks, kept_names (required_names d))
apply-Collects d (bodies value) =
    if_elim (OnSome (Collects d (bodies value))) (is_nil d.webhooks) _ _ (λ e. tt)
      (λ e. (set_last-counted _ value d.webhooks, kept_names (required_names d)))
apply-Collects d (params_of value) =
    if_elim (OnSome (Collects d (params_of value))) (is_nil d.webhooks) _ _ (λ e. tt)
      (λ e. (set_last-counted _ value d.webhooks, kept_names (required_names d)))
apply-Collects d (foreachs value) = (set_last-counted _ _ d.webhooks, kept_names (required_names d))
apply-Collects d (outputs result) =
    if_elim (λ d'. OnSome (Collects d (outputs result)) (some d')) (is_nil d.webhooks) _ _
      (λ e. (omega arith, kept_names (required_names d)))
      (λ e. (set_last-counted _ _ d.webhooks, kept_names (required_names d)))
apply-Collects d (fallbacks result) = (omega arith, kept_names (required_names d))
apply-Collects d (errors keys) =
    if_elim (λ d'. OnSome (Collects d (errors keys)) (some d')) (is_nil d.webhooks) _ _
      (λ e. (omega arith, kept_names (required_names d)))
      (λ e. (set_last-counted _ _ d.webhooks, kept_names (required_names d)))
apply-Collects d (global_errors keys) = (omega arith, kept_names (required_names d))

count-cons :
    (c : Setting) (cs : List Setting)
    → (count_webhooks (c ∷ cs) ≡ count_webhooks (c ∷ []) + count_webhooks cs)
      × (required_in (c ∷ cs) ≡ required_in (c ∷ []) ++ required_in cs)
count-cons (purposes desc) cs = (omega arith, refl)
count-cons (parameters name type desc true values) cs = (omega arith, refl)
count-cons (parameters name type desc false values) cs = (omega arith, refl)
count-cons (expressions test pattern result nomatch) cs = (omega arith, refl)
count-cons (webhooks method url headers form args required) cs = (omega arith, refl)
count-cons (webhook_tests tests) cs = (omega arith, refl)
count-cons (bodies value) cs = (omega arith, refl)
count-cons (params_of value) cs = (omega arith, refl)
count-cons (foreachs value) cs = (omega arith, refl)
count-cons (outputs result) cs = (omega arith, refl)
count-cons (fallbacks result) cs = (omega arith, refl)
count-cons (errors keys) cs = (omega arith, refl)
count-cons (global_errors keys) cs = (omega arith, refl)

pub on_some :
    (P : DataMap → Type 0) (o : Option DataMap) (d : DataMap) → OnSome P o → o ≡ some d → P d
on_some P none d h e = absurd cc
on_some P (some d') d h e = subst (OnSome P) e h

none-run :
    {d' : DataMap} {o : Option DataMap} (cs : List Setting)
    → o ≡ none
    → (o >>= λ x. run x cs) ≡ some d'
    → ⊥
none-run {o = none} cs e h = cc
none-run {o = some x} cs e h = cc

some-run :
    {d d' : DataMap} {o : Option DataMap} (cs : List Setting)
    → o ≡ some d
    → (o >>= λ x. run x cs) ≡ some d'
    → run d cs ≡ some d'
some-run {d} {d'} cs e h = subst (λ o. (o >>= λ x. run x cs) ≡ some d') e h

run-Collects :
    (cs : List Setting) (d d' : DataMap)
    → run d cs ≡ some d'
    → (length d'.webhooks ≡ length d.webhooks + count_webhooks cs)
      × (required_names d' ≡ required_names d ++ required_in cs)
unfolding run
run-Collects [] d d' h =
    subst
      (λ x.
        (length x.webhooks ≡ length d.webhooks + 0) × (required_names x ≡ required_names d ++ []))
      (some-injective d d' h) (omega arith, kept_names (required_names d))
run-Collects (c ∷ cs) d d' h = elim (Option-cases (apply d c)) [
  | inl e ↦ absurd (none-run cs e h)
  | inr (d1, e) ↦
      let (counted, named) = on_some (Collects d c) (apply d c) d1 (apply-Collects d c) e in
      let (counted', named') = run-Collects cs d1 d' (some-run cs e h) in
      let (sum, join) = count-cons c cs in
      (
        omega (arith, counted, counted', sum),
        named'
            ∙ ap (λ ns. ns ++ required_in cs) named
            ∙ append_assoc (required_names d) (required_in (c ∷ [])) (required_in cs)
            ∙ ap (λ ns. required_names d ++ ns) (sym join),
      )
]

-- A chain of calls on a new data map that does not throw leaves one webhook for each call of
-- `webhook`, and requires the parameters that were declared as required, in the order of the calls.
pub run-collects :
    (name : Bytes) (cs : List Setting) (d : DataMap)
    → run (new_data_map name) cs ≡ some d
    → (length d.webhooks ≡ count_webhooks cs) × (required_names d ≡ required_in cs)
unfolding new_data_map
run-collects name cs d h =
    let (counted, named) = run-Collects cs (new_data_map name) d h in
    (omega (arith, counted), named)
