-- ===== src/Contexts/Builder/Valid.antt =====
-- What `validate` accepts.
use mathlib.Core.List.{cons-ne-nil}
use signalwire_agents_cpp.Prelude.{
  Option, none, some, ◌≡◌, ◌≢◌, ◌↔◌, refl, ◌∷◌, [], List, Bytes, codes, if◌then◌else◌, str_eq_iff,
  All, arith,
}
use signalwire_agents_cpp.Prelude.Map.{Map, lookup, keys}
use signalwire_agents_cpp.Contexts.Step.{Step}
use signalwire_agents_cpp.Contexts.Context.{Context}
use signalwire_agents_cpp.Contexts.Builder.{
  ContextBuilder, unknown_initial_step, no_steps, Check, ◌before◌, has_key, check_single,
  check_steps, check_initial_step, check_initial_steps, check_actions, check_tools, validate,
}
use signalwire_agents_cpp.Contexts.Builder.Actions.{
  OrderIsValid, has_key_iff, before-none, check_actions_iff,
}
use signalwire_agents_cpp.Contexts.Builder.Tools.{ToolsAreFree, check_tools_iff}

abbrev pub InitialIsValid : Context → Option Bytes → Type 0
InitialIsValid c none = Unit
InitialIsValid c (some is) = lookup is c.steps ≢ none

abbrev pub SingleIsDefault : Map Context → Type 0
SingleIsDefault ((name, c) ∷ []) = name ≡ codes "default"
SingleIsDefault [] = Unit
SingleIsDefault (c ∷ d ∷ m) = Unit

pub record IsValid (b : ContextBuilder) (registered : Option (List Bytes)) : Type 0 where
  pub some_context : b.contexts ≢ []
  pub single : SingleIsDefault b.contexts
  pub steps : All (λ e. e.1.steps ≢ []) b.contexts
  pub initial : All (λ e. InitialIsValid e.1 e.1.initial_step) b.contexts
  pub actions : All (λ e. OrderIsValid e.1 e.1.step_order) b.contexts
  pub tools : ToolsAreFree registered

check_initial_step_iff :
    (n : Bytes) (c : Context) → (check_initial_step n c ≡ none) ↔ InitialIsValid c c.initial_step
unfolding check_initial_step
check_initial_step_iff n c = of_initial c.initial_step
  where
    of_initial :
        (o : Option Bytes)
        → (◌≡◌ {A = Check}
            (elim o [
              | none ↦ none
              | some is ↦
                  if has_key is c.steps
                  then none
                  else some (unknown_initial_step n is (keys c.steps))
            ])
            none)
          ↔ InitialIsValid c o
    of_initial none = (λ h. tt, λ h. refl)
    of_initial (some is) =
        (λ h. (has_key_iff is c.steps).0 (ground arith), λ h. rw ((has_key_iff is c.steps).1 h))

check_initial_steps_iff :
    (m : Map Context)
    → (check_initial_steps m ≡ none) ↔ All (λ e. InitialIsValid e.1 e.1.initial_step) m
unfolding check_initial_steps
check_initial_steps_iff [] = (λ h. tt, λ h. refl)
check_initial_steps_iff ((n, c) ∷ m) =
    let first = check_initial_step_iff n c in
    let later = check_initial_steps_iff m in
    let both = before-none (check_initial_step n c) (check_initial_steps m) in
    (λ h. (first.0 (both.0 h).0, later.0 (both.0 h).1), λ h. both.1 (first.1 h.0, later.1 h.1))

check_steps_iff : (m : Map Context) → (check_steps m ≡ none) ↔ All (λ e. e.1.steps ≢ []) m
unfolding check_steps
check_steps_iff [] = (λ h. tt, λ h. refl)
check_steps_iff ((n, c) ∷ m) = of_steps c.steps (check_steps_iff m)
  where
    of_steps :
        (steps : Map Step)
        → (check_steps m ≡ none) ↔ All (λ e. e.1.steps ≢ []) m
        → (◌≡◌ {A = Check} (elim steps [ [] ↦ some (no_steps n) | _ ↦ check_steps m ]) none)
          ↔ ((steps ≢ []) × All (λ e. e.1.steps ≢ []) m)
    of_steps [] later = (λ h. cc, λ h. absurd (h.0 refl))
    of_steps (s ∷ steps) later = (λ h. (cons-ne-nil s steps, later.0 h), λ h. later.1 h.1)

check_single_iff : (m : Map Context) → (check_single m ≡ none) ↔ ((m ≢ []) × SingleIsDefault m)
unfolding check_single
check_single_iff [] = (λ h. cc, λ h. absurd (h.0 refl))
check_single_iff ((n, c) ∷ []) = (
  λ h. (cons-ne-nil _ _, (str_eq_iff n (codes "default")).0 (ground arith)),
  λ h. rw ((str_eq_iff n (codes "default")).1 h.1),
)
check_single_iff (c ∷ d ∷ m) = (λ h. (cons-ne-nil _ _, tt), λ h. refl)

-- Validation passes exactly when there is a context, a single one is named "default", each has a
-- step, an initial step is a step, each completion action of a listed step is empty, or "next_step"
-- with a name behind in the order, or the name of a step, and no tool has the name of a native one.
pub validate_iff :
    (b : ContextBuilder) (registered : Option (List Bytes))
    → (validate b registered ≡ none) ↔ IsValid b registered
unfolding validate
validate_iff b registered =
    let m = b.contexts in
    let rest3 = check_actions m before check_tools registered in
    let rest2 = check_initial_steps m before rest3 in
    let rest1 = check_steps m before rest2 in
    let e1 = before-none (check_single m) rest1 in
    let e2 = before-none (check_steps m) rest2 in
    let e3 = before-none (check_initial_steps m) rest3 in
    let e4 = before-none (check_actions m) (check_tools registered) in
    (
      λ h.
          let (h1, t1) = e1.0 h in
          let (h2, t2) = e2.0 t1 in
          let (h3, t3) = e3.0 t2 in
          let (h4, h5) = e4.0 t3 in
          let single = (check_single_iff m).0 h1 in
          record {
            some_context = single.0;
            single = single.1;
            steps = (check_steps_iff m).0 h2;
            initial = (check_initial_steps_iff m).0 h3;
            actions = (check_actions_iff m).0 h4;
            tools = (check_tools_iff registered).0 h5;
          },
      λ v. e1.1 (
        (check_single_iff m).1 (v.some_context, v.single),
        e2.1 (
          (check_steps_iff m).1 v.steps,
          e3.1 (
            (check_initial_steps_iff m).1 v.initial,
            e4.1 ((check_actions_iff m).1 v.actions, (check_tools_iff registered).1 v.tools),
          ),
        ),
      ),
    )
