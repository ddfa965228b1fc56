-- ===== src/Contexts/Builder/Actions.antt =====
-- What `validate` asks of the completion actions.
use mathlib.Core.List.{cons-ne-nil}
use signalwire_agents_cpp.Prelude.{
  ℕ, suc, ◌+◌, Option, none, some, true, false, ◌≡◌, ◌≢◌, ◌↔◌, ◌⊎◌, inl, inr, refl, ◌∷◌, [], List,
  Bytes, codes, ◌<◌, length, str_eq, str_eq_iff, str_eq_refl, All, arith, Bool-cases,
}
use signalwire_agents_cpp.Prelude.Map.{Map, lookup}
use signalwire_agents_cpp.Contexts.Step.{Step, GatherInfo}
use signalwire_agents_cpp.Contexts.Context.{Context}
use signalwire_agents_cpp.Contexts.Builder.{
  Check, ◌before◌, has_key, check_action, check_step, check_order, check_actions,
}

-- A completion action is empty, or "next_step" with a step behind, or the name of a step.
abbrev pub IsAction : Context → List Bytes → Bytes → Type 0
IsAction c rest action =
    (action ≡ [])
    ⊎ ((action ≡ codes "next_step") × (rest ≢ []))
    ⊎ ((action ≢ codes "next_step") × (lookup action c.steps ≢ none))

abbrev GatherIsValid : Context → List Bytes → Option GatherInfo → Type 0
GatherIsValid c rest none = Unit
GatherIsValid c rest (some g) = IsAction c rest g.completion_action

abbrev StepIsValid : Context → List Bytes → Option Step → Type 0
StepIsValid c rest none = Unit
StepIsValid c rest (some s) = GatherIsValid c rest s.gather

-- Every step in the order, with the names behind it.
abbrev pub OrderIsValid : Context → List Bytes → Type 0
OrderIsValid c [] = Unit
OrderIsValid c (name ∷ rest) = StepIsValid c rest (lookup name c.steps) × OrderIsValid c rest

has_value_iff :
    {V : Type 0} (o : Option V) → (elim o [ none ↦ false | some v ↦ true ] ≡ true) ↔ (o ≢ none)
has_value_iff none = (λ h. cc, λ h. absurd (h refl))
has_value_iff (some v) = (λ h e. cc, λ h. refl)

pub has_key_iff : {V : Type 0} (k : Bytes) (m : Map V) → (has_key k m ≡ true) ↔ (lookup k m ≢ none)
has_key_iff k m = has_value_iff (lookup k m)

length_pos_iff : (rest : List Bytes) → (0 < length rest) ↔ (rest ≢ [])
length_pos_iff [] = (λ h. absurd (omega arith), λ h. absurd (h refl))
length_pos_iff (x ∷ rest) = (λ h. cons-ne-nil x rest, λ h. omega arith)

check_action_sound :
    (n : Bytes) (c : Context) (i size : ℕ) (s action : Bytes) (rest : List Bytes)
    → suc (i + length rest) ≡ size
    → check_action n c i size s action ≡ none
    → IsAction c rest action
unfolding check_action
check_action_sound n c i size s [] rest e h = inl refl
check_action_sound n c i size s (x ∷ a) rest e h =
    elim (Bool-cases (str_eq (x ∷ a) (codes "next_step"))) [
      | inl t ↦ inr (inl ((str_eq_iff _ _).0 t, (length_pos_iff rest).0 (ground arith)))
      | inr f ↦ inr (
          inr (
            λ t. cc ((str_eq_iff (x ∷ a) (codes "next_step")).1 t),
            (has_key_iff (x ∷ a) c.steps).0 (ground arith),
          ))
    ]

check_action_complete :
    (n : Bytes) (c : Context) (i size : ℕ) (s action : Bytes) (rest : List Bytes)
    → suc (i + length rest) ≡ size
    → IsAction c rest action
    → check_action n c i size s action ≡ none
unfolding check_action
check_action_complete n c i size s action rest e (inl t) = rw t
check_action_complete n c i size s action rest e (inr (inl (t, ne))) =
    let more = (length_pos_iff rest).1 ne in rw t (ground (arith, str_eq_refl (codes "next_step")))
check_action_complete n c i size s action rest e (inr (inr (t, ne))) =
    let here = (has_key_iff action c.steps).1 ne in
    ground (arith, str_eq_iff action (codes "next_step"))

pub before-none : (a b : Check) → ((a before b) ≡ none) ↔ ((a ≡ none) × (b ≡ none))
before-none none b = (λ h. (refl, h), λ h. h.1)
before-none (some e) b = (λ h. cc, λ h. cc)

check_step_iff :
    (n : Bytes) (c : Context) (i size : ℕ) (s : Bytes) (rest : List Bytes)
    → suc (i + length rest) ≡ size
    → (check_step n c i size s ≡ none) ↔ StepIsValid c rest (lookup s c.steps)
unfolding check_step
check_step_iff n c i size s rest e = of_step (lookup s c.steps)
  where
    of_gather :
        (g : Option GatherInfo)
        → (◌≡◌ {A = Check}
            (elim g [ none ↦ none | some g ↦ check_action n c i size s g.completion_action ])
            none)
          ↔ GatherIsValid c rest g
    of_gather none = (λ h. tt, λ h. refl)
    of_gather (some g) = (
      check_action_sound n c i size s g.completion_action rest e,
      check_action_complete n c i size s g.completion_action rest e,
    )

    of_step :
        (o : Option Step)
        → (◌≡◌ {A = Check}
            (elim o [
              | none ↦ none
              | some s' ↦ elim s'.gather [
                | none ↦ none
                | some g ↦ check_action n c i size s g.completion_action
              ]
            ])
            none)
          ↔ StepIsValid c rest o
    of_step none = (λ h. tt, λ h. refl)
    of_step (some s') = of_gather s'.gather

check_order_iff :
    (n : Bytes) (c : Context) (i size : ℕ) (order : List Bytes)
    → i + length order ≡ size
    → (check_order n c i size order ≡ none) ↔ OrderIsValid c order
unfolding check_order
check_order_iff n c i size [] e = (λ h. tt, λ h. refl)
check_order_iff n c i size (s ∷ order) e =
    let step = check_step_iff n c i size s order (omega arith) in
    let later = check_order_iff n c (suc i) size order (omega arith) in
    let both = before-none (check_step n c i size s) (check_order n c (suc i) size order) in
    (λ h. (step.0 (both.0 h).0, later.0 (both.0 h).1), λ h. both.1 (step.1 h.0, later.1 h.1))

pub check_actions_iff :
    (m : Map Context) → (check_actions m ≡ none) ↔ All (λ e. OrderIsValid e.1 e.1.step_order) m
unfolding check_actions
check_actions_iff [] = (λ h. tt, λ h. refl)
check_actions_iff ((n, c) ∷ m) =
    let order = check_order_iff n c 0 (length c.step_order) c.step_order (omega arith) in
    let later = check_actions_iff m in
    let both =
      before-none (check_order n c 0 (length c.step_order) c.step_order) (check_actions m) in
    (λ h. (order.0 (both.0 h).0, later.0 (both.0 h).1), λ h. both.1 (order.1 h.0, later.1 h.1))
