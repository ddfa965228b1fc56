-- ===== src/Contexts/Builder.antt =====
-- `ContextBuilder` and its `validate`. What the tool-name supplier returns is an argument of
-- `validate`, `none` where no supplier is attached. An error carries what its message names.
pub mod Actions
pub mod Tools
pub mod Valid
use signalwire_agents_cpp.Prelude.{
  ℕ, suc, ◌+◌, Option, none, some, Bool, true, false, ◌≡◌, refl, ◌++◌, ◌∷◌, [], List, Bytes, codes,
  if◌then◌else◌, is_empty, not, length, leb, str_eq, ◌||◌, ◌==◌,
}
use signalwire_agents_cpp.Prelude.Strings.{str_ltb}
use signalwire_agents_cpp.Prelude.Map.{Map, lookup, emplace, keys}
use signalwire_agents_cpp.Contexts.Step.{Step}
use signalwire_agents_cpp.Contexts.Context.{Context, new_context}

abbrev pub max_contexts : ℕ
max_contexts = 50

pub record ContextBuilder : Type 0 where
  pub contexts : Map Context
  pub context_order : List Bytes

pub reset : ContextBuilder → ContextBuilder
reset b = record { contexts = []; context_order = [] }

-- `none`: "Maximum number of contexts exceeded".
pub add_context : ContextBuilder → Bytes → Option ContextBuilder
unfolding new_context
add_context b name =
    if leb max_contexts (length b.contexts)
    then none
    else some (record {
      contexts = emplace name (new_context name) b.contexts;
      context_order = b.context_order ++ name ∷ [];
    })

pub get_context : ContextBuilder → Bytes → Option Context
get_context b name = lookup name b.contexts

pub reserved_native_tool_names : List Bytes
reserved_native_tool_names = codes "change_context" ∷ codes "gather_submit" ∷ codes "next_step" ∷ []

-- The order of the messages in the source.
pub data Invalid : Type 0 where
  no_contexts : Invalid
  single_not_default : Invalid
  no_steps : Bytes → Invalid
  unknown_initial_step : Bytes → Bytes → List Bytes → Invalid
  next_step_at_end : Bytes → Bytes → Invalid
  unknown_completion_action : Bytes → Bytes → Bytes → List Bytes → Invalid
  reserved_tools : List Bytes → Invalid

-- What a check reports: the first error, or nothing.
abbrev pub Check : Type 0
Check = Option Invalid

-- The checks of the source one behind the other: an error ends them.
infixr 40 ◌before◌
abbrev pub ◌before◌ : Check → Check → Check
none before c = c
some e before c = some e

abbrev pub has_key {ℓ} : {V : Type ℓ} → Bytes → Map V → Bool
has_key k m = elim (lookup k m) [ none ↦ false | some v ↦ true ]

pub check_single : Map Context → Check
check_single [] = some no_contexts
check_single ((name, c) ∷ []) =
    if str_eq name (codes "default") then none else some single_not_default
check_single (c ∷ d ∷ m) = none

pub check_steps : Map Context → Check
check_steps [] = none
check_steps ((name, c) ∷ m) = elim c.steps [ [] ↦ some (no_steps name) | _ ↦ check_steps m ]

pub check_initial_step : Bytes → Context → Check
check_initial_step name c = elim c.initial_step [
  | none ↦ none
  | some is ↦
      if has_key is c.steps then none else some (unknown_initial_step name is (keys c.steps))
]

pub check_initial_steps : Map Context → Check
unfolding check_initial_step
check_initial_steps [] = none
check_initial_steps ((name, c) ∷ m) = check_initial_step name c before check_initial_steps m

-- The action of one step, which is at position `i` of an order of `size` names.
pub check_action : Bytes → Context → ℕ → ℕ → Bytes → Bytes → Check
check_action ctx_name c i size step_name action =
    if is_empty action
    then none
    else if str_eq action (codes "next_step")
    then (if leb size (i + 1) then some (next_step_at_end step_name ctx_name) else none)
    else if has_key action c.steps
    then none
    else some (unknown_completion_action step_name ctx_name action (keys c.steps))

pub check_step : Bytes → Context → ℕ → ℕ → Bytes → Check
unfolding check_action
check_step ctx_name c i size step_name = elim (lookup step_name c.steps) [
  | none ↦ none
  | some s ↦ elim s.gather [
    | none ↦ none
    | some g ↦ check_action ctx_name c i size step_name g.completion_action
  ]
]

-- The loop over the order, from position `i` on.
pub check_order : Bytes → Context → ℕ → ℕ → List Bytes → Check
unfolding check_step
check_order ctx_name c i size [] = none
check_order ctx_name c i size (step_name ∷ order) =
    check_step ctx_name c i size step_name before check_order ctx_name c (suc i) size order

pub check_actions : Map Context → Check
unfolding check_order
check_actions [] = none
check_actions ((name, c) ∷ m) =
    check_order name c 0 (length c.step_order) c.step_order before check_actions m

-- `reserved.count(name) > 0`.
pub contains : List Bytes → Bytes → Bool
contains [] name = false
contains (r ∷ rs) name = str_eq r name || contains rs name

pub is_reserved : Bytes → Bool
unfolding reserved_native_tool_names contains
is_reserved name = contains reserved_native_tool_names name

-- The colliding names in the order of registration.
pub collect_reserved : List Bytes → List Bytes
unfolding is_reserved
collect_reserved [] = []
collect_reserved (name ∷ names) =
    if is_reserved name then name ∷ collect_reserved names else collect_reserved names

-- `std::sort` and `std::unique` on the names: a name is inserted once.
pub insert_once : Bytes → List Bytes → List Bytes
insert_once x [] = x ∷ []
insert_once x (y ∷ ys) =
    if str_eq x y then y ∷ ys else if str_ltb x y then x ∷ y ∷ ys else y ∷ insert_once x ys

pub sort_unique : List Bytes → List Bytes
unfolding insert_once
sort_unique [] = []
sort_unique (x ∷ xs) = insert_once x (sort_unique xs)

pub check_tools : Option (List Bytes) → Check
unfolding collect_reserved sort_unique
check_tools none = none
check_tools (some registered) = elim (collect_reserved registered) [
  | [] ↦ none
  | x ∷ xs ↦ some (reserved_tools (sort_unique (x ∷ xs)))
]

pub validate : ContextBuilder → Option (List Bytes) → Check
unfolding check_single check_steps check_initial_steps check_actions check_tools
validate b registered =
    check_single b.contexts
    before check_steps b.contexts
    before check_initial_steps b.contexts
    before check_actions b.contexts
    before check_tools registered
