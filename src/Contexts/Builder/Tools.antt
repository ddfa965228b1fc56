-- ===== src/Contexts/Builder/Tools.antt =====
-- What `validate` asks of the names of the tools.
use signalwire_agents_cpp.Prelude.{
  Option, none, some, false, ◌≡◌, ◌≢◌, ◌↔◌, inl, inr, refl, ◌∷◌, [], List, Bytes, codes, str_eq,
  str_eq_iff, All, Bool-cases,
}
use signalwire_agents_cpp.Contexts.Builder.{
  reserved_tools, sort_unique, Check, reserved_native_tool_names, contains, is_reserved,
  collect_reserved, check_tools,
}

abbrev pub ToolsAreFree : Option (List Bytes) → Type 0
ToolsAreFree none = Unit
ToolsAreFree (some registered) =
    All
      (λ name.
        All (λ r. r ≢ name)
          (codes "change_context" ∷ codes "gather_submit" ∷ codes "next_step" ∷ []))
      registered

contains_iff :
    (rs : List Bytes) (name : Bytes) → (contains rs name ≡ false) ↔ All (λ r. r ≢ name) rs
unfolding contains
contains_iff [] name = (λ h. tt, λ h. refl)
contains_iff (r ∷ rs) name = elim (Bool-cases (str_eq r name)) [
  | inl e ↦ rw e (λ h. cc, λ h. absurd (h.0 ((str_eq_iff r name).0 e)))
  | inr e ↦ rw e (
    λ h. (λ t. cc ((str_eq_iff r name).1 t), (contains_iff rs name).0 h),
    λ h. (contains_iff rs name).1 h.1,
  )
]

IsFree : Bytes → Type 0
IsFree name = All (λ r. r ≢ name) reserved_native_tool_names

collect_reserved_iff : (names : List Bytes) → (collect_reserved names ≡ []) ↔ All IsFree names
unfolding collect_reserved IsFree is_reserved
collect_reserved_iff [] = (λ h. tt, λ h. refl)
collect_reserved_iff (name ∷ names) = elim (Bool-cases (contains reserved_native_tool_names name)) [
  | inl e ↦ rw e (λ h. cc, λ h. cc ((contains_iff reserved_native_tool_names name).1 h.0))
  | inr e ↦ rw e (
    λ h. ((contains_iff reserved_native_tool_names name).0 e, (collect_reserved_iff names).0 h),
    λ h. (collect_reserved_iff names).1 h.1,
  )
]

pub check_tools_iff :
    (registered : Option (List Bytes)) → (check_tools registered ≡ none) ↔ ToolsAreFree registered
unfolding check_tools IsFree reserved_native_tool_names
check_tools_iff none = (λ h. tt, λ h. refl)
check_tools_iff (some registered) =
    let e = collect_reserved_iff registered in (λ h. e.0 (of_nil _ h), λ h. rw (e.1 h, check_tools))
  where
    of_nil :
        (names : List Bytes)
        → (◌≡◌ {A = Check}
            (elim names [ [] ↦ none | x ∷ xs ↦ some (reserved_tools (sort_unique (x ∷ xs))) ])
            none)
        → names ≡ []
    of_nil [] h = refl
    of_nil (x ∷ xs) h = cc
