-- ===== src/Contexts/Tests.antt =====
-- The theorems of the contexts at concrete inputs.
use signalwire_agents_cpp.Prelude.{◌≡◌, ◌↔◌, none, some, ◌∷◌, [], List, codes}
use signalwire_agents_cpp.Prelude.Int.{negsuc}
use signalwire_agents_cpp.Contexts.Context.{Context, new_context}
use signalwire_agents_cpp.Contexts.Context.Order.{
  Edit, adds, removes, moves, edits, IsConsistent, edits-new_context-IsConsistent,
}
use signalwire_agents_cpp.Contexts.Builder.{ContextBuilder, validate}
use signalwire_agents_cpp.Contexts.Builder.Valid.{IsValid, validate_iff}

abbrev calls : List Edit
calls =
    adds (codes "greet") (codes "Say hello") [] [] none []
    ∷ adds (codes "ask") [] (codes "a" ∷ []) [] none []
    ∷ moves (codes "ask") (negsuc 0)
    ∷ removes (codes "greet")
    ∷ adds (codes "ask") [] [] [] none []
    ∷ []

edits-new_context-IsConsistent_example : IsConsistent (edits (new_context (codes "default")) calls)
edits-new_context-IsConsistent_example = edits-new_context-IsConsistent (codes "default") calls

abbrev context : Context
context = edits (new_context (codes "default")) calls

abbrev builder : ContextBuilder
builder = record {
  contexts = (codes "default", context) ∷ [];
  context_order = codes "default" ∷ [];
}

validate_iff_example :
    (validate builder (some (codes "lookup" ∷ [])) ≡ none)
    ↔ IsValid builder (some (codes "lookup" ∷ []))
validate_iff_example = validate_iff builder (some (codes "lookup" ∷ []))
