-- ===== src/Swml/Service/Tools.antt =====
-- The tool registry of `Service` in src/swml/service.cpp.
use signalwire_agents_cpp.Prelude.{
  Option, none, some, Bool, true, false, ◌||◌, ◌∷◌, [], ◌++◌, List, Bytes, codes, str_eq,
  if◌then◌else◌, is_some,
}
use signalwire_agents_cpp.Prelude.Map.{Map, lookup, assign, erase}
use signalwire_agents_cpp.Prelude.Json.{Json, string, object_of, map_of}
use signalwire_agents_cpp.Swaig.ToolDefinition.{ToolDefinition}

pub record Tools : Type 0 where
  pub tools : Map ToolDefinition
  pub tool_order : List Bytes
  pub registered : List Json

abbrev pub no_tools : Tools
no_tools = record { tools = []; tool_order = []; registered = [] }

-- `std::find(...) != end()`.
unfoldable pub is_listed : Bytes → List Bytes → Bool
is_listed name [] = false
is_listed name (n ∷ ns) = str_eq n name || is_listed name ns

-- `if (std::find(...) == end()) tool_order_.push_back(name)`.
unfoldable pub list_once : Bytes → List Bytes → List Bytes
unfolding is_listed
list_once name order = if is_listed name order then order else order ++ name ∷ []

unfoldable pub define_tool : Tools → ToolDefinition → Tools
unfolding list_once
define_tool t tool = record t {
  tools = assign tool.name tool t.tools;
  tool_order = list_once tool.name t.tool_order;
}

abbrev pub name_member : Json → Option Json
name_member (object_of ms) = lookup (codes "function") (map_of ms)
name_member j = none

abbrev pub register_named : Tools → Json → Option Json → Option Tools
register_named t func_def none = some t
register_named t func_def (some (string name)) = some (record t {
  registered = t.registered ++ func_def ∷ [];
  tool_order = list_once name t.tool_order;
})
register_named t func_def (some j) = none

-- A definition without a name is ignored; a name that is no text throws (`none`).
unfoldable pub register_swaig_function : Tools → Json → Option Tools
unfolding list_once
register_swaig_function t func_def = register_named t func_def (name_member func_def)

unfoldable pub has_function : Tools → Bytes → Bool
has_function t name = is_some (lookup name t.tools)

-- `std::remove`.
unfoldable pub without : Bytes → List Bytes → List Bytes
without name [] = []
without name (n ∷ ns) = if str_eq n name then without name ns else n ∷ without name ns

unfoldable pub remove_function : Tools → Bytes → Bool × Tools
unfolding without
remove_function t name = elim (lookup name t.tools) [
  | none ↦ (false, t)
  | some tool ↦
      (true, record t { tools = erase name t.tools; tool_order = without name t.tool_order })
]
