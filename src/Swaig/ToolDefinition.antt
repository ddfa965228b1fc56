-- ===== src/Swaig/ToolDefinition.antt =====
-- `ToolDefinition` of include/signalwire/swaig/tool_definition.hpp, without its handler, which the
-- rendering does not read.
use signalwire_agents_cpp.Prelude.{Bool, true, not, ◌∷◌, [], Bytes, codes, is_empty, if◌then◌else◌}
use signalwire_agents_cpp.Prelude.Map.{assign}
use signalwire_agents_cpp.Prelude.Json.{
  Json, boolean, string, object, fields, assign_if, is_empty_json,
}

pub record ToolDefinition : Type 0 where
  pub name : Bytes
  pub description : Bytes
  pub parameters : Json
  pub secure : Bool

unfoldable pub to_swaig_json : ToolDefinition → Bytes → Json
to_swaig_json t web_hook_url =
    let m =
      fields
        ((codes "function", string t.name) ∷ (codes "description", string t.description) ∷ []) in
    let m =
      assign (codes "parameters")
        (if is_empty_json t.parameters
          then object (
              fields
                ((codes "type", string (codes "object")) ∷ (codes "properties", object []) ∷ []))
          else t.parameters)
        m in
    let m =
      assign_if (not (is_empty web_hook_url)) (codes "web_hook_url") (string web_hook_url) m in
    let m = assign_if t.secure (codes "secure") (boolean true) m in object m
