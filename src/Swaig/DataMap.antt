-- ===== src/Swaig/DataMap.antt =====
-- `DataMap` of src/datamap/datamap.cpp: the builder of a tool that runs on the server.
pub mod Calls
pub mod Premature
use signalwire_agents_cpp.Prelude.{
  Option, none, some, Bool, true, false, not, ◌∷◌, [], ◌++◌, List, map, Bytes, codes, is_empty,
  is_nil, if◌then◌else◌,
}
use mathlib.Core.Option
use signalwire_agents_cpp.Prelude.Map.{Map, assign}
use signalwire_agents_cpp.Prelude.Json.{
  Json, boolean, string, array, object, object_or_null, fields, assign_if, strings, is_empty_json,
}
use signalwire_agents_cpp.Swaig.FunctionResult.{FunctionResult, to_json}

-- `parameters_` once a parameter was declared; "type" is always "object".
pub record Parameters : Type 0 where
  pub properties : Map Json
  pub required : Option (List Bytes)

-- A webhook is an object, kept as the map of its members; `output` is null until it is set.
pub record DataMap : Type 0 where
  pub function_name : Bytes
  pub purpose : Bytes
  pub parameters : Option Parameters
  pub expressions : List Json
  pub webhooks : List (Map Json)
  pub output : Option Json
  pub error_keys : List Bytes

unfoldable pub new_data_map : Bytes → DataMap
new_data_map function_name = record {
  function_name = function_name;
  purpose = [];
  parameters = none;
  expressions = [];
  webhooks = [];
  output = none;
  error_keys = [];
}

unfoldable pub set_purpose : DataMap → Bytes → DataMap
set_purpose d desc = record d { purpose = desc }

abbrev first_parameters : Option Parameters → Parameters
first_parameters none = record { properties = []; required = none }
first_parameters (some p) = p

abbrev pub require : Bytes → Option (List Bytes) → Option (List Bytes)
require name none = some (name ∷ [])
require name (some names) = some (names ++ name ∷ [])

unfoldable pub parameter : DataMap → Bytes → Bytes → Bytes → Bool → List Bytes → DataMap
parameter d name param_type desc required enum_values =
    let p = first_parameters d.parameters in
    let param =
      fields ((codes "type", string param_type) ∷ (codes "description", string desc) ∷ []) in
    let param = assign_if (not (is_nil enum_values)) (codes "enum") (strings enum_values) param in
    record d {
      parameters = some (record {
        properties = assign name (object param) p.properties;
        required = if required then require name p.required else p.required;
      });
    }

abbrev nomatch : Option FunctionResult → Map Json → Map Json
nomatch none m = m
nomatch (some r) m = assign (codes "nomatch_output") (to_json r) m

unfoldable pub expression :
    DataMap → Bytes → Bytes → FunctionResult → Option FunctionResult → DataMap
unfolding to_json
expression d test_value pattern output_result nomatch_output =
    let expr = fields (
      (codes "string", string test_value)
      ∷ (codes "pattern", string pattern)
      ∷ (codes "output", to_json output_result)
      ∷ []) in
    record d { expressions = d.expressions ++ object (nomatch nomatch_output expr) ∷ [] }

unfoldable pub webhook : DataMap → Bytes → Bytes → Json → Bytes → Bool → List Bytes → DataMap
webhook d method url headers form_param input_args_as_params require_args =
    let wh = fields ((codes "method", string method) ∷ (codes "url", string url) ∷ []) in
    let wh = assign_if (not (is_empty_json headers)) (codes "headers") headers wh in
    let wh = assign_if (not (is_empty form_param)) (codes "form_param") (string form_param) wh in
    let wh = assign_if input_args_as_params (codes "input_args_as_params") (boolean true) wh in
    let wh =
      assign_if (not (is_nil require_args)) (codes "require_args") (strings require_args) wh in
    record d { webhooks = d.webhooks ++ wh ∷ [] }

-- `webhooks_.back()[key] = value`.
unfoldable pub set_last : Bytes → Json → List (Map Json) → List (Map Json)
set_last k v [] = []
set_last k v (w ∷ []) = assign k v w ∷ []
set_last k v (w ∷ w' ∷ ws) = w ∷ set_last k v (w' ∷ ws)

unfoldable pub webhook_expressions : DataMap → List Json → DataMap
unfolding set_last
webhook_expressions d expressions = record d {
  webhooks = set_last (codes "expressions") (array expressions) d.webhooks;
}

-- `none`: `std::runtime_error`.
unfoldable pub body : DataMap → Json → Option DataMap
unfolding set_last
body d value =
    if is_nil d.webhooks
    then none
    else some (record d { webhooks = set_last (codes "body") value d.webhooks })

unfoldable pub params : DataMap → Json → Option DataMap
unfolding set_last
params d value =
    if is_nil d.webhooks
    then none
    else some (record d { webhooks = set_last (codes "params") value d.webhooks })

unfoldable pub foreach : DataMap → Json → DataMap
unfolding set_last
foreach d foreach_config = record d {
  webhooks = set_last (codes "foreach") foreach_config d.webhooks;
}

unfoldable pub set_output : DataMap → FunctionResult → DataMap
unfolding set_last to_json
set_output d result =
    if is_nil d.webhooks
    then record d { output = some (to_json result) }
    else record d { webhooks = set_last (codes "output") (to_json result) d.webhooks }

unfoldable pub fallback_output : DataMap → FunctionResult → DataMap
unfolding to_json
fallback_output d result = record d { output = some (to_json result) }

unfoldable pub set_error_keys : DataMap → List Bytes → DataMap
unfolding set_last
set_error_keys d keys =
    if is_nil d.webhooks
    then record d { error_keys = keys }
    else record d { webhooks = set_last (codes "error_keys") (strings keys) d.webhooks }

unfoldable pub global_error_keys : DataMap → List Bytes → DataMap
global_error_keys d keys = record d { error_keys = keys }

abbrev pub required_json : Option (List Bytes) → Map Json → Map Json
required_json none m = m
required_json (some names) m = assign (codes "required") (strings names) m

abbrev pub parameters_json : Option Parameters → Json
parameters_json none =
    object (fields ((codes "type", string (codes "object")) ∷ (codes "properties", object []) ∷ []))
parameters_json (some p) = object (
    required_json p.required (
      fields
        ((codes "type", string (codes "object")) ∷ (codes "properties", object p.properties) ∷ [])))

abbrev output_json : Option Json → Map Json → Map Json
output_json none m = m
output_json (some j) m = assign (codes "output") j m

unfoldable pub to_swaig_function : DataMap → Json
to_swaig_function d =
    let func = assign (codes "function") (string d.function_name) [] in
    let func = assign_if (not (is_empty d.purpose)) (codes "description") (string d.purpose) func in
    let func = assign (codes "parameters") (parameters_json d.parameters) func in
    let dm =
      assign_if (not (is_nil d.expressions)) (codes "expressions") (array d.expressions) [] in
    let dm =
      assign_if (not (is_nil d.webhooks)) (codes "webhooks") (array (map object d.webhooks)) dm in
    let dm = output_json d.output dm in
    let dm = assign_if (not (is_nil d.error_keys)) (codes "error_keys") (strings d.error_keys) dm in
    object (assign (codes "data_map") (object_or_null dm) func)
