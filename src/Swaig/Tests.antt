-- ===== src/Swaig/Tests.antt =====
-- The theorems of the tools at concrete inputs.
use signalwire_agents_cpp.Prelude.{
  ◌≡◌, ◌↔◌, refl, ◌∷◌, [], List, codes, true, false, Option, none, some, length, Bytes,
}
use signalwire_agents_cpp.Prelude.Map.{lookup}
use signalwire_agents_cpp.Prelude.Json.{null, string, object, map_in}
use signalwire_agents_cpp.Swaig.FunctionResult.{to_json}
use signalwire_agents_cpp.Swaig.FunctionResult.Rendering.{rendered, to_json-rendered}
use signalwire_agents_cpp.Swaig.DataMap.{DataMap, new_data_map, body, webhook, parameter}
use signalwire_agents_cpp.Swaig.DataMap.Calls.{
  Setting, parameters, webhooks, bodies, apply, run, is_premature, count_webhooks, required_names,
  required_in, run-collects,
}
use signalwire_agents_cpp.Swaig.DataMap.Premature.{run-none_iff}

to_json-rendered_example :
    let j =
      to_json
        (record { response = []; actions = string (codes "stop") ∷ []; post_process = true }) in
    (j ≡ object (map_in j))
    × ((k : Bytes) → lookup k (map_in j) ≡ rendered [] (string (codes "stop") ∷ []) true k)
to_json-rendered_example = to_json-rendered [] (string (codes "stop") ∷ []) true

abbrev early : List Setting
early = bodies null ∷ webhooks (codes "GET") (codes "https://a.test") null [] false [] ∷ []

run-none_iff_example :
    (run (new_data_map (codes "weather")) early ≡ none) ↔ (is_premature false early ≡ true)
run-none_iff_example = run-none_iff (codes "weather") early

abbrev calls : List Setting
calls =
    parameters (codes "city") (codes "string") (codes "The city") true []
    ∷ webhooks (codes "GET") (codes "https://a.test") null [] false []
    ∷ bodies null
    ∷ parameters (codes "unit") (codes "string") (codes "The unit") false (codes "C" ∷ [])
    ∷ []

abbrev found : Option DataMap → DataMap
found none = new_data_map []
found (some d) = d

run-collects_example :
    (length (found (run (new_data_map (codes "weather")) calls)).webhooks ≡ count_webhooks calls)
    × (required_names (found (run (new_data_map (codes "weather")) calls)) ≡ required_in calls)
unfolding run apply body webhook parameter new_data_map
run-collects_example =
    run-collects (codes "weather") calls (found (run (new_data_map (codes "weather")) calls)) refl
