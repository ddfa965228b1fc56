-- ===== src/Swaig/FunctionResult/Rendering.antt =====
-- What a result renders to, key by key.
use signalwire_agents_cpp.Prelude.{
  Option, none, some, Bool, true, false, not, ◌&&◌, ◌≡◌, refl, ◌∷◌, [], List, Bytes, codes,
  is_empty, is_nil, if◌then◌else◌, str_eq,
}
use signalwire_agents_cpp.Prelude.Strings.{str_ltb}
use signalwire_agents_cpp.Prelude.Map.{assign, lookup}
use signalwire_agents_cpp.Prelude.Json.{Json, boolean, string, array, object, map_in}
use signalwire_agents_cpp.Swaig.FunctionResult.{to_json}

-- The members of a rendered result.
abbrev pub rendered : Bytes → List Json → Bool → Bytes → Option Json
rendered response actions post_process k =
    let acts = not (is_nil actions) in
    if acts && str_eq (codes "action") k
    then some (array actions)
    else if (post_process && acts) && str_eq (codes "post_process") k
    then some (boolean true)
    else if not (is_empty response) && str_eq (codes "response") k
    then some (string response)
    else if (is_empty response && not acts) && str_eq (codes "response") k
    then some (string (codes "Action completed."))
    else none

-- A result renders to an object with exactly these members: under "action" its actions, when it has
-- any; "post_process", only beside actions; under "response" its text when that is not empty, and a
-- default text when there are no actions either. So one of the two is always there.
pub to_json-rendered :
    (response : Bytes) (actions : List Json) (pp : Bool)
    → let j = to_json (record { response = response; actions = actions; post_process = pp }) in
      (j ≡ object (map_in j)) × ((k : Bytes) → lookup k (map_in j) ≡ rendered response actions pp k)
unfolding to_json lookup assign str_eq str_ltb
to_json-rendered [] [] true = (refl, λ k. refl)
to_json-rendered [] [] false = (refl, λ k. refl)
to_json-rendered [] (a ∷ rest) true = (refl, λ k. refl)
to_json-rendered [] (a ∷ rest) false = (refl, λ k. refl)
to_json-rendered (c ∷ s) [] true = (refl, λ k. refl)
to_json-rendered (c ∷ s) [] false = (refl, λ k. refl)
to_json-rendered (c ∷ s) (a ∷ rest) true = (refl, λ k. refl)
to_json-rendered (c ∷ s) (a ∷ rest) false = (refl, λ k. refl)
