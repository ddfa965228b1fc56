-- ===== src/Swaig/FunctionResult.antt =====
-- `FunctionResult` of src/swaig/function_result.cpp: what a tool answers, as a text and a list of
-- actions. The children hold the actions that wrap a SWML document.
pub mod Swml
pub mod Rpc
pub mod Rendering
use signalwire_agents_cpp.Prelude.{
  ℕ, Option, none, some, Bool, true, false, not, ◌&&◌, ◌≡◌, refl, ◌∷◌, [], ◌++◌, List, Bytes, codes,
  is_empty, is_nil, if◌then◌else◌, leb,
}
use signalwire_agents_cpp.Prelude.Int.{ℤ, pos, negsuc}
use signalwire_agents_cpp.Prelude.Map.{Map, assign}
use signalwire_agents_cpp.Prelude.Json.{
  Json, null, boolean, number, string, array, object, object_or_null, fields, assign_if, truth_text,
}

pub record FunctionResult : Type 0 where
  pub response : Bytes
  pub actions : List Json
  pub post_process : Bool

unfoldable pub new_result : Bytes → Bool → FunctionResult
new_result response post_process = record {
  response = response;
  actions = [];
  post_process = post_process;
}

unfoldable pub set_response : FunctionResult → Bytes → FunctionResult
set_response r response = record r { response = response }

unfoldable pub set_post_process : FunctionResult → Bool → FunctionResult
set_post_process r pp = record r { post_process = pp }

-- `actions_.push_back(action)`.
abbrev pub push_action : FunctionResult → Json → FunctionResult
push_action r action = record r { actions = r.actions ++ action ∷ [] }

unfoldable pub add_action : FunctionResult → Bytes → Json → FunctionResult
add_action r name value = push_action r (object ((name, value) ∷ []))

unfoldable pub add_actions : FunctionResult → List Json → FunctionResult
add_actions r [] = r
add_actions r (a ∷ actions) = add_actions (push_action r a) actions

-- `{verb: params}`.
abbrev pub verb : Bytes → Json → Json
verb name params = object ((name, params) ∷ [])

-- The document that the methods write out around the verbs of its main section.
abbrev pub document_of : List Json → Json
document_of verbs = object (
    fields (
      (codes "sections", object ((codes "main", array verbs) ∷ []))
      ∷ (codes "version", string (codes "1.0.0"))
      ∷ []))

-- Call control.
unfoldable pub connect : FunctionResult → Bytes → Bool → Bytes → FunctionResult
connect r destination final_val from_addr =
    let connect_params = assign (codes "to") (string destination) [] in
    let connect_params =
      assign_if (not (is_empty from_addr)) (codes "from") (string from_addr) connect_params in
    push_action r (
      object (
        assign (codes "transfer") (truth_text final_val) (
          assign (codes "SWML") (document_of (verb (codes "connect") (object connect_params) ∷ []))
            [])))

unfoldable pub swml_transfer : FunctionResult → Bytes → Bytes → Bool → FunctionResult
swml_transfer r dest ai_response final_val = push_action r (
    object (
      assign (codes "transfer") (truth_text final_val) (
        assign (codes "SWML")
          (document_of (
            verb (codes "set") (object ((codes "ai_response", string ai_response) ∷ []))
            ∷ verb (codes "transfer") (object ((codes "dest", string dest) ∷ []))
            ∷ []))
          [])))

unfoldable pub hangup : FunctionResult → FunctionResult
unfolding add_action
hangup r = add_action r (codes "hangup") (boolean true)

-- `max(0, min(timeout, 900))`.
abbrev pub clamped : ℤ → ℕ
clamped (pos n) = if leb n 900 then n else 900
clamped (negsuc n) = 0

unfoldable pub hold : FunctionResult → ℤ → FunctionResult
unfolding add_action
hold r timeout = add_action r (codes "hold") (number (pos (clamped timeout)))

unfoldable pub wait_for_user : FunctionResult → Option Bool → Option ℤ → Bool → FunctionResult
unfolding add_action
wait_for_user r enabled timeout true =
    add_action r (codes "wait_for_user") (string (codes "answer_first"))
wait_for_user r enabled (some t) false = add_action r (codes "wait_for_user") (number t)
wait_for_user r (some e) none false = add_action r (codes "wait_for_user") (boolean e)
wait_for_user r none none false = add_action r (codes "wait_for_user") (boolean true)

unfoldable pub stop : FunctionResult → FunctionResult
unfolding add_action
stop r = add_action r (codes "stop") (boolean true)

-- State and data.
unfoldable pub update_global_data : FunctionResult → Json → FunctionResult
unfolding add_action
update_global_data r value = add_action r (codes "set_global_data") value

unfoldable pub remove_global_data : FunctionResult → Json → FunctionResult
unfolding add_action
remove_global_data r keys = add_action r (codes "unset_global_data") keys

unfoldable pub set_metadata : FunctionResult → Json → FunctionResult
unfolding add_action
set_metadata r value = add_action r (codes "set_meta_data") value

unfoldable pub remove_metadata : FunctionResult → Json → FunctionResult
unfolding add_action
remove_metadata r keys = add_action r (codes "unset_meta_data") keys

unfoldable pub swml_user_event : FunctionResult → Json → FunctionResult
unfolding add_action
swml_user_event r event_data =
    add_action r (codes "SWML")
      (document_of (verb (codes "user_event") (object ((codes "event", event_data) ∷ [])) ∷ []))

unfoldable pub swml_change_step : FunctionResult → Bytes → FunctionResult
unfolding add_action
swml_change_step r step_name = add_action r (codes "change_step") (string step_name)

unfoldable pub swml_change_context : FunctionResult → Bytes → FunctionResult
unfolding add_action
swml_change_context r context_name = add_action r (codes "change_context") (string context_name)

unfoldable pub switch_context : FunctionResult → Bytes → Bytes → Bool → Bool → FunctionResult
unfolding add_action
switch_context r system_prompt user_prompt consolidate full_reset =
    if not (is_empty system_prompt) && is_empty user_prompt && not consolidate && not full_reset
    then add_action r (codes "context_switch") (string system_prompt)
    else add_action r (codes "context_switch") (
        object_or_null (
          assign_if full_reset (codes "full_reset") (boolean true) (
            assign_if consolidate (codes "consolidate") (boolean true) (
              assign_if (not (is_empty user_prompt)) (codes "user_prompt") (string user_prompt) (
                assign_if (not (is_empty system_prompt)) (codes "system_prompt")
                  (string system_prompt) [])))))

unfoldable pub replace_in_history : FunctionResult → Json → FunctionResult
unfolding add_action
replace_in_history r text = add_action r (codes "replace_in_history") text

-- Media.
unfoldable pub say : FunctionResult → Bytes → FunctionResult
unfolding add_action
say r text = add_action r (codes "say") (string text)

unfoldable pub play_background_file : FunctionResult → Bytes → Bool → FunctionResult
unfolding add_action
play_background_file r filename true =
    add_action r (codes "playback_bg")
      (object (fields ((codes "file", string filename) ∷ (codes "wait", boolean true) ∷ [])))
play_background_file r filename false = add_action r (codes "playback_bg") (string filename)

unfoldable pub stop_background_file : FunctionResult → FunctionResult
unfolding add_action
stop_background_file r = add_action r (codes "stop_playback_bg") (boolean true)

-- Speech and settings of the model.
unfoldable pub add_dynamic_hints : FunctionResult → Json → FunctionResult
unfolding add_action
add_dynamic_hints r hints = add_action r (codes "add_dynamic_hints") hints

unfoldable pub clear_dynamic_hints : FunctionResult → FunctionResult
clear_dynamic_hints r = push_action r (object ((codes "clear_dynamic_hints", object []) ∷ []))

unfoldable pub set_end_of_speech_timeout : FunctionResult → ℤ → FunctionResult
unfolding add_action
set_end_of_speech_timeout r ms = add_action r (codes "end_of_speech_timeout") (number ms)

unfoldable pub set_speech_event_timeout : FunctionResult → ℤ → FunctionResult
unfolding add_action
set_speech_event_timeout r ms = add_action r (codes "speech_event_timeout") (number ms)

unfoldable pub toggle_functions : FunctionResult → Json → FunctionResult
unfolding add_action
toggle_functions r function_toggles = add_action r (codes "toggle_functions") function_toggles

unfoldable pub enable_functions_on_timeout : FunctionResult → Bool → FunctionResult
unfolding add_action
enable_functions_on_timeout r enabled =
    add_action r (codes "functions_on_speaker_timeout") (boolean enabled)

unfoldable pub enable_extensive_data : FunctionResult → Bool → FunctionResult
unfolding add_action
enable_extensive_data r enabled = add_action r (codes "extensive_data") (boolean enabled)

unfoldable pub update_settings : FunctionResult → Json → FunctionResult
unfolding add_action
update_settings r settings = add_action r (codes "settings") settings

unfoldable pub simulate_user_input : FunctionResult → Bytes → FunctionResult
unfolding add_action
simulate_user_input r text = add_action r (codes "user_input") (string text)

unfoldable pub to_json : FunctionResult → Json
to_json r =
    let acts = not (is_nil r.actions) in
    let m = assign_if (not (is_empty r.response)) (codes "response") (string r.response) [] in
    let m = assign_if acts (codes "action") (array r.actions) m in
    let m = assign_if (r.post_process && acts) (codes "post_process") (boolean true) m in
    if is_nil m
    then object (assign (codes "response") (string (codes "Action completed.")) m)
    else object m
