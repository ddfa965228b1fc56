-- ===== src/Swaig/FunctionResult/Rpc.antt =====
-- The remote calls of `FunctionResult` and its static helpers for payments.
use signalwire_agents_cpp.Prelude.{
  Option, some, not, ◌∷◌, [], List, Bytes, codes, is_empty, ◌>>=◌, if◌then◌else◌,
}
use signalwire_agents_cpp.Prelude.Json.{Json, string, array, object, fields, assign_if, set_member}
use signalwire_agents_cpp.Swaig.FunctionResult.{FunctionResult, verb}
use signalwire_agents_cpp.Swaig.FunctionResult.Swml.{execute_verbs}

-- `if (!text.empty()) value[key] = text;`
unfoldable pub set_text : Bytes → Bytes → Json → Option Json
set_text k text value = if is_empty text then some value else set_member k (string text) value

-- Parameters that are no object throw when an identifier is given.
unfoldable pub execute_rpc : FunctionResult → Bytes → Json → Bytes → Bytes → Option FunctionResult
unfolding execute_verbs set_text
execute_rpc r method params call_id node_id = do
  with_call ← set_text (codes "call_id") call_id params
  rpc_params ← set_text (codes "node_id") node_id with_call
  some (
      execute_verbs r (
        verb (codes "execute_rpc")
          (object (fields ((codes "method", string method) ∷ (codes "params", rpc_params) ∷ [])))
        ∷ []))

unfoldable pub rpc_dial : FunctionResult → Bytes → Bytes → Bytes → Bytes → Option FunctionResult
unfolding execute_rpc
rpc_dial r to_number from_number dest_swml device_type =
    let numbers =
      fields
        ((codes "to_number", string to_number) ∷ (codes "from_number", string from_number) ∷ []) in
    let devices =
      fields ((codes "type", string device_type) ∷ (codes "params", object numbers) ∷ []) in
    execute_rpc r (codes "dial")
      (object
        (fields ((codes "devices", object devices) ∷ (codes "dest_swml", string dest_swml) ∷ [])))
      [] []

unfoldable pub rpc_ai_message : FunctionResult → Bytes → Bytes → Bytes → Option FunctionResult
unfolding execute_rpc
rpc_ai_message r call_id message_text role =
    execute_rpc r (codes "ai_message")
      (object
        (fields ((codes "role", string role) ∷ (codes "message_text", string message_text) ∷ [])))
      call_id []

unfoldable pub rpc_ai_unhold : FunctionResult → Bytes → Option FunctionResult
unfolding execute_rpc
rpc_ai_unhold r call_id = execute_rpc r (codes "ai_unhold") (object []) call_id []

unfoldable pub create_payment_prompt : Bytes → List Json → Bytes → Bytes → Json
create_payment_prompt for_situation actions card_type error_type =
    let m = fields ((codes "for", string for_situation) ∷ (codes "actions", array actions) ∷ []) in
    let m = assign_if (not (is_empty card_type)) (codes "card_type") (string card_type) m in
    let m = assign_if (not (is_empty error_type)) (codes "error_type") (string error_type) m in
    object m

unfoldable pub create_payment_action : Bytes → Bytes → Json
create_payment_action action_type phrase =
    object (fields ((codes "type", string action_type) ∷ (codes "phrase", string phrase) ∷ []))

unfoldable pub create_payment_parameter : Bytes → Bytes → Json
create_payment_parameter name value =
    object (fields ((codes "name", string name) ∷ (codes "value", string value) ∷ []))
