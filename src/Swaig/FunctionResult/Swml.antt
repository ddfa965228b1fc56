-- ===== src/Swaig/FunctionResult/Swml.antt =====
-- The actions of `FunctionResult` that wrap verbs of SWML: recording, conferences, taps, messages
-- and payments.
use signalwire_agents_cpp.Prelude.{
  Option, none, some, Bool, true, false, not, ◌&&◌, ◌∷◌, [], List, Bytes, codes, is_empty, is_nil,
  str_eq, if◌then◌else◌, ◌==◌,
}
use mathlib.Core.Option
use signalwire_agents_cpp.Prelude.Int.{ℤ, pos, negsuc}
use signalwire_agents_cpp.Prelude.Map.{Map, assign}
use signalwire_agents_cpp.Prelude.Json.{
  Json, boolean, number, string, array, object, fields, assign_if, strings, set_member, truth_text,
}
use signalwire_agents_cpp.Security.Decimal.{to_string}
use signalwire_agents_cpp.Swaig.FunctionResult.{FunctionResult, add_action, verb, document_of}

-- A document that is no object, asked to transfer, throws.
unfoldable pub execute_swml : FunctionResult → Json → Bool → Option FunctionResult
unfolding add_action
execute_swml r swml_content transfer = Option.map (add_action r (codes "SWML")) (
    if transfer
    then set_member (codes "transfer") (string (codes "true")) swml_content
    else some swml_content)

-- `execute_swml(swml_doc)` for the documents that the methods write out: no transfer is asked.
unfoldable pub execute_verbs : FunctionResult → List Json → FunctionResult
unfolding add_action
execute_verbs r verbs = add_action r (codes "SWML") (document_of verbs)

-- The parameters of `record_call`; the times and the sensitivity are numbers already in JSON.
pub record RecordCall : Type 0 where
  pub control_id : Bytes
  pub stereo : Bool
  pub format : Bytes
  pub direction : Bytes
  pub terminators : Bytes
  pub beep : Bool
  pub input_sensitivity : Json
  pub initial_timeout : Option Json
  pub end_silence_timeout : Option Json
  pub max_length : Option Json
  pub status_url : Bytes

-- `if (value.has_value()) m[key] = *value;`
abbrev assign_some : Option Json → Bytes → Map Json → Map Json
assign_some none k m = m
assign_some (some v) k m = assign k v m

-- `if (!text.empty()) m[key] = text;`
abbrev assign_text : Bytes → Bytes → Map Json → Map Json
assign_text text k m = assign_if (not (is_empty text)) k (string text) m

unfoldable pub record_call : FunctionResult → RecordCall → FunctionResult
unfolding execute_verbs
record_call r p =
    let m = fields (
      (codes "stereo", boolean p.stereo)
      ∷ (codes "format", string p.format)
      ∷ (codes "direction", string p.direction)
      ∷ (codes "beep", boolean p.beep)
      ∷ (codes "input_sensitivity", p.input_sensitivity)
      ∷ []) in
    let m = assign_text p.control_id (codes "control_id") m in
    let m = assign_text p.terminators (codes "terminators") m in
    let m = assign_some p.initial_timeout (codes "initial_timeout") m in
    let m = assign_some p.end_silence_timeout (codes "end_silence_timeout") m in
    let m = assign_some p.max_length (codes "max_length") m in
    let m = assign_text p.status_url (codes "status_url") m in
    execute_verbs r (verb (codes "record_call") (object m) ∷ [])

unfoldable pub stop_record_call : FunctionResult → Bytes → FunctionResult
unfolding execute_verbs
stop_record_call r control_id =
    execute_verbs r (
      verb (codes "stop_record_call") (object (assign_text control_id (codes "control_id") []))
      ∷ [])

unfoldable pub join_conference : FunctionResult → Bytes → Bool → Bytes → FunctionResult
unfolding execute_verbs
join_conference r name muted beep =
    let loud = str_eq beep (codes "true") in
    if not muted && loud
    then execute_verbs r (verb (codes "join_conference") (string name) ∷ [])
    else let m = assign (codes "name") (string name) [] in
      let m = assign_if muted (codes "muted") (boolean true) m in
      let m = assign_if (not loud) (codes "beep") (string beep) m in
      execute_verbs r (verb (codes "join_conference") (object m) ∷ [])

unfoldable pub join_room : FunctionResult → Bytes → FunctionResult
unfolding execute_verbs
join_room r name =
    execute_verbs r (verb (codes "join_room") (object ((codes "name", string name) ∷ [])) ∷ [])

unfoldable pub sip_refer : FunctionResult → Bytes → FunctionResult
unfolding execute_verbs
sip_refer r to_uri =
    execute_verbs r (verb (codes "sip_refer") (object ((codes "to_uri", string to_uri) ∷ [])) ∷ [])

abbrev is_20 : ℤ → Bool
is_20 (pos n) = n == 20
is_20 (negsuc n) = false

unfoldable pub tap : FunctionResult → Bytes → Bytes → Bytes → Bytes → ℤ → Bytes → FunctionResult
unfolding execute_verbs
tap r uri control_id direction codec rtp_ptime status_url =
    let m = assign (codes "uri") (string uri) [] in
    let m = assign_text control_id (codes "control_id") m in
    let m =
      assign_if (not (str_eq direction (codes "both"))) (codes "direction") (string direction) m in
    let m = assign_if (not (str_eq codec (codes "PCMU"))) (codes "codec") (string codec) m in
    let m = assign_if (not (is_20 rtp_ptime)) (codes "rtp_ptime") (number rtp_ptime) m in
    let m = assign_text status_url (codes "status_url") m in
    execute_verbs r (verb (codes "tap") (object m) ∷ [])

unfoldable pub stop_tap : FunctionResult → Bytes → FunctionResult
unfolding execute_verbs
stop_tap r control_id =
    execute_verbs r
      (verb (codes "stop_tap") (object (assign_text control_id (codes "control_id") [])) ∷ [])

-- `none`: `std::invalid_argument`.
unfoldable pub send_sms :
    FunctionResult → Bytes → Bytes → Bytes → List Bytes → List Bytes → Bytes → Option FunctionResult
unfolding execute_verbs
send_sms r to from body media tags region =
    if is_empty body && is_nil media
    then none
    else let m =
        fields ((codes "to_number", string to) ∷ (codes "from_number", string from) ∷ []) in
      let m = assign_text body (codes "body") m in
      let m = assign_if (not (is_nil media)) (codes "media") (strings media) m in
      let m = assign_if (not (is_nil tags)) (codes "tags") (strings tags) m in
      let m = assign_text region (codes "region") m in
      some (execute_verbs r (verb (codes "send_sms") (object m) ∷ []))

pub record Payment : Type 0 where
  pub payment_connector_url : Bytes
  pub input_method : Bytes
  pub status_url : Bytes
  pub payment_method : Bytes
  pub timeout : ℤ
  pub max_attempts : ℤ
  pub security_code : Bool
  pub postal_code : Bytes
  pub min_postal_code_length : ℤ
  pub token_type : Bytes
  pub charge_amount : Bytes
  pub currency : Bytes
  pub language : Bytes
  pub voice : Bytes
  pub description_text : Bytes
  pub valid_card_types : Bytes
  pub parameters : List Json
  pub prompts : List Json
  pub ai_response : Bytes

unfoldable pub pay : FunctionResult → Payment → FunctionResult
unfolding execute_verbs
pay r p =
    let m = fields (
      (codes "payment_connector_url", string p.payment_connector_url)
      ∷ (codes "input", string p.input_method)
      ∷ (codes "payment_method", string p.payment_method)
      ∷ (codes "timeout", string (to_string p.timeout))
      ∷ (codes "max_attempts", string (to_string p.max_attempts))
      ∷ (codes "security_code", truth_text p.security_code)
      ∷ (codes "postal_code", string p.postal_code)
      ∷ (codes "min_postal_code_length", string (to_string p.min_postal_code_length))
      ∷ (codes "token_type", string p.token_type)
      ∷ (codes "currency", string p.currency)
      ∷ (codes "language", string p.language)
      ∷ (codes "voice", string p.voice)
      ∷ (codes "valid_card_types", string p.valid_card_types)
      ∷ []) in
    let m = assign_text p.status_url (codes "status_url") m in
    let m = assign_text p.charge_amount (codes "charge_amount") m in
    let m = assign_text p.description_text (codes "description") m in
    let m = assign_if (not (is_nil p.parameters)) (codes "parameters") (array p.parameters) m in
    let m = assign_if (not (is_nil p.prompts)) (codes "prompts") (array p.prompts) m in
    execute_verbs r (
      verb (codes "set") (object ((codes "ai_response", string p.ai_response) ∷ []))
      ∷ verb (codes "pay") (object m)
      ∷ [])
