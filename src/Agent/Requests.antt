-- ===== src/Agent/Requests.antt =====
-- The HTTP requests of an agent, in src/agent/agent_base.cpp: function calls and post prompts. The
-- handlers of the tools and `json::parse` are parameters, and so is the clock. The headers that
-- every response gets are left out.
pub mod Calls
pub mod Mcp
use signalwire_agents_cpp.Prelude.{
  ℕ, Option, none, some, Bool, true, false, ◌∷◌, [], ◌++◌, Bytes, codes, is_empty, if◌then◌else◌,
  ◌>>=◌,
}
use signalwire_agents_cpp.Prelude.Int.{ℤ}
use signalwire_agents_cpp.Prelude.Map.{Map, lookup}
use signalwire_agents_cpp.Prelude.Json.{
  Json, null, boolean, number, string, array_of, object_of, object, item, map_in,
}
use signalwire_agents_cpp.Security.Crypto.{Crypto}
use signalwire_agents_cpp.Security.Session.{SessionManager, create_token, validate_token}
use signalwire_agents_cpp.Swaig.FunctionResult.{FunctionResult, new_result}
use signalwire_agents_cpp.Swaig.ToolDefinition.{ToolDefinition}
use signalwire_agents_cpp.Swml.Service.{Auth, Answer, authorized, validate_auth}
use signalwire_agents_cpp.Swml.Service.Tools.{Tools, has_function}

-- What a handler does: it returns a result, or throws an exception with a text.
pub data Outcome : Type 0 where
  returned : FunctionResult → Outcome
  threw : Bytes → Outcome

-- The handler that a tool was defined with; `none` for an empty `std::function`.
abbrev pub Handlers : Type 0
Handlers = Bytes → Option (Json → Json → Outcome)

pub data Response : Type 0 where
  denied : Answer → Response
  empty_body invalid_json missing_function_name invalid_token status_ok : Response
  unknown_function : Bytes → Response
  result : FunctionResult → Response
  throws : Response

-- The status that the handler sets; an exception is left to the HTTP library.
abbrev pub status : Response → Option ℕ
status (denied a) = some 401
status empty_body = some 400
status invalid_json = some 400
status missing_function_name = some 400
status invalid_token = some 403
status (unknown_function name) = some 404
status (result r) = some 200
status status_ok = some 200
status throws = none

-- `j.value(key, "")` on an object: a member that is no text throws.
abbrev pub text_or_empty : Option Json → Option Bytes
text_or_empty none = some []
text_or_empty (some (string s)) = some s
text_or_empty (some j) = none

-- `argument.parsed[0]`, or an empty object.
abbrev first_parsed : Option Json → Json
first_parsed (some (array_of (item j js))) = j
first_parsed o = object []

abbrev parsed_in : Option Json → Json
parsed_in none = object []
parsed_in (some j) = first_parsed (lookup (codes "parsed") (map_in j))

abbrev pub arguments : Map Json → Json
arguments m = parsed_in (lookup (codes "argument") m)

-- A response from the outcome of a handler; nothing catches its exceptions.
abbrev pub response_of : Outcome → Response
response_of (returned r) = result r
response_of (threw e) = throws

abbrev pub run_checked : Option Bool → Outcome → Response
run_checked none o = throws
run_checked (some false) o = invalid_token
run_checked (some true) o = response_of o

-- The summary: `post_prompt_data.parsed`, unless that is null or not there.
abbrev or_null : Option Json → Json
or_null none = null
or_null (some j) = j

abbrev pub summary_of : Json → Json
summary_of body = or_null (
    lookup (codes "post_prompt_data") (map_in body) >>= λ ppd. lookup (codes "parsed") (map_in ppd))

abbrev post_parsed : Bool → Option Json → Response × Option (Json × Json)
post_parsed has_callback none = (invalid_json, none)
post_parsed has_callback (some body) =
    (status_ok, if has_callback then some (summary_of body, body) else none)

-- `AgentBase::on_function_call`.
unfoldable pub on_function_call : Handlers → Tools → Bytes → Json → Json → Outcome
on_function_call handlers t name args raw_data = elim (lookup name t.tools) [
  | none ↦ returned (new_result (codes "Unknown function: " ++ name) false)
  | some tool ↦ elim (handlers name) [
    | none ↦ returned (new_result (codes "No handler for function: " ++ name) false)
    | some handler ↦ handler args raw_data
  ]
]

module _ (k : Crypto) (session : SessionManager) where
  unfoldable pub create_tool_token : Bytes → Bytes → ℤ → ℤ → Bytes
  create_tool_token tool_name call_id expiry_seconds now =
      create_token k session tool_name call_id expiry_seconds now

  unfoldable pub validate_tool_token : Tools → Bytes → Bytes → Bytes → ℤ → Bool
  unfolding has_function
  validate_tool_token t function_name token call_id now =
      if has_function t function_name
      then validate_token k session token function_name call_id now
      else false

  -- The token and the call id of the body; `none` when one of them is no text, which throws.
  abbrev pub check_token : Bytes → Map Json → ℤ → Option Bool
  check_token name m now = text_or_empty (lookup (codes "meta_data_token") m) >>= λ token.
      text_or_empty (lookup (codes "call_id") m) >>= λ call_id.
      some (validate_token k session token name call_id now)

module _ (handlers : Handlers) (k : Crypto) (session : SessionManager)
    (parse : Bytes → Option Json) where
  -- The tool that is called, once its name is known.
  abbrev pub call_tool : Tools → Bytes → Json → ℤ → Option ToolDefinition → Response
  call_tool t name body now none = unknown_function name
  call_tool t name body now (some tool) =
      let o = on_function_call handlers t name (arguments (map_in body)) body in
      if tool.secure
      then run_checked (check_token k session name (map_in body) now) o
      else response_of o

  abbrev pub call_named : Tools → Json → ℤ → Option Json → Response
  call_named t body now none = missing_function_name
  call_named t body now (some (string name)) = call_tool t name body now (lookup name t.tools)
  call_named t body now (some j) = throws

  abbrev pub call_parsed : Tools → ℤ → Option Json → Response
  call_parsed t now none = invalid_json
  call_parsed t now (some body) = call_named t body now (lookup (codes "function") (map_in body))

  abbrev pub call_authorized : Tools → Bytes → ℤ → Answer → Response
  call_authorized t text now authorized =
      if is_empty text then empty_body else call_parsed t now (parse text)
  call_authorized t text now a = denied a

  unfoldable pub handle_swaig_request : Auth → Tools → Option Bytes → Bytes → ℤ → Response
  handle_swaig_request auth t header text now =
      call_authorized t text now (validate_auth k auth header)

module _ (k : Crypto) (parse : Bytes → Option Json) where
  abbrev post_authorized : Bool → Bytes → Answer → Response × Option (Json × Json)
  post_authorized has_callback text authorized = post_parsed has_callback (parse text)
  post_authorized has_callback text a = (denied a, none)

  -- The response, and what the summary callback is called with; its exceptions are logged.
  unfoldable pub handle_post_prompt_request :
      Auth → Bool → Option Bytes → Bytes → Response × Option (Json × Json)
  handle_post_prompt_request auth has_callback header text =
      post_authorized has_callback text (validate_auth k auth header)
