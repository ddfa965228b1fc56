-- ===== src/Agent/Requests/Mcp.antt =====
-- The MCP endpoint of an agent, in src/agent/agent_base.cpp: requests of JSON-RPC 2.0.
pub mod Answers
pub mod Open
use mathlib.Core.Option
use signalwire_agents_cpp.Prelude.{
  Option, none, some, Bool, true, false, not, ◌∷◌, [], ◌++◌, List, Bytes, codes, is_empty, str_eq,
  if◌then◌else◌, ◌>>=◌,
}
use signalwire_agents_cpp.Prelude.Int.{ℤ, negsuc}
use signalwire_agents_cpp.Prelude.Map.{Map, lookup}
use signalwire_agents_cpp.Prelude.Json.{
  Json, null, boolean, number, string, array_of, object_of, array, object, fields, is_empty_json,
  map_in, map_of,
}
use signalwire_agents_cpp.Swaig.FunctionResult.{to_json}
use signalwire_agents_cpp.Swaig.ToolDefinition.{ToolDefinition}
use signalwire_agents_cpp.Swml.Service.Tools.{Tools}
use signalwire_agents_cpp.Agent.Requests.{
  Outcome, returned, threw, Handlers, text_or_empty, on_function_call,
}

abbrev input_schema : Json → Json
input_schema parameters =
    if is_empty_json parameters
    then object
        (fields ((codes "type", string (codes "object")) ∷ (codes "properties", object []) ∷ []))
    else parameters

unfoldable pub mcp_tool : ToolDefinition → Json
mcp_tool tool = object (
    fields (
      (codes "name", string tool.name)
      ∷ (
        codes "description",
        string (if is_empty tool.description then tool.name else tool.description),
      )
      ∷ (codes "inputSchema", input_schema tool.parameters)
      ∷ []))

unfoldable pub mcp_tools : Map ToolDefinition → List Bytes → List Json
unfolding mcp_tool
mcp_tools tools [] = []
mcp_tools tools (name ∷ order) =
    let rest = mcp_tools tools order in
    elim (lookup name tools) [ none ↦ rest | some tool ↦ mcp_tool tool ∷ rest ]

unfoldable pub build_mcp_tool_list : Tools → List Json
unfolding mcp_tools
build_mcp_tool_list t = mcp_tools t.tools t.tool_order

-- A response with one member beside the version and the id.
abbrev pub reply : Bytes → Json → Json → Json
reply key id j =
    object (fields ((codes "jsonrpc", string (codes "2.0")) ∷ (codes "id", id) ∷ (key, j) ∷ []))

abbrev pub mcp_error : Json → ℤ → Bytes → Json
mcp_error id code message =
    reply (codes "error") id
      (object (fields ((codes "code", number code) ∷ (codes "message", string message) ∷ [])))

abbrev pub mcp_result : Json → Json → Json
mcp_result id j = reply (codes "result") id j

abbrev content_of : Bytes → Bool → Json
content_of text is_error = object (
    fields (
      (
        codes "content",
        array (
            object
              (fields ((codes "type", string (codes "text")) ∷ (codes "text", string text) ∷ []))
            ∷ []),
      )
      ∷ (codes "isError", boolean is_error)
      ∷ []))

-- The text of the response, when the result has one.
abbrev response_text : Option Json → Bytes
response_text (some (string s)) = s
response_text o = []

abbrev pub content : Outcome → Json
content (returned r) =
    content_of (response_text (lookup (codes "response") (map_in (to_json r)))) false
content (threw e) = content_of (codes "Error: " ++ e) true

abbrev server_info : Bytes → Json
server_info name = object (
    fields (
      (codes "protocolVersion", string (codes "2025-06-18"))
      ∷ (codes "capabilities", object ((codes "tools", object []) ∷ []))
      ∷ (
        codes "serverInfo",
        object
            (fields ((codes "name", string name) ∷ (codes "version", string (codes "1.0.0")) ∷ [])),
      )
      ∷ []))

-- `j.value(key, "")`: a value that is no object throws, and so does a member that is no text.
abbrev pub text_value : Json → Bytes → Option Bytes
text_value (object_of m) k = text_or_empty (lookup k (map_of m))
text_value j k = none

-- `j.value(key, json::object())` on an object.
abbrev pub or_empty : Option Json → Json
or_empty none = object []
or_empty (some j) = j

abbrev pub id_of : Option Json → Json
id_of none = null
id_of (some j) = j

abbrev pub raw_data : Bytes → Json → Json
raw_data tool_name args = object (
    fields (
      (codes "function", string tool_name)
      ∷ (codes "argument", object ((codes "parsed", array (args ∷ [])) ∷ []))
      ∷ []))

-- A request with the headers that the other routes look at.
pub record McpRequest : Type 0 where
  pub authorization : Option Bytes
  pub signature : Option Bytes
  pub body : Bytes

pub data McpResponse : Type 0 where
  not_served : McpResponse
  replied : Json → McpResponse

pub data Parsed : Type 0 where
  parsed : Json → Parsed
  parse_error : Bytes → Parsed

module _ (handlers : Handlers) (agent_name : Bytes) (t : Tools) where
  -- `tools/call`.
  abbrev pub call_mcp_tool : Json → Json → Option Json
  call_mcp_tool id params = text_value params (codes "name") >>= λ tool_name.
      let args = or_empty (lookup (codes "arguments") (map_in params)) in
      some (elim (lookup tool_name t.tools) [
        | none ↦ mcp_error id (negsuc 32601) (codes "Unknown tool: " ++ tool_name)
        | some tool ↦
            mcp_result id
              (content (on_function_call handlers t tool_name args (raw_data tool_name args)))
      ])

  abbrev pub dispatch_mcp : Json → Json → Bytes → Bytes → Option Json
  dispatch_mcp id params jsonrpc method =
      if not (str_eq jsonrpc (codes "2.0"))
      then some (mcp_error id (negsuc 32599) (codes "Invalid JSON-RPC version"))
      else if str_eq method (codes "initialize")
      then some (mcp_result id (server_info agent_name))
      else if str_eq method (codes "notifications/initialized")
      then some (mcp_result id (object []))
      else if str_eq method (codes "tools/list")
      then some (mcp_result id (object ((codes "tools", array (build_mcp_tool_list t)) ∷ [])))
      else if str_eq method (codes "tools/call")
      then call_mcp_tool id params
      else if str_eq method (codes "ping")
      then some (mcp_result id (object []))
      else some (mcp_error id (negsuc 32600) (codes "Method not found: " ++ method))

  -- The response to a request; `none` when an exception leaves the handler.
  unfoldable pub handle_mcp_request : Json → Option Json
  unfolding build_mcp_tool_list on_function_call
  handle_mcp_request body = text_value body (codes "jsonrpc") >>= λ jsonrpc.
      text_value body (codes "method") >>= λ method.
      dispatch_mcp (id_of (lookup (codes "id") (map_in body)))
        (or_empty (lookup (codes "params") (map_in body))) jsonrpc method

  -- POST to the MCP route; `none` when an exception leaves it. The parser tells what is wrong.
  unfoldable pub post_mcp : (Bytes → Parsed) → Bool → McpRequest → Option McpResponse
  unfolding handle_mcp_request
  post_mcp parse mcp_server_enabled req =
      if not mcp_server_enabled
      then some not_served
      else if is_empty req.body
      then some (replied (mcp_error null (negsuc 32699) (codes "Parse error")))
      else elim (parse req.body) [
        | parse_error what ↦
            some (replied (mcp_error null (negsuc 32699) (codes "Parse error: " ++ what)))
        | parsed body ↦ handle_mcp_request body >>= λ response. some (replied response)
      ]
