-- ===== src/Agent/Requests/Mcp/Open.antt =====
-- The MCP endpoint runs the tools without a check of the caller.
use mathlib.Core.Option
use signalwire_agents_cpp.Prelude.{
  Option, none, some, true, is_empty, ◌++◌, ◌∙◌, str_eq, false, ◌≡◌, refl, ap, ◌∷◌, [], List, Bytes,
  codes, arith, Option-cases, inl, inr, ◌>>=◌, fun_ext,
}
use signalwire_agents_cpp.Prelude.Map.{Map, lookup}
use signalwire_agents_cpp.Prelude.Int.{negsuc}
use signalwire_agents_cpp.Prelude.Json.{Json, map_in}
use signalwire_agents_cpp.Swaig.ToolDefinition.{ToolDefinition}
use signalwire_agents_cpp.Swml.Service.Tools.{Tools}
use signalwire_agents_cpp.Agent.Requests.{Handlers, Outcome, on_function_call}
use signalwire_agents_cpp.Agent.Requests.Mcp.{
  text_value, or_empty, id_of, raw_data, content, mcp_result, mcp_error, McpRequest, replied,
  Parsed, parsed, post_mcp, mcp_tool, mcp_tools, build_mcp_tool_list, call_mcp_tool, dispatch_mcp,
  handle_mcp_request,
}

abbrev pub open_tool : ToolDefinition → ToolDefinition
open_tool tool = record tool { secure = false }

abbrev pub open_all : Map ToolDefinition → Map ToolDefinition
open_all [] = []
open_all ((n, tool) ∷ m) = (n, open_tool tool) ∷ open_all m

-- The same tools, none of them secure.
abbrev pub open_tools : Tools → Tools
open_tools t = record t { tools = open_all t.tools }

lookup-open_all :
    (n : Bytes) (m : Map ToolDefinition) → lookup n (open_all m) ≡ Option.map open_tool (lookup n m)
unfolding lookup
lookup-open_all n [] = refl
lookup-open_all n ((k, tool) ∷ m) = ground (arith, lookup-open_all n m)

mcp_tools-open_all :
    (m : Map ToolDefinition) (order : List Bytes) → mcp_tools (open_all m) order ≡ mcp_tools m order
unfolding mcp_tools mcp_tool
mcp_tools-open_all m [] = refl
mcp_tools-open_all m (n ∷ order) = elim (Option-cases (lookup n m)) [
  | inl e ↦ ground (arith, e, lookup-open_all n m, mcp_tools-open_all m order)
  | inr (tool, e) ↦ ground (arith, e, lookup-open_all n m, mcp_tools-open_all m order)
]

abbrev pub params_in : Json → Json
params_in body = or_empty (lookup (codes "params") (map_in body))

abbrev pub arguments_in : Json → Json
arguments_in params = or_empty (lookup (codes "arguments") (map_in params))

module _ (handlers : Handlers) (agent_name : Bytes) (t : Tools) where
  on_function_call-open_tools :
      (n : Bytes) (args raw : Json)
      → on_function_call handlers (open_tools t) n args raw ≡ on_function_call handlers t n args raw
  unfolding on_function_call
  on_function_call-open_tools n args raw = elim (Option-cases (lookup n t.tools)) [
    | inl e ↦ ground (arith, e, lookup-open_all n t.tools)
    | inr (tool, e) ↦ ground (arith, e, lookup-open_all n t.tools)
  ]

  call_mcp_tool-open_tools :
      (id params : Json)
      → call_mcp_tool handlers agent_name (open_tools t) id params
        ≡ call_mcp_tool handlers agent_name t id params
  call_mcp_tool-open_tools id params =
      ap (λ f. text_value params (codes "name") >>= f)
        (fun_ext λ n. elim (Option-cases (lookup n t.tools)) [
          | inl e ↦ rw (lookup-open_all n t.tools, e) refl
          | inr (tool, e) ↦ rw (lookup-open_all n t.tools, e, on_function_call-open_tools n) refl
        ])

  dispatch_mcp-open_tools :
      (id params : Json) (jsonrpc method : Bytes)
      → dispatch_mcp handlers agent_name (open_tools t) id params jsonrpc method
        ≡ dispatch_mcp handlers agent_name t id params jsonrpc method
  unfolding build_mcp_tool_list
  dispatch_mcp-open_tools id params jsonrpc method =
      rw (mcp_tools-open_all t.tools t.tool_order, call_mcp_tool-open_tools id params) refl

  -- The MCP endpoint answers every request as if no tool were secure.
  pub handle_mcp_request-open_tools :
      (body : Json)
      → handle_mcp_request handlers agent_name (open_tools t) body
        ≡ handle_mcp_request handlers agent_name t body
  unfolding handle_mcp_request
  handle_mcp_request-open_tools body =
      ap
        (λ (d : Bytes → Bytes → Option Json). text_value body (codes "jsonrpc") >>= λ jsonrpc.
          text_value body (codes "method") >>= λ method. d jsonrpc method)
        (fun_ext λ jsonrpc. fun_ext λ method. dispatch_mcp-open_tools _ _ jsonrpc method)

  abbrev call_found : Json → Json → Bytes → Option ToolDefinition → Json
  call_found id args n none = mcp_error id (negsuc 32601) (codes "Unknown tool: " ++ n)
  call_found id args n (some tool) =
      mcp_result id (content (on_function_call handlers t n args (raw_data n args)))

  abbrev call_text : Json → Json → Bytes → Option Json
  call_text id args n = some (call_found id args n (lookup n t.tools))

  on_function_call-runs :
      (n : Bytes) (tool : ToolDefinition) (handler : Json → Json → Outcome) (args raw : Json)
      → lookup n t.tools ≡ some tool
      → handlers n ≡ some handler
      → on_function_call handlers t n args raw ≡ handler args raw
  unfolding on_function_call
  on_function_call-runs n tool handler args raw known defined = ground (arith, known, defined)

  call_mcp_tool-runs :
      (id params : Json) (n : Bytes) (tool : ToolDefinition) (handler : Json → Json → Outcome)
      → text_value params (codes "name") ≡ some n
      → lookup n t.tools ≡ some tool
      → handlers n ≡ some handler
      → call_mcp_tool handlers agent_name t id params
        ≡ some (
            mcp_result id
              (content (handler (arguments_in params) (raw_data n (arguments_in params)))))
  call_mcp_tool-runs id params n tool handler named known defined =
      let args = arguments_in params in
      ap (λ (o : Option Bytes). o >>= call_text id args) named
      ∙ ap (λ o. some (call_found id args n o)) known
      ∙ ap (λ o. some (mcp_result id (content o)))
          (on_function_call-runs n tool handler args (raw_data n args) known defined)

  -- With the MCP server enabled, a POST that calls a tool the agent has is answered with what the
  -- handler of the tool gives for the arguments: whether or not the tool is secure, whatever the
  -- token in the body, and whatever credentials and signature the headers bring.
  pub post_mcp-runs :
      (parse : Bytes → Parsed) (req : McpRequest) (body : Json) (n : Bytes) (tool : ToolDefinition)
      (handler : Json → Json → Outcome)
      → is_empty req.body ≡ false
      → parse req.body ≡ parsed body
      → text_value body (codes "jsonrpc") ≡ some (codes "2.0")
      → text_value body (codes "method") ≡ some (codes "tools/call")
      → text_value (params_in body) (codes "name") ≡ some n
      → lookup n t.tools ≡ some tool
      → handlers n ≡ some handler
      → post_mcp handlers agent_name t parse true req
        ≡ some (
            replied (
              mcp_result (id_of (lookup (codes "id") (map_in body))) (
                content (
                  handler
                    (arguments_in (params_in body))
                    (raw_data n (arguments_in (params_in body)))))))
  unfolding post_mcp handle_mcp_request str_eq
  post_mcp-runs parse req body n tool handler full read version method named known defined =
      rw
        (
          full,
          read,
          version,
          method,
          call_mcp_tool-runs (id_of (lookup (codes "id") (map_in body))) (params_in body) n tool
              handler named known defined,
        )
        refl
