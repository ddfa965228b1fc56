-- ===== src/Agent/Requests/Mcp/Answers.antt =====
-- What the MCP endpoint answers.
use signalwire_agents_cpp.Prelude.{
  Option, none, some, true, ◌≡◌, ◌⊎◌, refl, Bytes, codes, str_eq, Option-cases, inl, inr, if_elim,
  not,
}
use signalwire_agents_cpp.Prelude.Map.{lookup, assign}
use signalwire_agents_cpp.Prelude.Strings.{str_ltb}
use signalwire_agents_cpp.Prelude.Json.{Json, string, map_in}
use signalwire_agents_cpp.Swml.Service.Tools.{Tools}
use signalwire_agents_cpp.Agent.Requests.{Handlers}
use signalwire_agents_cpp.Agent.Requests.Mcp.{
  reply, mcp_result, text_value, or_empty, id_of, call_mcp_tool, dispatch_mcp, handle_mcp_request,
}

abbrev member : Bytes → Json → Option Json
member k j = lookup k (map_in j)

-- A response of JSON-RPC 2.0 to the request with this id: either a result or an error.
pub record IsReply (id : Json) (j : Json) : Type 0 where
  pub version : member (codes "jsonrpc") j ≡ some (string (codes "2.0"))
  pub same_id : member (codes "id") j ≡ some id
  pub one :
      ((member (codes "error") j ≡ none) × ((r : Json) × (member (codes "result") j ≡ some r)))
      ⊎ ((member (codes "result") j ≡ none) × ((e : Json) × (member (codes "error") j ≡ some e)))

result-IsReply : (id j : Json) → IsReply id (mcp_result id j)
unfolding lookup assign str_eq str_ltb
result-IsReply id j = record { version = refl; same_id = refl; one = inl (refl, (j, refl)) }

error-IsReply : (id j : Json) → IsReply id (reply (codes "error") id j)
unfolding lookup assign str_eq str_ltb
error-IsReply id j = record { version = refl; same_id = refl; one = inr (refl, (j, refl)) }

-- There is no response when an exception leaves the handler.
pub data Replies (id : Json) : Option Json → Type 0 where
  replies : {j : Json} → IsReply id j → Replies id (some j)

answers : (id j : Json) → Replies id (some (mcp_result id j))
answers id j = replies (result-IsReply id j)

refuses : (id j : Json) → Replies id (some (reply (codes "error") id j))
refuses id j = replies (error-IsReply id j)

module _ (handlers : Handlers) (agent_name : Bytes) (t : Tools) where
  call_mcp_tool-Replies :
      (id params : Json) (name : Bytes)
      → text_value params (codes "name") ≡ some name
      → Replies id (call_mcp_tool handlers agent_name t id params)
  call_mcp_tool-Replies id params name h = rw h (elim (Option-cases (lookup name t.tools)) [
    | inl e ↦ rw e (refuses id _)
    | inr (tool, e) ↦ rw e (answers id _)
  ])

  dispatch_mcp-Replies :
      (id params : Json) (jsonrpc method : Bytes)
      → (str_eq method (codes "tools/call") ≡ true
          → (name : Bytes) × (text_value params (codes "name") ≡ some name))
      → Replies id (dispatch_mcp handlers agent_name t id params jsonrpc method)
  dispatch_mcp-Replies id params jsonrpc method h =
      let called = λ (m : Bytes). str_eq method m in
      if_elim (Replies id) (not (str_eq jsonrpc (codes "2.0"))) _ _ (λ _. refuses id _)
        λ _.
          if_elim (Replies id) (called (codes "initialize")) _ _ (λ _. answers id _)
            λ _.
              if_elim (Replies id) (called (codes "notifications/initialized")) _ _
                (λ _. answers id _)
                λ _.
                  if_elim (Replies id) (called (codes "tools/list")) _ _ (λ _. answers id _)
                    λ _.
                      if_elim (Replies id) (called (codes "tools/call")) _ _
                        (λ e. let (name, named) = h e in call_mcp_tool-Replies id params name named)
                        λ _.
                          if_elim (Replies id) (called (codes "ping")) _ _ (λ _. answers id _)
                            λ _. refuses id _

  -- A request whose members "jsonrpc" and "method" are texts, or missing, and whose parameters are
  -- an object with a text, or nothing, as "name" if the method is "tools/call", is answered: the
  -- response has the version and the id of the request, null if it has none, and either a result or
  -- an error, not both.
  pub handle_mcp_request-Replies :
      (body : Json) (jsonrpc method : Bytes)
      → text_value body (codes "jsonrpc") ≡ some jsonrpc
      → text_value body (codes "method") ≡ some method
      → (str_eq method (codes "tools/call") ≡ true
          → (name : Bytes) × (text_value (or_empty (member (codes "params") body)) (codes "name")
              ≡ some name))
      → Replies (id_of (member (codes "id") body)) (handle_mcp_request handlers agent_name t body)
  unfolding handle_mcp_request
  handle_mcp_request-Replies body jsonrpc method v m h =
      rw (v, m) (dispatch_mcp-Replies _ _ jsonrpc method h)
