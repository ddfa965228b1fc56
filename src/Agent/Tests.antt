-- ===== src/Agent/Tests.antt =====
-- The theorems of the agent at concrete inputs, with the toy digests.
use signalwire_agents_cpp.Prelude.{
  Option, some, none, true, false, ◌≡◌, ◌↔◌, refl, ap, ◌∙◌, ◌∷◌, [], ◌++◌, Bytes, codes, arith,
  str_eq, if◌then◌else◌,
}
use signalwire_agents_cpp.Prelude.Int.{pos, ◌+ℤ◌, ltb_ℤ}
use signalwire_agents_cpp.Prelude.Map.{lookup}
use signalwire_agents_cpp.Prelude.Json.{Json, null, string, object, map_in}
use signalwire_agents_cpp.Security.Crypto.{toy}
use signalwire_agents_cpp.Security.Base64.{base64_encode, base64_decode}
use signalwire_agents_cpp.Security.Base64.RoundTrip.{base64_decode-encode}
use signalwire_agents_cpp.Security.Session.{
  SessionManager, payload_of, is_live, signature, create_token, validate_token,
}
use signalwire_agents_cpp.Security.Session.Tokens.{validate_token-create_token}
use signalwire_agents_cpp.Swaig.FunctionResult.{FunctionResult, new_result}
use signalwire_agents_cpp.Swaig.ToolDefinition.{ToolDefinition}
use signalwire_agents_cpp.Swml.Document.{main_name, render_sections}
use signalwire_agents_cpp.Swml.Document.Sections.{rendered}
use signalwire_agents_cpp.Swml.Service.{Auth, authorized, validate_auth}
use signalwire_agents_cpp.Swml.Service.Accepts.{validate_auth_iff}
use signalwire_agents_cpp.Swml.Service.Tools.{Tools}
use signalwire_agents_cpp.Pom.{no_sections}
use signalwire_agents_cpp.Agent.Config.{AgentBase}
use signalwire_agents_cpp.Agent.Rendering.{swml_document}
use signalwire_agents_cpp.Agent.Rendering.Pipeline.{phases, swml_document-phases}
use signalwire_agents_cpp.Agent.Requests.{
  Handlers, returned, result, handle_swaig_request, on_function_call, text_or_empty,
}
use signalwire_agents_cpp.Agent.Requests.Calls.{
  IsAnswered, handle_swaig_request_iff, secure_call-IsSigned,
}
use signalwire_agents_cpp.Agent.Requests.Mcp.{
  handle_mcp_request, McpRequest, parsed, replied, post_mcp, mcp_result, content,
}
use signalwire_agents_cpp.Agent.Requests.Mcp.Answers.{Replies, handle_mcp_request-Replies}
use signalwire_agents_cpp.Agent.Requests.Mcp.Open.{post_mcp-runs}

abbrev manager : SessionManager
manager = record { secret = codes "0123456789abcdef" }

abbrev auth : Auth
auth = record { user = codes "agent"; pass = codes "secret"; initialized = true }

abbrev tool_name : Bytes
tool_name = codes "fn"

abbrev tool : ToolDefinition
tool = record { name = tool_name; description = codes "pays"; parameters = null; secure = true }

abbrev tools : Tools
tools = record { tools = (tool_name, tool) ∷ []; tool_order = tool_name ∷ []; registered = [] }

abbrev answer : FunctionResult
answer = new_result (codes "paid") false

abbrev handlers : Handlers
handlers name = some (λ args raw. returned answer)

abbrev call_id : Bytes
call_id = codes "c1"

abbrev token : Bytes
token = create_token toy manager tool_name call_id (pos 3600) (pos 1000)

abbrev call : Json
call = object (
    (codes "call_id", string call_id)
    ∷ (codes "function", string tool_name)
    ∷ (codes "meta_data_token", string token)
    ∷ [])

-- Every text is read as the call.
abbrev parse : Bytes → Option Json
parse text = some call

abbrev basic : Bytes
basic = base64_encode (codes "agent:secret")

abbrev header : Bytes
header = codes "Basic " ++ basic

basic-IsRead : base64_decode basic ≡ auth.user ++ b':' ∷ auth.pass
basic-IsRead = base64_decode-encode (codes "agent:secret") (ground arith)

header-IsAccepted : validate_auth toy auth (some header) ≡ authorized
header-IsAccepted =
    (validate_auth_iff toy auth (some header)).1 (ground arith, (basic, refl, basic-IsRead))

token-IsValid : validate_token toy manager token tool_name call_id (pos 2000) ≡ true
unfolding ◌+ℤ◌ ltb_ℤ
token-IsValid =
    validate_token-create_token toy manager tool_name call_id (pos 3600) (pos 1000) (pos 2000)
      (ground arith) (ground arith) (ground arith) (ground arith) (omega arith)
    ∙ refl

call-IsAnswered :
    IsAnswered handlers toy manager parse auth tools (pos 2000) (some header) (codes "{}") answer
unfolding lookup str_eq on_function_call
call-IsAnswered = record {
  body = call;
  name = tool_name;
  tool = tool;
  lets_in = header-IsAccepted;
  has_body = refl;
  parsed = refl;
  named = refl;
  registered = refl;
  checked = λ h. ap some token-IsValid;
  outcome = refl;
}

handle_swaig_request_iff_example :
    (handle_swaig_request handlers toy manager parse auth tools
        (some header)
        (codes "{}")
        (pos 2000)
      ≡ result answer)
    ↔ IsAnswered handlers toy manager parse auth tools (pos 2000) (some header) (codes "{}") answer
handle_swaig_request_iff_example =
    handle_swaig_request_iff handlers toy manager parse auth tools (pos 2000) (some header)
      (codes "{}") answer

call-named : lookup (codes "function") (map_in call) ≡ some (string tool_name)
unfolding lookup str_eq
call-named = refl

tool-registered : lookup tool_name tools.tools ≡ some tool
unfolding lookup str_eq
tool-registered = refl

secure_call-IsSigned_example :
    ((encoded : Bytes) × (some header ≡ some (codes "Basic " ++ encoded))
      × (base64_decode encoded ≡ auth.user ++ b':' ∷ auth.pass))
    × ((encoded id expiry : Bytes) × (text_or_empty (lookup (codes "meta_data_token") (map_in call))
          ≡ some (encoded ++ b'.' ∷ signature toy manager encoded))
        × (text_or_empty (lookup (codes "call_id") (map_in call)) ≡ some id)
        × (base64_decode encoded ≡ payload_of tool_name id expiry)
        × (is_live expiry (pos 2000) ≡ true))
secure_call-IsSigned_example =
    secure_call-IsSigned handlers toy manager parse auth tools (pos 2000) (some header) (codes "{}")
      answer call tool_name tool refl call-named tool-registered refl
      (handle_swaig_request_iff_example.1 call-IsAnswered)

abbrev mcp_call : Json
mcp_call = object (
    (codes "jsonrpc", string (codes "2.0"))
    ∷ (codes "method", string (codes "tools/call"))
    ∷ (codes "params", object ((codes "name", string tool_name) ∷ []))
    ∷ [])

handle_mcp_request-Replies_example :
    Replies null (handle_mcp_request handlers (codes "bot") tools mcp_call)
unfolding lookup str_eq
handle_mcp_request-Replies_example =
    handle_mcp_request-Replies handlers (codes "bot") tools mcp_call (codes "2.0")
      (codes "tools/call") refl refl (λ e. (tool_name, refl))

-- A request of nobody.
abbrev mcp_request : McpRequest
mcp_request = record { authorization = none; signature = none; body = codes "{}" }

post_mcp-runs_example :
    post_mcp handlers (codes "bot") tools (λ text. parsed mcp_call) true mcp_request
    ≡ some (replied (mcp_result null (content (returned answer))))
unfolding lookup str_eq
post_mcp-runs_example =
    post_mcp-runs handlers (codes "bot") tools (λ text. parsed mcp_call) mcp_request mcp_call
      tool_name tool (λ args raw. returned answer) refl refl refl refl refl refl refl

abbrev agent : AgentBase
agent = record {
  name = codes "bot";
  route = codes "/bot";
  host = codes "0.0.0.0";
  port = 3000;
  auth = auth;
  tools = tools;
  prompt = record {
    raw_prompt_text = some (codes "Be kind.");
    post_prompt_text = none;
    pom_sections = no_sections;
    use_pom = true;
  };
  post_prompt_url = none;
  datamap_functions = [];
  function_includes = [];
  hints = [];
  languages = [];
  pronunciations = [];
  ai_params = null;
  global_data = null;
  native_functions = [];
  internal_fillers = null;
  debug_events = false;
  prompt_llm_params = null;
  post_prompt_llm_params = null;
  pre_answer_verbs = [];
  answer_verbs = [];
  post_answer_verbs = record { name = codes "denoise"; params = null } ∷ [];
  post_ai_verbs = [];
  context_builder = none;
  proxy_url = none;
  webhook_url = none;
  swaig_query_params = [];
  mcp_servers = [];
  sip_usernames = [];
  signing_key = none;
}

swml_document-phases_example :
    lookup main_name (render_sections (swml_document agent [] []))
    ≡ (if str_eq main_name main_name then some (rendered (phases agent [] [])) else none)
swml_document-phases_example = swml_document-phases agent [] [] main_name
