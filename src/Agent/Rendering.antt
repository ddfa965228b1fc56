-- ===== src/Agent/Rendering.antt =====
-- The rendering of an agent as a SWML document, in src/agent/agent_base.cpp. The value of
-- SWML_PROXY_URL_BASE is an argument.
pub mod Pipeline
use signalwire_agents_cpp.Prelude.{
  ℕ, suc, ◌+◌, Option, none, some, Bool, true, false, not, ◌∷◌, [], ◌++◌, List, map, Bytes, codes,
  is_empty, is_nil, if◌then◌else◌, ◌&&◌, ◌==◌, take, drop, is_some,
}
use signalwire_agents_cpp.Prelude.Int.{ℤ, pos}
use signalwire_agents_cpp.Prelude.Strings.{find_text, starts_with}
use signalwire_agents_cpp.Prelude.Map.{Map, lookup, assign}
use signalwire_agents_cpp.Prelude.Json.{
  Json, null, boolean, number, string, array_of, array, object, object_of, fields, items_of,
  assign_all, assign_if, is_empty_json, strings,
}
use signalwire_agents_cpp.Security.Decimal.{to_string}
use signalwire_agents_cpp.Utils.UrlEncoding.{url_encode}
use signalwire_agents_cpp.Contexts.Builder.{ContextBuilder}
use signalwire_agents_cpp.Contexts.Rendering.{builder_to_json}
use signalwire_agents_cpp.Swaig.ToolDefinition.{ToolDefinition, to_swaig_json}
use signalwire_agents_cpp.Swml.Service.{Auth}
use signalwire_agents_cpp.Swml.Service.Tools.{Tools}
use signalwire_agents_cpp.Swml.Document.{Verb, Document, new_document, add_verb}
use signalwire_agents_cpp.Swml.Document
use signalwire_agents_cpp.Pom.{Sections, no_sections, then_section, sections_to_ordered}
use signalwire_agents_cpp.Agent.{Prompt}
use signalwire_agents_cpp.Agent.Config.{
  AgentBase, position, language_to_json, pronunciation_to_json,
}

abbrev text_prompt : Bytes → Map Json
text_prompt t = (codes "text", string t) ∷ []

-- The sections, when they are used and there are any; else the raw text, else nothing.
abbrev pub prompt_members : Bool → Option Bytes → Sections → Map Json
prompt_members false (some t) ss = text_prompt t
prompt_members true (some t) no_sections = text_prompt t
prompt_members true o (then_section s ss) =
    (codes "pom", array_of (sections_to_ordered fields (then_section s ss))) ∷ []
prompt_members true none no_sections = text_prompt []
prompt_members false none ss = text_prompt []

unfoldable pub build_prompt : AgentBase → Json
build_prompt a = object (
    assign_all (items_of position a.prompt_llm_params)
      (prompt_members a.prompt.use_pom a.prompt.raw_prompt_text a.prompt.pom_sections))

-- The credentials behind the first "://".
abbrev pub with_credentials : Auth → Bytes → Bytes
with_credentials auth url = elim (find_text (codes "://") url) [
  | none ↦ url
  | some scheme_end ↦
      take (scheme_end + 3) url
      ++ (url_encode auth.user ++ b':' ∷ (url_encode auth.pass ++ b'@' ∷ drop (scheme_end + 3) url))
]

abbrev ends_with_slash : Bytes → Bool
ends_with_slash [] = false
ends_with_slash (c ∷ []) = c == b'/'
ends_with_slash (c ∷ d ∷ s) = ends_with_slash (d ∷ s)

-- `key=value`, escaped, with '&' between them.
unfoldable pub query_of : List (Bytes × Bytes) → Bytes
query_of [] = []
query_of ((k, v) ∷ []) = url_encode k ++ b'=' ∷ url_encode v
query_of ((k, v) ∷ p ∷ ps) = url_encode k ++ b'=' ∷ (url_encode v ++ b'&' ∷ query_of (p ∷ ps))

abbrev pub query_suffix : List (Bytes × Bytes) → Bytes
query_suffix [] = []
query_suffix (p ∷ ps) = b'?' ∷ query_of (p ∷ ps)

abbrev pub swaig_url : AgentBase → Bytes → Bytes
swaig_url a base_url =
    let url =
      if a.auth.initialized && not (is_empty a.auth.user)
      then with_credentials a.auth base_url
      else base_url in
    let url = url ++ a.route in
    let url = if ends_with_slash url then url else url ++ b'/' ∷ [] in
    url ++ (codes "swaig" ++ query_suffix a.swaig_query_params)

unfoldable pub build_webhook_url : AgentBase → Bytes → Bytes
unfolding url_encode query_of
build_webhook_url a base_url = elim a.webhook_url [ some url ↦ url | none ↦ swaig_url a base_url ]

-- The forwarded protocol and host, when both headers are there.
abbrev forwarded : Option Bytes → Option Bytes → Option Bytes
forwarded (some fwd_proto) (some fwd_host) = some (fwd_proto ++ (codes "://" ++ fwd_host))
forwarded (some fwd_proto) none = none
forwarded none o = none

abbrev or_else_text : Option Bytes → Bytes → Bytes
or_else_text (some t) u = t
or_else_text none u = u

unfoldable pub detect_proxy_url : AgentBase → Bytes → Map Bytes → Bytes
detect_proxy_url a env_proxy headers = or_else_text a.proxy_url (
    if is_empty env_proxy
    then or_else_text
        (forwarded (lookup (codes "x-forwarded-proto") headers)
          (lookup (codes "x-forwarded-host") headers))
        (or_else_text (lookup (codes "x-original-url") headers)
          (codes "http://" ++ (a.host ++ b':' ∷ to_string (pos a.port))))
    else env_proxy)

-- A tool that is not in the map, as one from a data map, is passed over.
unfoldable pub tool_functions : Map ToolDefinition → Bytes → List Bytes → List Json
unfolding to_swaig_json
tool_functions tools webhook_url [] = []
tool_functions tools webhook_url (name ∷ order) =
    let rest = tool_functions tools webhook_url order in
    elim (lookup name tools) [ none ↦ rest | some tool ↦ to_swaig_json tool webhook_url ∷ rest ]

unfoldable pub build_swaig_functions : AgentBase → Bytes → List Json
unfolding tool_functions
build_swaig_functions a webhook_url =
    tool_functions a.tools.tools webhook_url a.tools.tool_order ++ a.datamap_functions

-- `s.rfind(p)`.
unfoldable pub rfind_text : Bytes → Bytes → Option ℕ
unfolding starts_with
rfind_text p [] = if starts_with p [] then some 0 else none
rfind_text p (x ∷ s) = elim (rfind_text p s) [
  | some i ↦ some (suc i)
  | none ↦ if starts_with p (x ∷ s) then some 0 else none
]

-- The last "/swaig" with all behind it becomes "/post_prompt".
unfoldable pub post_prompt_url_of : Bytes → Bytes
unfolding rfind_text
post_prompt_url_of webhook_url = elim (rfind_text (codes "/swaig") webhook_url) [
  | none ↦ webhook_url
  | some i ↦ take i webhook_url ++ codes "/post_prompt"
]

abbrev assign_list : Bytes → List Json → Map Json → Map Json
assign_list k [] m = m
assign_list k (j ∷ js) m = assign k (array (j ∷ js)) m

unfoldable pub swaig_section : AgentBase → Bytes → Map Json
unfolding build_swaig_functions
swaig_section a webhook_url =
    let m = assign_list (codes "functions") (build_swaig_functions a webhook_url) [] in
    let m = assign_list (codes "includes") a.function_includes m in
    let m = assign_list (codes "native_functions") (map string a.native_functions) m in
    assign_list (codes "mcp_servers") a.mcp_servers m

abbrev assign_post_prompt : Option Bytes → Json → Map Json → Map Json
assign_post_prompt none params m = m
assign_post_prompt (some t) params m =
    assign (codes "post_prompt") (object (assign_all (items_of position params) (text_prompt t))) m

abbrev assign_contexts : Option ContextBuilder → Map Json → Map Json
assign_contexts none m = m
assign_contexts (some b) m =
    assign_if (not (is_nil b.contexts)) (codes "contexts") (builder_to_json b) m

abbrev assign_filled : Bytes → Json → Map Json → Map Json
assign_filled k j m = assign_if (not (is_empty_json j)) k j m

unfoldable pub build_ai_verb : AgentBase → Bytes → Json
unfolding build_prompt swaig_section post_prompt_url_of language_to_json pronunciation_to_json
    builder_to_json
build_ai_verb a webhook_url =
    let m = assign (codes "prompt") (build_prompt a) [] in
    let m = assign_post_prompt a.prompt.post_prompt_text a.post_prompt_llm_params m in
    let m =
      assign (codes "post_prompt_url")
        (string (or_else_text a.post_prompt_url (post_prompt_url_of webhook_url))) m in
    let m = assign_filled (codes "params") a.ai_params m in
    let m = assign_list (codes "hints") (map string a.hints) m in
    let m = assign_list (codes "languages") (map language_to_json a.languages) m in
    let m = assign_list (codes "pronounce") (map pronunciation_to_json a.pronunciations) m in
    let swaig = swaig_section a webhook_url in
    let m = assign_if (not (is_nil swaig)) (codes "SWAIG") (object swaig) m in
    let m = assign_filled (codes "global_data") a.global_data m in
    let m = assign_contexts a.context_builder m in
    let m = assign_if a.debug_events (codes "debug_events") (boolean true) m in
    object (assign_filled (codes "fillers") a.internal_fillers m)

-- `for (const auto& v : verbs) doc.main().add_verb(v);`
unfoldable pub add_verbs : Document → List Verb → Document
add_verbs d [] = d
add_verbs d (v ∷ vs) = add_verbs (add_verb d v.name v.params) vs

-- Without an answer verb, a default one.
abbrev pub add_answer : Document → List Verb → Document
add_answer d [] =
    add_verb d (codes "answer") (object ((codes "max_duration", number (pos 3600)) ∷ []))
add_answer d (v ∷ vs) = add_verbs d (v ∷ vs)

unfoldable pub swml_document : AgentBase → Bytes → Map Bytes → Document
unfolding add_verbs detect_proxy_url build_webhook_url build_ai_verb
swml_document a env_proxy headers =
    let webhook_url = build_webhook_url a (detect_proxy_url a env_proxy headers) in
    let doc = add_verbs new_document a.pre_answer_verbs in
    let doc = add_answer doc a.answer_verbs in
    let doc = add_verbs doc a.post_answer_verbs in
    let doc = add_verb doc (codes "ai") (build_ai_verb a webhook_url) in
    add_verbs doc a.post_ai_verbs

unfoldable pub render_swml_internal : AgentBase → Bytes → Map Bytes → Json
unfolding swml_document
render_swml_internal a env_proxy headers = Document.to_json (swml_document a env_proxy headers)

-- What the callback does to the copy that it is given.
abbrev pub DynamicConfigCallback : Type 0
DynamicConfigCallback = Map Bytes → Json → Map Bytes → AgentBase → AgentBase

-- With a callback, a copy is configured and rendered; the agent stays as it is.
unfoldable pub render_swml_for_request :
    AgentBase → Option DynamicConfigCallback → Bytes → Map Bytes → Json → Map Bytes → Json
unfolding render_swml_internal
render_swml_for_request a callback env_proxy query_params body_params headers = elim callback [
  | none ↦ render_swml_internal a env_proxy headers
  | some configure ↦
      render_swml_internal (configure query_params body_params headers a) env_proxy headers
]
