-- ===== src/Agent/Config.antt =====
-- The state of `AgentBase` (include/signalwire/agent/agent_base.hpp) and its settings
-- (src/agent/agent_base.cpp). Callbacks are arguments of what calls them. A setter that writes
-- into a JSON value throws (`none`) when the value is no object and not null.
use mathlib.Core.Option
use signalwire_agents_cpp.Prelude.{
  ℕ, Option, none, some, Bool, true, not, ◌∷◌, [], ◌++◌, List, Bytes, codes, is_empty,
  if◌then◌else◌, ◌>>=◌, ◌&&◌, ◌||◌, leb, ◌==◌, length,
}
use signalwire_agents_cpp.Prelude.Int.{pos}
use signalwire_agents_cpp.Prelude.Map.{Map, lookup, assign}
use signalwire_agents_cpp.Prelude.Json.{
  Json, null, boolean, string, object_of, object, strings, set_member, items_of, assign_if, fields,
  map_of,
}
use signalwire_agents_cpp.Security.Decimal.{to_string}
use signalwire_agents_cpp.Contexts.Builder.{ContextBuilder, reset, add_context}
use signalwire_agents_cpp.Swml.Document.{Verb}
use signalwire_agents_cpp.Swml.Service.{Auth}
use signalwire_agents_cpp.Swml.Service.Tools.{Tools, register_swaig_function}
use signalwire_agents_cpp.Agent.{Prompt}

pub record LanguageConfig : Type 0 where
  pub name : Bytes
  pub code : Bytes
  pub voice : Bytes
  pub engine : Bytes
  pub fillers : Bytes

unfoldable pub language_to_json : LanguageConfig → Json
language_to_json l =
    let m = fields (
      (codes "name", string l.name)
      ∷ (codes "code", string l.code)
      ∷ (codes "voice", string l.voice)
      ∷ []) in
    let m = assign_if (not (is_empty l.engine)) (codes "engine") (string l.engine) m in
    let m = assign_if (not (is_empty l.fillers)) (codes "fillers") (string l.fillers) m in object m

pub record Pronunciation : Type 0 where
  pub replace_val : Bytes
  pub with_val : Bytes
  pub ignore_case : Bool

unfoldable pub pronunciation_to_json : Pronunciation → Json
pronunciation_to_json p =
    let m =
      fields ((codes "replace", string p.replace_val) ∷ (codes "with", string p.with_val) ∷ []) in
    object (assign_if p.ignore_case (codes "ignore_case") (boolean true) m)

-- The members of the base class come first; the session manager, the skills and the settings that
-- only the routes read are not here.
pub record AgentBase : Type 0 where
  pub name : Bytes
  pub route : Bytes
  pub host : Bytes
  pub port : ℕ
  pub auth : Auth
  pub tools : Tools
  pub prompt : Prompt
  pub post_prompt_url : Option Bytes
  pub datamap_functions : List Json
  pub function_includes : List Json
  pub hints : List Bytes
  pub languages : List LanguageConfig
  pub pronunciations : List Pronunciation
  pub ai_params : Json
  pub global_data : Json
  pub native_functions : List Bytes
  pub internal_fillers : Json
  pub debug_events : Bool
  pub prompt_llm_params : Json
  pub post_prompt_llm_params : Json
  pub pre_answer_verbs : List Verb
  pub answer_verbs : List Verb
  pub post_answer_verbs : List Verb
  pub post_ai_verbs : List Verb
  pub context_builder : Option ContextBuilder
  pub proxy_url : Option Bytes
  pub webhook_url : Option Bytes
  pub swaig_query_params : List (Bytes × Bytes)
  pub mcp_servers : List Json
  pub sip_usernames : List Bytes
  pub signing_key : Option Bytes

-- `std::to_string` of a position.
abbrev pub position : ℕ → Bytes
position i = to_string (pos i)

-- What is known to the base class, and to the agent for its rendering.
unfoldable pub register_function : AgentBase → Json → Option AgentBase
unfolding register_swaig_function
register_function a func_def =
    Option.map
      (λ tools. record a {
        tools = tools;
        datamap_functions = a.datamap_functions ++ func_def ∷ [];
      })
      (register_swaig_function a.tools func_def)

unfoldable pub add_hint : AgentBase → Bytes → AgentBase
add_hint a hint = record a { hints = a.hints ++ hint ∷ [] }

unfoldable pub add_pattern_hint : AgentBase → Bytes → AgentBase
add_pattern_hint a pattern = record a { hints = a.hints ++ pattern ∷ [] }

unfoldable pub add_language : AgentBase → LanguageConfig → AgentBase
add_language a lang = record a { languages = a.languages ++ lang ∷ [] }

unfoldable pub set_languages : AgentBase → List LanguageConfig → AgentBase
set_languages a langs = record a { languages = langs }

unfoldable pub add_pronunciation : AgentBase → Bytes → Bytes → Bool → AgentBase
add_pronunciation a replace_val with_val ignore_case = record a {
  pronunciations =
      a.pronunciations
      ++ record { replace_val = replace_val; with_val = with_val; ignore_case = ignore_case } ∷ [];
}

unfoldable pub set_pronunciations : AgentBase → List Pronunciation → AgentBase
set_pronunciations a pronuns = record a { pronunciations = pronuns }

-- `for (auto& [k, v] : ...) value[k] = v;`
unfoldable pub set_members : Map Json → Json → Option Json
unfolding set_member
set_members [] j = some j
set_members ((k, v) ∷ es) j = set_member k v j >>= λ j'. set_members es j'

unfoldable pub set_param : AgentBase → Bytes → Json → Option AgentBase
unfolding set_member
set_param a key value =
    Option.map (λ j. record a { ai_params = j }) (set_member key value a.ai_params)

unfoldable pub set_params : AgentBase → Json → Option AgentBase
unfolding set_members
set_params a params =
    Option.map (λ j. record a { ai_params = j })
      (set_members (items_of position params) a.ai_params)

unfoldable pub set_global_data : AgentBase → Json → AgentBase
set_global_data a j = record a { global_data = j }

-- `if (value.is_null()) value = json::object();`
abbrev pub or_object : Json → Json
or_object null = object []
or_object j = j

unfoldable pub update_global_data : AgentBase → Json → Option AgentBase
unfolding set_members
update_global_data a j =
    Option.map (λ g. record a { global_data = g })
      (set_members (items_of position j) (or_object a.global_data))

unfoldable pub set_native_functions : AgentBase → List Bytes → AgentBase
set_native_functions a funcs = record a { native_functions = funcs }

-- An unknown name is logged, and kept.
unfoldable pub set_internal_fillers : AgentBase → Json → AgentBase
set_internal_fillers a fillers = record a { internal_fillers = fillers }

unfoldable pub add_language_filler : AgentBase → Bytes → List Bytes → Option AgentBase
unfolding set_member
add_language_filler a lang fillers =
    Option.map (λ j. record a { internal_fillers = j })
      (set_member lang (strings fillers) (or_object a.internal_fillers))

-- The fillers of a function; a value that is no object gives way.
abbrev pub fillers_of : Option Json → Map Json
fillers_of (some (object_of m)) = map_of m
fillers_of o = []

abbrev pub add_filler : Json → Bytes → Bytes → List Bytes → Option Json
add_filler (object_of m) function_name language_code fillers =
    let inner = fillers_of (lookup function_name (map_of m)) in
    set_member function_name (object (assign language_code (strings fillers) inner)) (object_of m)
add_filler j function_name language_code fillers = none

unfoldable pub add_function_filler : AgentBase → Bytes → Bytes → List Bytes → Option AgentBase
unfolding set_member
add_function_filler a function_name language_code fillers =
    Option.map (λ j. record a { internal_fillers = j })
      (add_filler (or_object a.internal_fillers) function_name language_code fillers)

unfoldable pub enable_debug_events : AgentBase → Bool → AgentBase
enable_debug_events a enable = record a { debug_events = enable }

unfoldable pub add_function_include : AgentBase → Json → AgentBase
add_function_include a j = record a { function_includes = a.function_includes ++ j ∷ [] }

unfoldable pub set_function_includes : AgentBase → List Json → AgentBase
set_function_includes a js = record a { function_includes = js }

unfoldable pub set_prompt_llm_params : AgentBase → Json → AgentBase
set_prompt_llm_params a params = record a { prompt_llm_params = params }

unfoldable pub set_post_prompt_llm_params : AgentBase → Json → AgentBase
set_post_prompt_llm_params a params = record a { post_prompt_llm_params = params }

abbrev verb_of : Bytes → Json → List Verb
verb_of name params = record { name = name; params = params } ∷ []

unfoldable pub add_pre_answer_verb : AgentBase → Bytes → Json → AgentBase
add_pre_answer_verb a name params = record a {
  pre_answer_verbs = a.pre_answer_verbs ++ verb_of name params;
}

unfoldable pub add_answer_verb : AgentBase → Bytes → Json → AgentBase
add_answer_verb a name params = record a { answer_verbs = a.answer_verbs ++ verb_of name params }

unfoldable pub add_post_answer_verb : AgentBase → Bytes → Json → AgentBase
add_post_answer_verb a name params = record a {
  post_answer_verbs = a.post_answer_verbs ++ verb_of name params;
}

unfoldable pub add_post_ai_verb : AgentBase → Bytes → Json → AgentBase
add_post_ai_verb a name params = record a { post_ai_verbs = a.post_ai_verbs ++ verb_of name params }

unfoldable pub clear_pre_answer_verbs : AgentBase → AgentBase
clear_pre_answer_verbs a = record a { pre_answer_verbs = [] }

unfoldable pub clear_post_answer_verbs : AgentBase → AgentBase
clear_post_answer_verbs a = record a { post_answer_verbs = [] }

unfoldable pub clear_post_ai_verbs : AgentBase → AgentBase
clear_post_ai_verbs a = record a { post_ai_verbs = [] }

-- The builder, made when it is first asked for.
abbrev pub builder_or_new : Option ContextBuilder → ContextBuilder
builder_or_new none = record { contexts = []; context_order = [] }
builder_or_new (some b) = b

unfoldable pub define_contexts : AgentBase → AgentBase
define_contexts a = record a { context_builder = some (builder_or_new a.context_builder) }

-- A context too many throws.
unfoldable pub add_agent_context : AgentBase → Bytes → Option AgentBase
add_agent_context a name =
    Option.map (λ b. record a { context_builder = some b })
      (add_context (builder_or_new a.context_builder) name)

unfoldable pub reset_contexts : AgentBase → AgentBase
reset_contexts a = record a { context_builder = Option.map reset a.context_builder }

unfoldable pub manual_set_proxy_url : AgentBase → Bytes → AgentBase
manual_set_proxy_url a url = record a { proxy_url = some url }

unfoldable pub set_webhook_url : AgentBase → Bytes → AgentBase
set_webhook_url a url = record a { webhook_url = some url }

unfoldable pub set_post_prompt_url : AgentBase → Bytes → AgentBase
set_post_prompt_url a url = record a { post_prompt_url = some url }

unfoldable pub add_swaig_query_param : AgentBase → Bytes → Bytes → AgentBase
add_swaig_query_param a key value = record a {
  swaig_query_params = a.swaig_query_params ++ (key, value) ∷ [];
}

unfoldable pub clear_swaig_query_params : AgentBase → AgentBase
clear_swaig_query_params a = record a { swaig_query_params = [] }

-- `for (const auto& [k, v] : texts) h[k] = v;` on a map, whose keys are in order already.
abbrev map_texts : Map Bytes → Map Json
map_texts [] = []
map_texts ((k, v) ∷ es) = (k, string v) ∷ map_texts es

-- A member for a map that is not empty.
abbrev texts_member : Bytes → Map Bytes → Map Json → Map Json
texts_member k [] m = m
texts_member k (e ∷ es) m = assign k (object (map_texts (e ∷ es))) m

unfoldable pub add_mcp_server : AgentBase → Bytes → Map Bytes → Bool → Map Bytes → AgentBase
add_mcp_server a url headers resources resource_vars =
    let m = assign (codes "url") (string url) [] in
    let m = texts_member (codes "headers") headers m in
    let m = assign_if resources (codes "resources") (boolean true) m in
    let m = texts_member (codes "resource_vars") resource_vars m in
    record a { mcp_servers = a.mcp_servers ++ object m ∷ [] }

-- A character of `[a-zA-Z0-9._-]`.
abbrev pub is_sip_char : ℕ → Bool
is_sip_char c =
    (leb b'a' c && leb c b'z')
    || ((leb b'A' c && leb c b'Z')
        || ((leb b'0' c && leb c b'9') || (c == b'.' || (c == b'_' || c == b'-'))))

abbrev pub all_sip : Bytes → Bool
all_sip [] = true
all_sip (c ∷ s) = is_sip_char c && all_sip s

-- `^[a-zA-Z0-9._-]{1,64}$`; a name that does not match is only logged.
unfoldable pub register_sip_username : AgentBase → Bytes → AgentBase
register_sip_username a username =
    if leb 1 (length username) && (leb (length username) 64 && all_sip username)
    then record a { sip_usernames = a.sip_usernames ++ username ∷ [] }
    else a

unfoldable pub set_signing_key : AgentBase → Bytes → AgentBase
set_signing_key a key = record a { signing_key = if is_empty key then none else some key }
