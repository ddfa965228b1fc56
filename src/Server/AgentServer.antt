-- ===== src/Server/AgentServer.antt =====
-- `AgentServer` of src/server/agent_server.cpp: the registries of agents and of SIP user names. The
-- type of agents is a parameter; the HTTP library is left out.
pub mod Routes
mod Tests
use signalwire_agents_cpp.Prelude.{
  ℕ, ◌≡◌, Option, none, some, Bool, true, false, not, ◌||◌, ◌&&◌, ◌∷◌, [], ◌++◌, List, Bytes, codes,
  length, leb, ◌==◌, if◌then◌else◌, is_empty,
}
use signalwire_agents_cpp.Prelude.Map.{Map, assign, erase, lookup, keys}
use signalwire_agents_cpp.Prelude.Json.{Json, string, object_of, map_of}

pub record AgentServer (A : Type 0) : Type 0 where
  pub agents : Map A
  pub sip_routes : Map Bytes
  pub sip_routing : Bool
  pub static_dir : Bytes

-- A route that is not empty begins with a slash.
unfoldable pub normalized : Bytes → Bytes
normalized [] = []
normalized (c ∷ route) = if c == b'/' then c ∷ route else b'/' ∷ c ∷ route

unfoldable pub is_username_char : ℕ → Bool
is_username_char c =
    (leb b'a' c && leb c b'z')
    || (leb b'A' c && leb c b'Z')
    || (leb b'0' c && leb c b'9')
    || c == b'.'
    || c == b'_'
    || c == b'-'

unfoldable pub all_username_chars : Bytes → Bool
unfolding is_username_char
all_username_chars [] = true
all_username_chars (c ∷ s) = is_username_char c && all_username_chars s

-- `^[a-zA-Z0-9._-]{1,64}$`, on the whole name.
unfoldable pub is_sip_username : Bytes → Bool
unfolding all_username_chars
is_sip_username s = leb 1 (length s) && leb (length s) 64 && all_username_chars s

-- The answers of the SIP endpoint, what an exception makes of a request included; `not_served` where
-- there is no such endpoint.
pub data SipResponse : Type 0 where
  invalid_json missing_username no_route throws not_served : SipResponse
  routed : Bytes → SipResponse

abbrev text_or_empty : Option Json → Option Bytes
text_or_empty none = some []
text_or_empty (some (string s)) = some s
text_or_empty (some j) = none

-- `body.value("username", "")`: a body that is no object throws, and a name that is no text.
abbrev pub username_in : Json → Option Bytes
username_in (object_of m) = text_or_empty (lookup (codes "username") (map_of m))
username_in j = none

module _ {A : Type 0} where
  unfoldable pub register_agent : AgentServer A → A → Bytes → AgentServer A
  unfolding normalized
  register_agent s agent route = record s { agents = assign (normalized route) agent s.agents }

  unfoldable pub unregister_agent : AgentServer A → Bytes → AgentServer A
  unregister_agent s route = record s { agents = erase route s.agents }

  pub list_routes : AgentServer A → List Bytes
  list_routes s = keys s.agents

  pub enable_sip_routing : AgentServer A → Bool → AgentServer A
  enable_sip_routing s enable = record s { sip_routing = enable }

  unfoldable pub map_sip_username : AgentServer A → Bytes → Bytes → AgentServer A
  map_sip_username s username route =
      if not (is_sip_username username)
      then s
      else record s { sip_routes = assign username route s.sip_routes }

  pub set_static_dir : AgentServer A → Bytes → AgentServer A
  set_static_dir s dir = record s { static_dir = dir }

  abbrev pub route_of : AgentServer A → Option Bytes → SipResponse
  route_of s none = throws
  route_of s (some username) =
      if is_empty username
      then missing_username
      else elim (lookup username s.sip_routes) [ none ↦ no_route | some route ↦ routed route ]

  -- The body is parsed by the JSON library, `none` when it fails.
  unfoldable pub handle_sip : AgentServer A → Option Json → SipResponse
  handle_sip s none = invalid_json
  handle_sip s (some body) = route_of s (username_in body)

  -- POST /sip on a server that was in the state `at_setup` when `setup_routes` ran, where no agent
  -- has that route.
  unfoldable pub post_sip : AgentServer A → AgentServer A → Option Json → SipResponse
  unfolding handle_sip
  post_sip at_setup s body = if at_setup.sip_routing then handle_sip s body else not_served
