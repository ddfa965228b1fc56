-- ===== src/Server/AgentServer/Tests.antt =====
-- The theorems of the agent server at concrete inputs. An agent is its name.
use signalwire_agents_cpp.Prelude.{◌≡◌, refl, some, true, false, ◌∷◌, [], Bytes, codes, str_eq}
use signalwire_agents_cpp.Prelude.Map.{lookup, assign}
use signalwire_agents_cpp.Prelude.Json.{Json, string, object}
use signalwire_agents_cpp.Server.AgentServer.{
  AgentServer, routed, map_sip_username, post_sip, is_sip_username,
}

abbrev empty : AgentServer Bytes
empty = record { agents = []; sip_routes = []; sip_routing = false; static_dir = [] }

abbrev server : AgentServer Bytes
server = record empty { sip_routing = true }

abbrev for_bob : Json
for_bob = object ((codes "username", string (codes "bob")) ∷ [])

bob_routed :
    post_sip server (map_sip_username server (codes "bob") (codes "/sales")) (some for_bob)
    ≡ routed (codes "/sales")
unfolding post_sip map_sip_username is_sip_username lookup str_eq assign
bob_routed = refl
