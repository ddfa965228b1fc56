-- ===== src/Server/AgentServer/Routes.antt =====
-- What registration and its reverse do to the routes.
use signalwire_agents_cpp.Prelude.{
  ℕ, Option, Bool, not, ◌||◌, ◌==◌, leb, ltb, length, codes, ◌≡◌, refl, ap, ◌∙◌, none, some, true,
  false, ◌&&◌, ◌∷◌, [], Bytes, if◌then◌else◌, str_eq, str_eq_refl,
}
use signalwire_agents_cpp.Prelude.Map.{lookup, assign, lookup-assign, lookup-erase}
use signalwire_agents_cpp.Server.AgentServer.{
  AgentServer, normalized, register_agent, unregister_agent, username_in, not_served, SipResponse,
}
use signalwire_agents_cpp.Prelude.Json.{Json}

-- The characters of a name, and the names of them.
abbrev pub alphabet : Bytes
alphabet = codes "abcdefghijklmnopqrstuvwxyzABCDEFGHIJKLMNOPQRSTUVWXYZ0123456789._-"

abbrev pub occurs : ℕ → Bytes → Bool
occurs c [] = false
occurs c (d ∷ s) = c == d || occurs c s

abbrev pub all_occur : Bytes → Bool
all_occur [] = true
all_occur (c ∷ s) = occurs c alphabet && all_occur s

abbrev pub is_name : Bytes → Bool
is_name s = leb 1 (length s) && leb (length s) 64 && all_occur s

eqb : Bool → Bool → Bool
eqb true b = b
eqb false b = not b

all_small : Bytes → Bool
all_small [] = true
all_small (c ∷ s) = ltb c 128 && all_small s

-- Whether a request asks for a name.
abbrev asks_name : Bytes → Option Bytes → Bool
asks_name username none = false
asks_name username (some asked) = str_eq username asked

abbrev pub asks : Bytes → Option Json → Bool
asks username none = false
asks username (some body) = asks_name username (username_in body)

abbrev is_served : SipResponse → Bool
is_served not_served = false
is_served r = true

module _ {A : Type 0} where
  -- An agent registered under a route is gone after the same route is unregistered exactly when the
  -- route is spelled as it is kept, empty or with a slash in front; otherwise it stays registered.
  pub unregister_agent-register_agent :
      (s : AgentServer A) (agent : A) (route : Bytes)
      → lookup (normalized route) (unregister_agent (register_agent s agent route) route).agents
        ≡ (if str_eq route (normalized route) then none else some agent)
  unfolding register_agent unregister_agent
  unregister_agent-register_agent s agent route =
      let kept = assign (normalized route) agent s.agents in
      lookup-erase route (normalized route) kept
      ∙ ap (λ o. if str_eq route (normalized route) then none else o)
          (lookup-assign (normalized route) (normalized route) agent s.agents
            ∙ rw (str_eq_refl (normalized route)) refl)
