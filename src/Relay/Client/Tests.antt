-- ===== src/Relay/Client/Tests.antt =====
-- The theorems of the RELAY client at concrete inputs. The parameters of an event are two levels of
-- keys: the key of a nested object and the key in it, joined.
use signalwire_agents_cpp.Prelude.{
  ℕ, ◌≤◌, ◌≡◌, refl, Option, none, some, Bool, true, false, ◌∷◌, [], ◌++◌, List, Bytes, codes,
  length, str_eq,
}
use signalwire_agents_cpp.Prelude.Map.{Map, lookup}
use signalwire_agents_cpp.Relay.Action.{new_action}
use signalwire_agents_cpp.Relay.Call.{new_call}
use signalwire_agents_cpp.Relay.Component.{JsonReader}
use signalwire_agents_cpp.Relay.Client.{Client, route_events, handle_dial_event}
use signalwire_agents_cpp.Relay.Client.Registry.{IsRegistry}
use signalwire_agents_cpp.Relay.Client.Routing.{route_events-IsRegistry}
use signalwire_agents_cpp.Relay.Client.Dial.{handle_dial_event-answered, handle_dial_event-lost}
use signalwire_agents_cpp.Relay.Client.Reconnect.{
  Attempt, reconnect, reconnect_base_delay_ms, max_reconnect_attempts, FollowsFrom, reconnect_lem,
}

abbrev Params : Type 0
Params = Bytes × Map Bytes

abbrev or_empty : Option Bytes → Bytes
or_empty none = []
or_empty (some s) = s

abbrev is_some : Option Bytes → Bool
is_some none = false
is_some (some s) = true

abbrev reader : JsonReader Params
reader = record {
  value = λ m k. or_empty (lookup (m.0 ++ k) m.1);
  contains = λ m k. is_some (lookup (m.0 ++ k) m.1);
  object = λ m k. (m.0 ++ (k ++ codes "."), m.1);
  empty_object = ([], []);
}

abbrev client : Client Params
client = record {
  calls = [];
  call_objects = λ h. new_call [] [] false;
  call_count = 0;
  pending_dials = (codes "t1", 0) ∷ [];
  promises = λ p. none;
  messages = [];
  message_objects =
      λ h. record { state = []; reason = []; completed = false; has_callback = false; fired = 0 };
  authorization_state = [];
  actions = λ h. new_action ([], []) [] false [] [];
}

abbrev dial_event : Bytes → Params
dial_event s = (
  [],
  (codes "tag", codes "t1") ∷ (codes "dial_state", s) ∷ (codes "call.call_id", codes "c1") ∷ [],
)

abbrev call_event : Bytes → Params
call_event s =
    ([], (codes "call_id", codes "c1") ∷ (codes "tag", codes "t1") ∷ (codes "call_state", s) ∷ [])

abbrev events : List (Bytes × Params)
events =
    (codes "calling.call.state", call_event (codes "ringing"))
    ∷ (codes "calling.call.dial", dial_event (codes "answered"))
    ∷ (codes "calling.call.state", call_event (codes "ended"))
    ∷ []

client-IsRegistry : IsRegistry client
unfolding lookup
client-IsRegistry = record {
  owned = λ i h l. absurd (cc l);
  named = λ i h l. absurd (cc l);
  running = λ i h l. absurd (cc l);
}

route_events-IsRegistry_example : IsRegistry (route_events reader client events)
route_events-IsRegistry_example = route_events-IsRegistry reader client events client-IsRegistry

handle_dial_event-answered_example :
    let d = handle_dial_event reader client (dial_event (codes "answered")) in
    (lookup (codes "t1") d.pending_dials ≡ none)
    × ((h : ℕ) × (d.promises 0 ≡ some (some h)) × (lookup (codes "c1") d.calls ≡ some h))
unfolding lookup str_eq
handle_dial_event-answered_example =
    handle_dial_event-answered reader client (dial_event (codes "answered")) 0 refl refl

handle_dial_event-lost_example :
    let d = handle_dial_event reader client (dial_event (codes "ringing")) in
    (handle_dial_event reader d (dial_event (codes "answered")) ≡ d)
    × (lookup (codes "t1") d.pending_dials ≡ none)
    × (d.promises ≡ client.promises)
unfolding lookup str_eq
handle_dial_event-lost_example =
    handle_dial_event-lost reader client (dial_event (codes "ringing"))
      (dial_event (codes "answered")) 0 refl (λ e. cc e) (λ e. cc e) refl

abbrev fails : Attempt
fails = record { running = true; still_running = true; succeeds = false }

reconnect_lem_example :
    let q =
      reconnect
        (record { reconnect_delay_ms = reconnect_base_delay_ms; reconnect_attempts = 0 })
        (fails ∷ fails ∷ record fails { succeeds = true } ∷ []) in
    FollowsFrom 0 q.0 × (length q.0 ≤ max_reconnect_attempts)
reconnect_lem_example = reconnect_lem (fails ∷ fails ∷ record fails { succeeds = true } ∷ [])
