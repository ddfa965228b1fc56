-- ===== src/Relay/Tests.antt =====
-- The theorems of the RELAY components at concrete inputs. Parameters are lists of keys and values.
use signalwire_agents_cpp.Prelude.{
  ◌↔◌, ◌⊎◌, Any, ℕ, suc, ◌≡◌, inr, refl, ◌∙◌, sym, Option, none, some, Bool, true, false, ◌∷◌, [],
  List, Bytes, codes, str_eq, str_eq_iff, arith,
}
use signalwire_agents_cpp.Prelude.Map.{Map, assign, lookup}
use signalwire_agents_cpp.Relay.Action.{Action, new_action, event_type_matches, is_terminal}
use signalwire_agents_cpp.Relay.Message.{Message, updates, IsEnd, updates-completed}
use signalwire_agents_cpp.Relay.Call.{Call, new_call, register_action, Store}
use signalwire_agents_cpp.Relay.Component.{
  JsonReader, ComponentEvent, component_event, Arrival, component, state_change, deliver,
  handle_all,
}
use signalwire_agents_cpp.Relay.Component.Once.{IsRouted, Routed, handle_all-IsRouted}
use signalwire_agents_cpp.Relay.Component.Collect.{Reaches, deliver-collect_twice}

abbrev queued : Message
queued = record {
  state = codes "queued";
  reason = [];
  completed = false;
  has_callback = true;
  fired = 0;
}

updates-completed_example :
    ((updates queued (codes "sent" ∷ codes "undelivered" ∷ [])).completed ≡ true)
    ↔ ((false ≡ true) ⊎ Any IsEnd (codes "sent" ∷ codes "undelivered" ∷ []))
updates-completed_example = updates-completed queued (codes "sent" ∷ codes "undelivered" ∷ [])

abbrev Params : Type 0
Params = Map Bytes

abbrev or_empty : Option Bytes → Bytes
or_empty none = []
or_empty (some s) = s

abbrev is_some : Option Bytes → Bool
is_some none = false
is_some (some s) = true

abbrev reader : JsonReader Params
reader = record {
  value = λ m k. or_empty (lookup k m);
  contains = λ m k. is_some (lookup k m);
  object = λ m k. m;
  empty_object = [];
}

abbrev call : Call
call = register_action (new_call (codes "c1") (codes "n1") true) (codes "p1") 0

-- A play action, and a collect action, with a callback each.
abbrev play : Action Params
play = record (new_action [] (codes "p1") true (codes "c1") (codes "n1")) { has_callback = true }

abbrev collect : Action Params
collect = record play { resolve_on_result = true }

abbrev plays : Store Params
plays h = play

abbrev collects : Store Params
collects h = collect

abbrev finished : ComponentEvent Params
finished =
    component_event reader (codes "calling.call.play")
      ((codes "control_id", codes "p1") ∷ (codes "state", codes "finished") ∷ [])

abbrev result : ComponentEvent Params
result =
    component_event reader (codes "calling.call.collect")
      ((codes "control_id", codes "p1") ∷ (codes "result", codes "1") ∷ [])

abbrev arrivals : List (Arrival Params)
arrivals = component finished ∷ component finished ∷ state_change (codes "ended") ∷ []

registered : (i : Bytes) (h : ℕ) → lookup i call.actions ≡ some h → (codes "p1" ≡ i) × (h ≡ 0)
unfolding register_action new_call lookup assign
registered i h l = ground (arith, str_eq_iff (codes "p1") i)

call-IsRouted : IsRouted call plays
unfolding new_action
call-IsRouted = record {
  opened = λ i h l. refl;
  direct = λ i h l. refl;
  apart = λ i j h l l'. sym (registered i h l).0 ∙ (registered j h l').0;
  once = λ h. (inr refl, omega arith);
}

handle_all-IsRouted_example : Routed (handle_all reader call plays arrivals)
handle_all-IsRouted_example = handle_all-IsRouted reader call plays arrivals call-IsRouted

finished-Reaches : Reaches call plays finished 0
unfolding component_event lookup register_action new_call assign str_eq event_type_matches
    new_action
finished-Reaches = (refl, refl, refl)

collect-Reaches : Reaches call collects finished 0 × Reaches call collects result 0
unfolding component_event lookup register_action new_call assign str_eq event_type_matches
    new_action
collect-Reaches = ((refl, refl, refl), (refl, refl, refl))

deliver-collect_twice_example :
    let p = deliver reader call collects finished in
    ((p.1 0).is_completed ≡ true)
    × (p.0 ≡ call)
    × ((p.1 0).fired ≡ suc (collects 0).fired)
    × (((deliver reader p.0 p.1 result).1 0).fired ≡ suc (suc (collects 0).fired))
unfolding new_action component_event lookup str_eq is_terminal
deliver-collect_twice_example =
    deliver-collect_twice reader call collects finished result 0 collect-Reaches.0 collect-Reaches.1
      refl refl refl refl refl refl refl
