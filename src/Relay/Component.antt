-- ===== src/Relay/Component.antt =====
-- Component events of a call (play, record, collect, detect, ...): `handle_component_event` of
-- src/relay/client.cpp behind the lookup of the call, and `ComponentEvent` of
-- include/signalwire/relay/relay_event.hpp.
pub mod Once
pub mod Collect
use signalwire_agents_cpp.Prelude.{
  ℕ, suc, Option, none, some, Bool, true, false, ◌≡◌, refl, ◌++◌, ◌∷◌, [], List, Bytes, codes,
  if◌then◌else◌, is_empty, not, str_eq, ◌||◌, ◌==◌, ◌&&◌, arith, Option-cases, inl, inr,
}
use signalwire_agents_cpp.Prelude.Map.{Map, erase, lookup}
use signalwire_agents_cpp.Relay.Action.{Action, resolve, update_state, event_type_matches}
use signalwire_agents_cpp.Relay.Call.{Call, Store, put, unregister_action, find_action}
use signalwire_agents_cpp.Relay.Call

-- What is read of the parameters of an event: `params.value(key, "")`,
-- `params.contains(key)` and `params.value(key, json::object())`.
pub record JsonReader (J : Type 0) : Type 0 where
  pub value : J → Bytes → Bytes
  pub contains : J → Bytes → Bool
  pub object : J → Bytes → J
  pub empty_object : J

pub record ComponentEvent (J : Type 0) : Type 0 where
  pub event_type : Bytes
  pub params : J
  pub call_id : Bytes
  pub control_id : Bytes
  pub state : Bytes

module _ {J : Type 0} (r : JsonReader J) where
  unfoldable pub component_event : Bytes → J → ComponentEvent J
  component_event event_type params = record {
    event_type = event_type;
    params = params;
    call_id = r.value params (codes "call_id");
    control_id = r.value params (codes "control_id");
    state = r.value params (codes "state");
  }

  -- The action resolves with the parameters and leaves the registry.
  pub close : Call → Store J → ℕ → ComponentEvent J → Call × Store J
  close c st h ev =
      (unregister_action c ev.control_id, put st h (resolve (st h) (codes "finished") ev.params))

  -- A detect action waits for a `detect` payload, a collect action for a `result`; any other
  -- action follows the state.
  pub route : Call → Store J → ℕ → ComponentEvent J → Call × Store J
  unfolding close
  route c st h ev =
      if (st h).resolve_on_detect
      then (if r.contains ev.params (codes "detect") then close c st h ev else (c, st))
      else if (st h).resolve_on_result
      then (if r.contains ev.params (codes "result")
          then close c st h ev
          else if not (is_empty ev.state)
          then (c, put st h (update_state (st h) ev.state ev.params))
          else (c, st))
      else (let a = update_state (st h) ev.state ev.params in
          (if a.is_completed then unregister_action c ev.control_id else c, put st h a))

  -- The action is found by its control id, and its filter must accept the event.
  pub deliver : Call → Store J → ComponentEvent J → Call × Store J
  unfolding route
  deliver c st ev = if is_empty ev.control_id then (c, st) else elim (find_action c ev.control_id) [
    | none ↦ (c, st)
    | some h ↦ if event_type_matches (st h) ev.event_type then route c st h ev else (c, st)
  ]

-- An event changes neither the id nor the state of the call.
abbrev Kept : {J : Type 0} → Call → Call × Store J → Type 0
Kept c p = (p.0.call_id ≡ c.call_id) × (p.0.state ≡ c.state)

module _ {J : Type 0} (r : JsonReader J) where
  route-keeps :
      (c : Call) (st : Store J) (h : ℕ) (ev : ComponentEvent J) → Kept c (route r c st h ev)
  unfolding route close unregister_action
  route-keeps c st h ev = ground arith

  pub deliver-keeps : (c : Call) (st : Store J) (ev : ComponentEvent J) → Kept c (deliver r c st ev)
  unfolding deliver
  deliver-keeps c st ev = elim (Option-cases (find_action c ev.control_id)) [
    | inl e ↦ ground (arith, e)
    | inr (h, e) ↦ ground (arith, e, route-keeps c st h ev)
  ]

-- What reaches a call that is in the registry: a component event, or a change of its state.
pub data Arrival (J : Type 0) : Type 0 where
  component : ComponentEvent J → Arrival J
  state_change : Bytes → Arrival J

module _ {J : Type 0} (r : JsonReader J) where
  pub handle : Call → Store J → Arrival J → Call × Store J
  handle c st (component ev) = deliver r c st ev
  handle c st (state_change s) = Call.update_state r.empty_object c st s

  pub handle_all : Call → Store J → List (Arrival J) → Call × Store J
  unfolding handle
  handle_all c st [] = (c, st)
  handle_all c st (ev ∷ evs) = let (c', st') = handle c st ev in handle_all c' st' evs
