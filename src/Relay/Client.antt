-- ===== src/Relay/Client.antt =====
-- `RelayClient` of src/relay/client.cpp: the registries of calls, of dials in progress and of
-- messages, and the routing of events. A pointer to a call, a promise or a message is a handle. The
-- handlers of the application run elsewhere, so a call of them changes nothing here.
pub mod Registry
pub mod Routing
pub mod Dial
pub mod Reconnect
pub mod Requests
mod Tests
use signalwire_agents_cpp.Prelude.{
  ℕ, suc, Option, none, some, Bool, true, false, [], ◌∷◌, List, Bytes, codes, if◌then◌else◌,
  is_empty, str_eq, ◌||◌, ◌==◌, not,
}
use signalwire_agents_cpp.Prelude.Map.{Map, assign, erase, lookup}
use signalwire_agents_cpp.Prelude.Strings.{starts_with}
use signalwire_agents_cpp.Relay.Call.{Call, new_call, Store}
use signalwire_agents_cpp.Relay.Call
use signalwire_agents_cpp.Relay.Message.{Message, set_reason}
use signalwire_agents_cpp.Relay.Message
use signalwire_agents_cpp.Relay.Component.{JsonReader, component_event, deliver}

pub record Client (J : Type 0) : Type 0 where
  pub calls : Map ℕ
  pub call_objects : ℕ → Call
  pub call_count : ℕ
  pub pending_dials : Map ℕ
  pub promises : ℕ → Option (Option ℕ)
  pub messages : Map ℕ
  pub message_objects : ℕ → Message
  pub authorization_state : Bytes
  pub actions : Store J

unfoldable pub at_handle {ℓ} : {A : Type ℓ} → (ℕ → A) → ℕ → A → ℕ → A
at_handle objects h a k = if k == h then a else objects k

module _ {J : Type 0} where
  unfoldable pub register_call : Client J → Bytes → ℕ → Client J
  register_call c call_id h = record c { calls = assign call_id h c.calls }

  unfoldable pub unregister_call : Client J → Bytes → Client J
  unregister_call c call_id = record c { calls = erase call_id c.calls }

  unfoldable pub find_call : Client J → Bytes → Option ℕ
  find_call c call_id = lookup call_id c.calls

  -- A new object, registered and then owned: its handle is the number of calls owned so far.
  unfoldable pub add_call : Client J → Bytes → Call → Client J
  unfolding register_call at_handle
  add_call c call_id call =
      let d = register_call c call_id c.call_count in
      record d {
        call_objects = at_handle c.call_objects c.call_count call;
        call_count = suc c.call_count;
      }

  -- `promise.set_value`; the pointer is none for `nullptr`.
  unfoldable pub settle : Client J → ℕ → Option ℕ → Client J
  unfolding at_handle
  settle c p v = record c { promises = at_handle c.promises p (some v) }

  -- `dial` before its request, and after the promise is set or has timed out.
  unfoldable pub begin_dial : Client J → Bytes → ℕ → Client J
  unfolding at_handle
  begin_dial c tag p = record c {
    pending_dials = assign tag p c.pending_dials;
    promises = at_handle c.promises p none;
  }

  unfoldable pub end_dial : Client J → Bytes → Client J
  end_dial c tag = record c { pending_dials = erase tag c.pending_dials }

  settle_all : Client J → Map ℕ → Client J
  unfolding settle
  settle_all c [] = c
  settle_all c ((tag, p) ∷ dials) = settle_all (settle c p none) dials

  -- `reject_all_pending`, its part on dials.
  pub reject_dials : Client J → Client J
  unfolding settle_all
  reject_dials c = record (settle_all c c.pending_dials) { pending_dials = [] }

module _ {J : Type 0} (r : JsonReader J) where
  pub handle_inbound_call : Client J → J → Client J
  unfolding add_call new_call
  handle_inbound_call c params =
      let call_id = r.value params (codes "call_id") in
      let device = r.object (r.object params (codes "device")) (codes "params") in
      let call = new_call call_id (r.value params (codes "node_id")) true in
      if is_empty call_id
      then c
      else add_call c call_id (record call {
        direction = codes "inbound";
        from = r.value device (codes "from_number");
        to = r.value device (codes "to_number");
      })

  -- The call of an answered dial: one that is registered already, or a new one.
  pub answer_dial : Client J → ℕ → Bytes → Bytes → Bytes → Client J
  unfolding add_call new_call find_call settle
  answer_dial c p tag call_id node_id = elim (find_call c call_id) [
    | some h ↦ settle c p (some h)
    | none ↦
        let call = record (new_call call_id node_id true) {
          direction = codes "outbound";
          tag = tag;
          state = codes "answered";
        } in
        settle (add_call c call_id call) p (some c.call_count)
  ]

  -- The pending dial is taken out of the registry whatever the state of the dial is.
  pub handle_dial_event : Client J → J → Client J
  unfolding answer_dial settle end_dial
  handle_dial_event c params =
      let tag = r.value params (codes "tag") in
      let dial_state = r.value params (codes "dial_state") in
      let info = r.object params (codes "call") in
      elim (lookup tag c.pending_dials) [
        | none ↦ c
        | some p ↦
            let d = end_dial c tag in
            if str_eq dial_state (codes "answered")
            then answer_dial d p tag (r.value info (codes "call_id"))
                (r.value info (codes "node_id"))
            else if str_eq dial_state (codes "failed")
            then settle d p none
            else d
      ]

  -- While a dial is pending, its legs become calls.
  pub add_dial_leg : Client J → Bytes → Bytes → Bytes → Client J
  unfolding add_call new_call find_call
  add_dial_leg c tag call_id node_id = elim (lookup tag c.pending_dials) [
    | none ↦ c
    | some p ↦ elim (find_call c call_id) [
      | some h ↦ c
      | none ↦
          add_call c call_id
            (record (new_call call_id node_id true) { direction = codes "outbound"; tag = tag })
    ]
  ]

  -- A call that has ended leaves the registry.
  pub set_call_state : Client J → Bytes → ℕ → Bytes → Client J
  unfolding at_handle unregister_call Call.update_state
  set_call_state c call_id h call_state =
      let (call, actions) =
        Call.update_state r.empty_object (c.call_objects h) c.actions call_state in
      let d = record c { call_objects = at_handle c.call_objects h call; actions = actions } in
      if str_eq call_state (codes "ended") then unregister_call d call_id else d

  pub handle_call_state : Client J → J → Client J
  unfolding add_dial_leg set_call_state find_call
  handle_call_state c params =
      let call_id = r.value params (codes "call_id") in
      let tag = r.value params (codes "tag") in
      let d =
        if is_empty tag then c else add_dial_leg c tag call_id (r.value params (codes "node_id")) in
      if is_empty call_id then c else elim (find_call d call_id) [
        | none ↦ d
        | some h ↦ set_call_state d call_id h (r.value params (codes "call_state"))
      ]

  pub handle_component_event : Client J → Bytes → J → Client J
  unfolding at_handle find_call
  handle_component_event c event_type params =
      let ev = component_event r event_type params in
      if is_empty ev.call_id then c else elim (find_call c ev.call_id) [
        | none ↦ c
        | some h ↦
            let (call, actions) = deliver r (c.call_objects h) c.actions ev in
            record c { call_objects = at_handle c.call_objects h call; actions = actions }
      ]

  pub handle_messaging_event : Client J → Bytes → J → Client J
  unfolding at_handle Message.update_state set_reason
  handle_messaging_event c event_type params =
      let reason = r.value params (codes "reason") in
      if str_eq event_type (codes "messaging.state")
      then elim (lookup (r.value params (codes "message_id")) c.messages) [
        | none ↦ c
        | some h ↦
            let m = c.message_objects h in
            let n = if is_empty reason then m else set_reason m reason in
            record c {
              message_objects =
                  at_handle c.message_objects h
                    (Message.update_state n (r.value params (codes "message_state")));
            }
      ]
      else c

  -- `route_event` behind the two levels of parameters.
  pub route_event : Client J → Bytes → J → Client J
  unfolding handle_inbound_call handle_dial_event handle_call_state handle_component_event
      handle_messaging_event
  route_event c event_type params =
      let auth_state = r.value params (codes "authorization_state") in
      if str_eq event_type (codes "signalwire.authorization.state")
      then if is_empty auth_state then c else record c { authorization_state = auth_state }
      else if str_eq event_type (codes "calling.call.receive")
      then handle_inbound_call c params
      else if str_eq event_type (codes "calling.call.dial")
      then handle_dial_event c params
      else if str_eq event_type (codes "calling.call.state")
      then handle_call_state c params
      else if str_eq event_type (codes "messaging.receive")
          || str_eq event_type (codes "messaging.state")
      then handle_messaging_event c event_type params
      else if starts_with (codes "calling.call.") event_type
      then handle_component_event c event_type params
      else c

  pub route_events : Client J → List (Bytes × J) → Client J
  unfolding route_event
  route_events c [] = c
  route_events c ((event_type, params) ∷ events) =
      route_events (route_event c event_type params) events
