-- ===== src/Relay/Client/Routing.antt =====
-- The registry of calls through the handlers of events, and `route_event`.
use signalwire_agents_cpp.Prelude.{
  ℕ, some, ◌≡◌, ◌≢◌, inl, inr, refl, sym, ◌∙◌, ◌∷◌, [], List, Bytes, codes, if◌then◌else◌, is_empty,
  str_eq, str_eq_iff, ◌||◌, Option-cases, if_elim,
}
use signalwire_agents_cpp.Prelude.Map.{lookup}
use signalwire_agents_cpp.Prelude.Strings.{starts_with}
use signalwire_agents_cpp.Relay.Call.{new_call, update_state-keeps}
use signalwire_agents_cpp.Relay.Component.{JsonReader, component_event, deliver-keeps}
use signalwire_agents_cpp.Relay.Client.{
  Client, find_call, add_call, settle, end_dial, handle_inbound_call, answer_dial,
  handle_dial_event, add_dial_leg, set_call_state, handle_call_state, handle_component_event,
  handle_messaging_event, route_event, route_events,
}
use signalwire_agents_cpp.Relay.Client.Registry.{
  IsRegistry, add_call-IsRegistry, replace-IsRegistry, retire-IsRegistry, same-IsRegistry,
}

created-ne-ended : codes "created" ≢ codes "ended"
created-ne-ended e = cc

answered-ne-ended : codes "answered" ≢ codes "ended"
answered-ne-ended e = cc

module _ {J : Type 0} (r : JsonReader J) where
  handle_inbound_call-IsRegistry :
      (c : Client J) (params : J) → IsRegistry c → IsRegistry (handle_inbound_call r c params)
  unfolding handle_inbound_call new_call
  handle_inbound_call-IsRegistry c params v =
      if_elim IsRegistry (is_empty (r.value params (codes "call_id"))) _ _ (λ e. v)
        (λ e. add_call-IsRegistry c _ _ refl created-ne-ended v)

  answer_dial-IsRegistry :
      (c : Client J) (p : ℕ) (tag i n : Bytes)
      → IsRegistry c
      → IsRegistry (answer_dial r c p tag i n)
  unfolding answer_dial find_call settle new_call
  answer_dial-IsRegistry c p tag i n v = elim (Option-cases (lookup i c.calls)) [
    | inl e ↦
        rw (e, answer_dial)
          (same-IsRegistry (add_call c i _) _ refl refl refl
            (add_call-IsRegistry c i _ refl answered-ne-ended v))
    | inr (h, e) ↦ rw (e, answer_dial) (same-IsRegistry c _ refl refl refl v)
  ]

  handle_dial_event-IsRegistry :
      (c : Client J) (params : J) → IsRegistry c → IsRegistry (handle_dial_event r c params)
  unfolding handle_dial_event end_dial settle
  handle_dial_event-IsRegistry c params v =
      elim (Option-cases (lookup (r.value params (codes "tag")) c.pending_dials)) [
        | inl e ↦ rw (e, handle_dial_event) v
        | inr (p, e) ↦
            rw (e, handle_dial_event)
              (let w =
                  same-IsRegistry c (end_dial c (r.value params (codes "tag"))) refl refl refl v in
                if_elim IsRegistry (str_eq (r.value params (codes "dial_state")) (codes "answered"))
                  _ _ (λ a. answer_dial-IsRegistry _ p _ _ _ w)
                  (λ a.
                    if_elim IsRegistry
                      (str_eq (r.value params (codes "dial_state")) (codes "failed")) _ _
                      (λ f. same-IsRegistry c _ refl refl refl v) (λ f. w)))
      ]

  add_dial_leg-IsRegistry :
      (c : Client J) (tag i n : Bytes) → IsRegistry c → IsRegistry (add_dial_leg r c tag i n)
  unfolding add_dial_leg find_call new_call
  add_dial_leg-IsRegistry c tag i n v = elim (Option-cases (lookup tag c.pending_dials)) [
    | inl e ↦ rw (e, add_dial_leg) v
    | inr (p, e) ↦ elim (Option-cases (lookup i c.calls)) [
      | inl m ↦ rw (e, add_dial_leg, m) (add_call-IsRegistry c i _ refl created-ne-ended v)
      | inr (h, m) ↦ rw (e, add_dial_leg, m) v
    ]
  ]

  set_call_state-IsRegistry :
      (c : Client J) (i : Bytes) (h : ℕ) (s : Bytes)
      → lookup i c.calls ≡ some h
      → IsRegistry c
      → IsRegistry (set_call_state r c i h s)
  unfolding set_call_state
  set_call_state-IsRegistry c i h s found v =
      let kept = update_state-keeps r.empty_object (c.call_objects h) c.actions s in
      if_elim IsRegistry (str_eq s (codes "ended")) _ _ (λ e. retire-IsRegistry c i h _ _ found v)
        (λ e.
          replace-IsRegistry c i h _ _ found kept.0
            (λ t. cc ((str_eq_iff s (codes "ended")).1 (sym kept.1 ∙ t))) v)

  handle_call_state-IsRegistry :
      (c : Client J) (params : J) → IsRegistry c → IsRegistry (handle_call_state r c params)
  unfolding handle_call_state find_call
  handle_call_state-IsRegistry c params v =
      let i = r.value params (codes "call_id") in
      let tag = r.value params (codes "tag") in
      let d =
        if is_empty tag then c else add_dial_leg r c tag i (r.value params (codes "node_id")) in
      let w =
        if_elim IsRegistry (is_empty tag) c _ (λ e. v) (λ e. add_dial_leg-IsRegistry c tag i _ v) in
      if_elim IsRegistry (is_empty i) _ _ (λ e. v)
        (λ e. elim (Option-cases (lookup i d.calls)) [
          | inl m ↦ rw m w
          | inr (h, m) ↦ rw m (set_call_state-IsRegistry d i h _ m w)
        ])

  handle_component_event-IsRegistry :
      (c : Client J) (event_type : Bytes) (params : J)
      → IsRegistry c
      → IsRegistry (handle_component_event r c event_type params)
  unfolding handle_component_event find_call
  handle_component_event-IsRegistry c t params v =
      let ev = component_event r t params in
      if_elim IsRegistry (is_empty ev.call_id) _ _ (λ e. v)
        (λ e. elim (Option-cases (lookup ev.call_id c.calls)) [
          | inl m ↦ rw m v
          | inr (h, m) ↦
              let kept = deliver-keeps r (c.call_objects h) c.actions ev in
              rw m (
                replace-IsRegistry c ev.call_id h _ _ m kept.0
                  (λ t. v.running ev.call_id h m (sym kept.1 ∙ t)) v)
        ])

  handle_messaging_event-IsRegistry :
      (c : Client J) (event_type : Bytes) (params : J)
      → IsRegistry c
      → IsRegistry (handle_messaging_event r c event_type params)
  unfolding handle_messaging_event
  handle_messaging_event-IsRegistry c t params v =
      if_elim IsRegistry (str_eq t (codes "messaging.state")) _ _
        (λ e. elim (Option-cases (lookup (r.value params (codes "message_id")) c.messages)) [
          | inl m ↦ rw m v
          | inr (h, m) ↦ rw m (same-IsRegistry c _ refl refl refl v)
        ])
        (λ e. v)

  route_event-IsRegistry :
      (c : Client J) (t : Bytes) (params : J) → IsRegistry c → IsRegistry (route_event r c t params)
  unfolding route_event
  route_event-IsRegistry c t params v =
      let auth = r.value params (codes "authorization_state") in
      if_elim IsRegistry (str_eq t (codes "signalwire.authorization.state")) _ _
        (λ e.
          if_elim IsRegistry (is_empty auth) c _ (λ f. v)
            (λ f. same-IsRegistry c _ refl refl refl v))
        (λ e.
          if_elim IsRegistry (str_eq t (codes "calling.call.receive")) _ _
            (λ e. handle_inbound_call-IsRegistry c params v)
            (λ e.
              if_elim IsRegistry (str_eq t (codes "calling.call.dial")) _ _
                (λ e. handle_dial_event-IsRegistry c params v)
                (λ e.
                  if_elim IsRegistry (str_eq t (codes "calling.call.state")) _ _
                    (λ e. handle_call_state-IsRegistry c params v)
                    (λ e.
                      if_elim IsRegistry
                        (str_eq t (codes "messaging.receive") || str_eq t (codes "messaging.state"))
                        _ _ (λ e. handle_messaging_event-IsRegistry c t params v)
                        (λ e.
                          if_elim IsRegistry (starts_with (codes "calling.call.") t) _ c
                            (λ e. handle_component_event-IsRegistry c t params v) (λ e. v))))))

  -- Whatever events arrive, if at the start every registered call is an owned one, has the id that it
  -- is registered under and a state other than "ended", that stays so.
  pub route_events-IsRegistry :
      (c : Client J) (events : List (Bytes × J))
      → IsRegistry c
      → IsRegistry (route_events r c events)
  unfolding route_events
  route_events-IsRegistry c [] v = v
  route_events-IsRegistry c ((t, params) ∷ events) v =
      route_events-IsRegistry (route_event r c t params) events
        (route_event-IsRegistry c t params v)
