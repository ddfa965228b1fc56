-- ===== src/Relay/Client/Dial.antt =====
-- What the events of a dial do to its promise, which `dial` waits for.
use signalwire_agents_cpp.Prelude.{
  ℕ, ◌≡◌, ◌≢◌, refl, ap, ◌∙◌, none, some, Bytes, codes, str_eq, str_eq_refl, str_eq_iff, arith,
  Option-cases, inl, inr, false_of_not_true,
}
use signalwire_agents_cpp.Prelude.Map.{lookup, lookup-erase, lookup-assign}
use signalwire_agents_cpp.Relay.Component.{JsonReader}
use signalwire_agents_cpp.Relay.Client.{
  Client, at_handle, register_call, find_call, add_call, settle, end_dial, answer_dial,
  handle_dial_event,
}

abbrev pub tag_of : {J : Type 0} → JsonReader J → J → Bytes
tag_of r params = r.value params (codes "tag")

abbrev pub dial_state_of : {J : Type 0} → JsonReader J → J → Bytes
dial_state_of r params = r.value params (codes "dial_state")

-- The id of the call that an event tells of.
abbrev pub leg_of : {J : Type 0} → JsonReader J → J → Bytes
leg_of r params = r.value (r.object params (codes "call")) (codes "call_id")

at_here : {A : Type 0} (objects : ℕ → A) (h : ℕ) (a : A) → at_handle objects h a h ≡ a
unfolding at_handle
at_here objects h a = ground arith

module _ {J : Type 0} (r : JsonReader J) where
  -- The promise gets a call that is registered under the id, and no dial is added.
  answer_dial_lem :
      (c : Client J) (p : ℕ) (tag i n : Bytes)
      → ((answer_dial r c p tag i n).pending_dials ≡ c.pending_dials)
        × ((h : ℕ) × ((answer_dial r c p tag i n).promises p ≡ some (some h))
            × (lookup i (answer_dial r c p tag i n).calls ≡ some h))
  unfolding answer_dial find_call settle add_call register_call
  answer_dial_lem c p tag i n = elim (Option-cases (lookup i c.calls)) [
    | inl e ↦
        rw (e, answer_dial)
          (
            refl,
            (
              c.call_count,
              at_here c.promises p _,
              lookup-assign i i c.call_count c.calls ∙ rw (str_eq_refl i) refl,
            ),
          )
    | inr (h, e) ↦ rw (e, answer_dial) (refl, (h, at_here c.promises p _, e))
  ]

  lookup-end_dial : (c : Client J) (tag : Bytes) → lookup tag (end_dial c tag).pending_dials ≡ none
  unfolding end_dial
  lookup-end_dial c tag = lookup-erase tag tag c.pending_dials ∙ rw (str_eq_refl tag) refl

  -- An event "answered" for a pending dial sets its promise to a call that is then registered under
  -- the id that the event names, and the dial is no longer pending.
  pub handle_dial_event-answered :
      (c : Client J) (params : J) (p : ℕ)
      → lookup (tag_of r params) c.pending_dials ≡ some p
      → dial_state_of r params ≡ codes "answered"
      → let d = handle_dial_event r c params in
        (lookup (tag_of r params) d.pending_dials ≡ none)
        × ((h : ℕ) × (d.promises p ≡ some (some h)) × (lookup (leg_of r params) d.calls ≡ some h))
  unfolding handle_dial_event str_eq
  handle_dial_event-answered c params p pending a =
      let d = end_dial c (tag_of r params) in
      let l =
        answer_dial_lem d p (tag_of r params) (leg_of r params)
          (r.value (r.object params (codes "call")) (codes "node_id")) in
      rw (pending, handle_dial_event, a)
        (ap (lookup (tag_of r params)) l.0 ∙ lookup-end_dial c (tag_of r params), l.1)

  -- An event for a tag that is not pending changes nothing.
  no_dial :
      (c : Client J) (params : J)
      → lookup (tag_of r params) c.pending_dials ≡ none
      → handle_dial_event r c params ≡ c
  unfolding handle_dial_event
  no_dial c params e = rw (e, handle_dial_event) refl

  -- Any other state only takes the dial out of the registry.
  other_state :
      (c : Client J) (params : J) (p : ℕ)
      → lookup (tag_of r params) c.pending_dials ≡ some p
      → dial_state_of r params ≢ codes "answered"
      → dial_state_of r params ≢ codes "failed"
      → handle_dial_event r c params ≡ end_dial c (tag_of r params)
  unfolding handle_dial_event
  other_state c params p pending na nf =
      let a =
        false_of_not_true _
          (λ t. na ((str_eq_iff (dial_state_of r params) (codes "answered")).0 t)) in
      let f =
        false_of_not_true _
          (λ t. nf ((str_eq_iff (dial_state_of r params) (codes "failed")).0 t)) in
      rw (pending, handle_dial_event, a, f) refl

  -- After an event for a pending dial whose state is neither "answered" nor "failed", the next event
  -- with the same tag changes nothing, whatever its state: the dial is no longer pending and no
  -- promise has been set.
  pub handle_dial_event-lost :
      (c : Client J) (params params' : J) (p : ℕ)
      → lookup (tag_of r params) c.pending_dials ≡ some p
      → dial_state_of r params ≢ codes "answered"
      → dial_state_of r params ≢ codes "failed"
      → tag_of r params' ≡ tag_of r params
      → let d = handle_dial_event r c params in
        (handle_dial_event r d params' ≡ d)
        × (lookup (tag_of r params) d.pending_dials ≡ none)
        × (d.promises ≡ c.promises)
  unfolding end_dial
  handle_dial_event-lost c params params' p pending na nf same =
      let gone = lookup-end_dial c (tag_of r params) in
      rw (other_state c params p pending na nf)
        (no_dial (end_dial c (tag_of r params)) params' (rw same gone), gone, refl)
