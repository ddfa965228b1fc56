-- ===== src/Relay/Component/Collect.antt =====
-- What one event does to the action it names: an action that follows the state, and a collect
-- action, which waits for a `result`.
use signalwire_agents_cpp.Prelude.{
  ℕ, suc, none, some, Bool, true, false, ◌≡◌, refl, ap, ◌∙◌, Bytes, codes, if◌then◌else◌, is_empty,
  str_eq_refl, arith,
}
use signalwire_agents_cpp.Prelude.Map.{lookup, lookup-erase}
use signalwire_agents_cpp.Relay.Action.{
  Action, notify, resolve, update_state, event_type_matches, matches-filter, is_terminal,
}
use signalwire_agents_cpp.Relay.Call.{Call, Store, put, unregister_action, find_action}
use signalwire_agents_cpp.Relay.Component.{JsonReader, ComponentEvent, close, route, deliver}

-- The event names the action at handle `h`, which accepts it.
abbrev pub Reaches : {J : Type 0} → Call → Store J → ComponentEvent J → ℕ → Type 0
Reaches c st ev h =
    (is_empty ev.control_id ≡ false)
    × (lookup ev.control_id c.actions ≡ some h)
    × (event_type_matches (st h) ev.event_type ≡ true)

module _ {J : Type 0} (r : JsonReader J) where
  deliver-route :
      (c : Call) (st : Store J) (ev : ComponentEvent J) (h : ℕ)
      → Reaches c st ev h
      → deliver r c st ev ≡ route r c st h ev
  unfolding deliver find_action
  deliver-route c st ev h (e, l, m) = rw (e, l, m) refl

  -- The case of `route` that follows the state.
  route-follows :
      (c : Call) (st : Store J) (h : ℕ) (ev : ComponentEvent J)
      → (st h).resolve_on_detect ≡ false
      → (st h).resolve_on_result ≡ false
      → route r c st h ev ≡ (
          let a = update_state (st h) ev.state ev.params in
          (if a.is_completed then unregister_action c ev.control_id else c, put st h a))
  unfolding route
  route-follows c st h ev d q = rw (d, q) refl

  put_here : (st : Store J) (h : ℕ) (a : Action J) → put st h a h ≡ a
  unfolding put
  put_here st h a = ground arith

  update_state_lem :
      (a : Action J) (s : Bytes) (x : J)
      → a.is_completed ≡ false
      → ((update_state a s x).current_state ≡ s)
        × ((update_state a s x).result ≡ x)
        × ((update_state a s x).is_completed ≡ is_terminal s)
  unfolding update_state
  update_state_lem a s x o = ground arith

  lookup-leave :
      (c : Call) (i : Bytes) (h : ℕ) (b : Bool)
      → lookup i c.actions ≡ some h
      → lookup i (if b then unregister_action c i else c).actions ≡ (if b then none else some h)
  unfolding unregister_action
  lookup-leave c i h true l = lookup-erase i i c.actions ∙ rw (str_eq_refl i) refl
  lookup-leave c i h false l = l

  -- An action that is not complete and follows the state: an event that reaches it sets its state
  -- and result, completes it exactly when the state is terminal, and then takes it out of the
  -- registry.
  pub deliver-follows :
      (c : Call) (st : Store J) (ev : ComponentEvent J) (h : ℕ)
      → Reaches c st ev h
      → (st h).is_completed ≡ false
      → (st h).resolve_on_detect ≡ false
      → (st h).resolve_on_result ≡ false
      → (((deliver r c st ev).1 h).current_state ≡ ev.state)
        × (((deliver r c st ev).1 h).result ≡ ev.params)
        × (((deliver r c st ev).1 h).is_completed ≡ is_terminal ev.state)
        × (lookup ev.control_id (deliver r c st ev).0.actions
            ≡ (if is_terminal ev.state then none else some h))
  deliver-follows c st ev h (e, l, m) o d q =
      let u = update_state_lem (st h) ev.state ev.params o in
      rw
        (
          deliver-route c st ev h (e, l, m),
          route-follows c st h ev d q,
          put_here st h (update_state (st h) ev.state ev.params),
        )
        (u.0, u.1, u.2, rw (← u.2) (lookup-leave c ev.control_id h _ l))

  -- The two cases of `route` for a collect action.
  route-collect :
      (c : Call) (st : Store J) (h : ℕ) (ev : ComponentEvent J)
      → (st h).resolve_on_detect ≡ false
      → (st h).resolve_on_result ≡ true
      → (r.contains ev.params (codes "result") ≡ true → route r c st h ev ≡ close r c st h ev)
        × (r.contains ev.params (codes "result") ≡ false
            → is_empty ev.state ≡ false
            → route r c st h ev ≡ (c, put st h (update_state (st h) ev.state ev.params)))
  unfolding route
  route-collect c st h ev d q = (λ p. rw (d, q, p) refl, λ p e. rw (d, q, p, e) refl)

  update_state_terminal :
      (a : Action J) (s : Bytes) (x : J)
      → is_terminal s ≡ true
      → a.has_callback ≡ true
      → let b = update_state a s x in
        (b.is_completed ≡ true)
        × (b.fired ≡ suc a.fired)
        × (b.has_callback ≡ true)
        × (b.resolve_on_detect ≡ a.resolve_on_detect)
        × (b.resolve_on_result ≡ a.resolve_on_result)
        × (b.event_type_filter ≡ a.event_type_filter)
  unfolding update_state notify
  update_state_terminal a s x t cb = rw (t, cb) (refl, refl, refl, refl, refl, refl)

  resolve_fired :
      (a : Action J) (s : Bytes) (x : J)
      → a.has_callback ≡ true
      → (resolve a s x).fired ≡ suc a.fired
  unfolding resolve notify
  resolve_fired a s x cb = rw cb refl

  close_here :
      (c : Call) (st : Store J) (h : ℕ) (ev : ComponentEvent J)
      → (close r c st h ev).1 h ≡ resolve (st h) (codes "finished") ev.params
  unfolding close
  close_here c st h ev = put_here st h _

  -- A collect action with a completion callback: an event that reaches it with a terminal state and
  -- without a `result` completes it, calls the callback and leaves it in the registry, and an event
  -- for the same control id that then brings a `result` calls the callback again.
  pub deliver-collect_twice :
      (c : Call) (st : Store J) (ev ev' : ComponentEvent J) (h : ℕ)
      → Reaches c st ev h
      → Reaches c st ev' h
      → (st h).resolve_on_detect ≡ false
      → (st h).resolve_on_result ≡ true
      → (st h).has_callback ≡ true
      → r.contains ev.params (codes "result") ≡ false
      → is_empty ev.state ≡ false
      → is_terminal ev.state ≡ true
      → r.contains ev'.params (codes "result") ≡ true
      → let p = deliver r c st ev in
        ((p.1 h).is_completed ≡ true)
        × (p.0 ≡ c)
        × ((p.1 h).fired ≡ suc (st h).fired)
        × (((deliver r p.0 p.1 ev').1 h).fired ≡ suc (suc (st h).fired))
  deliver-collect_twice c st ev ev' h m (e', l', m') d q cb nr ne t res =
      let a = update_state (st h) ev.state ev.params in
      let st1 = put st h a in
      let u = update_state_terminal (st h) ev.state ev.params t cb in
      let here = put_here st h a in
      let first = deliver-route c st ev h m ∙ (route-collect c st h ev d q).1 nr ne in
      let reach : Reaches c st1 ev' h =
        (e', l', rw here (matches-filter a (st h) ev'.event_type u.5 ∙ m')) in
      let second =
        deliver-route c st1 ev' h reach
        ∙ (route-collect c st1 h ev' (rw here (u.3 ∙ d)) (rw here (u.4 ∙ q))).0 res in
      rw (first, second, close_here c st1 h ev', here)
        (u.0, refl, u.1, resolve_fired a (codes "finished") ev'.params u.2 ∙ ap suc u.1)
