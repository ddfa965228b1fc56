-- ===== src/Relay/Component/Once.antt =====
-- The completion callback of an action is called at most once, whatever events a call receives, as
-- long as none of its registered actions is a collect action.
use signalwire_agents_cpp.Prelude.{
  ℕ, ◌≤◌, some, true, false, ◌≡◌, ◌≢◌, ◌⊎◌, inl, inr, ◌∙◌, ◌∷◌, [], List, Bytes, codes, is_empty,
  str_eq, arith, Option-cases, if_elim,
}
use signalwire_agents_cpp.Prelude.Map.{erase_inv, Map, erase, lookup}
use signalwire_agents_cpp.Relay.Action.{Action, resolve, update_state, event_type_matches}
use signalwire_agents_cpp.Relay.Call.{
  Call, Store, put, resolve_one, resolve_each, unregister_action, find_action,
}
use signalwire_agents_cpp.Relay.Call
use signalwire_agents_cpp.Relay.Component.{
  JsonReader, ComponentEvent, close, route, deliver, Arrival, component, state_change, handle,
  handle_all,
}

-- An open action has not called its callback, and a completed one has called it at most once.
abbrev pub Once : {J : Type 0} → Action J → Type 0
Once a = ((a.is_completed ≡ true) ⊎ (a.fired ≡ 0)) × (a.fired ≤ 1)

module _ {J : Type 0} where
  resolve-Once :
      (a : Action J) (s : Bytes) (x : J) → a.is_completed ≡ false → Once a → Once (resolve a s x)
  unfolding resolve
  resolve-Once a s x o h = ground arith

  resolve-is_completed : (a : Action J) (s : Bytes) (x : J) → (resolve a s x).is_completed ≡ true
  unfolding resolve
  resolve-is_completed a s x = ground arith

  update_state-Once :
      (a : Action J) (s : Bytes) (x : J)
      → a.is_completed ≡ false
      → Once a
      → Once (update_state a s x)
  unfolding update_state
  update_state-Once a s x o h = ground arith

  update_state-mode :
      (a : Action J) (s : Bytes) (x : J)
      → (update_state a s x).resolve_on_result ≡ a.resolve_on_result
  unfolding update_state
  update_state-mode a s x = ground arith

-- The registered actions are open, are not collect actions, and have handles of their own; every
-- action has called its callback at most once.
pub record IsRouted {J : Type 0} (c : Call) (st : Store J) : Type 0 where
  pub opened : (i : Bytes) (h : ℕ) → lookup i c.actions ≡ some h → (st h).is_completed ≡ false
  pub direct : (i : Bytes) (h : ℕ) → lookup i c.actions ≡ some h → (st h).resolve_on_result ≡ false
  pub apart :
      (i j : Bytes) (h : ℕ) → lookup i c.actions ≡ some h → lookup j c.actions ≡ some h → i ≡ j
  pub once : (h : ℕ) → Once (st h)

lookup-nil : (i : Bytes) (h : ℕ) → lookup i [] ≡ some h → ⊥
unfolding lookup
lookup-nil i h l = cc

module _ {J : Type 0} where
  put_self : (st : Store J) (h : ℕ) (a : Action J) → put st h a h ≡ a
  unfolding put
  put_self st h a = ground arith

  put_ne : (st : Store J) (h k : ℕ) (a : Action J) → k ≢ h → put st h a k ≡ st k
  unfolding put
  put_ne st h k a ne = ground arith

  put-Once :
      (st : Store J) (h : ℕ) (a : Action J)
      → Once a
      → ((k : ℕ) → Once (st k))
      → (k : ℕ) → Once (put st h a k)
  unfolding put
  put-Once st h a o all k = ground (arith, all k)

  -- The action of a found id is replaced, and the id leaves the registry.
  leave-IsRouted :
      (c : Call) (st : Store J) (i : Bytes) (h : ℕ) (a : Action J)
      → lookup i c.actions ≡ some h
      → Once a
      → IsRouted c st
      → IsRouted (unregister_action c i) (put st h a)
  unfolding unregister_action
  leave-IsRouted c st i h a found o v =
      let other = λ (j : Bytes) (k : ℕ) (l : lookup j (erase i c.actions) ≡ some k).
        put_ne st h k a (λ e.
          (erase_inv i j k c.actions l).0
            (v.apart j i h (rw (← e) (erase_inv i j k c.actions l).1) found)) in
      record {
        opened = λ j k l. rw (other j k l) (v.opened j k (erase_inv i j k c.actions l).1);
        direct = λ j k l. rw (other j k l) (v.direct j k (erase_inv i j k c.actions l).1);
        apart = λ j j' k l l'.
            v.apart j j' k (erase_inv i j k c.actions l).1 (erase_inv i j' k c.actions l').1;
        once = put-Once st h a o v.once;
      }

  -- The action is replaced by one that is still open.
  stay-IsRouted :
      (c : Call) (st : Store J) (h : ℕ) (a : Action J)
      → a.is_completed ≡ false
      → a.resolve_on_result ≡ false
      → Once a
      → IsRouted c st
      → IsRouted c (put st h a)
  unfolding put
  stay-IsRouted c st h a op dir o v = record {
    opened = λ j k l. ground (arith, v.opened j k l);
    direct = λ j k l. ground (arith, v.direct j k l);
    apart = v.apart;
    once = put-Once st h a o v.once;
  }

abbrev pub Routed : {J : Type 0} → Call × Store J → Type 0
Routed p = IsRouted p.0 p.1

module _ {J : Type 0} (r : JsonReader J) where
  close-IsRouted :
      (c : Call) (st : Store J) (h : ℕ) (ev : ComponentEvent J)
      → lookup ev.control_id c.actions ≡ some h
      → IsRouted c st
      → Routed (close r c st h ev)
  unfolding close
  close-IsRouted c st h ev found v =
      leave-IsRouted c st ev.control_id h _ found
        (resolve-Once (st h) _ _ (v.opened ev.control_id h found) (v.once h)) v

  route-IsRouted :
      (c : Call) (st : Store J) (h : ℕ) (ev : ComponentEvent J)
      → lookup ev.control_id c.actions ≡ some h
      → IsRouted c st
      → Routed (route r c st h ev)
  unfolding route
  route-IsRouted c st h ev found v =
      let op = v.opened ev.control_id h found in
      let a = update_state (st h) ev.state ev.params in
      let o = update_state-Once (st h) ev.state ev.params op (v.once h) in
      let dir = v.direct ev.control_id h found in
      if_elim Routed (st h).resolve_on_detect _ _
        (λ d.
          if_elim Routed (r.contains ev.params (codes "detect")) _ _
            (λ p. close-IsRouted c st h ev found v) (λ p. v))
        (λ d.
          if_elim Routed (st h).resolve_on_result _ _ (λ m. absurd (cc dir))
            (λ m.
              if_elim (λ c'. IsRouted c' (put st h a)) a.is_completed _ _
                (λ f. leave-IsRouted c st ev.control_id h a found o v)
                (λ f.
                  stay-IsRouted c st h a f (update_state-mode (st h) ev.state ev.params ∙ dir) o
                    v)))

  deliver-IsRouted :
      (c : Call) (st : Store J) (ev : ComponentEvent J) → IsRouted c st → Routed (deliver r c st ev)
  unfolding deliver find_action
  deliver-IsRouted c st ev v =
      if_elim Routed (is_empty ev.control_id) _ _ (λ e. v)
        (λ e. elim (Option-cases (lookup ev.control_id c.actions)) [
          | inl n ↦ rw n v
          | inr (h, f) ↦ rw f (
              if_elim Routed (event_type_matches (st h) ev.event_type) _ _
                (λ m. route-IsRouted c st h ev f v) (λ m. v))
        ])

  resolve_one-Once :
      (empty : J) (st : Store J) (s : Bytes) (h : ℕ)
      → ((k : ℕ) → Once (st k))
      → (k : ℕ) → Once (resolve_one empty st s h k)
  unfolding resolve_one
  resolve_one-Once empty st s h all =
      if_elim {A = Store J} (λ t. (k : ℕ) → Once (t k)) (st h).is_completed _ _ (λ e. all)
        (λ e. put-Once st h _ (resolve-Once (st h) s empty e (all h)) all)

  resolve_each-Once :
      (empty : J) (st : Store J) (s : Bytes) (m : Map ℕ)
      → ((k : ℕ) → Once (st k))
      → (k : ℕ) → Once (resolve_each empty st s m k)
  unfolding resolve_each
  resolve_each-Once empty st s [] all = all
  resolve_each-Once empty st s ((id, h) ∷ m) all =
      resolve_each-Once empty (resolve_one empty st s h) s m (resolve_one-Once empty st s h all)

  handle-IsRouted :
      (c : Call) (st : Store J) (ev : Arrival J) → IsRouted c st → Routed (handle r c st ev)
  unfolding handle Call.update_state
  handle-IsRouted c st (component ev) v = deliver-IsRouted c st ev v
  handle-IsRouted c st (state_change s) v =
      if_elim Routed (str_eq s (codes "ended")) _ _
        (λ e. record {
          opened = λ i h l. absurd (no_entry i h l);
          direct = λ i h l. absurd (no_entry i h l);
          apart = λ i j h l l'. absurd (no_entry i h l);
          once = resolve_each-Once r.empty_object st (codes "finished") c.actions v.once;
        })
        (λ e. record { opened = v.opened; direct = v.direct; apart = v.apart; once = v.once })
    where
      no_entry : (i : Bytes) (h : ℕ) → lookup i [] ≡ some h → ⊥
      no_entry i h l = lookup-nil i h l

  -- Whatever component events and state changes a call receives, if at the start its registered
  -- actions are open, none of them is a collect action, each has a handle of its own, and every
  -- action has called its callback at most once and not at all while open, all that stays so: no
  -- completion callback is called twice.
  pub handle_all-IsRouted :
      (c : Call) (st : Store J) (evs : List (Arrival J))
      → IsRouted c st
      → Routed (handle_all r c st evs)
  unfolding handle_all
  handle_all-IsRouted c st [] v = v
  handle_all-IsRouted c st (ev ∷ evs) v =
      let n = handle r c st ev in handle_all-IsRouted n.0 n.1 evs (handle-IsRouted c st ev v)
