-- ===== src/Relay/Call/Lifetime.antt =====
-- The registry of a call's actions, from the request of an action to the end of the call.
use signalwire_agents_cpp.Prelude.{
  ℕ, none, some, true, ◌≡◌, refl, ◌∷◌, [], Bytes, codes, if◌then◌else◌, str_eq, str_eq_refl, arith,
  Bool-cases, inl, inr, if_elim, ◌||◌, ◌&&◌, not, is_empty,
}
use signalwire_agents_cpp.Prelude.Map.{Map, lookup, lookup-assign, lookup-erase}
use signalwire_agents_cpp.Relay.Action.{new_action, resolve}
use signalwire_agents_cpp.Relay.Call.{
  Call, Store, Reply, no_client, request_failed, reply, put, register_action, unregister_action,
  resolve_one, resolve_each, resolve_all_actions, update_state, begin_action, finish_action,
  first_is_two,
}

module _ {J : Type 0} where
  -- An action that is complete stays so.
  resolve_one-keeps :
      (empty : J) (st : Store J) (s : Bytes) (h k : ℕ)
      → (st k).is_completed ≡ true
      → (resolve_one empty st s h k).is_completed ≡ true
  unfolding resolve_one put resolve
  resolve_one-keeps empty st s h k e = ground arith

  resolve_one-completes :
      (empty : J) (st : Store J) (s : Bytes) (h k : ℕ)
      → h ≡ k
      → (resolve_one empty st s h k).is_completed ≡ true
  unfolding resolve_one put resolve
  resolve_one-completes empty st s h k e = ground arith

  resolve_each-keeps :
      (empty : J) (st : Store J) (s : Bytes) (m : Map ℕ) (k : ℕ)
      → (st k).is_completed ≡ true
      → (resolve_each empty st s m k).is_completed ≡ true
  unfolding resolve_each
  resolve_each-keeps empty st s [] k e = e
  resolve_each-keeps empty st s ((i, h) ∷ m) k e =
      resolve_each-keeps empty (resolve_one empty st s h) s m k (resolve_one-keeps empty st s h k e)

  resolve_each-completes :
      (empty : J) (st : Store J) (s : Bytes) (m : Map ℕ) (i : Bytes) (k : ℕ)
      → lookup i m ≡ some k
      → (resolve_each empty st s m k).is_completed ≡ true
  unfolding resolve_each lookup
  resolve_each-completes empty st s [] i k l = cc
  resolve_each-completes empty st s ((j, h) ∷ m) i k l = elim (Bool-cases (str_eq j i)) [
    | inl e ↦
        resolve_each-keeps empty (resolve_one empty st s h) s m k
          (resolve_one-completes empty st s h k (ground (arith, l)))
    | inr e ↦ resolve_each-completes empty (resolve_one empty st s h) s m i k (ground (arith, l))
  ]

  -- When the state of a call becomes "ended", every action that was registered is complete, and none
  -- is registered any more.
  pub update_state-ended :
      (empty : J) (c : Call) (st : Store J) (i : Bytes) (h : ℕ)
      → lookup i c.actions ≡ some h
      → let p = update_state empty c st (codes "ended") in
        (p.0.actions ≡ []) × ((p.1 h).is_completed ≡ true)
  unfolding update_state resolve_all_actions str_eq
  update_state-ended empty c st i h l =
      (refl, resolve_each-completes empty st (codes "finished") c.actions i h l)

  -- The action at the handle is registered exactly while it is not complete.
  abbrev Tracked : ℕ → Bytes → Call × Store J → Type 0
  Tracked h i q = lookup i q.0.actions ≡ (if (q.1 h).is_completed then none else some h)

  resolved-Tracked :
      (c : Call) (st : Store J) (h : ℕ) (i s : Bytes) (result : J)
      → Tracked h i (unregister_action c i, put st h (resolve (st h) s result))
  unfolding unregister_action put resolve
  resolved-Tracked c st h i s result =
      let e = lookup-erase i i c.actions in ground (arith, e, str_eq_refl i)

  begin_action-Tracked :
      (null : J) (c : Call) (st : Store J) (h : ℕ) (i method : Bytes)
      → Tracked h i (begin_action null c st h i method)
  unfolding begin_action register_action put new_action
  begin_action-Tracked null c st h i method =
      let e = lookup-assign i i h c.actions in ground (arith, e, str_eq_refl i)

  -- Whatever the request of a new action comes to, the action is registered under its control id
  -- exactly while it is not complete.
  pub finish_action-begin_action :
      (null empty : J) (c : Call) (st : Store J) (h : ℕ) (control_id method : Bytes)
      (answer : Reply J)
      → let b = begin_action null c st h control_id method in
        let f = finish_action empty b.0 b.1 h control_id answer in
        lookup control_id f.0.actions ≡ (if (f.1 h).is_completed then none else some h)
  unfolding finish_action
  finish_action-begin_action null empty c st h i method no_client =
      let b = begin_action null c st h i method in resolved-Tracked b.0 b.1 h i _ empty
  finish_action-begin_action null empty c st h i method request_failed =
      let b = begin_action null c st h i method in resolved-Tracked b.0 b.1 h i _ empty
  finish_action-begin_action null empty c st h i method (reply code result) =
      let b = begin_action null c st h i method in
      if_elim (Tracked h i) (str_eq code (codes "404") || str_eq code (codes "410")) _ _
        (λ e. resolved-Tracked b.0 b.1 h i _ empty)
        (λ e.
          if_elim (Tracked h i) (not (is_empty code) && not (first_is_two code)) _ _
            (λ f. resolved-Tracked b.0 b.1 h i _ result)
            (λ f. begin_action-Tracked null c st h i method))
