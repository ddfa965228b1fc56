-- ===== src/Relay/Call.antt =====
-- `Call` of src/relay/call.cpp. The registry maps a control id to a handle, the address of an
-- action; the store gives the action at a handle. The actions of a registry are taken to be alive.
pub mod Lifetime
use signalwire_agents_cpp.Prelude.{
  ℕ, Option, Bool, false, ◌++◌, ◌∷◌, [], Bytes, codes, if◌then◌else◌, is_empty, not, str_eq, ◌||◌,
  ◌==◌, ◌&&◌, arith, ◌≡◌,
}
use signalwire_agents_cpp.Prelude.Map.{Map, assign, erase, lookup}
use signalwire_agents_cpp.Relay.Action.{Action, new_action, resolve}

pub record Call : Type 0 where
  pub call_id : Bytes
  pub node_id : Bytes
  pub state : Bytes
  pub direction : Bytes
  pub from : Bytes
  pub to : Bytes
  pub tag : Bytes
  pub has_client : Bool
  pub actions : Map ℕ

unfoldable pub new_call : Bytes → Bytes → Bool → Call
new_call call_id node_id has_client = record {
  call_id = call_id;
  node_id = node_id;
  state = codes "created";
  direction = [];
  from = [];
  to = [];
  tag = [];
  has_client = has_client;
  actions = [];
}

unfoldable pub register_action : Call → Bytes → ℕ → Call
register_action c control_id h = record c { actions = assign control_id h c.actions }

unfoldable pub unregister_action : Call → Bytes → Call
unregister_action c control_id = record c { actions = erase control_id c.actions }

unfoldable pub find_action : Call → Bytes → Option ℕ
find_action c control_id = lookup control_id c.actions

-- The actions by their handles.
abbrev pub Store : Type 0 → Type 0
Store J = ℕ → Action J

-- The outcome of a request.
pub data Reply (J : Type 0) : Type 0 where
  no_client : Reply J
  request_failed : Reply J
  reply : Bytes → J → Reply J

abbrev pub first_is_two : Bytes → Bool
first_is_two [] = false
first_is_two (c ∷ s) = c == b'2'

module _ {J : Type 0} where
  unfoldable pub put : Store J → ℕ → Action J → Store J
  put st h a k = if k == h then a else st k

  -- An action that is complete already is left alone.
  unfoldable pub resolve_one : J → Store J → Bytes → ℕ → Store J
  unfolding put
  resolve_one empty st final_state h =
      if (st h).is_completed then st else put st h (resolve (st h) final_state empty)

  unfoldable pub resolve_each : J → Store J → Bytes → Map ℕ → Store J
  unfolding resolve_one
  resolve_each empty st final_state [] = st
  resolve_each empty st final_state ((id, h) ∷ actions) =
      resolve_each empty (resolve_one empty st final_state h) final_state actions

  unfoldable pub resolve_all_actions : J → Call → Store J → Bytes → Call × Store J
  unfolding resolve_each
  resolve_all_actions empty c st final_state =
      (record c { actions = [] }, resolve_each empty st final_state c.actions)

  unfoldable pub update_state : J → Call → Store J → Bytes → Call × Store J
  unfolding resolve_all_actions
  update_state empty c st new_state =
      let c' = record c { state = new_state } in
      if str_eq new_state (codes "ended")
      then resolve_all_actions empty c' st (codes "finished")
      else (c', st)

  pub update_state-keeps :
      (empty : J) (c : Call) (st : Store J) (new_state : Bytes)
      → ((update_state empty c st new_state).0.call_id ≡ c.call_id)
        × ((update_state empty c st new_state).0.state ≡ new_state)
  unfolding update_state
  update_state-keeps empty c st new_state = ground arith

  -- `execute_action` up to the request: the action at a new handle, tagged with its verb.
  unfoldable pub begin_action : J → Call → Store J → ℕ → Bytes → Bytes → Call × Store J
  unfolding register_action
  begin_action null c st h control_id method =
      let a = new_action null control_id c.has_client c.call_id c.node_id in
      (
        register_action c control_id h,
        put st h (record a { method_prefix = codes "calling." ++ method }),
      )

  -- `execute_action` after the request: an error resolves the action and forgets it.
  unfoldable pub finish_action : J → Call → Store J → ℕ → Bytes → Reply J → Call × Store J
  unfolding unregister_action
  finish_action empty c st h control_id no_client =
      (unregister_action c control_id, put st h (resolve (st h) (codes "finished") empty))
  finish_action empty c st h control_id request_failed =
      (unregister_action c control_id, put st h (resolve (st h) (codes "error") empty))
  finish_action empty c st h control_id (reply code result) =
      if str_eq code (codes "404") || str_eq code (codes "410")
      then (unregister_action c control_id, put st h (resolve (st h) (codes "finished") empty))
      else if not (is_empty code) && not (first_is_two code)
      then (unregister_action c control_id, put st h (resolve (st h) (codes "error") result))
      else (c, st)
