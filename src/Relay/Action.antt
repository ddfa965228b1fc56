-- ===== src/Relay/Action.antt =====
-- `Action` of src/relay/action.cpp: the state that its copies share. Each method runs under the
-- object's mutex, so it is one step. `fired` counts the calls of the completion callback, which
-- `has_callback` says is set; a callback that throws is caught and logged.
use signalwire_agents_cpp.Prelude.{
  ℕ, suc, Option, none, some, Bool, true, false, ◌≡◌, refl, ◌++◌, ◌∷◌, [], List, Bytes, codes,
  if◌then◌else◌, is_empty, not, str_eq, ◌||◌,
}
use signalwire_agents_cpp.Prelude.Map.{Map, assign}

pub record Action (J : Type 0) : Type 0 where
  pub control_id : Bytes
  pub call_id : Bytes
  pub node_id : Bytes
  pub method_prefix : Bytes
  pub event_type_filter : List Bytes
  pub resolve_on_detect : Bool
  pub resolve_on_result : Bool
  pub has_client : Bool
  pub current_state : Bytes
  pub is_completed : Bool
  pub result : J
  pub has_callback : Bool
  pub fired : ℕ

-- The states that end an action.
unfoldable pub is_terminal : Bytes → Bool
is_terminal s =
    str_eq s (codes "finished")
    || str_eq s (codes "error")
    || str_eq s (codes "no_input")
    || str_eq s (codes "no_match")

in_filter : Bytes → List Bytes → Bool
in_filter event_type [] = false
in_filter event_type (t ∷ ts) = str_eq t event_type || in_filter event_type ts

module _ {J : Type 0} where
  unfoldable pub new_action : J → Bytes → Bool → Bytes → Bytes → Action J
  new_action null control_id has_client call_id node_id = record {
    control_id = control_id;
    call_id = call_id;
    node_id = node_id;
    method_prefix = codes "calling.play";
    event_type_filter = [];
    resolve_on_detect = false;
    resolve_on_result = false;
    has_client = has_client;
    current_state = [];
    is_completed = false;
    result = null;
    has_callback = false;
    fired = 0;
  }

  -- An empty filter accepts every event.
  unfoldable pub event_type_matches : Action J → Bytes → Bool
  unfolding in_filter
  event_type_matches a event_type = elim a.event_type_filter [
    | [] ↦ true
    | t ∷ ts ↦ in_filter event_type (t ∷ ts)
  ]

  pub matches-filter :
      (a b : Action J) (t : Bytes)
      → a.event_type_filter ≡ b.event_type_filter
      → event_type_matches a t ≡ event_type_matches b t
  unfolding event_type_matches
  matches-filter a b t e = rw e refl

  -- The callback, when there is one.
  unfoldable pub notify : Action J → Action J
  notify a = if a.has_callback then record a { fired = suc a.fired } else a

  unfoldable pub update_state : Action J → Bytes → J → Action J
  unfolding notify is_terminal
  update_state a new_state result =
      let b = record a { current_state = new_state; result = result } in
      if is_terminal new_state then notify (record b { is_completed = true }) else b

  unfoldable pub resolve : Action J → Bytes → J → Action J
  unfolding notify
  resolve a final_state result =
      notify (record a { current_state = final_state; result = result; is_completed = true })

  -- A callback set on a completed action is called at once.
  unfoldable pub on_completed : Action J → Bool → Action J
  unfolding notify
  on_completed a has_callback =
      let b = record a { has_callback = has_callback } in if b.is_completed then notify b else b

  put_all : Map J → Map J → Map J
  put_all params [] = params
  put_all params ((key, val) ∷ extra) = put_all (assign key val params) extra

  -- The frame that a control command sends, `none` without a client or with an identifier missing.
  -- `text` makes a JSON string; the extra parameters are `none` when they are no object.
  pub send_control_command :
      (text : Bytes → J) → Action J → Bytes → Option (Map J) → Option (Bytes × Map J)
  unfolding put_all
  send_control_command text a operation extra_params =
      let params = assign (codes "control_id") (text a.control_id) (
        assign (codes "call_id") (text a.call_id) (assign (codes "node_id") (text a.node_id) [])) in
      let all : Map J = elim extra_params [ none ↦ params | some extra ↦ put_all params extra ] in
      let prefix = if is_empty a.method_prefix then codes "calling.play" else a.method_prefix in
      if not a.has_client
      then none
      else if is_empty a.call_id || is_empty a.node_id || is_empty a.control_id
      then none
      else some (prefix ++ codes "." ++ operation, all)
