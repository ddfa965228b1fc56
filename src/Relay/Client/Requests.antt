-- ===== src/Relay/Client/Requests.antt =====
-- The requests in flight of `RelayClient` in src/relay/client.cpp and the messages that answer them.
-- A promise is a handle; `none` is an exception that leaves the handler of a message. A message is
-- parsed already. What a request waits for and its timeout are the event `wakes`.
pub mod Effects
pub mod FirstAnswer
mod Tests
use signalwire_agents_cpp.Prelude.{
  ℕ, zero, suc, Option, none, some, Bool, true, false, not, ◌&&◌, ◌||◌, ◌∷◌, [], ◌++◌, List, Bytes,
  codes, is_empty, str_eq, if◌then◌else◌, ◌>>=◌, ◌==◌, is_some,
}
use signalwire_agents_cpp.Prelude.Int.{ℤ, pos, to_int}
use signalwire_agents_cpp.Prelude.Map.{Map, lookup, assign, erase}
use signalwire_agents_cpp.Prelude.Json.{
  Json, null, boolean, number, string, array_of, object_of, object, fields, map_in,
}
use signalwire_agents_cpp.Security.Decimal.{to_string}
use signalwire_agents_cpp.Relay.Client.{at_handle}

pub record Link : Type 0 where
  pub pending_requests : Map ℕ
  pub promises : ℕ → Option Json
  pub promise_count : ℕ
  pub sent : List Json
  pub routed : List Json
  pub protocol : Bytes
  pub authorization_state : Bytes

-- The result that stands for an error.
abbrev pub error_result : Bytes → Bytes → Json
error_result code message =
    object (fields ((codes "code", string code) ∷ (codes "message", string message) ∷ []))

abbrev pub connection_lost : Json
connection_lost = error_result (codes "503") (codes "Connection lost")

-- `err.value("code", 0)`, an `int`.
abbrev code_of : Option Json → Option ℤ
code_of none = some (pos 0)
code_of (some (number n)) = some (to_int n)
code_of (some (boolean true)) = some (pos 1)
code_of (some (boolean false)) = some (pos 0)
code_of (some j) = none

-- `j.value(key, d)` for a text.
abbrev text_or : Bytes → Option Json → Option Bytes
text_or d none = some d
text_or d (some (string s)) = some s
text_or d (some j) = none

abbrev error_in : Json → Option Json
error_in (object_of m) = code_of (lookup (codes "code") (map_in (object_of m))) >>= λ code.
    text_or (codes "Unknown error") (lookup (codes "message") (map_in (object_of m))) >>= λ message.
    some (error_result (to_string code) message)
error_in j = none

-- What a message is: the answer to a request, with the value for its promise, `none` when reading it
-- throws; a call of a method, with its id; or neither. A message whose members have other types
-- throws.
pub data Kind : Type 0 where
  answer : Bytes → Option Json → Kind
  calls_method : Bytes → Bytes → Kind
  ignored : Kind
  throws : Kind

abbrev answer_value : Option Json → Option Json → Option Json
answer_value (some err) r = error_in err
answer_value none (some r) = some r
answer_value none none = none

abbrev kind_of_answer : Option Json → Option Json → Kind
kind_of_answer (some (string id)) v = answer id v
kind_of_answer j v = throws

abbrev kind_of_call : Option Json → Option Bytes → Kind
kind_of_call none id = ignored
kind_of_call (some (string method)) (some id) = calls_method method id
kind_of_call (some j) id = throws

abbrev has : Bytes → Json → Bool
has k msg = is_some (lookup k (map_in msg))

unfoldable pub kind_of : Json → Kind
kind_of msg =
    let m = map_in msg in
    if has (codes "id") msg && (has (codes "result") msg || has (codes "error") msg)
    then kind_of_answer (lookup (codes "id") m)
        (answer_value (lookup (codes "error") m) (lookup (codes "result") m))
    else kind_of_call (lookup (codes "method") m) (text_or [] (lookup (codes "id") m))

-- `send_request` up to its wait: the promise is registered, then the message is sent.
unfoldable pub begin_request : Link → Bytes → Json → Link
unfolding at_handle
begin_request l id msg = record l {
  pending_requests = assign id l.promise_count l.pending_requests;
  promises = at_handle l.promises l.promise_count none;
  promise_count = suc l.promise_count;
  sent = l.sent ++ msg ∷ [];
}

-- Behind the wait, and where sending fails.
unfoldable pub end_request : Link → Bytes → Link
end_request l id = record l { pending_requests = erase id l.pending_requests }

-- `promise.set_value`, which throws when the value is set already.
unfoldable pub set_value : Link → ℕ → Json → Option Link
unfolding at_handle
set_value l p v = elim (l.promises p) [
  | none ↦ some (record l { promises = at_handle l.promises p (some v) })
  | some w ↦ none
]

-- An answer to nothing is passed over, whatever it holds.
unfoldable pub take_answer : Link → Bytes → Option Json → Option Link
unfolding set_value
take_answer l id v = elim (lookup id l.pending_requests) [
  | none ↦ some l
  | some p ↦ v >>= λ w. set_value l p w
]

-- `send_response`, for a message that has an id.
unfoldable pub send_response : Link → Bytes → Link
send_response l id = if is_empty id then l else record l {
  sent =
      l.sent
      ++ object (
          fields (
            (codes "id", string id)
            ∷ (codes "jsonrpc", string (codes "2.0"))
            ∷ (codes "result", object [])
            ∷ []))
        ∷ [];
}

-- `params.value("restart", false)`.
abbrev restart_flag : Option Json → Option Bool
restart_flag none = some false
restart_flag (some (boolean b)) = some b
restart_flag (some j) = none

abbrev restart_in : Option Json → Option Bool
restart_in none = some false
restart_in (some (object_of m)) = restart_flag (lookup (codes "restart") (map_in (object_of m)))
restart_in (some j) = none

-- On a restart the session is forgotten.
unfoldable pub disconnected : Link → Bool → Link
disconnected l restart = if restart then record l { protocol = []; authorization_state = [] } else l

unfoldable pub call_method : Link → Json → Bytes → Bytes → Option Link
unfolding send_response disconnected
call_method l msg method id =
    if str_eq method (codes "signalwire.event")
    then some (record (send_response l id) { routed = l.routed ++ msg ∷ [] })
    else if str_eq method (codes "signalwire.ping")
    then some (send_response l id)
    else if str_eq method (codes "signalwire.disconnect")
    then (restart_in (lookup (codes "params") (map_in msg)) >>= λ restart.
        some (disconnected (send_response l id) restart))
    else some l

abbrev pub on_kind : Link → Json → Kind → Option Link
on_kind l msg (answer id v) = take_answer l id v
on_kind l msg (calls_method method id) = call_method l msg method id
on_kind l msg ignored = some l
on_kind l msg throws = none

unfoldable pub on_ws_message : Link → Json → Option Link
unfolding kind_of take_answer call_method
on_ws_message l msg = on_kind l msg (kind_of msg)

-- Promises that are set already stay as they are.
unfoldable pub reject_each : Map ℕ → (ℕ → Option Json) → ℕ → Option Json
unfolding at_handle
reject_each [] promises = promises
reject_each ((id, p) ∷ pending) promises =
    reject_each pending
      (elim (promises p) [ none ↦ at_handle promises p (some connection_lost) | some v ↦ promises ])

-- `reject_all_pending`, its part on requests.
unfoldable pub reject_requests : Link → Link
unfolding reject_each
reject_requests l = record l {
  promises = reject_each l.pending_requests l.promises;
  pending_requests = [];
}

pub data Event : Type 0 where
  sends : Bytes → Json → Event
  wakes : Bytes → Event
  arrives : Json → Event
  closes : Event

unfoldable pub step : Link → Event → Option Link
unfolding begin_request end_request on_ws_message reject_requests
step l (sends id msg) = some (begin_request l id msg)
step l (wakes id) = some (end_request l id)
step l (arrives msg) = on_ws_message l msg
step l closes = some (reject_requests l)

unfoldable pub run : Link → List Event → Option Link
unfolding step
run l [] = some l
run l (e ∷ es) = step l e >>= λ l'. run l' es
