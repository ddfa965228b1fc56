-- ===== src/Relay/Client/Requests/Tests.antt =====
-- Requests in flight at concrete messages.
use signalwire_agents_cpp.Prelude.{
  Option, none, some, is_some, true, ◌≡◌, ◌≢◌, refl, ◌∷◌, [], List, codes, str_eq, str_eq_iff,
  arith,
}
use signalwire_agents_cpp.Prelude.Strings.{str_ltb}
use signalwire_agents_cpp.Prelude.Int.{pos}
use signalwire_agents_cpp.Prelude.Map.{lookup, assign}
use signalwire_agents_cpp.Prelude.Json.{Json, null, number, string, object, fields}
use signalwire_agents_cpp.Security.Decimal.{to_string}
use signalwire_agents_cpp.Relay.Client.{at_handle}
use signalwire_agents_cpp.Relay.Client.Requests.{
  Link, error_result, Event, sends, arrives, closes, kind_of, take_answer, run,
}
use signalwire_agents_cpp.Relay.Client.Requests.Effects.{IsTable, take_answer-twice}
use signalwire_agents_cpp.Relay.Client.Requests.FirstAnswer.{first_answer, run-first_answer}

-- One request waits.
abbrev waiting : Link
waiting = record {
  pending_requests = (codes "r1", 0) ∷ [];
  promises = λ p. none;
  promise_count = 1;
  sent = [];
  routed = [];
  protocol = [];
  authorization_state = [];
}

abbrev refused : Json
refused = object (
    (codes "error", object (fields ((codes "code", number (pos 404)) ∷ [])))
    ∷ (codes "id", string (codes "r1"))
    ∷ [])

abbrev ping : Json
ping =
    object
      ((codes "id", string (codes "p1")) ∷ (codes "method", string (codes "signalwire.ping")) ∷ [])

abbrev events : List Event
events = arrives ping ∷ sends (codes "r2") null ∷ arrives refused ∷ closes ∷ []

waiting-IsTable : IsTable waiting
unfolding lookup
waiting-IsTable = record {
  old = λ i p h. ground (arith, h);
  own = λ i j p h g. ground (arith, h, g, str_eq_iff (codes "r1") i, str_eq_iff (codes "r1") j);
}

-- A ping and another request come in between, and the end of the connection comes too late.
first :
    first_answer (codes "r1") events
    ≡ some (error_result (to_string (pos 404)) (codes "Unknown error"))
unfolding kind_of lookup str_eq assign
first = refl

abbrev or_waiting : Option Link → Link
or_waiting none = waiting
or_waiting (some l) = l

abbrev final : Link
final = or_waiting (run waiting events)

events-run : run waiting events ≡ some final
unfolding run lookup str_eq assign at_handle str_ltb
events-run = refl

r2-ne-r1 : codes "r2" ≢ codes "r1"
r2-ne-r1 e = absurd (ground (arith, e))

run-first_answer_example : final.promises 0 ≡ first_answer (codes "r1") events
unfolding lookup str_eq
run-first_answer_example =
    run-first_answer events waiting final (codes "r1") 0 events-run waiting-IsTable refl refl
      (r2-ne-r1, tt)

abbrev answered : Link
answered = or_waiting (take_answer waiting (codes "r1") (some null))

answered-taken : take_answer waiting (codes "r1") (some null) ≡ some answered
unfolding take_answer lookup str_eq
answered-taken = refl

waiting-there : is_some (lookup (codes "r1") waiting.pending_requests) ≡ true
unfolding lookup str_eq
waiting-there = refl

take_answer-twice_example : take_answer answered (codes "r1") (some refused) ≡ none
take_answer-twice_example =
    take_answer-twice waiting answered (codes "r1") null refused waiting-there answered-taken
