-- ===== src/Relay/Client/Requests/FirstAnswer.antt =====
-- A request gets the first answer to it, or is told that the connection is lost.
use mathlib.Core.Option.{some-injective}
use signalwire_agents_cpp.Prelude.{
  ℕ, ◌<◌, Option, none, some, ◌≡◌, ◌≢◌, refl, sym, ap, ◌∙◌, ◌∷◌, [], List, Bytes, str_eq_iff, ◌>>=◌,
  arith, Option-cases, inl, inr,
}
use signalwire_agents_cpp.Prelude.Map.{lookup, lookup-assign, lookup-erase}
use signalwire_agents_cpp.Prelude.Json.{Json}
use signalwire_agents_cpp.Relay.Client.{at_handle}
use signalwire_agents_cpp.Relay.Client.Requests.{
  Link, connection_lost, kind_of, begin_request, end_request, reject_requests, Event, sends, wakes,
  arrives, closes, step, run,
}
use signalwire_agents_cpp.Relay.Client.Requests.Effects.{
  answer_in, IsTable, SameTable, arrives-Effect, reject_each-set, reject_each-lost,
}

-- The specification: the first answer with that id, or the end of the connection before it.
abbrev pub first_answer : Bytes → List Event → Option Json
first_answer id [] = none
first_answer id (sends j msg ∷ es) = first_answer id es
first_answer id (wakes j ∷ es) = first_answer id es
first_answer id (closes ∷ es) = some connection_lost
first_answer id (arrives msg ∷ es) = elim (answer_in id (kind_of msg)) [
  | some v ↦ some v
  | none ↦ first_answer id es
]

-- The request is still waiting, and its id is not used again.
abbrev pub LeavesAlone : Bytes → List Event → Type 0
LeavesAlone id [] = Unit
LeavesAlone id (sends j msg ∷ es) = (j ≢ id) × LeavesAlone id es
LeavesAlone id (wakes j ∷ es) = (j ≢ id) × LeavesAlone id es
LeavesAlone id (arrives msg ∷ es) = LeavesAlone id es
LeavesAlone id (closes ∷ es) = LeavesAlone id es

-- A value that is set stays, whatever happens.
step-set :
    (l m : Link) (e : Event) (p : ℕ) (v : Json)
    → step l e ≡ some m
    → p < l.promise_count
    → l.promises p ≡ some v
    → (m.promises p ≡ some v) × (p < m.promise_count)
unfolding step begin_request end_request reject_requests at_handle
step-set l m (sends j msg) p v h old set =
    rw (sym (some-injective _ _ h)) (ground (arith, set, old))
step-set l m (wakes j) p v h old set = rw (sym (some-injective _ _ h)) (set, old)
step-set l m (arrives msg) p v h old set =
    let f = arrives-Effect l m msg h in (f.stays p v set, rw f.table.same_count old)
step-set l m closes p v h old set =
    rw (sym (some-injective _ _ h)) (reject_each-set l.pending_requests l.promises p v set, old)

bind_inv :
    (o : Option Link) (f : Link → Option Link) (m : Link)
    → (o >>= f) ≡ some m
    → (l : Link) × (o ≡ some l) × (f l ≡ some m)
bind_inv none f m h = absurd cc
bind_inv (some l) f m h = (l, refl, h)

run-set :
    (es : List Event) (l m : Link) (p : ℕ) (v : Json)
    → run l es ≡ some m
    → p < l.promise_count
    → l.promises p ≡ some v
    → m.promises p ≡ some v
unfolding run
run-set [] l m p v h old set = rw (sym (some-injective _ _ h)) set
run-set (e ∷ es) l m p v h old set =
    let (l', first, rest) = bind_inv (step l e) (λ l'. run l' es) m h in
    let (set', old') = step-set l l' e p v first old set in run-set es l' m p v rest old' set'

same-IsTable : (l m : Link) → SameTable l m → IsTable l → IsTable m
same-IsTable l m s t = record {
  old = λ i p h. rw s.same_count (t.old i p (rw s.same_pending at h));
  own = λ i j p h g. t.own i j p (rw s.same_pending at h) (rw s.same_pending at g);
}

begin_request-IsTable :
    (l : Link) (id : Bytes) (msg : Json) → IsTable l → IsTable (begin_request l id msg)
unfolding begin_request
begin_request-IsTable l id msg t = record {
  old =
      λ i p h. ground (arith, h, lookup-assign id i l.promise_count l.pending_requests, t.old i p);
  own = λ i j p h g. ground (
    arith,
    h,
    g,
    lookup-assign id i l.promise_count l.pending_requests,
    lookup-assign id j l.promise_count l.pending_requests,
    str_eq_iff id i,
    str_eq_iff id j,
    t.old i p,
    t.old j p,
    t.own i j p,
  );
}

end_request-IsTable : (l : Link) (id : Bytes) → IsTable l → IsTable (end_request l id)
unfolding end_request
end_request-IsTable l id t = record {
  old = λ i p h. ground (arith, h, lookup-erase id i l.pending_requests, t.old i p);
  own = λ i j p h g. ground (
    arith,
    h,
    g,
    lookup-erase id i l.pending_requests,
    lookup-erase id j l.pending_requests,
    t.own i j p,
  );
}

-- While a request waits in a registry that gives each request a promise of its own, below the count
-- of promises made, events that do not use its id again, nor end it, and none of which makes the
-- handler of messages throw, leave its promise with what the specification says: the value of the
-- first answer that arrives with its id, or the notice that the connection is lost if that comes
-- first, and nothing while neither has come. Under these conditions answers to other requests do not
-- matter, nor do calls of methods, nor the later ends of the connection.
pub run-first_answer :
    (es : List Event) (l m : Link) (id : Bytes) (p : ℕ)
    → run l es ≡ some m
    → IsTable l
    → lookup id l.pending_requests ≡ some p
    → l.promises p ≡ none
    → LeavesAlone id es
    → m.promises p ≡ first_answer id es
unfolding run
run-first_answer [] l m id p h t there waits alone = rw (sym (some-injective _ _ h)) waits
run-first_answer (sends j msg ∷ es) l m id p h t there waits (other, alone) =
    let l' = begin_request l j msg in
    run-first_answer es l' m id p (unfold step in h) (begin_request-IsTable l j msg t)
      (unfold begin_request in
        ground (
          arith,
          there,
          other,
          lookup-assign j id l.promise_count l.pending_requests,
          str_eq_iff j id,
        ))
      (unfold begin_request at_handle in ground (arith, waits, t.old id p there)) alone
run-first_answer (wakes j ∷ es) l m id p h t there waits (other, alone) =
    run-first_answer es (end_request l j) m id p (unfold step in h) (end_request-IsTable l j t)
      (unfold end_request in
        ground (arith, there, other, lookup-erase j id l.pending_requests, str_eq_iff j id))
      (unfold end_request in waits) alone
run-first_answer (closes ∷ es) l m id p h t there waits alone =
    let (l', first, rest) = bind_inv (step l closes) (λ l'. run l' es) m h in
    let made : reject_requests l ≡ l' = some-injective _ _ (unfold step in first) in
    let lost : (reject_requests l).promises p ≡ some connection_lost =
      unfold reject_requests in reject_each-lost l.pending_requests l.promises id p there waits in
    let known : (reject_requests l).promise_count ≡ l.promise_count =
      unfold reject_requests in refl in
    run-set es l' m p connection_lost rest (rw (sym made) (rw known (t.old id p there)))
      (ap (λ (x : Link). x.promises p) (sym made) ∙ lost)
run-first_answer (arrives msg ∷ es) l m id p h t there waits alone =
    let (l', first, rest) = bind_inv (step l (arrives msg)) (λ l'. run l' es) m h in
    let f = arrives-Effect l l' msg (unfold step in first) in
    let t' = same-IsTable l l' f.table t in
    elim (Option-cases (answer_in id (kind_of msg))) [
      | inl e ↦
          rw (e, first_answer)
            (run-first_answer es l' m id p rest t' (ap (lookup id) f.table.same_pending ∙ there)
              (f.settles id p t there waits ∙ e) alone)
      | inr (v, e) ↦
          rw (e, first_answer)
            (run-set es l' m p v rest (rw f.table.same_count (t.old id p there))
              (f.settles id p t there waits ∙ e))
    ]
