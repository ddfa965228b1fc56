-- ===== src/Relay/Client/Requests/Effects.antt =====
-- What one message does to the requests in flight, and what a second answer does.
use mathlib.Core.Option.{some-injective}
use signalwire_agents_cpp.Prelude.{
  ℕ, ◌<◌, Option, none, some, is_some, true, ◌≡◌, refl, sym, ap, ◌∙◌, ◌∷◌, [], Bytes, str_eq,
  str_eq_iff, if◌then◌else◌, ◌>>=◌, ◌==◌, arith, Bool-cases, Option-cases, inl, inr,
}
use signalwire_agents_cpp.Prelude.Map.{Map, lookup}
use signalwire_agents_cpp.Prelude.Json.{Json}
use signalwire_agents_cpp.Relay.Client.{at_handle}
use signalwire_agents_cpp.Relay.Client.Requests.{
  Link, connection_lost, Kind, answer, calls_method, ignored, throws, kind_of, set_value,
  take_answer, send_response, disconnected, call_method, on_kind, on_ws_message, reject_each,
}

-- The value that a message brings for a request.
abbrev pub answer_in : Bytes → Kind → Option Json
answer_in id (answer j v) = if str_eq j id then v else none
answer_in id (calls_method m j) = none
answer_in id ignored = none
answer_in id throws = none

-- Each pending request has a promise of its own.
pub record IsTable (l : Link) : Type 0 where
  pub old : (i : Bytes) (p : ℕ) → lookup i l.pending_requests ≡ some p → p < l.promise_count
  pub own :
      (i j : Bytes) (p : ℕ)
      → lookup i l.pending_requests ≡ some p
      → lookup j l.pending_requests ≡ some p
      → i ≡ j

-- What a message changes beside the promises.
pub record SameTable (l m : Link) : Type 0 where
  pub same_pending : m.pending_requests ≡ l.pending_requests
  pub same_count : m.promise_count ≡ l.promise_count

-- A value that is set stays.
pub reject_each-set :
    (pending : Map ℕ) (promises : ℕ → Option Json) (p : ℕ) (v : Json)
    → promises p ≡ some v
    → reject_each pending promises p ≡ some v
unfolding reject_each at_handle
reject_each-set [] promises p v h = h
reject_each-set ((id, q) ∷ pending) promises p v h = elim (Option-cases (promises q)) [
  | inl e ↦
      rw (e, reject_each)
        (reject_each-set pending (at_handle promises q (some connection_lost)) p v
          (ground (arith, e, h)))
  | inr (w, e) ↦ rw (e, reject_each) (reject_each-set pending promises p v h)
]

pub reject_each-lost :
    (pending : Map ℕ) (promises : ℕ → Option Json) (id : Bytes) (p : ℕ)
    → lookup id pending ≡ some p
    → promises p ≡ none
    → reject_each pending promises p ≡ some connection_lost
unfolding reject_each lookup at_handle
reject_each-lost [] promises id p h n = absurd cc
reject_each-lost ((j, q) ∷ pending) promises id p h n = elim (Option-cases (promises q)) [
  | inl e ↦ elim (Bool-cases (p == q)) [
    | inl s ↦
        rw (e, reject_each)
          (reject_each-set pending (at_handle promises q (some connection_lost)) p connection_lost
            (rw s refl))
    | inr d ↦
        rw (e, reject_each)
          (reject_each-lost pending (at_handle promises q (some connection_lost)) id p
            (ground (arith, h, d)) (rw d n))
  ]
  | inr (w, e) ↦
      rw (e, reject_each) (reject_each-lost pending promises id p (ground (arith, h, e, n)) n)
]

-- What one message does to the table and the promises.
pub record Effect (l m : Link) (k : Kind) : Type 0 where
  pub table : SameTable l m
  pub stays : (p : ℕ) (v : Json) → l.promises p ≡ some v → m.promises p ≡ some v
  pub settles :
      (id : Bytes) (p : ℕ)
      → IsTable l
      → lookup id l.pending_requests ≡ some p
      → l.promises p ≡ none
      → m.promises p ≡ answer_in id k

nothing-Effect :
    (l m : Link) (k : Kind)
    → m.pending_requests ≡ l.pending_requests
    → m.promise_count ≡ l.promise_count
    → m.promises ≡ l.promises
    → ((id : Bytes) (p : ℕ) → lookup id l.pending_requests ≡ some p → answer_in id k ≡ none)
    → Effect l m k
nothing-Effect l m k sp sc same other = record {
  table = record { same_pending = sp; same_count = sc };
  stays = λ p v h. ap (λ f. f p) same ∙ h;
  settles = λ id p t there h. ap (λ f. f p) same ∙ h ∙ sym (other id p there);
}

set_value-fresh :
    (l : Link) (q : ℕ) (w : Json)
    → l.promises q ≡ none
    → set_value l q w ≡ some (record l { promises = at_handle l.promises q (some w) })
unfolding set_value
set_value-fresh l q w e = rw (e, set_value) refl

set_value-Effect :
    (l m : Link) (j : Bytes) (q : ℕ) (w : Json)
    → lookup j l.pending_requests ≡ some q
    → set_value l q w ≡ some m
    → Effect l m (answer j (some w))
unfolding set_value at_handle
set_value-Effect l m j q w found h = elim (Option-cases (l.promises q)) [
  | inr (x, e) ↦ absurd (ground (arith, e, h))
  | inl e ↦
      let made : record l { promises = at_handle l.promises q (some w) } ≡ m =
        some-injective _ _ (sym (set_value-fresh l q w e) ∙ h) in
      rw (sym made) (record {
        table = record { same_pending = refl; same_count = refl };
        stays = λ p v h. ground (arith, e, h);
        settles =
            λ id p t there h. ground (arith, e, h, found, there, str_eq_iff j id, t.own j id p);
      })
]

take_answer-Effect :
    (l m : Link) (j : Bytes) (v : Option Json)
    → take_answer l j v ≡ some m
    → Effect l m (answer j v)
unfolding take_answer
take_answer-Effect l m j v h = elim (Option-cases (lookup j l.pending_requests)) [
  | inl e ↦
      let same : l ≡ m = some-injective _ _ (sym (take_nothing e) ∙ h) in
      rw (sym same) (
        nothing-Effect l l (answer j v) refl refl refl
          λ id p there. ground (arith, e, there, str_eq_iff j id))
  | inr (q, e) ↦ found q e v (sym (take_found q e) ∙ h)
]
  where
    take_nothing : lookup j l.pending_requests ≡ none → take_answer l j v ≡ some l
    take_nothing e = rw (e, take_answer) refl

    take_found :
        (q : ℕ)
        → lookup j l.pending_requests ≡ some q
        → take_answer l j v ≡ (v >>= λ w. set_value l q w)
    take_found q e = rw (e, take_answer) refl

    found :
        (q : ℕ)
        → lookup j l.pending_requests ≡ some q
        → (u : Option Json) → (u >>= λ w. set_value l q w) ≡ some m
        → Effect l m (answer j u)
    found q e none k = absurd cc
    found q e (some w) k = set_value-Effect l m j q w e k

-- A call of a method leaves the requests alone.
record SameRequests (l m : Link) : Type 0 where
  pending : m.pending_requests ≡ l.pending_requests
  count : m.promise_count ≡ l.promise_count
  values : m.promises ≡ l.promises

call_method-same :
    (l m : Link) (msg : Json) (method id : Bytes)
    → call_method l msg method id ≡ some m
    → SameRequests l m
unfolding call_method send_response disconnected
call_method-same l m msg method id h = ground (arith, h)

on_kind-Effect : (l m : Link) (msg : Json) (k : Kind) → on_kind l msg k ≡ some m → Effect l m k
on_kind-Effect l m msg (answer j v) h = take_answer-Effect l m j v h
on_kind-Effect l m msg (calls_method method j) h =
    let s = call_method-same l m msg method j h in
    nothing-Effect l m (calls_method method j) s.pending s.count s.values (λ id p there. refl)
on_kind-Effect l m msg ignored h =
    rw (sym (some-injective _ _ h)) (nothing-Effect l l ignored refl refl refl (λ id p there. refl))
on_kind-Effect l m msg throws h = absurd cc

pub arrives-Effect :
    (l m : Link) (msg : Json) → on_ws_message l msg ≡ some m → Effect l m (kind_of msg)
unfolding on_ws_message
arrives-Effect l m msg h = on_kind-Effect l m msg (kind_of msg) h

found_answer :
    (l : Link) (id : Bytes) (p : ℕ) (v : Json)
    → lookup id l.pending_requests ≡ some p
    → take_answer l id (some v) ≡ set_value l p v
unfolding take_answer
found_answer l id p v e = rw (e, take_answer) refl

set_value-twice :
    (l m : Link) (p : ℕ) (v w : Json)
    → set_value l p v ≡ some m
    → (m.pending_requests ≡ l.pending_requests) × (set_value m p w ≡ none)
unfolding set_value at_handle
set_value-twice l m p v w h = elim (Option-cases (l.promises p)) [
  | inr (x, e) ↦ absurd (ground (arith, e, h))
  | inl e ↦ rw (sym (some-injective _ _ (sym (set_value-fresh l p v e) ∙ h))) (refl, ground arith)
]

-- A second answer to a request that is still registered throws in the handler of messages, whatever
-- the two answers hold: the request stays registered until its waiter has woken up, and its promise
-- is set already.
pub take_answer-twice :
    (l m : Link) (id : Bytes) (v w : Json)
    → is_some (lookup id l.pending_requests) ≡ true
    → take_answer l id (some v) ≡ some m
    → take_answer m id (some w) ≡ none
take_answer-twice l m id v w there h = elim (Option-cases (lookup id l.pending_requests)) [
  | inl e ↦ absurd (ground (arith, e, there))
  | inr (p, e) ↦
      let (same, twice) = set_value-twice l m p v w (sym (found_answer l id p v e) ∙ h) in
      found_answer m id p w (ap (lookup id) same ∙ e) ∙ twice
]
