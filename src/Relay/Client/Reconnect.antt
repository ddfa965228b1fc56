-- ===== src/Relay/Client/Reconnect.antt =====
-- `reconnect` of src/relay/client.cpp: attempts with growing delays.
use signalwire_agents_cpp.Prelude.{
  ℕ, suc, ◌+◌, ◌*◌, ◌^◌, ◌≤◌, ◌<◌, min, ◌≡◌, refl, Bool, true, false, List, [], ◌∷◌, if◌then◌else◌,
  not, ltb, arith, length, if_elim,
}

abbrev pub reconnect_base_delay_ms : ℕ
reconnect_base_delay_ms = 1000

abbrev pub reconnect_max_delay_ms : ℕ
reconnect_max_delay_ms = 30000

abbrev pub max_reconnect_attempts : ℕ
max_reconnect_attempts = 50

pub record Backoff : Type 0 where
  pub reconnect_delay_ms : ℕ
  pub reconnect_attempts : ℕ

-- What an attempt meets: whether the client is to stop, before the loop's test and after the
-- delay, and whether the connection and the authentication succeed.
pub record Attempt : Type 0 where
  pub running : Bool
  pub still_running : Bool
  pub succeeds : Bool

unfoldable pub next_delay : ℕ → ℕ
next_delay delay = min (delay * 2) reconnect_max_delay_ms

-- The delays slept, whether the client is connected, and the state left. A list that ends while
-- the loop would go on counts as a client that is told to stop.
pub reconnect : Backoff → List Attempt → List ℕ × (Bool × Backoff)
unfolding next_delay
reconnect b [] = ([], (false, b))
reconnect b (a ∷ attempts) =
    let tried = record b { reconnect_attempts = suc b.reconnect_attempts } in
    let later = record tried { reconnect_delay_ms = next_delay b.reconnect_delay_ms } in
    let rest = reconnect later attempts in
    if not a.running
    then ([], (false, b))
    else if not (ltb b.reconnect_attempts max_reconnect_attempts)
    then ([], (false, b))
    else if not a.still_running
    then (b.reconnect_delay_ms ∷ [], (false, tried))
    else if a.succeeds
    then (
      b.reconnect_delay_ms ∷ [],
      (true, record { reconnect_delay_ms = reconnect_base_delay_ms; reconnect_attempts = 0 }),
    )
    else (b.reconnect_delay_ms ∷ rest.0, rest.1)

-- The delay before the attempt that follows `n` failed ones.
unfoldable pub delay_after : ℕ → ℕ
delay_after n = min (reconnect_base_delay_ms * 2 ^ n) reconnect_max_delay_ms

-- The delays from the attempt numbered `n` on follow the formula.
abbrev pub FollowsFrom : ℕ → List ℕ → Type 0
FollowsFrom n [] = Unit
FollowsFrom n (d ∷ ds) = (d ≡ delay_after n) × FollowsFrom (suc n) ds

next_delay-delay_after : (n : ℕ) → next_delay (delay_after n) ≡ delay_after (suc n)
unfolding next_delay delay_after
next_delay-delay_after n = omega arith

abbrev at_attempt : ℕ → Backoff
at_attempt n = record { reconnect_delay_ms = delay_after n; reconnect_attempts = n }

abbrev Bounded : ℕ → List ℕ × (Bool × Backoff) → Type 0
Bounded n q = FollowsFrom n q.0 × (n + length q.0 ≤ max_reconnect_attempts)

Bounded-more :
    (n : ℕ) (q : List ℕ × (Bool × Backoff))
    → Bounded (suc n) q
    → Bounded n (delay_after n ∷ q.0, q.1)
Bounded-more n q (f, b) = ((refl, f), omega (arith, b))

reconnect-Bounded :
    (n : ℕ) (attempts : List Attempt)
    → n ≤ max_reconnect_attempts
    → Bounded n (reconnect (at_attempt n) attempts)
unfolding reconnect
reconnect-Bounded n [] le = (tt, omega arith)
reconnect-Bounded n (a ∷ attempts) le =
    if_elim (Bounded n) (not a.running) _ _ (λ e. (tt, omega arith))
      (λ e.
        if_elim (Bounded n) (not (ltb n max_reconnect_attempts)) _ _ (λ f. (tt, omega arith))
          (λ f.
            let lt : n < max_reconnect_attempts = ground (arith, f) in
            let one : Bounded n (delay_after n ∷ [], (false, at_attempt n)) =
              ((refl, tt), omega arith) in
            if_elim (Bounded n) (not a.still_running) _ _ (λ g. one)
              (λ g.
                if_elim (Bounded n) a.succeeds _ _ (λ h. one)
                  (λ h.
                    Bounded-more n (reconnect _ attempts)
                      (rw (next_delay-delay_after n) (reconnect-Bounded (suc n) attempts lt))))))

-- A client that was connected and loses its connection waits, before the attempt that follows n
-- failed ones, the lesser of 1000 * 2 ^ n and 30000 milliseconds, and makes at most 50 attempts,
-- whatever the attempts meet; the delays slept are those waits, in order.
pub reconnect_lem :
    (attempts : List Attempt)
    → let q =
        reconnect
          (record { reconnect_delay_ms = reconnect_base_delay_ms; reconnect_attempts = 0 })
          attempts in
      FollowsFrom 0 q.0 × (length q.0 ≤ max_reconnect_attempts)
unfolding delay_after
reconnect_lem attempts =
    let b = reconnect-Bounded 0 attempts (omega arith) in (b.0, omega (arith, b.1))
