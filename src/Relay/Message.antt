-- ===== src/Relay/Message.antt =====
-- `Message` of src/relay/message.cpp: the state that its copies share. `fired` counts the calls of
-- the completion callback.
use signalwire_agents_cpp.Prelude.{
  ℕ, suc, Bool, true, ◌≡◌, Bytes, codes, if◌then◌else◌, str_eq, str_eq_iff, ◌||◌, List, [], ◌∷◌,
  arith, ◌↔◌, ◌⊎◌, inl, inr, Any, Bool-cases,
}

pub record Message : Type 0 where
  pub state : Bytes
  pub reason : Bytes
  pub completed : Bool
  pub has_callback : Bool
  pub fired : ℕ

pub set_state : Message → Bytes → Message
set_state m s = record m { state = s }

unfoldable pub set_reason : Message → Bytes → Message
set_reason m r = record m { reason = r }

unfoldable pub is_terminal : Bytes → Bool
is_terminal s =
    str_eq s (codes "delivered") || str_eq s (codes "failed") || str_eq s (codes "undelivered")

notify : Message → Message
notify m = if m.has_callback then record m { fired = suc m.fired } else m

unfoldable pub update_state : Message → Bytes → Message
unfolding is_terminal notify
update_state m new_state =
    let n = record m { state = new_state } in
    if is_terminal new_state then notify (record n { completed = true }) else n

pub on_completed : Message → Bool → Message
unfolding notify
on_completed m has_callback =
    let n = record m { has_callback = has_callback } in if n.completed then notify n else n

pub updates : Message → List Bytes → Message
unfolding update_state
updates m [] = m
updates m (s ∷ ss) = updates (update_state m s) ss

-- The states that end a message.
abbrev pub IsEnd : Bytes → Type 0
IsEnd s = (s ≡ codes "delivered") ⊎ ((s ≡ codes "failed") ⊎ (s ≡ codes "undelivered"))

is_terminal_iff : (s : Bytes) → (is_terminal s ≡ true) ↔ IsEnd s
unfolding is_terminal
is_terminal_iff s = (
  λ h. ground (
    arith,
    h,
    str_eq_iff s (codes "delivered"),
    str_eq_iff s (codes "failed"),
    str_eq_iff s (codes "undelivered"),
  ),
  λ h. ground (
    arith,
    h,
    str_eq_iff s (codes "delivered"),
    str_eq_iff s (codes "failed"),
    str_eq_iff s (codes "undelivered"),
  ),
)

update_state-completed :
    (m : Message) (s : Bytes) → (update_state m s).completed ≡ (m.completed || is_terminal s)
unfolding update_state notify
update_state-completed m s = ground arith

-- After states have arrived in any order, a message is completed exactly when it was before or one of
-- them is delivered, failed or undelivered.
pub updates-completed :
    (m : Message) (ss : List Bytes)
    → ((updates m ss).completed ≡ true) ↔ ((m.completed ≡ true) ⊎ Any IsEnd ss)
unfolding updates
updates-completed m [] = (λ h. inl h, λ h. elim h [ inl e ↦ e | inr e ↦ absurd e ])
updates-completed m (s ∷ ss) =
    let later = updates-completed (update_state m s) ss in
    let c = update_state-completed m s in
    let t = is_terminal_iff s in
    (
      λ h. elim (later.0 h) [
        | inl e ↦ elim (Bool-cases m.completed) [
          | inl b ↦ inl b
          | inr b ↦ inr (inl (t.0 (ground (arith, e, b, c))))
        ]
        | inr e ↦ inr (inr e)
      ],
      λ h. later.1 (elim h [
        | inl e ↦ inl (ground (arith, e, c))
        | inr (inl e) ↦ inl (ground (arith, t.1 e, c))
        | inr (inr e) ↦ inr e
      ]),
    )
