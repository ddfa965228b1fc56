-- ===== src/Contexts/Context/Order.antt =====
-- The map of steps and the order of their names hold the same names.
use mathlib.Core.List.{Mem, Perm, perm_middle, mem-cons, not-mem-nil, mem-filter, filter}
use mathlib.Core.List.Perm
use mathlib.Core.HLevel.{¬_prop}
use mathlib.Core.Logic.{◌∨₁◌, ∨₁_prop}
use mathlib.Core.Logic.Or
use native.Mathlib.Decide.{ℕ_discrete}
use signalwire_agents_cpp.Prelude.{
  append-nil, subst, ◌≤◌, Option, none, some, Bool, false, ◌≡◌, ◌≢◌, ◌↔◌, inl, inr, refl, sym, ◌++◌,
  ◌∷◌, [], List, Bytes, if◌then◌else◌, length, leb, str_eq, str_eq_iff, arith, Bool-cases,
  Option-cases, take, drop, take-append-drop,
}
use signalwire_agents_cpp.Prelude.Int.{ℤ, pos, negsuc}
use signalwire_agents_cpp.Prelude.Map.{
  Map, lookup, assign, erase, lookup-assign, lookup-erase, length-assign, length-erase,
}
use signalwire_agents_cpp.Contexts.Step.{Functions}
use signalwire_agents_cpp.Contexts.Context.{
  Context, max_steps_per_context, new_context, step_of, add_step, remove_name, remove_step,
  erase_first, insert_at, move_step,
}

pub record IsConsistent (c : Context) : Type 0 where
  pub listed_iff : (n : Bytes) → Mem n c.step_order ↔ (lookup n c.steps ≢ none)
  pub bounded : length c.steps ≤ max_steps_per_context

pub new_context-IsConsistent : (name : Bytes) → IsConsistent (new_context name)
unfolding new_context lookup
new_context-IsConsistent name = record {
  listed_iff = λ n. (λ h. absurd (not-mem-nil h), λ h. absurd (h refl));
  bounded = omega arith;
}

-- The names of an assigned map are the new one and those before.
lookup-assign_iff :
    {V : Type 0} (k n : Bytes) (v : V) (m : Map V)
    → (lookup n (assign k v m) ≢ none) ↔ ((n ≡ k) ∨₁ (lookup n m ≢ none))
lookup-assign_iff k n v m = elim (Bool-cases (str_eq k n)) [
  | inl e ↦ rw (lookup-assign k n v m, e) (λ h. Or.inl (sym ((str_eq_iff k n).0 e)), λ h. λ t. cc)
  | inr e ↦
      rw (lookup-assign k n v m, e)
        (λ h. Or.inr h, λ h. Or.elim ¬_prop h (λ t. cc ((str_eq_iff k n).1 (sym t))) (λ t. t))
]

append_one-perm : (x : Bytes) (xs : List Bytes) → Perm (xs ++ x ∷ []) (x ∷ xs)
append_one-perm x xs = rw append-nil at (perm_middle {a = x} xs [])

unless_inv :
    {A : Type 0} (b : Bool) (x y : A)
    → (if b then none else some x) ≡ some y
    → (b ≡ false) × (x ≡ y)
unless_inv b x y h = ground arith

add_step-IsConsistent :
    (c c' : Context) (name task : Bytes) (bullets : List Bytes) (criteria : Bytes)
    (functions : Option Functions) (valid : List Bytes)
    → add_step c name task bullets criteria functions valid ≡ some c'
    → IsConsistent c
    → IsConsistent c'
unfolding add_step
add_step-IsConsistent c c' name task bullets criteria functions valid h v =
    let s = step_of name task bullets criteria functions valid in
    let (room, e) = unless_inv _ _ c' h in
    subst IsConsistent e (record {
      listed_iff = λ n.
          let order = Perm.mem_iff {a = n} (append_one-perm name c.step_order) in
          let keys = lookup-assign_iff name n s c.steps in
          (
            λ l. keys.1 (
                Or.elim (∨₁_prop) (mem-cons.0 (order.0 l)) Or.inl
                  (λ r. Or.inr ((v.listed_iff n).0 r))),
            λ k. order.1 (
                mem-cons.1
                  (Or.elim (∨₁_prop) (keys.0 k) Or.inl (λ r. Or.inr ((v.listed_iff n).1 r)))),
          );
      bounded = ground (arith, length-assign name s c.steps, v.bounded);
    })

Bytes-discrete : Discrete Bytes
Bytes-discrete = hlevel ℕ_discrete

dec_ne : (name x : Bytes) → Dec (x ≢ name)
dec_ne name x = elim (Bytes-discrete x name) [ yes e ↦ no (λ h. h e) | no h ↦ yes h ]

remove_name-filter :
    (name : Bytes) (xs : List Bytes) → remove_name name xs ≡ filter (dec_ne name) xs
unfolding remove_name
remove_name-filter name [] = refl
remove_name-filter name (x ∷ xs) = ground (arith, str_eq_iff x name, remove_name-filter name xs)

erase_first-perm :
    (name : Bytes) (xs ys : List Bytes) → erase_first name xs ≡ some ys → Perm (name ∷ ys) xs
unfolding erase_first
erase_first-perm name [] ys h = cc
erase_first-perm name (x ∷ xs) ys h = elim (Bool-cases (str_eq x name)) [
  | inl e ↦
      let same = (str_eq_iff x name).0 e in
      let tail : xs ≡ ys = ground arith in rw (same, tail) (Perm.refl (name ∷ ys))
  | inr e ↦ elim (Option-cases (erase_first name xs)) [
    | inl gone ↦ absurd (ground arith)
    | inr (zs, there) ↦
        let shape : x ∷ zs ≡ ys = ground arith in
        rw (← shape)
          (Perm.trans (Perm.swap x name zs) (Perm.cons x (erase_first-perm name xs zs there)))
  ]
]

insert_at-perm : (p : ℤ) (name : Bytes) (xs : List Bytes) → Perm (insert_at p name xs) (name ∷ xs)
unfolding insert_at
insert_at-perm (negsuc n) name xs = append_one-perm name xs
insert_at-perm (pos n) name xs = elim (Bool-cases (leb (length xs) n)) [
  | inl e ↦ rw e (append_one-perm name xs)
  | inr e ↦ rw e (rw (take-append-drop n xs) at (perm_middle {a = name} (take n xs) (drop n xs)))
]

lookup-erase_iff :
    {V : Type 0} (k n : Bytes) (m : Map V)
    → (lookup n (erase k m) ≢ none) ↔ ((lookup n m ≢ none) × (n ≢ k))
lookup-erase_iff k n m = elim (Bool-cases (str_eq k n)) [
  | inl e ↦
      rw (lookup-erase k n m, e)
        (λ h. absurd (h refl), λ h. absurd (h.1 (sym ((str_eq_iff k n).0 e))))
  | inr e ↦ rw (lookup-erase k n m, e) (λ h. (h, λ t. cc ((str_eq_iff k n).1 (sym t))), λ h. h.0)
]

remove_step-IsConsistent :
    (c : Context) (name : Bytes) → IsConsistent c → IsConsistent (remove_step c name)
unfolding remove_step
remove_step-IsConsistent c name v = record {
  listed_iff = λ n.
      let keys = lookup-erase_iff name n c.steps in
      let kept : Mem n (filter (dec_ne name) c.step_order) ↔ (Mem n c.step_order × (n ≢ name)) =
        mem-filter (dec_ne name) in
      (
        λ h.
            let k = kept.0 (rw (remove_name-filter name c.step_order) at h) in
            keys.1 ((v.listed_iff n).0 k.0, k.1),
        λ h.
            let k = keys.0 h in
            rw (remove_name-filter name c.step_order) (kept.1 ((v.listed_iff n).1 k.0, k.1)),
      );
  bounded = omega (arith, length-erase name c.steps, v.bounded);
}

-- Moving a step permutes the order, and changes nothing else.
pub move_step-perm :
    (c : Context) (name : Bytes) (position : ℤ)
    → Perm (move_step c name position).step_order c.step_order
      × ((move_step c name position).steps ≡ c.steps)
unfolding move_step
move_step-perm c name position = elim (Option-cases (erase_first name c.step_order)) [
  | inl e ↦ rw (e, move_step) (Perm.refl c.step_order, refl)
  | inr (order, e) ↦
      rw (e, move_step)
        (
          Perm.trans (insert_at-perm position name order)
              (erase_first-perm name c.step_order order e),
          refl,
        )
]

move_step-IsConsistent :
    (c : Context) (name : Bytes) (position : ℤ)
    → IsConsistent c
    → IsConsistent (move_step c name position)
move_step-IsConsistent c name position v =
    let (order, same) = move_step-perm c name position in
    record {
      listed_iff = λ n. rw same (
        λ h. (v.listed_iff n).0 ((Perm.mem_iff order).0 h),
        λ h. (Perm.mem_iff order).1 ((v.listed_iff n).1 h),
      );
      bounded = rw same v.bounded;
    }

-- The calls that change the steps.
pub data Edit : Type 0 where
  adds : Bytes → Bytes → List Bytes → Bytes → Option Functions → List Bytes → Edit
  removes : Bytes → Edit
  moves : Bytes → ℤ → Edit

-- A refused `add_step` leaves the context as it was.
abbrev pub edit : Context → Edit → Context
edit c (adds name task bullets criteria functions valid) =
    elim (add_step c name task bullets criteria functions valid) [ none ↦ c | some c' ↦ c' ]
edit c (removes name) = remove_step c name
edit c (moves name position) = move_step c name position

pub edits : Context → List Edit → Context
edits c [] = c
edits c (e ∷ es) = edits (edit c e) es

edit-IsConsistent : (c : Context) (e : Edit) → IsConsistent c → IsConsistent (edit c e)
edit-IsConsistent c (adds name task bullets criteria functions valid) v =
    elim (Option-cases (add_step c name task bullets criteria functions valid)) [
      | inl e ↦ rw (e, edit) v
      | inr (c', e) ↦
          rw (e, edit) (add_step-IsConsistent c c' name task bullets criteria functions valid e v)
    ]
edit-IsConsistent c (removes name) v = remove_step-IsConsistent c name v
edit-IsConsistent c (moves name position) v = move_step-IsConsistent c name position v

edits-IsConsistent : (c : Context) (es : List Edit) → IsConsistent c → IsConsistent (edits c es)
unfolding edits
edits-IsConsistent c [] v = v
edits-IsConsistent c (e ∷ es) v = edits-IsConsistent (edit c e) es (edit-IsConsistent c e v)

-- After any calls on a new context, the order lists exactly the names of the steps, and there are
-- at most as many steps as allowed.
pub edits-new_context-IsConsistent :
    (name : Bytes) (es : List Edit) → IsConsistent (edits (new_context name) es)
edits-new_context-IsConsistent name es = edits-IsConsistent _ es (new_context-IsConsistent name)
