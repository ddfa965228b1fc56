-- ===== src/Security/Webhook/Form/Sorting.antt =====
-- Sorted parameters: repeated keys spelled out as a body, or grouped by the caller, sign alike.
use signalwire_agents_cpp.Prelude.{
  true, false, ◌≡◌, inl, inr, refl, sym, ap, ◌∙◌, ◌++◌, ◌∷◌, [], List, Bytes, All, Bool-cases,
  append_assoc,
}
use signalwire_agents_cpp.Prelude.Strings.{str_ltb, str_ltb_irrefl, str_ltb_asymm, str_le_trans}
use signalwire_agents_cpp.Security.Webhook.Form.{
  insert, stable_sort, concat_pairs, sorted_concat_pairs, concat_values, concat_params,
  sorted_concat_form_params,
}

abbrev pub pairs : Bytes → List Bytes → List (Bytes × Bytes)
pairs k [] = []
pairs k (v ∷ vs) = (k, v) ∷ pairs k vs

-- Every value behind its own key, in the order given.
abbrev pub flatten : List (Bytes × List Bytes) → List (Bytes × Bytes)
flatten [] = []
flatten ((k, vs) ∷ params) = pairs k vs ++ flatten params

-- Keys that do not fall, from a lower bound on.
abbrev IsSorted : {V : Type 0} → List (Bytes × V) → Type 0
IsSorted [] = Unit
IsSorted ((k, v) ∷ items) = All (λ b. str_ltb b.0 k ≡ false) items × IsSorted items

module _ {V : Type 0} (k : Bytes) (v : V) where
  -- An insertion keeps every lower bound that the new entry meets.
  insert-All :
      (P : Bytes × V → Type 0) (items : List (Bytes × V))
      → P (k, v)
      → All P items
      → All P (insert (k, v) items)
  unfolding insert
  insert-All P [] pk h = (pk, tt)
  insert-All P (b ∷ items) pk (pb, h) = elim (Bool-cases (str_ltb b.0 k)) [
    | inl e ↦ rw e (pb, insert-All P items pk h)
    | inr e ↦ rw e (pk, (pb, h))
  ]

  All-weaken :
      (b : Bytes) (items : List (Bytes × V))
      → str_ltb b k ≡ false
      → All (λ c. str_ltb c.0 b ≡ false) items
      → All (λ c. str_ltb c.0 k ≡ false) items
  All-weaken b [] e h = tt
  All-weaken b (c ∷ items) e (hc, h) = (str_le_trans k b c.0 e hc, All-weaken b items e h)

  insert-IsSorted : (items : List (Bytes × V)) → IsSorted items → IsSorted (insert (k, v) items)
  unfolding insert
  insert-IsSorted [] h = (tt, tt)
  insert-IsSorted ((j, w) ∷ items) (hj, h) = elim (Bool-cases (str_ltb j k)) [
    | inl e ↦ rw e (
      insert-All (λ c. str_ltb c.0 j ≡ false) items (str_ltb_asymm j k e) hj,
      insert-IsSorted items h,
    )
    | inr e ↦ rw e ((e, All-weaken j items e hj), (hj, h))
  ]

stable_sort-IsSorted : {V : Type 0} (items : List (Bytes × V)) → IsSorted (stable_sort items)
unfolding stable_sort
stable_sort-IsSorted [] = tt
stable_sort-IsSorted ((k, v) ∷ items) = insert-IsSorted k v _ (stable_sort-IsSorted items)

-- Entries with smaller keys are passed by.
insert_past :
    (k j : Bytes) (v : Bytes) (ws : List Bytes) (items : List (Bytes × Bytes))
    → str_ltb j k ≡ true
    → insert (k, v) (pairs j ws ++ items) ≡ pairs j ws ++ insert (k, v) items
unfolding insert
insert_past k j v [] items e = refl
insert_past k j v (w ∷ ws) items e = rw e (ap (◌∷◌ (j, w)) (insert_past k j v ws items e))

-- The keys of grouped entries bound those of the flat list.
flatten-All :
    (k : Bytes) (params : List (Bytes × List Bytes))
    → All (λ b. str_ltb b.0 k ≡ false) params
    → All (λ b. str_ltb b.0 k ≡ false) (flatten params)
flatten-All k [] h = tt
flatten-All k ((j, []) ∷ params) (hj, h) = flatten-All k params h
flatten-All k ((j, w ∷ ws) ∷ params) (hj, h) = (hj, flatten-All k ((j, ws) ∷ params) (hj, h))

-- In front of keys that are not smaller the new entry comes first.
insert_first :
    (k v : Bytes) (items : List (Bytes × Bytes))
    → All (λ b. str_ltb b.0 k ≡ false) items
    → insert (k, v) items ≡ (k, v) ∷ items
unfolding insert
insert_first k v [] h = refl
insert_first k v (b ∷ items) (hb, h) = rw hb

-- Inserting a group with one more value is inserting that value into the flat list.
insert-flatten :
    (k v : Bytes) (vs : List Bytes) (params : List (Bytes × List Bytes))
    → IsSorted params
    → insert (k, v) (flatten (insert (k, vs) params)) ≡ flatten (insert (k, v ∷ vs) params)
unfolding insert
insert-flatten k v vs [] h =
    insert_first k v (pairs k vs ++ []) (flatten-All k ((k, vs) ∷ []) (str_ltb_irrefl k, tt))
insert-flatten k v vs ((j, ws) ∷ params) (hj, h) = elim (Bool-cases (str_ltb j k)) [
  | inl e ↦
      rw e (insert_past k j v ws _ e ∙ ap (◌++◌ (pairs j ws)) (insert-flatten k v vs params h))
  | inr e ↦ rw e (
      insert_first k v _ (
        flatten-All k ((k, vs) ∷ (j, ws) ∷ params)
          (str_ltb_irrefl k, (e, All-weaken k ws j params e hj))))
]

-- A group with no values adds nothing.
insert_empty :
    (k : Bytes) (params : List (Bytes × List Bytes))
    → flatten (insert (k, []) params) ≡ flatten params
unfolding insert
insert_empty k [] = refl
insert_empty k ((j, ws) ∷ params) = elim (Bool-cases (str_ltb j k)) [
  | inl e ↦ rw e (ap (◌++◌ (pairs j ws)) (insert_empty k params))
  | inr e ↦ rw e
]

sort_group :
    (k : Bytes) (vs : List Bytes) (params : List (Bytes × List Bytes))
    → stable_sort (flatten params) ≡ flatten (stable_sort params)
    → stable_sort (pairs k vs ++ flatten params) ≡ flatten (insert (k, vs) (stable_sort params))
unfolding stable_sort
sort_group k [] params e = e ∙ sym (insert_empty k (stable_sort params))
sort_group k (v ∷ vs) params e =
    ap (insert (k, v)) (sort_group k vs params e)
    ∙ insert-flatten k v vs (stable_sort params) (stable_sort-IsSorted params)

-- Sorting by key and spelling out groups commute.
stable_sort-flatten :
    (params : List (Bytes × List Bytes))
    → stable_sort (flatten params) ≡ flatten (stable_sort params)
unfolding stable_sort
stable_sort-flatten [] = refl
stable_sort-flatten ((k, vs) ∷ params) = sort_group k vs params (stable_sort-flatten params)

concat_pairs-append :
    (k : Bytes) (vs : List Bytes) (items : List (Bytes × Bytes))
    → concat_pairs (pairs k vs ++ items) ≡ concat_values k vs ++ concat_pairs items
unfolding concat_pairs concat_values
concat_pairs-append k [] items = refl
concat_pairs-append k (v ∷ vs) items = simp (concat_pairs-append k vs items, append_assoc)

concat_pairs-flatten :
    (params : List (Bytes × List Bytes)) → concat_pairs (flatten params) ≡ concat_params params
unfolding concat_pairs concat_params
concat_pairs-flatten [] = refl
concat_pairs-flatten ((k, vs) ∷ params) =
    concat_pairs-append k vs (flatten params)
    ∙ ap (◌++◌ (concat_values k vs)) (concat_pairs-flatten params)

-- Grouped parameters are concatenated like the same parameters one by one, whatever the keys and
-- also where a key occurs in several groups.
pub sorted_concat_flatten :
    (params : List (Bytes × List Bytes))
    → sorted_concat_pairs (flatten params) ≡ sorted_concat_form_params params
unfolding sorted_concat_pairs sorted_concat_form_params
sorted_concat_flatten params =
    rw (stable_sort-flatten params) (concat_pairs-flatten (stable_sort params))
