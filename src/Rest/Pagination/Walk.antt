-- ===== src/Rest/Pagination/Walk.antt =====
-- The iteration over the pages that a server has, from the first to the last.
use mathlib.Core.List.{append-nil}
use signalwire_agents_cpp.Prelude.{
  ℕ, zero, suc, Bool, true, false, not, ◌&&◌, ◌≡◌, refl, sym, ap, subst, ◌∙◌, ◌⊎◌, inl, inr, ◌∷◌,
  [], ◌++◌, List, Bytes, is_nil, length, length-append, append_assoc, arith, if◌then◌else◌,
}
use signalwire_agents_cpp.Prelude.Map.{Map}
use signalwire_agents_cpp.Prelude.Json.{Json}
use signalwire_agents_cpp.Rest.Pagination.{
  Http, Result, returns, exhausted, and_then, get, parse_query_string, PaginatedIterator,
  new_iterator, items_in, next_in, has_next, next,
}
use signalwire_agents_cpp.Rest.Pagination.Buffer.{
  follows, has_next-buffered, index-lt, next-buffered, has_next-drained, has_next-fetch,
  take_page-last, take_page-follows,
}

abbrev pub all_items : Bytes → List Json → List Json
all_items data_key [] = []
all_items data_key (resp ∷ pages) = items_in data_key resp ++ all_items data_key pages

-- The pages are what the server answers, each with the parameters that the one before it names.
abbrev pub Served : Http → Bytes → Bytes → Map Bytes → List Json → Type 0
Served http path data_key params [] = ⊥
Served http path data_key params (resp ∷ []) =
    (get http path params ≡ returns resp) × (follows data_key resp ≡ false)
Served http path data_key params (resp ∷ r ∷ rs) =
    (get http path params ≡ returns resp)
    × (follows data_key resp ≡ true)
    × Served http path data_key (parse_query_string (next_in resp)) (r ∷ rs)

-- `while (it.has_next()) all.push_back(it.next())`, on fuel.
unfoldable pub collect : Http → ℕ → PaginatedIterator → Result (List Json)
unfolding has_next next
collect http zero it = exhausted
collect http (suc fuel) it = and_then (has_next http 2 it) (λ r.
    if r.0
    then and_then (next http r.1) (λ s. and_then (collect http fuel s.1) (λ xs. returns (s.0 ∷ xs)))
    else returns [])

module _ (http : Http) where
  abbrev Tail : PaginatedIterator → List Json → List Json → Type 0
  Tail it ys xs =
      ((it.done ≡ true) × (xs ≡ ys))
      ⊎ ((it.done ≡ false)
          × ((pages : List Json) × Served http it.path it.data_key it.params pages
              × (xs ≡ ys ++ all_items it.data_key pages)))

  -- What is still to come: the items behind the index, and those of the pages to fetch.
  record Left (it : PaginatedIterator) (shown ys xs : List Json) : Type 0 where
    buffer : it.items ≡ shown ++ ys
    place : it.index ≡ length shown
    tail : Tail it ys xs

  -- Nothing is left to fetch, or an item is at hand.
  abbrev Settled : PaginatedIterator → List Json → Type 0
  Settled it [] = it.done ≡ true
  Settled it (y ∷ ys) = Unit

  -- What one look finds: the iterator behind it, with the item that is next.
  abbrev Ready : PaginatedIterator → List Json → Type 0
  Ready it [] = Unit
  Ready it (x ∷ xs) = (shown : List Json) × (ys : List Json) × Left it shown (x ∷ ys) (x ∷ xs)

  abbrev Looked : PaginatedIterator → PaginatedIterator → List Json → ℕ → Type 0
  Looked it it' xs n = (has_next http n it ≡ returns (not (is_nil xs), it')) × Ready it' xs

  Tail-first :
      (it : PaginatedIterator) (y : Json) (ys xs : List Json)
      → Tail it (y ∷ ys) xs
      → (zs : List Json) × (xs ≡ y ∷ zs)
  Tail-first it y ys xs (inl (d, e)) = (ys, e)
  Tail-first it y ys xs (inr (d, (pages, s, e))) = (ys ++ all_items it.data_key pages, e)

  Ready-at :
      (it : PaginatedIterator) (shown ys zs xs : List Json) (y : Json)
      → xs ≡ y ∷ zs
      → Left it shown (y ∷ ys) xs
      → Ready it xs
  Ready-at it shown ys zs xs y e l =
      subst (Ready it) (sym e) (shown, ys, subst (Left it shown (y ∷ ys)) e l)

  Settled-Looked :
      (n : ℕ) (it : PaginatedIterator) (shown ys xs : List Json)
      → Left it shown ys xs
      → Settled it ys
      → Looked it it xs (suc n)
  Settled-Looked n it shown [] xs l s = elim l.tail [
    | inl (d, e) ↦ rw e (
      has_next-drained http n it (l.place ∙ ap length (sym (append-nil shown) ∙ sym l.buffer)) d,
      tt,
    )
    | inr (d, t) ↦ absurd cc
  ]
  Settled-Looked n it shown (y ∷ ys) xs l s =
      let (zs, e) = Tail-first it y ys xs l.tail in
      (
        has_next-buffered http n it (index-lt http it shown ys y l.buffer l.place) ∙ rw e refl,
        Ready-at it shown ys zs xs y e l,
      )

  Settled-done : (it : PaginatedIterator) (ys : List Json) → it.done ≡ true → Settled it ys
  Settled-done it [] d = d
  Settled-done it (y ∷ ys) d = tt

  Settled-some : (it : PaginatedIterator) (ys : List Json) → not (is_nil ys) ≡ true → Settled it ys
  Settled-some it [] h = absurd cc
  Settled-some it (y ∷ ys) h = tt

  and_right : (a b : Bool) → (a && b) ≡ true → b ≡ true
  and_right true b h = h
  and_right false b h = absurd cc

  buffer_end :
      (it : PaginatedIterator) (shown xs : List Json)
      → Left it shown [] xs
      → it.index ≡ length it.items
  buffer_end it shown xs l = l.place ∙ ap length (sym (append-nil shown) ∙ sym l.buffer)

  tail_eq : {x : Json} {xs ys : List Json} → x ∷ xs ≡ x ∷ ys → xs ≡ ys
  tail_eq e = cc

  -- A look behind the last item of the buffer fetches one page.
  fetched :
      (it : PaginatedIterator) (shown xs pages : List Json)
      → Left it shown [] xs
      → it.done ≡ false
      → Served http it.path it.data_key it.params pages
      → xs ≡ all_items it.data_key pages
      → (it' : PaginatedIterator) × Looked it it' xs 2
  fetched it shown xs [] l d s e = absurd s
  fetched it shown xs (resp ∷ []) l d (g, f) e =
      let page = items_in it.data_key resp in
      let it' = record it { items = it.items ++ page; done = true } in
      let b = ap (λ zs. zs ++ page) (l.buffer ∙ append-nil shown) in
      let (look, ready) =
        Settled-Looked 0 it' shown page xs
          (record { buffer = b; place = l.place; tail = inl (refl, e ∙ append-nil page) })
          (Settled-done it' page refl) in
      (
        it',
        (
          has_next-fetch http 1 it resp (buffer_end it shown xs l) d g
              ∙ (ap (has_next http 1) (take_page-last http it resp f) ∙ look),
          ready,
        ),
      )
  fetched it shown xs (resp ∷ r ∷ rs) l d (g, f, s) e =
      let page = items_in it.data_key resp in
      let it' = record it {
        items = it.items ++ page;
        params = parse_query_string (next_in resp);
      } in
      let b = ap (λ zs. zs ++ page) (l.buffer ∙ append-nil shown) in
      let (look, ready) =
        Settled-Looked 0 it' shown page xs
          (record { buffer = b; place = l.place; tail = inr (d, (r ∷ rs, s, e)) })
          (Settled-some it' page (and_right _ _ f)) in
      (
        it',
        (
          has_next-fetch http 1 it resp (buffer_end it shown xs l) d g
              ∙ (ap (has_next http 1) (take_page-follows http it resp f) ∙ look),
          ready,
        ),
      )

  has_next-Left :
      (it : PaginatedIterator) (shown ys xs : List Json)
      → Left it shown ys xs
      → (it' : PaginatedIterator) × Looked it it' xs 2
  has_next-Left it shown (y ∷ ys) xs l = (it, Settled-Looked 1 it shown (y ∷ ys) xs l tt)
  has_next-Left it shown [] xs l = elim l.tail [
    | inl (d, e) ↦ (it, Settled-Looked 1 it shown [] xs l d)
    | inr (d, (pages, s, e)) ↦ fetched it shown xs pages l d s e
  ]

  next-Left :
      (it : PaginatedIterator) (shown ys xs : List Json) (x : Json)
      → Left it shown (x ∷ ys) (x ∷ xs)
      → Left (record it { index = suc it.index }) (shown ++ x ∷ []) ys xs
  next-Left it shown ys xs x l = record {
    buffer = l.buffer ∙ sym (append_assoc shown (x ∷ []) ys);
    place = rw (l.place, length-append shown (x ∷ [])) (omega arith);
    tail = elim l.tail [
      | inl (d, e) ↦ inl (d, tail_eq e)
      | inr (d, (pages, s, e)) ↦ inr (d, (pages, s, tail_eq e))
    ];
  }

  collect-Left :
      (xs : List Json) (it : PaginatedIterator) (shown ys : List Json)
      → Left it shown ys xs
      → collect http (suc (length xs)) it ≡ returns xs
  unfolding collect
  collect-Left [] it shown ys l =
      let (it', (look, ready)) = has_next-Left it shown ys [] l in rw look refl
  collect-Left (x ∷ xs) it shown ys l =
      let (it', (look, (shown', ys', l'))) = has_next-Left it shown ys (x ∷ xs) l in
      rw
        (
          look,
          next-buffered http it' shown' ys' x l'.buffer l'.place,
          collect-Left xs _ _ ys' (next-Left it' shown' ys' xs x l'),
        )
        refl

-- A client that asks for items until there are no more gets the items of the pages that the server
-- has, all of them in order, from the page of the given parameters to the first that names no other
-- or has no items. Fuel 2 is enough for
-- each look at the next item.
pub collect-all_items :
    (http : Http) (path data_key : Bytes) (params : Map Bytes) (pages : List Json)
    → Served http path data_key params pages
    → collect http (suc (length (all_items data_key pages))) (new_iterator path params data_key)
      ≡ returns (all_items data_key pages)
collect-all_items http path data_key params pages s =
    collect-Left http (all_items data_key pages) _ [] []
      (record { buffer = refl; place = refl; tail = inr (refl, (pages, s, refl)) })
