-- ===== src/Rest/Pagination/Buffer.antt =====
-- One look at the next item: in the buffer, at its end, and with a page that is fetched.
use signalwire_agents_cpp.Prelude.{
  ℕ, suc, ◌<◌, some, Bool, true, false, not, ◌&&◌, ◌≡◌, refl, ◌∷◌, [], ◌++◌, List, Bytes, is_empty,
  is_nil, length, length-append, get_elem?, arith,
}
use signalwire_agents_cpp.Prelude.Json.{Json}
use signalwire_agents_cpp.Rest.Pagination.{
  Http, returns, get, parse_query_string, PaginatedIterator, items_in, next_in, take_page,
  fetch_next, has_next, next,
}

-- A page that another one follows: it names it, and has items.
abbrev pub follows : Bytes → Json → Bool
follows data_key resp = not (is_empty (next_in resp)) && not (is_nil (items_in data_key resp))

module _ (http : Http) where
  pub has_next-buffered :
      (n : ℕ) (it : PaginatedIterator)
      → it.index < length it.items
      → has_next http (suc n) it ≡ returns (true, it)
  unfolding has_next
  has_next-buffered n it h = ground (arith, h)

  pub get_elem-append :
      (xs ys : List Json) (y : Json) → get_elem? (xs ++ y ∷ ys) (length xs) ≡ some y
  get_elem-append [] ys y = refl
  get_elem-append (x ∷ xs) ys y = get_elem-append xs ys y

  pub index-lt :
      (it : PaginatedIterator) (shown ys : List Json) (y : Json)
      → it.items ≡ shown ++ y ∷ ys
      → it.index ≡ length shown
      → it.index < length it.items
  index-lt it shown ys y b p = rw (b, p, length-append shown (y ∷ ys)) (omega arith)

  pub next-buffered :
      (it : PaginatedIterator) (shown ys : List Json) (y : Json)
      → it.items ≡ shown ++ y ∷ ys
      → it.index ≡ length shown
      → next http it ≡ returns (y, record it { index = suc it.index })
  unfolding next
  next-buffered it shown ys y b p =
      rw (has_next-buffered 1 it (index-lt it shown ys y b p), b, p, get_elem-append shown ys y)
        refl

  pub has_next-drained :
      (n : ℕ) (it : PaginatedIterator)
      → it.index ≡ length it.items
      → it.done ≡ true
      → has_next http (suc n) it ≡ returns (false, it)
  unfolding has_next
  has_next-drained n it h d = ground (arith, h, d)

  pub has_next-fetch :
      (n : ℕ) (it : PaginatedIterator) (resp : Json)
      → it.index ≡ length it.items
      → it.done ≡ false
      → get http it.path it.params ≡ returns resp
      → has_next http (suc n) it ≡ has_next http n (take_page it resp)
  unfolding has_next fetch_next
  has_next-fetch n it resp h d g = rw (h, d, g) (ground arith)

  pub take_page-last :
      (it : PaginatedIterator) (resp : Json)
      → follows it.data_key resp ≡ false
      → take_page it resp ≡ record it { items = it.items ++ items_in it.data_key resp; done = true }
  unfolding take_page
  take_page-last it resp f = rw f refl

  pub take_page-follows :
      (it : PaginatedIterator) (resp : Json)
      → follows it.data_key resp ≡ true
      → take_page it resp ≡ record it {
        items = it.items ++ items_in it.data_key resp;
        params = parse_query_string (next_in resp);
      }
  unfolding take_page
  take_page-follows it resp f = rw f refl
