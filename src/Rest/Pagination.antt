-- ===== src/Rest/Pagination.antt =====
-- `HttpClient::get` and `PaginatedIterator` of src/rest/http_client.cpp. The transport, on the
-- configured host with its headers and timeouts, and the JSON parser are parameters.
pub mod Buffer
pub mod Walk
use signalwire_agents_cpp.Prelude.{
  ℕ, zero, suc, ◌+◌, ◌-◌, ◌*◌, ◌%◌, Option, none, some, Bool, true, false, not, ◌&&◌, ◌||◌, ◌∷◌, [],
  ◌++◌, List, Bytes, codes, is_empty, length, take, drop, find, get_elem?, if◌then◌else◌, ◌==◌, leb,
  ltb, is_nil,
}
use signalwire_agents_cpp.Prelude.Int.{pos}
use signalwire_agents_cpp.Prelude.Map.{Map, lookup, assign}
use signalwire_agents_cpp.Prelude.Json.{
  Json, string, array_of, object_of, object, fields, map_in, list_of,
}
use signalwire_agents_cpp.Security.Decimal.{to_string}
use signalwire_agents_cpp.Security.Webhook.Form.{is_xdigit, hex_to_int, plain}
use signalwire_agents_cpp.Security.Webhook.Url.{pos_or}
use signalwire_agents_cpp.Utils.UrlEncoding.{url_encode}

-- What the GET of a target gives, `none` without a connection, and what a text is as JSON, `none`
-- where it is none.
pub record Http : Type 0 where
  pub send : Bytes → Option (ℕ × Bytes)
  pub parse : Bytes → Option Json
  pub host : Bytes

-- A value, or `SignalWireRestError` with its status, message and body; `exhausted` is
-- `std::out_of_range`.
pub data Result {ℓ} (A : Type ℓ) : Type ℓ where
  returns : A → Result A
  rest_error : ℕ → Bytes → Bytes → Result A
  exhausted : Result A

abbrev pub and_then {ℓ} : {A B : Type ℓ} → Result A → (A → Result B) → Result B
and_then (returns a) f = f a
and_then (rest_error status message body) f = rest_error status message body
and_then exhausted f = exhausted

unfoldable pub join_query : Map Bytes → Bytes
unfolding url_encode
join_query [] = []
join_query ((k, v) ∷ []) = url_encode k ++ (b'=' ∷ url_encode v)
join_query ((k, v) ∷ p ∷ params) =
    url_encode k ++ (b'=' ∷ url_encode v ++ (b'&' ∷ join_query (p ∷ params)))

unfoldable pub build_query_string : Map Bytes → Bytes
unfolding join_query
build_query_string [] = []
build_query_string (p ∷ params) = b'?' ∷ join_query (p ∷ params)

-- A member that is no text throws, and the handler of that adds the body.
abbrev told : Bytes → Json → Bytes
told body (string s) = s
told body j = body

abbrev detail : Bytes → Option Json → Option Json → Bytes
detail body (some j) e = codes ": " ++ told body j
detail body none (some j) = codes ": " ++ told body j
detail body none none = []

unfoldable pub error_message : Http → ℕ → Bytes → Bytes
error_message http status body =
    codes "HTTP "
    ++ (to_string (pos status) ++ elim (http.parse body) [
      | none ↦ codes ": " ++ body
      | some err ↦
          detail body (lookup (codes "message") (map_in err)) (lookup (codes "error") (map_in err))
    ])

unfoldable pub handle_response : Http → ℕ → Bytes → Result Json
unfolding error_message
handle_response http status body =
    if status == 204 || is_empty body
    then returns (object [])
    else if leb 200 status && ltb status 300
    then returns (elim (http.parse body) [
      | none ↦ object (fields ((codes "raw", string body) ∷ []))
      | some j ↦ j
    ])
    else rest_error status (error_message http status body) body

unfoldable pub get : Http → Bytes → Map Bytes → Result Json
unfolding handle_response build_query_string
get http path params = elim (http.send (path ++ build_query_string params)) [
  | none ↦ rest_error 0 (codes "Connection failed to " ++ http.host) []
  | some r ↦ handle_response http r.0 r.1
]

-- `std::stoi` of two characters in base 16: a leading space or sign is read, and what follows the
-- digits is not; a number below 0 becomes a byte modulo 256.
unfoldable pub stoi_hex : ℕ → ℕ → Option ℕ
unfolding is_xdigit hex_to_int
stoi_hex h l =
    if is_xdigit h
    then some (if is_xdigit l then hex_to_int h * 16 + hex_to_int l else hex_to_int h)
    else if not (is_xdigit l)
    then none
    else if h == 32 || ((leb 9 h && leb h 13) || h == b'+')
    then some (hex_to_int l)
    else if h == b'-'
    then some ((256 - hex_to_int l) % 256)
    else none

unfoldable pub decode_one : Bytes → Bytes
unfolding plain stoi_hex
decode_one [] = []
decode_one (c ∷ []) = plain c ∷ []
decode_one (c ∷ h ∷ []) = plain c ∷ plain h ∷ []
decode_one (c ∷ h ∷ l ∷ s) = elim (if c == b'%' then stoi_hex h l else none) [
  | some v ↦ v ∷ decode_one s
  | none ↦ plain c ∷ decode_one (h ∷ l ∷ s)
]

unfoldable pub add_pair : Bytes → Map Bytes → Map Bytes
unfolding decode_one
add_pair pair out = if is_empty pair then out else elim (find b'=' pair) [
  | none ↦ assign (decode_one pair) [] out
  | some eq ↦ assign (decode_one (take eq pair)) (decode_one (drop (suc eq) pair)) out
]

-- The loop over the pairs: each round consumes its pair and an '&', so the size is fuel enough.
unfoldable pub read_pairs : ℕ → Bytes → Map Bytes → Map Bytes
unfolding add_pair
read_pairs zero qs out = out
read_pairs (suc fuel) qs out =
    let amp = find b'&' qs in
    let out = add_pair (take (pos_or amp (length qs)) qs) out in
    elim amp [ none ↦ out | some i ↦ read_pairs fuel (drop (suc i) qs) out ]

unfoldable pub parse_query_string : Bytes → Map Bytes
unfolding read_pairs
parse_query_string url = elim (find b'?' url) [
  | none ↦ []
  | some q ↦
      let qs = drop (suc q) url in
      let qs = take (pos_or (find b'#' qs) (length qs)) qs in read_pairs (suc (length qs)) qs []
]

pub record PaginatedIterator : Type 0 where
  pub path : Bytes
  pub params : Map Bytes
  pub data_key : Bytes
  pub items : List Json
  pub index : ℕ
  pub done : Bool

abbrev pub new_iterator : Bytes → Map Bytes → Bytes → PaginatedIterator
new_iterator path params data_key = record {
  path = path;
  params = params;
  data_key = data_key;
  items = [];
  index = 0;
  done = false;
}

abbrev elements : Option Json → List Json
elements (some (array_of xs)) = list_of xs
elements j = []

-- The items of a response; none where the member is missing or no array.
abbrev pub items_in : Bytes → Json → List Json
items_in data_key resp = elements (lookup data_key (map_in resp))

abbrev text_in : Option Json → Bytes
text_in (some (string s)) = s
text_in j = []

abbrev links_in : Option Json → Map Json
links_in (some (object_of m)) = map_in (object_of m)
links_in j = []

abbrev pub next_in : Json → Bytes
next_in resp = text_in (lookup (codes "next") (links_in (lookup (codes "links") (map_in resp))))

unfoldable pub take_page : PaginatedIterator → Json → PaginatedIterator
unfolding parse_query_string
take_page it resp =
    let page = items_in it.data_key resp in
    let it = record it { items = it.items ++ page } in
    if not (is_empty (next_in resp)) && not (is_nil page)
    then record it { params = parse_query_string (next_in resp) }
    else record it { done = true }

unfoldable pub fetch_next : Http → PaginatedIterator → Result PaginatedIterator
unfolding get take_page
fetch_next http it = and_then (get http it.path it.params) (λ resp. returns (take_page it resp))

-- The loop of `has_next`, on fuel.
unfoldable pub has_next : Http → ℕ → PaginatedIterator → Result (Bool × PaginatedIterator)
unfolding fetch_next
has_next http zero it = exhausted
has_next http (suc fuel) it =
    if ltb it.index (length it.items)
    then returns (true, it)
    else if it.done
    then returns (false, it)
    else and_then (fetch_next http it) (λ it'. has_next http fuel it')

abbrev item_at : PaginatedIterator → Option Json → Result (Json × PaginatedIterator)
item_at it none = exhausted
item_at it (some j) = returns (j, record it { index = suc it.index })

-- A page without items ends the iteration, and one with items ends the loop: it fetches once, and
-- looks at most twice.
unfoldable pub next : Http → PaginatedIterator → Result (Json × PaginatedIterator)
unfolding has_next
next http it =
    and_then (has_next http 2 it)
      (λ r. if r.0 then item_at r.1 (get_elem? r.1.items r.1.index) else exhausted)
