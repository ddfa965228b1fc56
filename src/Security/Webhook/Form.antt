-- ===== src/Security/Webhook/Form.antt =====
-- The form helpers of src/security/webhook_validator.cpp: `urldecode_form`, `parse_form_body`, the
-- two concatenations of sorted parameters, and `find_query_param`.
pub mod Sorting
pub mod RoundTrip
use signalwire_agents_cpp.Prelude.{
  ℕ, zero, suc, ◌+◌, ◌-◌, ◌*◌, ◌≡◌, refl, Option, none, some, Bool, true, false, ◌&&◌, ◌||◌, ◌++◌,
  ◌∷◌, [], List, map, Bytes, codes, length, take, drop, find, str_eq, if◌then◌else◌, is_empty, ◌==◌,
  leb, Bool, String,
}
use mathlib.Core.List.{foldr}
use signalwire_agents_cpp.Prelude.Strings.{str_ltb}
use signalwire_agents_cpp.Security.Webhook.Url.{pos_or}

unfoldable pub is_xdigit : ℕ → Bool
is_xdigit c =
    (leb b'0' c && leb c b'9') || ((leb b'a' c && leb c b'f') || (leb b'A' c && leb c b'F'))

unfoldable pub hex_to_int : ℕ → ℕ
hex_to_int h =
    if leb b'0' h && leb h b'9'
    then h - b'0'
    else if leb b'a' h && leb h b'f'
    then h - b'a' + 10
    else if leb b'A' h && leb h b'F'
    then h - b'A' + 10
    else 0

-- A character that no escape takes: `+` is a space.
unfoldable pub plain : ℕ → ℕ
plain c = if c == b'+' then 32 else c

-- An escape needs two more characters, both hexadecimal digits; any other text stands for itself.
unfoldable pub urldecode_form : Bytes → Bytes
unfolding is_xdigit hex_to_int plain
urldecode_form [] = []
urldecode_form (c ∷ []) = plain c ∷ []
urldecode_form (c ∷ h ∷ []) = plain c ∷ plain h ∷ []
urldecode_form (c ∷ h ∷ l ∷ s) = elim (c == b'%' && (is_xdigit h && is_xdigit l)) [
  | true ↦ (hex_to_int h * 16 + hex_to_int l) ∷ urldecode_form s
  | false ↦ plain c ∷ urldecode_form (h ∷ l ∷ s)
]

-- `key=value`, decoded; without '=' the whole text is the key.
pub decode_pair : Bytes → Bytes × Bytes
decode_pair pair = elim (find b'=' pair) [
  | none ↦ (urldecode_form pair, [])
  | some eq ↦ (urldecode_form (take eq pair), urldecode_form (drop (suc eq) pair))
]

-- The loop over the pairs: each round consumes its pair and an '&', so the size is fuel enough.
pub parse_pairs : ℕ → Bytes → List (Bytes × Bytes)
parse_pairs zero body = []
parse_pairs (suc fuel) body =
    let amp = find b'&' body in
    let pair = take (pos_or amp (length body)) body in
    let rest : List (Bytes × Bytes) = elim amp [
      | none ↦ []
      | some i ↦ parse_pairs fuel (drop (suc i) body)
    ] in
    if is_empty body then [] else if is_empty pair then rest else decode_pair pair ∷ rest

pub parse_form_body : Bytes → List (Bytes × Bytes)
unfolding parse_pairs decode_pair urldecode_form
parse_form_body body = parse_pairs (suc (length body)) body

module _ {V : Type 0} where
  -- `std::stable_sort` by key, as insertion from the back: an entry stays in front of its equals.
  pub insert : Bytes × V → List (Bytes × V) → List (Bytes × V)
  insert a [] = a ∷ []
  insert a (b ∷ items) = if str_ltb b.0 a.0 then b ∷ insert a items else a ∷ b ∷ items

  pub stable_sort : List (Bytes × V) → List (Bytes × V)
  unfolding insert
  stable_sort [] = []
  stable_sort (a ∷ items) = insert a (stable_sort items)

pub concat_pairs : List (Bytes × Bytes) → Bytes
concat_pairs [] = []
concat_pairs ((k, v) ∷ items) = k ++ (v ++ concat_pairs items)

pub sorted_concat_pairs : List (Bytes × Bytes) → Bytes
unfolding stable_sort concat_pairs
sorted_concat_pairs items = concat_pairs (stable_sort items)

-- The values of one key, each behind the key.
pub concat_values : Bytes → List Bytes → Bytes
concat_values k [] = []
concat_values k (v ∷ vs) = k ++ (v ++ concat_values k vs)

pub concat_params : List (Bytes × List Bytes) → Bytes
unfolding concat_values
concat_params [] = []
concat_params ((k, vs) ∷ params) = concat_values k vs ++ concat_params params

pub sorted_concat_form_params : List (Bytes × List Bytes) → Bytes
unfolding stable_sort concat_params
sorted_concat_form_params params = concat_params (stable_sort params)

abbrev key_of : Bytes → Bytes
key_of pair = take (pos_or (find b'=' pair) (length pair)) pair

abbrev value_of : Bytes → Bytes
value_of pair = elim (find b'=' pair) [ none ↦ [] | some eq ↦ drop (suc eq) pair ]

-- The first parameter of that name, decoded; empty when there is none.
pub find_param : ℕ → Bytes → Bytes → Bytes
find_param zero query name = []
find_param (suc fuel) query name =
    let amp = find b'&' query in
    let pair = take (pos_or amp (length query)) query in
    let rest : Bytes = elim amp [
      | none ↦ []
      | some i ↦ find_param fuel (drop (suc i) query) name
    ] in
    if is_empty query
    then []
    else if str_eq (key_of pair) name
    then urldecode_form (value_of pair)
    else rest

pub find_query_param : Bytes → Bytes → Bytes
unfolding find_param urldecode_form
find_query_param query name = find_param (suc (length query)) query name

decoded :
    parse_form_body (codes "b=1+2&&a=%41%4&x")
    ≡ (codes "b", codes "1 2") ∷ (codes "a", codes "A%4") ∷ (codes "x", []) ∷ []
unfolding parse_form_body find
decoded = refl

sorted :
    sorted_concat_pairs
      ((codes "b", codes "1") ∷ (codes "a", codes "2") ∷ (codes "b", codes "0") ∷ [])
    ≡ codes "a2b1b0"
unfolding sorted_concat_pairs str_ltb
sorted = refl

found : find_query_param (codes "a=1&bodySHA256=%66f") (codes "bodySHA256") ≡ codes "ff"
unfolding find_query_param find str_eq
found = refl
