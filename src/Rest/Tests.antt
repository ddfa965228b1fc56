-- ===== src/Rest/Tests.antt =====
-- The iteration over the two pages of a server.
use signalwire_agents_cpp.Prelude.{
  none, some, ◌≡◌, refl, ◌∷◌, [], codes, str_eq, if◌then◌else◌, find,
}
use signalwire_agents_cpp.Prelude.Strings.{str_ltb}
use signalwire_agents_cpp.Prelude.Map.{lookup, assign}
use signalwire_agents_cpp.Prelude.Json.{Json, string, object, array, fields}
use signalwire_agents_cpp.Rest.Pagination.{Http, returns, get, new_iterator, parse_query_string}
use signalwire_agents_cpp.Rest.Pagination.Walk.{Served, collect, collect-all_items}

abbrev first : Json
first = object (
    fields (
      (codes "data", array (string (codes "a") ∷ string (codes "b") ∷ []))
      ∷ (codes "links", object ((codes "next", string (codes "/calls?page=2#x")) ∷ []))
      ∷ []))

abbrev second : Json
second = object ((codes "data", array (string (codes "c") ∷ [])) ∷ [])

abbrev server : Http
server = record {
  send = λ target.
      if str_eq target (codes "/calls")
      then some (200, codes "1")
      else if str_eq target (codes "/calls?page=2")
      then some (200, codes "2")
      else none;
  parse = λ body. if str_eq body (codes "1") then some first else some second;
  host = codes "example.com";
}

served : Served server (codes "/calls") (codes "data") [] (first ∷ second ∷ [])
unfolding lookup assign str_eq str_ltb get parse_query_string find
served = (refl, refl, (refl, refl))

collect-all_items_example :
    collect server 4 (new_iterator (codes "/calls") [] (codes "data"))
    ≡ returns (string (codes "a") ∷ string (codes "b") ∷ string (codes "c") ∷ [])
unfolding lookup assign str_eq str_ltb
collect-all_items_example =
    collect-all_items server (codes "/calls") (codes "data") [] (first ∷ second ∷ []) served
