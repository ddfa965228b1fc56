-- ===== src/Pom/Reading.antt =====
-- `PromptObjectModel::from_json` and `build_section` of src/pom/pom.cpp.
pub mod Written
pub mod RoundTrip
use signalwire_agents_cpp.Prelude.{
  Option, none, some, Bool, true, false, not, ◌||◌, ◌&&◌, ◌∷◌, [], List, Bytes, codes, is_empty,
  str_eq, if◌then◌else◌, ◌>>=◌,
}
use signalwire_agents_cpp.Prelude.Map.{Map, lookup, assign}
use signalwire_agents_cpp.Prelude.Json.{
  Json, null, boolean, number, string, array_of, object_of, object, Items, no_items, item, Members,
  no_members, member, map_of, is_empty_json,
}
use signalwire_agents_cpp.Pom.{Section, section_of, Sections, no_sections, then_section}

abbrev is_string : Json → Bool
is_string (string s) = true
is_string j = false

abbrev is_array : Json → Bool
is_array (array_of xs) = true
is_array j = false

abbrev is_boolean : Json → Bool
is_boolean (boolean b) = true
is_boolean j = false

-- A member that is there passes the test.
abbrev if_there : (Json → Bool) → Option Json → Bool
if_there test none = true
if_there test (some j) = test j

abbrev is_there : Option Json → Bool
is_there none = false
is_there (some j) = true

abbrev is_text : Option Json → Bool
is_text (some (string s)) = not (is_empty s)
is_text o = false

abbrev is_filled : Option Json → Bool
is_filled none = false
is_filled (some j) = not (is_empty_json j)

-- `get<std::string>()` and its like, which throw on another type.
abbrev pub get_title : Option Json → Option (Option Bytes)
get_title none = some none
get_title (some (string s)) = some (some s)
get_title (some j) = none

abbrev pub get_body : Option Json → Option Bytes
get_body none = some []
get_body (some (string s)) = some s
get_body (some j) = none

abbrev pub get_texts : Items → Option (List Bytes)
get_texts no_items = some []
get_texts (item (string s) xs) = do rest ← get_texts xs; some (s ∷ rest)
get_texts (item j xs) = none

abbrev pub get_bullets : Option Json → Option (List Bytes)
get_bullets none = some []
get_bullets (some (array_of xs)) = get_texts xs
get_bullets (some j) = none

abbrev pub get_flag : Option Json → Option (Option Bool)
get_flag none = some none
get_flag (some (boolean b)) = some (some b)
get_flag (some j) = none

abbrev pub or_false : Option Bool → Bool
or_false none = false
or_false (some b) = b

-- The members that a section may have.
pub record Found : Type 0 where
  pub title : Option Json
  pub body : Option Json
  pub bullets : Option Json
  pub subsections : Option Json
  pub numbered : Option Json
  pub numbered_bullets : Option Json

abbrev pub found_in : Map Json → Found
found_in m = record {
  title = lookup (codes "title") m;
  body = lookup (codes "body") m;
  bullets = lookup (codes "bullets") m;
  subsections = lookup (codes "subsections") m;
  numbered = lookup (codes "numbered") m;
  numbered_bullets = lookup (codes "numberedBullets") m;
}

-- The checks of the types of the members.
abbrev pub is_well_typed : Found → Bool
is_well_typed f =
    if_there is_string f.title
    && if_there is_array f.subsections
    && if_there is_array f.bullets
    && if_there is_boolean f.numbered
    && if_there is_boolean f.numbered_bullets

abbrev pub has_contents : Found → Bool
has_contents f = is_text f.body || is_filled f.bullets || is_filled f.subsections

-- The checks of `build_section` but those of the subsections.
abbrev pub accepts : Bool → Found → Bool
accepts is_subsection f =
    is_well_typed f && has_contents f && (not is_subsection || is_there f.title)

-- What it builds then; `subs` is what the subsections gave.
abbrev pub read : Found → Option Sections → Option Section
read f subs = do
  title ← get_title f.title
  body ← get_body f.body
  bullets ← get_bullets f.bullets
  numbered ← get_flag f.numbered
  numbered_bullets ← get_flag f.numbered_bullets
  subsections ← subs
  some (section_of title body bullets numbered (or_false numbered_bullets) subsections)

-- `build_section`; the second function reads the member "subsections", the third its items.
unfoldable mutual
  pub build_section : Bool → Json → Option Section
  build_section is_subsection (object_of ms) =
      let f = found_in (map_of ms) in
      let subs = build_subsections ms in if accepts is_subsection f then read f subs else none
  build_section is_subsection null = none
  build_section is_subsection (boolean b) = none
  build_section is_subsection (number n) = none
  build_section is_subsection (string s) = none
  build_section is_subsection (array_of xs) = none

  pub build_subsections : Members → Option Sections
  build_subsections no_members = some no_sections
  build_subsections (member k j ms) =
      let here = build_array j in
      let later = build_subsections ms in if str_eq k (codes "subsections") then here else later

  pub build_array : Json → Option Sections
  build_array (array_of xs) = build_items xs
  build_array null = none
  build_array (boolean b) = none
  build_array (number n) = none
  build_array (string s) = none
  build_array (object_of ms) = none

  pub build_items : Items → Option Sections
  build_items no_items = some no_sections
  build_items (item j xs) =
      let here = build_section true j in
      let later = build_items xs in do s ← here; ss ← later; some (then_section s ss)

-- Later sections without a title get one.
unfoldable pub with_title : Json → Json
with_title (object_of ms) =
    if is_there (lookup (codes "title") (map_of ms))
    then object_of ms
    else object (assign (codes "title") (string (codes "Untitled Section")) (map_of ms))
with_title null = null
with_title (boolean b) = boolean b
with_title (number n) = number n
with_title (string s) = string s
with_title (array_of xs) = array_of xs

unfoldable pub build_rest : Items → Option Sections
unfolding build_section with_title
build_rest no_items = some no_sections
build_rest (item j xs) = do
  s ← build_section false (with_title j)
  ss ← build_rest xs
  some (then_section s ss)

-- `from_json`.
unfoldable pub from_json : Json → Option Sections
unfolding build_section build_rest
from_json (array_of no_items) = some no_sections
from_json (array_of (item j xs)) = do
  s ← build_section false j
  ss ← build_rest xs
  some (then_section s ss)
from_json null = none
from_json (boolean b) = none
from_json (number n) = none
from_json (string s) = none
from_json (object_of ms) = none
