-- ===== src/Pom.antt =====
-- The prompt object model of src/pom/pom.cpp: a tree of sections, its construction and its JSON.
-- The children hold the reader, the renderers, the search and the scalars of the YAML subset.
pub mod Reading
pub mod Rendering
pub mod Search
pub mod Scalar
mod Tests
use signalwire_agents_cpp.Prelude.{
  Option, none, some, Bool, true, false, not, ◌≡◌, refl, ◌&&◌, ◌∷◌, [], ◌++◌, List, Bytes, codes,
  is_empty, is_nil, if◌then◌else◌,
}
use signalwire_agents_cpp.Prelude.Map.{Map}
use signalwire_agents_cpp.Prelude.Json.{
  Json, Items, no_items, item, boolean, string, array_of, object, fields, strings,
}

-- A section: its title, body, bullets, `numbered`, `numberedBullets` and subsections.
mutual
  pub data Section : Type 0 where
    section_of : Option Bytes → Bytes → List Bytes → Option Bool → Bool → Sections → Section

  pub data Sections : Type 0 where
    no_sections : Sections
    then_section : Section → Sections → Sections

abbrev pub push : Sections → Section → Sections
push no_sections s = then_section s no_sections
push (then_section s ss) s' = then_section s (push ss s')

abbrev pub append : Sections → Sections → Sections
append no_sections ss = ss
append (then_section s ss) ss' = then_section s (append ss ss')

unfoldable pub add_body : Section → Bytes → Section
add_body (section_of t b bs num nb subs) body = section_of t body bs num nb subs

unfoldable pub add_bullets : Section → List Bytes → Section
add_bullets (section_of t b bs num nb subs) bullets = section_of t b (bs ++ bullets) num nb subs

-- `none`: `std::invalid_argument`.
unfoldable pub add_subsection :
    Section → Bytes → Bytes → List Bytes → Option Bool → Bool → Option Section
add_subsection (section_of t b bs num nb subs) title body bullets numbered numbered_bullets =
    if is_empty title
    then none
    else some (
        section_of t b bs num nb
          (push subs (section_of (some title) body bullets numbered numbered_bullets no_sections)))

abbrev no_sections? : Sections → Bool
no_sections? no_sections = true
no_sections? (then_section s ss) = false

abbrev title_of : Bytes → Option Bytes
title_of t = if is_empty t then none else some t

-- `PromptObjectModel::add_section`.
unfoldable pub add_section :
    Sections → Bytes → Bytes → List Bytes → Option Bool → Bool → Option Sections
add_section sections title body bullets numbered numbered_bullets =
    if is_empty title && not (no_sections? sections)
    then none
    else some (
        push sections
          (section_of (title_of title) body bullets numbered numbered_bullets no_sections))

-- `if (test) data[key] = value;` on an ordered object, for keys that are not there yet.
abbrev pub when : Bool → Bytes → Json → List (Bytes × Json)
when test k v = if test then (k, v) ∷ [] else []

abbrev title_member : Option Bytes → List (Bytes × Json)
title_member none = []
title_member (some t) = (codes "title", string t) ∷ []

abbrev pub is_true : Option Bool → Bool
is_true none = false
is_true (some b) = b

abbrev pub is_false : Option Bool → Bool
is_false none = false
is_false (some b) = not b

-- The members in the order of insertion.
abbrev pub section_members :
    Option Bytes → Bytes → List Bytes → Option Bool → Bool → Bool → Json → List (Bytes × Json)
section_members title body bullets numbered numbered_bullets has_subsections subsections =
    title_member title
    ++ when (not (is_empty body)) (codes "body") (string body)
    ++ when (not (is_nil bullets)) (codes "bullets") (strings bullets)
    ++ when has_subsections (codes "subsections") subsections
    ++ when (is_true numbered) (codes "numbered") (boolean true)
    ++ when numbered_bullets (codes "numberedBullets") (boolean true)

-- `section_to_ordered`, where `order` keeps the members as they were inserted or, for
-- `Section::to_json`, sorts them by key as reading the text back does.
unfoldable mutual
  pub section_to_ordered : (List (Bytes × Json) → Map Json) → Section → Json
  section_to_ordered order (section_of t b bs num nb subs) = object (
      order (
        section_members t b bs num nb (not (no_sections? subs))
          (array_of (sections_to_ordered order subs))))

  pub sections_to_ordered : (List (Bytes × Json) → Map Json) → Sections → Items
  sections_to_ordered order no_sections = no_items
  sections_to_ordered order (then_section s ss) =
      item (section_to_ordered order s) (sections_to_ordered order ss)

-- `PromptObjectModel::to_dict`.
unfoldable pub to_dict : Sections → Json
unfolding section_to_ordered
to_dict sections = array_of (sections_to_ordered fields sections)

-- The array that `PromptObjectModel::to_json` and `to_yaml` print.
unfoldable pub to_ordered : Sections → Json
unfolding section_to_ordered
to_ordered sections = array_of (sections_to_ordered (λ m. m) sections)
