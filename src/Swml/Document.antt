-- ===== src/Swml/Document.antt =====
-- `Verb`, `Section` and `Document` of include/signalwire/swml/document.hpp.
pub mod Sections
mod Tests
use signalwire_agents_cpp.Prelude.{
  Option, none, some, Bool, true, false, not, ◌≡◌, refl, ◌∷◌, [], ◌++◌, List, map, Bytes, codes,
  str_eq, if◌then◌else◌,
}
use signalwire_agents_cpp.Prelude.Map.{Map, assign, lookup}
use signalwire_agents_cpp.Prelude.Json.{Json, string, array, object, object_or_null}

pub record Verb : Type 0 where
  pub name : Bytes
  pub params : Json

pub record Section : Type 0 where
  pub name : Bytes
  pub verbs : List Verb

pub record Document : Type 0 where
  pub version : Bytes
  pub sections : Map Section
  pub section_order : List Bytes

abbrev pub main_name : Bytes
main_name = codes "main"

unfoldable pub empty_section : Bytes → Section
empty_section name = record { name = name; verbs = [] }

unfoldable pub new_document : Document
unfolding empty_section
new_document = record {
  version = codes "1.0.0";
  sections = assign main_name (empty_section main_name) [];
  section_order = [];
}

unfoldable pub set_version : Document → Bytes → Document
set_version d version = record d { version = version }

-- `section`: the document in which the section is there, and the section.
unfoldable pub section : Document → Bytes → Document × Section
unfolding empty_section
section d name = elim (lookup name d.sections) [
  | some s ↦ (d, s)
  | none ↦ (
    record d {
      sections = assign name (empty_section name) d.sections;
      section_order = d.section_order ++ name ∷ [];
    },
    empty_section name,
  )
]

unfoldable pub add_verb_to_section : Document → Bytes → Bytes → Json → Document
unfolding section
add_verb_to_section d section_name verb_name params =
    let (d', s) = section d section_name in
    record d' {
      sections =
          assign section_name
            (record s { verbs = s.verbs ++ record { name = verb_name; params = params } ∷ [] })
            d'.sections;
    }

unfoldable pub add_verb : Document → Bytes → Json → Document
unfolding add_verb_to_section
add_verb d verb_name params = add_verb_to_section d main_name verb_name params

unfoldable pub has_section : Document → Bytes → Bool
has_section d name = elim (lookup name d.sections) [ none ↦ false | some s ↦ true ]

pub verb_to_json : Verb → Json
verb_to_json v = object ((v.name, v.params) ∷ [])

pub section_to_json : Section → Json
unfolding verb_to_json
section_to_json s = array (map verb_to_json s.verbs)

-- The loop over the order of the sections.
pub render_order : Map Section → List Bytes → Map Json → Map Json
unfolding section_to_json
render_order sections [] m = m
render_order sections (name ∷ order) m = render_order sections order (
    if str_eq name main_name
    then m
    else elim (lookup name sections) [ none ↦ m | some s ↦ assign name (section_to_json s) m ])

pub render_sections : Document → Map Json
unfolding render_order
render_sections d = render_order d.sections d.section_order (elim (lookup main_name d.sections) [
  | none ↦ []
  | some s ↦ assign main_name (section_to_json s) []
])

pub to_json : Document → Json
unfolding render_sections
to_json d = object (
    assign (codes "version") (string d.version)
      (assign (codes "sections") (object_or_null (render_sections d)) []))
