-- ===== src/Agent.antt =====
-- The prompt of `AgentBase` in src/agent/agent_base.cpp.
pub mod Config
pub mod Rendering
pub mod Requests
mod Tests
use signalwire_agents_cpp.Prelude.{
  Option, none, some, Bool, true, false, ◌∷◌, [], ◌++◌, List, Bytes, codes, is_empty, str_eq,
  if◌then◌else◌,
}
use signalwire_agents_cpp.Prelude.Map.{lookup}
use signalwire_agents_cpp.Prelude.Json.{
  Json, null, boolean, number, string, array_of, object_of, Items, no_items, item, Members,
  no_members, member, map_of,
}
use signalwire_agents_cpp.Pom.{Section, section_of, Sections, no_sections, then_section, push}

pub record Prompt : Type 0 where
  pub raw_prompt_text : Option Bytes
  pub post_prompt_text : Option Bytes
  pub pom_sections : Sections
  pub use_pom : Bool

unfoldable pub set_prompt_text : Prompt → Bytes → Prompt
set_prompt_text p text = record p { raw_prompt_text = some text }

unfoldable pub set_post_prompt : Prompt → Bytes → Prompt
set_post_prompt p text = record p { post_prompt_text = some text }

abbrev plain_section : Bytes → Bytes → List Bytes → Section
plain_section title body bullets = section_of (some title) body bullets none false no_sections

unfoldable pub prompt_add_section : Prompt → Bytes → Bytes → List Bytes → Prompt
prompt_add_section p title body bullets = record p {
  pom_sections = push p.pom_sections (plain_section title body bullets);
}

abbrev has_title : Bytes → Option Bytes → Bool
has_title title none = false
has_title title (some t) = str_eq t title

-- The first section with the title, among those of the top level, gets the subsection.
abbrev below_first : Bytes → Section → Sections → Sections
below_first title sub no_sections = no_sections
below_first title sub (then_section (section_of t b bs num nb subs) ss) =
    let rest = below_first title sub ss in
    if has_title title t
    then then_section (section_of t b bs num nb (push subs sub)) ss
    else then_section (section_of t b bs num nb subs) rest

unfoldable pub prompt_add_subsection : Prompt → Bytes → Bytes → Bytes → List Bytes → Prompt
prompt_add_subsection p parent_title title body bullets = record p {
  pom_sections = below_first parent_title (plain_section title body bullets) p.pom_sections;
}

abbrev has_section : Bytes → Sections → Bool
has_section title no_sections = false
has_section title (then_section (section_of t b bs num nb subs) ss) =
    let rest = has_section title ss in if has_title title t then true else rest

unfoldable pub prompt_has_section : Prompt → Bytes → Bool
prompt_has_section p title = has_section title p.pom_sections

abbrev extend_first : Bytes → Bytes → List Bytes → Sections → Sections
extend_first title body bullets no_sections = no_sections
extend_first title body bullets (then_section (section_of t b bs num nb subs) ss) =
    let rest = extend_first title body bullets ss in
    if has_title title t
    then then_section
        (section_of t (if is_empty body then b else b ++ 10 ∷ body) (bs ++ bullets) num nb subs) ss
    else then_section (section_of t b bs num nb subs) rest

-- A section that is not there is made.
unfoldable pub prompt_add_to_section : Prompt → Bytes → Bytes → List Bytes → Prompt
unfolding prompt_has_section prompt_add_section
prompt_add_to_section p title body bullets =
    if prompt_has_section p title
    then record p { pom_sections = extend_first title body bullets p.pom_sections }
    else prompt_add_section p title body bullets

abbrev text_of : Option Bytes → Bytes
text_of none = []
text_of (some t) = t

abbrev bullet_lines : List Bytes → Bytes
bullet_lines [] = []
bullet_lines (b ∷ bs) = codes "- " ++ b ++ 10 ∷ bullet_lines bs

abbrev own_lines : Bytes → Option Bytes → Bytes → List Bytes → Bytes
own_lines marks title body bullets =
    marks
    ++ text_of title
    ++ 10 ∷ (if is_empty body then [] else body ++ 10 ∷ [])
    ++ bullet_lines bullets

abbrev subsection_lines : Sections → Bytes
subsection_lines no_sections = []
subsection_lines (then_section (section_of t b bs num nb subs) ss) =
    own_lines (codes "### ") t b bs ++ subsection_lines ss

abbrev section_lines : Sections → Bytes
section_lines no_sections = []
section_lines (then_section (section_of t b bs num nb subs) ss) =
    own_lines (codes "## ") t b bs ++ subsection_lines subs ++ 10 ∷ section_lines ss

-- A raw text wins; sections below the second level are not in the text.
unfoldable pub get_prompt : Prompt → Bytes
get_prompt p = elim p.raw_prompt_text [ some text ↦ text | none ↦ section_lines p.pom_sections ]

-- `pom`: the sections, unless they are switched off.
unfoldable pub pom_of : Prompt → Option Sections
pom_of p = if p.use_pom then some p.pom_sections else none

abbrev text_member : Option Json → Option Bytes
text_member (some (string s)) = some s
text_member o = none

abbrev texts_in : Items → List Bytes
texts_in no_items = []
texts_in (item (string s) xs) = s ∷ texts_in xs
texts_in (item j xs) = texts_in xs

abbrev bullets_member : Option Json → List Bytes
bullets_member (some (array_of xs)) = texts_in xs
bullets_member o = []

-- `json_to_section`, which takes what has the right type and passes over the rest. The second
-- function reads the member "subsections", the others its items.
unfoldable mutual
  pub json_to_section : Json → Section
  json_to_section (object_of ms) =
      let m = map_of ms in
      section_of (text_member (lookup (codes "title") m))
        (text_of (text_member (lookup (codes "body") m)))
        (bullets_member (lookup (codes "bullets") m)) none false (json_to_subsections ms)
  json_to_section null = section_of none [] [] none false no_sections
  json_to_section (boolean b) = section_of none [] [] none false no_sections
  json_to_section (number n) = section_of none [] [] none false no_sections
  json_to_section (string s) = section_of none [] [] none false no_sections
  json_to_section (array_of xs) = section_of none [] [] none false no_sections

  pub json_to_subsections : Members → Sections
  json_to_subsections no_members = no_sections
  json_to_subsections (member k j ms) =
      let here = json_to_array j in
      let later = json_to_subsections ms in if str_eq k (codes "subsections") then here else later

  pub json_to_array : Json → Sections
  json_to_array (array_of xs) = json_to_sections xs
  json_to_array null = no_sections
  json_to_array (boolean b) = no_sections
  json_to_array (number n) = no_sections
  json_to_array (string s) = no_sections
  json_to_array (object_of ms) = no_sections

  pub json_to_sections : Items → Sections
  json_to_sections no_items = no_sections
  json_to_sections (item j xs) = then_section (json_to_section j) (json_to_sections xs)

abbrev is_object : Json → Bool
is_object (object_of ms) = true
is_object j = false

abbrev object_sections : List Json → Sections
object_sections [] = no_sections
object_sections (j ∷ js) =
    let rest = object_sections js in
    if is_object j then then_section (json_to_section j) rest else rest

unfoldable pub set_prompt_pom : Prompt → List Json → Prompt
unfolding json_to_section
set_prompt_pom p pom = record p { use_pom = true; pom_sections = object_sections pom }
