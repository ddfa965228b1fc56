-- ===== src/Pom/Search.antt =====
-- Looking a section up by its title, and adding a model below it.
use mathlib.Core.Option
use signalwire_agents_cpp.Prelude.{
  Option, none, some, Bool, false, ◌≡◌, refl, sym, ap₂, ◌∙◌, ◌∷◌, [], ◌++◌, List, Bytes, str_eq,
  if◌then◌else◌, or_else, Bool-cases, inl, inr,
}
use signalwire_agents_cpp.Pom.{Section, section_of, Sections, no_sections, then_section, append}

abbrev pub title_is : Bytes → Option Bytes → Bool
title_is title none = false
title_is title (some t) = str_eq t title

unfoldable pub find_section : Bytes → Sections → Option Section
find_section title no_sections = none
find_section title (then_section (section_of t b bs num nb subs) ss) =
    let below = find_section title subs in
    let later = find_section title ss in
    if title_is title t then some (section_of t b bs num nb subs) else or_else below later

-- `target.subsections.push_back(s)` for each section of the other model.
unfoldable pub extend : Sections → Section → Section
extend others (section_of t b bs num nb subs) = section_of t b bs num nb (append subs others)

-- `add_pom_as_subsection` by title: the section that `find_section` points to is changed in place;
-- `none` is `std::invalid_argument`.
unfoldable pub add_pom_as_subsection : Bytes → Sections → Sections → Option Sections
unfolding extend
add_pom_as_subsection title others no_sections = none
add_pom_as_subsection title others (then_section (section_of t b bs num nb subs) ss) =
    let below = add_pom_as_subsection title others subs in
    let later = add_pom_as_subsection title others ss in
    if title_is title t
    then some (then_section (extend others (section_of t b bs num nb subs)) ss)
    else or_else (Option.map (λ subs'. then_section (section_of t b bs num nb subs') ss) below)
        (Option.map (then_section (section_of t b bs num nb subs)) later)

-- The sections in the order of the text.
abbrev pub preorder : Sections → List Section
preorder no_sections = []
preorder (then_section (section_of t b bs num nb subs) ss) =
    section_of t b bs num nb subs ∷ preorder subs ++ preorder ss

abbrev pub has_title : Bytes → Section → Bool
has_title title (section_of t b bs num nb subs) = title_is title t

abbrev pub first : (Section → Bool) → List Section → Option Section
first test [] = none
first test (s ∷ ss) = if test s then some s else first test ss

first-append :
    (test : Section → Bool) (xs ys : List Section)
    → first test (xs ++ ys) ≡ or_else (first test xs) (first test ys)
first-append test [] ys = refl
first-append test (x ∷ xs) ys = elim (Bool-cases (test x)) [
  | inl e ↦ rw e refl
  | inr e ↦ rw e (first-append test xs ys)
]

-- The section that is found is the first one with that title in the order of the text.
pub find_section-preorder :
    (title : Bytes) (ss : Sections) → find_section title ss ≡ first (has_title title) (preorder ss)
unfolding find_section
find_section-preorder title no_sections = refl
find_section-preorder title (then_section (section_of t b bs num nb subs) ss) =
    elim (Bool-cases (title_is title t)) [
      | inl e ↦ rw e refl
      | inr e ↦ rw e (
          ap₂ or_else (find_section-preorder title subs) (find_section-preorder title ss)
          ∙ sym (first-append (has_title title) (preorder subs) (preorder ss)))
    ]
