-- ===== src/Pom/Rendering/Plain.antt =====
-- A model in which no section is numbered, against a renderer that knows no numbers.
use signalwire_agents_cpp.Prelude.{
  ℕ, suc, Option, none, some, Bool, true, false, ◌||◌, ◌≡◌, refl, ap, ap₂, ◌∙◌, ◌∷◌, [], ◌++◌, List,
  Bytes, if◌then◌else◌, arith,
}
use signalwire_agents_cpp.Pom.{Section, section_of, Sections, no_sections, then_section, is_true}
use signalwire_agents_cpp.Pom.Rendering.{
  join, any_numbered, is_titled, markdown_own, child_number, top_number, next_counter,
  section_markdown, subsections_markdown, top_markdown, render_markdown,
}

-- Headings by depth only: below a section without a title, the level stays.
unfoldable mutual
  pub plain_section : ℕ → Section → Bytes
  plain_section level (section_of t b bs num nb subs) = join (10 ∷ []) (
      markdown_own level [] t b bs nb
      ++ plain_sections (if is_titled t then suc level else level) subs)

  pub plain_sections : ℕ → Sections → List Bytes
  plain_sections level no_sections = []
  plain_sections level (then_section s ss) = plain_section level s ∷ plain_sections level ss

-- Whether a section anywhere in the tree is numbered.
unfoldable mutual
  pub numbered_within : Section → Bool
  numbered_within (section_of t b bs num nb subs) = is_true num || numbered_inside subs

  pub numbered_inside : Sections → Bool
  numbered_inside no_sections = false
  numbered_inside (then_section s ss) = numbered_within s || numbered_inside ss

child_number-unnumbered :
    (increments : Bool) (ns : List ℕ) (num : Option Bool) (i : ℕ)
    → child_number increments false ns num i ≡ ns
child_number-unnumbered true ns num i = refl
child_number-unnumbered false ns num i = refl

or_false-right : (b : Bool) → (b || false) ≡ b
or_false-right true = refl
or_false-right false = refl

any_numbered-inside : (ss : Sections) → numbered_inside ss ≡ false → any_numbered ss ≡ false
unfolding any_numbered numbered_within
any_numbered-inside no_sections h = refl
any_numbered-inside (then_section (section_of t b bs num nb subs) ss) h =
    ground (arith, h, any_numbered-inside ss)

mutual
  unfolding section_markdown plain_section numbered_within

  section_markdown-plain :
      (level : ℕ) (s : Section)
      → numbered_within s ≡ false
      → section_markdown level [] s ≡ plain_section level s
  section_markdown-plain level (section_of t b bs num nb subs) h =
      let none_below : numbered_inside subs ≡ false = ground (arith, h) in
      ap (λ parts. join (10 ∷ []) (markdown_own level [] t b bs nb ++ parts))
        (rw (or_false-right (is_titled t), any_numbered-inside subs none_below)
          (subsections_markdown-plain (if is_titled t then suc level else level) (is_titled t) 0
            subs none_below))

  subsections_markdown-plain :
      (level : ℕ) (increments : Bool) (i : ℕ) (ss : Sections)
      → numbered_inside ss ≡ false
      → subsections_markdown level increments false [] i ss ≡ plain_sections level ss
  subsections_markdown-plain level increments i no_sections h = refl
  subsections_markdown-plain level increments i (then_section (section_of t b bs num nb subs) ss)
        h =
      let s = section_of t b bs num nb subs in
      ap₂ (λ p ps. p ∷ ps)
        (ap (λ ns. section_markdown level ns s) (child_number-unnumbered increments [] num i)
          ∙ section_markdown-plain level (section_of t b bs num nb subs) (ground (arith, h)))
        (subsections_markdown-plain level increments (suc i) ss (ground (arith, h)))

top_number-unnumbered :
    (counter : ℕ) (t : Option Bytes) (num : Option Bool) → top_number false counter t num ≡ []
top_number-unnumbered counter none num = refl
top_number-unnumbered counter (some t) num = refl

top_markdown-plain :
    (counter : ℕ) (ss : Sections)
    → numbered_inside ss ≡ false
    → top_markdown false counter ss ≡ plain_sections 2 ss
unfolding top_markdown plain_section numbered_within
top_markdown-plain counter no_sections h = refl
top_markdown-plain counter (then_section (section_of t b bs num nb subs) ss) h =
    let s = section_of t b bs num nb subs in
    ap₂ (λ p ps. p ∷ ps)
      (ap (λ ns. section_markdown 2 ns s) (top_number-unnumbered counter t num)
        ∙ section_markdown-plain 2 s (ground (arith, h)))
      (top_markdown-plain (next_counter counter t) ss (ground (arith, h)))

-- When no section of a model is numbered, at any depth, its Markdown is that of the renderer without
-- numbers: each heading has one more # than the nearest titled section above it, from two on.
pub render_markdown-plain :
    (ss : Sections)
    → numbered_inside ss ≡ false
    → render_markdown ss ≡ join (10 ∷ []) (plain_sections 2 ss)
unfolding render_markdown
render_markdown-plain ss h =
    rw (any_numbered-inside ss h) (ap (join (10 ∷ [])) (top_markdown-plain 0 ss h))
