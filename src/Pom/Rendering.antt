-- ===== src/Pom/Rendering.antt =====
-- `render_markdown` and `render_xml` of src/pom/pom.cpp, with the numbering of sections. Levels,
-- indents and counters are natural numbers.
pub mod Plain
use signalwire_agents_cpp.Prelude.{
  ℕ, suc, ◌+◌, ◌*◌, Option, none, some, Bool, true, false, not, ◌&&◌, ◌||◌, ◌∷◌, [], ◌++◌, List,
  Bytes, codes, is_empty, is_nil, if◌then◌else◌, replicate,
}
use signalwire_agents_cpp.Prelude.Int.{pos}
use signalwire_agents_cpp.Security.Decimal.{to_string}
use signalwire_agents_cpp.Pom.{
  Section, section_of, Sections, no_sections, then_section, no_sections?, is_true, is_false,
}

-- Parts joined by a separator.
abbrev pub join : Bytes → List Bytes → Bytes
join sep [] = []
join sep (p ∷ []) = p
join sep (p ∷ q ∷ ps) = p ++ sep ++ join sep (q ∷ ps)

abbrev pub numbers : List ℕ → List Bytes
numbers [] = []
numbers (n ∷ ns) = to_string (pos n) ∷ numbers ns

unfoldable pub join_section_number : List ℕ → Bytes
join_section_number ns = join (codes ".") (numbers ns)

-- The number before a title.
abbrev pub number_prefix : List ℕ → Bytes
number_prefix [] = []
number_prefix (n ∷ ns) = join_section_number (n ∷ ns) ++ codes ". "

-- Whether some section of a group is numbered.
unfoldable pub any_numbered : Sections → Bool
any_numbered no_sections = false
any_numbered (then_section (section_of t b bs num nb subs) ss) = is_true num || any_numbered ss

abbrev pub is_titled : Option Bytes → Bool
is_titled none = false
is_titled (some t) = true

-- The number that a subsection gets, from the number of its parent and its place.
abbrev pub child_number : Bool → Bool → List ℕ → Option Bool → ℕ → List ℕ
child_number increments any section_number numbered i =
    if increments && any && not (is_false numbered)
    then section_number ++ suc i ∷ []
    else section_number

abbrev pub markdown_bullets : Bool → ℕ → List Bytes → List Bytes
markdown_bullets numbered_bullets i [] = []
markdown_bullets numbered_bullets i (b ∷ bs) =
    (if numbered_bullets then to_string (pos (suc i)) ++ codes ". " ++ b else codes "- " ++ b)
    ∷ markdown_bullets numbered_bullets (suc i) bs

abbrev markdown_title : ℕ → List ℕ → Option Bytes → List Bytes
markdown_title level section_number none = []
markdown_title level section_number (some t) =
    (replicate level b'#' ++ codes " " ++ number_prefix section_number ++ t ++ 10 ∷ []) ∷ []

-- The parts of a section before its subsections.
abbrev pub markdown_own : ℕ → List ℕ → Option Bytes → Bytes → List Bytes → Bool → List Bytes
markdown_own level section_number title body bullets numbered_bullets =
    markdown_title level section_number title
    ++ (if is_empty body then [] else (body ++ 10 ∷ []) ∷ [])
    ++ markdown_bullets numbered_bullets 0 bullets
    ++ (if is_nil bullets then [] else [] ∷ [])

unfoldable mutual
  pub section_markdown : ℕ → List ℕ → Section → Bytes
  section_markdown level section_number (section_of t b bs num nb subs) =
      let increments = is_titled t || not (is_nil section_number) in
      join (10 ∷ []) (
        markdown_own level section_number t b bs nb
        ++ subsections_markdown (if increments then suc level else level) increments
            (any_numbered subs) section_number 0 subs)

  pub subsections_markdown : ℕ → Bool → Bool → List ℕ → ℕ → Sections → List Bytes
  subsections_markdown level increments any section_number i no_sections = []
  subsections_markdown level increments any section_number i
        (then_section (section_of t b bs num nb subs) ss) =
      section_markdown level (child_number increments any section_number num i)
        (section_of t b bs num nb subs)
      ∷ subsections_markdown level increments any section_number (suc i) ss

abbrev indent_str : ℕ → Bytes
indent_str indent = replicate (indent * 2) b' '

abbrev xml_bullets : Bytes → Bool → ℕ → List Bytes → List Bytes
xml_bullets pad numbered_bullets i [] = []
xml_bullets pad numbered_bullets i (b ∷ bs) =
    (pad
      ++ (if numbered_bullets
          then codes "    <bullet id=\"" ++ to_string (pos (suc i)) ++ codes "\">"
          else codes "    <bullet>")
      ++ b
      ++ codes "</bullet>")
    ∷ xml_bullets pad numbered_bullets (suc i) bs

abbrev xml_title : Bytes → List ℕ → Option Bytes → List Bytes
xml_title pad section_number none = []
xml_title pad section_number (some t) =
    (pad ++ codes "  <title>" ++ number_prefix section_number ++ t ++ codes "</title>") ∷ []

abbrev xml_own : Bytes → List ℕ → Option Bytes → Bytes → List Bytes → Bool → List Bytes
xml_own pad section_number title body bullets numbered_bullets =
    (pad ++ codes "<section>") ∷ xml_title pad section_number title
    ++ (if is_empty body then [] else (pad ++ codes "  <body>" ++ body ++ codes "</body>") ∷ [])
    ++ (if is_nil bullets
        then []
        else (pad ++ codes "  <bullets>") ∷ xml_bullets pad numbered_bullets 0 bullets
          ++ (pad ++ codes "  </bullets>") ∷ [])

unfoldable mutual
  pub section_xml : ℕ → List ℕ → Section → Bytes
  section_xml indent section_number (section_of t b bs num nb subs) =
      let pad = indent_str indent in
      let below =
        subsections_xml (indent + 2) (is_titled t || not (is_nil section_number))
          (any_numbered subs) section_number 0 subs in
      join (10 ∷ []) (
        xml_own pad section_number t b bs nb
        ++ (if no_sections? subs
            then []
            else (pad ++ codes "  <subsections>") ∷ below ++ (pad ++ codes "  </subsections>") ∷ [])
        ++ (pad ++ codes "</section>") ∷ [])

  pub subsections_xml : ℕ → Bool → Bool → List ℕ → ℕ → Sections → List Bytes
  subsections_xml indent increments any section_number i no_sections = []
  subsections_xml indent increments any section_number i
        (then_section (section_of t b bs num nb subs) ss) =
      section_xml indent (child_number increments any section_number num i)
        (section_of t b bs num nb subs)
      ∷ subsections_xml indent increments any section_number (suc i) ss

-- The number of a section of the model; `counter` counts the titles before it.
abbrev pub top_number : Bool → ℕ → Option Bytes → Option Bool → List ℕ
top_number any counter title numbered =
    if is_titled title && any && not (is_false numbered) then suc counter ∷ [] else []

abbrev pub next_counter : ℕ → Option Bytes → ℕ
next_counter counter title = if is_titled title then suc counter else counter

unfoldable pub top_markdown : Bool → ℕ → Sections → List Bytes
unfolding section_markdown
top_markdown any counter no_sections = []
top_markdown any counter (then_section (section_of t b bs num nb subs) ss) =
    section_markdown 2 (top_number any counter t num) (section_of t b bs num nb subs)
    ∷ top_markdown any (next_counter counter t) ss

unfoldable pub render_markdown : Sections → Bytes
unfolding top_markdown any_numbered
render_markdown sections = join (10 ∷ []) (top_markdown (any_numbered sections) 0 sections)

unfoldable pub top_xml : Bool → ℕ → Sections → List Bytes
unfolding section_xml
top_xml any counter no_sections = []
top_xml any counter (then_section (section_of t b bs num nb subs) ss) =
    section_xml 1 (top_number any counter t num) (section_of t b bs num nb subs)
    ∷ top_xml any (next_counter counter t) ss

unfoldable pub render_xml : Sections → Bytes
unfolding top_xml any_numbered
render_xml sections = join (10 ∷ []) (
    codes "<?xml version=\"1.0\" encoding=\"UTF-8\"?>"
      ∷ codes "<prompt>"
      ∷ top_xml (any_numbered sections) 0 sections
    ++ codes "</prompt>" ∷ [])
