-- ===== src/Pom/Reading/RoundTrip.antt =====
-- A prompt object model that is written as JSON and read again.
use signalwire_agents_cpp.Prelude.{
  Option, none, some, Bool, true, false, not, ◌||◌, ◌&&◌, ◌≡◌, refl, ap₂, ◌∙◌, ◌∷◌, [], List, Bytes,
  codes, is_empty, is_nil, str_eq, if◌then◌else◌, arith, Bool-cases, inl, inr,
}
use signalwire_agents_cpp.Prelude.Map.{Map, lookup, lookup-assign}
use signalwire_agents_cpp.Prelude.Json.{
  Json, array_of, fields, Members, members, no_members, member, map_of, map_of-members,
  is_empty_json,
}
use signalwire_agents_cpp.Pom.{
  Section, section_of, Sections, no_sections, then_section, section_members, no_sections?,
  section_to_ordered, sections_to_ordered, to_dict, to_ordered,
}
use signalwire_agents_cpp.Pom.Reading.{
  Found, found_in, accepts, read, build_section, build_subsections, build_array, build_items,
  with_title, build_rest, from_json,
}
use signalwire_agents_cpp.Pom.Reading.Written.{
  found_written, found, lookup-title, lookup-body, lookup-bullets, lookup-subsections,
  lookup-numbered, lookup-numbered_bullets, accepts-written, read-written, kept, has_title,
}

unfoldable mutual
  pub normal : Section → Section
  normal (section_of t b bs num nb subs) = section_of t b bs (kept num) nb (normal_all subs)

  pub normal_all : Sections → Sections
  normal_all no_sections = no_sections
  normal_all (then_section s ss) = then_section (normal s) (normal_all ss)

abbrev titled : Section → Bool
titled (section_of t b bs num nb subs) = has_title t

-- A section that the reader accepts: it has contents, and its subsections have titles too.
unfoldable mutual
  pub is_complete : Section → Bool
  is_complete (section_of t b bs num nb subs) =
      (not (is_empty b) || not (is_nil bs) || not (no_sections? subs)) && are_complete subs

  pub are_complete : Sections → Bool
  are_complete no_sections = true
  are_complete (then_section (section_of t b bs num nb subs) ss) =
      has_title t && is_complete (section_of t b bs num nb subs) && are_complete ss

abbrev pub is_writable : Sections → Bool
is_writable no_sections = true
is_writable (then_section s ss) = is_complete s && are_complete ss

build_subsections-lookup :
    (ms : Members)
    → build_subsections ms
      ≡ elim (lookup (codes "subsections") (map_of ms)) as (λ o. Option Sections) [
        | none ↦ some no_sections
        | some j ↦ build_array j
      ]
unfolding build_section lookup
build_subsections-lookup no_members = refl
build_subsections-lookup (member k j ms) = elim (Bool-cases (str_eq k (codes "subsections"))) [
  | inl e ↦ rw e refl
  | inr e ↦ rw e (build_subsections-lookup ms)
]

-- Keeping or sorting the members does not change what is found under a key.
abbrev pub IsOrder : (List (Bytes × Json) → Map Json) → Type 0
IsOrder order = (k : Bytes) (es : List (Bytes × Json)) → lookup k (order es) ≡ lookup k es

pub fields-IsOrder : IsOrder fields
unfolding lookup
fields-IsOrder k [] = refl
fields-IsOrder k ((j, v) ∷ es) = rw (lookup-assign j k v (fields es), fields-IsOrder k es) refl

if_true : (b : Bool) (x : Option Section) → b ≡ true → (if b then x else none) ≡ x
if_true b x e = rw e refl

chosen :
    (has : Bool) (subs : Json)
    → (elim (if has then some subs else none) as (λ o. Option Sections) [
      | none ↦ some no_sections
      | some j ↦ build_array j
    ])
      ≡ (if has then build_array subs else some no_sections)
chosen true subs = refl
chosen false subs = refl

module _ (order : List (Bytes × Json) → Map Json) (o : IsOrder order) where
  found_in-written :
      (t : Option Bytes) (b : Bytes) (bs : List Bytes) (num : Option Bool) (nb has : Bool)
      (subs : Json)
      → found_in (map_of (members (order (section_members t b bs num nb has subs))))
        ≡ found_written t b bs num nb has subs
  found_in-written t b bs num nb has subs =
      let mem = section_members t b bs num nb has subs in
      rw
        (
          map_of-members (order mem),
          o (codes "title") mem,
          o (codes "body") mem,
          o (codes "bullets") mem,
          o (codes "subsections") mem,
          o (codes "numbered") mem,
          o (codes "numberedBullets") mem,
          lookup-title t b bs num nb has subs,
          lookup-body t b bs num nb has subs,
          lookup-bullets t b bs num nb has subs,
          lookup-subsections t b bs num nb has subs,
          lookup-numbered t b bs num nb has subs,
          lookup-numbered_bullets t b bs num nb has subs,
        )
        refl

  built-written :
      (t : Option Bytes) (b : Bytes) (bs : List Bytes) (num : Option Bool) (nb has : Bool)
      (subs : Json)
      → build_subsections (members (order (section_members t b bs num nb has subs)))
        ≡ (if has then build_array subs else some no_sections)
  built-written t b bs num nb has subs =
      let mem = section_members t b bs num nb has subs in
      build_subsections-lookup (members (order mem))
      ∙ rw
          (
            map_of-members (order mem),
            o (codes "subsections") mem,
            lookup-subsections t b bs num nb has subs,
          )
          (chosen has subs)

  is_empty_json-sections_to_ordered :
      (ss : Sections) → is_empty_json (array_of (sections_to_ordered order ss)) ≡ no_sections? ss
  unfolding section_to_ordered
  is_empty_json-sections_to_ordered no_sections = refl
  is_empty_json-sections_to_ordered (then_section s ss) = refl

  build_array-chosen :
      (ss : Sections)
      → build_items (sections_to_ordered order ss) ≡ some (normal_all ss)
      → (if not (no_sections? ss)
          then build_array (array_of (sections_to_ordered order ss))
          else some no_sections)
        ≡ some (normal_all ss)
  unfolding build_section section_to_ordered normal
  build_array-chosen no_sections h = refl
  build_array-chosen (then_section s ss) h = h

  build_section-written :
      (is_sub : Bool) (t : Option Bytes) (b : Bytes) (bs : List Bytes) (num : Option Bool)
      (nb : Bool) (subs : Sections)
      → build_items (sections_to_ordered order subs) ≡ some (normal_all subs)
      → (not (is_empty b) || not (is_nil bs) || not (no_sections? subs)) ≡ true
      → (is_sub ≡ true → has_title t ≡ true)
      → build_section is_sub (section_to_ordered order (section_of t b bs num nb subs))
        ≡ some (section_of t b bs (kept num) nb (normal_all subs))
  unfolding build_section section_to_ordered
  build_section-written is_sub t b bs num nb subs built h titles =
      let has = not (no_sections? subs) in
      let xs = sections_to_ordered order subs in
      let contents : (not (is_empty b)
            || not (is_nil bs)
            || (has && not (is_empty_json (array_of xs))))
          ≡ true =
        ground (arith, h, is_empty_json-sections_to_ordered subs) in
      let build : Found → Option Sections → Option Section =
        λ f built. if accepts is_sub f then read f built else none in
      ap₂ build (found_in-written t b bs num nb has (array_of xs))
        (built-written t b bs num nb has (array_of xs) ∙ build_array-chosen subs built)
      ∙ if_true (accepts is_sub (found t b bs num nb has xs))
          (read (found t b bs num nb has xs) (some (normal_all subs)))
          (accepts-written t b bs num nb has xs is_sub contents titles)
      ∙ read-written t b bs num nb has xs (some (normal_all subs))

  mutual
    unfolding build_section section_to_ordered normal is_complete

    round_trip :
        (is_sub : Bool) (s : Section)
        → is_complete s ≡ true
        → (is_sub ≡ true → titled s ≡ true)
        → build_section is_sub (section_to_ordered order s) ≡ some (normal s)
    round_trip is_sub (section_of t b bs num nb subs) h titles =
        build_section-written is_sub t b bs num nb subs (round_trip_all subs (ground (arith, h)))
          (ground (arith, h)) titles

    round_trip_all :
        (ss : Sections)
        → are_complete ss ≡ true
        → build_items (sections_to_ordered order ss) ≡ some (normal_all ss)
    round_trip_all no_sections h = refl
    round_trip_all (then_section (section_of t b bs num nb subs) ss) h =
        rw
          (
            round_trip true (section_of t b bs num nb subs) (ground (arith, h))
                (λ e. ground (arith, h)),
            round_trip_all ss (ground (arith, h)),
          )
          refl

  with_title-written :
      (s : Section)
      → titled s ≡ true
      → with_title (section_to_ordered order s) ≡ section_to_ordered order s
  unfolding with_title section_to_ordered
  with_title-written (section_of none b bs num nb subs) h = cc
  with_title-written (section_of (some t) b bs num nb subs) h =
      let has = not (no_sections? subs) in
      let j = array_of (sections_to_ordered order subs) in
      let mem = section_members (some t) b bs num nb has j in
      rw
        (map_of-members (order mem), o (codes "title") mem, lookup-title (some t) b bs num nb has j)
        refl

  build_rest-written :
      (ss : Sections)
      → are_complete ss ≡ true
      → build_rest (sections_to_ordered order ss) ≡ some (normal_all ss)
  unfolding build_rest section_to_ordered is_complete normal
  build_rest-written no_sections h = refl
  build_rest-written (then_section (section_of t b bs num nb subs) ss) h =
      let s = section_of t b bs num nb subs in
      let whole : is_complete s ≡ true = ground (arith, h) in
      rw
        (
          with_title-written s (ground (arith, h)),
          round_trip false s whole (λ e. cc),
          build_rest-written ss (ground (arith, h)),
        )
        refl

  from_json-written :
      (ss : Sections)
      → is_writable ss ≡ true
      → from_json (array_of (sections_to_ordered order ss)) ≡ some (normal_all ss)
  unfolding from_json section_to_ordered normal is_complete
  from_json-written no_sections h = refl
  from_json-written (then_section s ss) h =
      rw
        (
          round_trip false s (ground (arith, h)) (λ e. cc),
          build_rest-written ss (ground (arith, h)),
        )
        refl

-- A model whose sections all have a body, bullets or subsections, and all a title but perhaps the
-- first, is read back from its JSON as it was, whether the members are in the order of insertion
-- (the text) or sorted (the value), but for `numbered = false`, which is read back as not set.
pub from_json-to_dict :
    (ss : Sections)
    → is_writable ss ≡ true
    → (from_json (to_dict ss) ≡ some (normal_all ss))
      × (from_json (to_ordered ss) ≡ some (normal_all ss))
unfolding to_dict to_ordered
from_json-to_dict ss h =
    (from_json-written fields fields-IsOrder ss h, from_json-written (λ m. m) (λ k es. refl) ss h)
