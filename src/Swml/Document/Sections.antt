-- ===== src/Swml/Document/Sections.antt =====
-- What a document renders, against a specification that knows neither maps nor their order: each
-- section that was named, with the verbs that were added to it.
use mathlib.Core.Option
use signalwire_agents_cpp.Prelude.{
  Option, none, some, Bool, true, false, not, ◌&&◌, ◌||◌, ◌≡◌, ◌≢◌, refl, ap, ◌∙◌, ◌∷◌, [], ◌++◌,
  List, map, Bytes, str_eq, str_eq_iff, if◌then◌else◌, arith, Bool-cases, Option-cases, inl, inr,
}
use signalwire_agents_cpp.Prelude.Map.{Map, assign, lookup, lookup-assign}
use signalwire_agents_cpp.Prelude.Json.{Json, array}
use signalwire_agents_cpp.Swml.Document.{
  Verb, Section, Document, main_name, empty_section, new_document, section, add_verb_to_section,
  section_to_json, render_order, render_sections, verb_to_json,
}

-- The calls that change the sections.
pub data Command : Type 0 where
  names : Bytes → Command
  adds : Bytes → Verb → Command

abbrev pub run : Document → List Command → Document
run d [] = d
run d (names n ∷ cs) = run (section d n).0 cs
run d (adds n v ∷ cs) = run (add_verb_to_section d n v.name v.params) cs

-- The specification: from a name to the verbs, `none` for a section that was not named.
abbrev pub Spec : Type 0
Spec = Bytes → Option (List Verb)

abbrev pub new_spec : Spec
new_spec k = if str_eq main_name k then some [] else none

abbrev pub opened : Option (List Verb) → List Verb
opened none = []
opened (some vs) = vs

abbrev pub spec_step : Spec → Command → Spec
spec_step f (names n) k = if str_eq n k then some (opened (f k)) else f k
spec_step f (adds n v) k = if str_eq n k then some (opened (f k) ++ v ∷ []) else f k

abbrev pub run_spec : Spec → List Command → Spec
run_spec f [] = f
run_spec f (c ∷ cs) = run_spec (spec_step f c) cs

-- The abstraction.
abbrev view : Document → Spec
view d k = Option.map (λ s. s.verbs) (lookup k d.sections)

abbrev pub rendered : List Verb → Json
rendered vs = array (map verb_to_json vs)

listed : Bytes → List Bytes → Bool
listed k [] = false
listed k (n ∷ ns) = str_eq n k || listed k ns

listed-append :
    (k n : Bytes) (ns : List Bytes) → listed k (ns ++ n ∷ []) ≡ (listed k ns || str_eq n k)
unfolding listed
listed-append k n [] = ground arith
listed-append k n (m ∷ ns) = ground (arith, listed-append k n ns)

-- Every section but the main one is in the order.
abbrev IsListed : Document → Type 0
IsListed d =
    (k : Bytes)
    → str_eq k main_name ≡ false
    → lookup k d.sections ≢ none
    → listed k d.section_order ≡ true

section-view :
    (d : Document) (n k : Bytes) → view (section d n).0 k ≡ spec_step (view d) (names n) k
unfolding section empty_section
section-view d n k = elim (Option-cases (lookup n d.sections)) [
  | inl e ↦
      ground
        (arith, e, lookup-assign n k (record { name = n; verbs = [] }) d.sections, str_eq_iff n k)
  | inr (s, e) ↦ ground (arith, e, str_eq_iff n k)
]

adds-view :
    (d : Document) (n k : Bytes) (v : Verb)
    → view (add_verb_to_section d n v.name v.params) k ≡ spec_step (view d) (adds n v) k
unfolding add_verb_to_section section empty_section
adds-view d n k v = elim (Option-cases (lookup n d.sections)) [
  | inl e ↦
      let first = lookup-assign n k (record { name = n; verbs = [] }) d.sections in
      let last =
        lookup-assign n k (record { name = n; verbs = v ∷ [] })
          (assign n (record { name = n; verbs = [] }) d.sections) in
      ground (arith, e, first, last, str_eq_iff n k)
  | inr (s, e) ↦
      let last = lookup-assign n k (record s { verbs = s.verbs ++ v ∷ [] }) d.sections in
      ground (arith, e, last, str_eq_iff n k)
]

section-IsListed : (d : Document) (n : Bytes) → IsListed d → IsListed (section d n).0
unfolding section empty_section
section-IsListed d n v k other there = elim (Option-cases (lookup n d.sections)) [
  | inl e ↦
      let first = lookup-assign n k (record { name = n; verbs = [] }) d.sections in
      ground (arith, e, first, v k other, listed-append k n d.section_order)
  | inr (s, e) ↦ ground (arith, e, v k other)
]

adds-IsListed :
    (d : Document) (n : Bytes) (v : Verb)
    → IsListed d
    → IsListed (add_verb_to_section d n v.name v.params)
unfolding add_verb_to_section section empty_section
adds-IsListed d n v valid k other there = elim (Option-cases (lookup n d.sections)) [
  | inl e ↦
      let first = lookup-assign n k (record { name = n; verbs = [] }) d.sections in
      let last =
        lookup-assign n k (record { name = n; verbs = v ∷ [] })
          (assign n (record { name = n; verbs = [] }) d.sections) in
      ground (arith, e, first, last, valid k other, listed-append k n d.section_order)
  | inr (s, e) ↦
      let last = lookup-assign n k (record s { verbs = s.verbs ++ v ∷ [] }) d.sections in
      ground (arith, e, last, valid k other, str_eq_iff n k)
]

abbrev over : Option Section → Option Json → Option Json
over none o = o
over (some s) o = some (section_to_json s)

lookup-render_order :
    (k : Bytes) (sections : Map Section) (order : List Bytes) (m : Map Json)
    → lookup k (render_order sections order m) ≡ (
        if listed k order && not (str_eq k main_name)
        then over (lookup k sections) (lookup k m)
        else lookup k m)
unfolding render_order listed
lookup-render_order k sections [] m = refl
lookup-render_order k sections (n ∷ order) m = elim (Bool-cases (str_eq n main_name)) [
  | inl e ↦ rw (e, lookup-render_order k sections order m) (ground (arith, e, str_eq_iff n k))
  | inr e ↦ elim (Option-cases (lookup n sections)) [
    | inl f ↦
        rw (e, f, lookup-render_order k sections order m) (ground (arith, e, f, str_eq_iff n k))
    | inr (s, f) ↦
        rw (e, f, lookup-render_order k sections order (assign n (section_to_json s) m))
          (ground (arith, e, f, str_eq_iff n k, lookup-assign n k (section_to_json s) m))
  ]
]

-- The main section comes first; the loop adds the others.
over_main :
    (found : Option Section) (k : Bytes) (verbs : Json) (is_listed : Bool)
    → (str_eq k main_name ≡ false → found ≢ none → is_listed ≡ true)
    → (str_eq k main_name ≡ true → Option.map section_to_json found ≡ some verbs)
    → (if is_listed && not (str_eq k main_name)
        then over found (lookup k (assign main_name verbs []))
        else lookup k (assign main_name verbs []))
      ≡ Option.map section_to_json found
unfolding lookup assign
over_main none k verbs is_listed v h =
    ground (arith, str_eq_iff main_name k, str_eq_iff k main_name)
over_main (some t) k verbs is_listed v h =
    ground (arith, str_eq_iff main_name k, str_eq_iff k main_name)

over_nothing :
    (found : Option Section) (k : Bytes) (is_listed : Bool)
    → (str_eq k main_name ≡ false → found ≢ none → is_listed ≡ true)
    → (str_eq k main_name ≡ true → found ≡ none)
    → (if is_listed && not (str_eq k main_name) then over found (lookup k []) else lookup k [])
      ≡ Option.map section_to_json found
unfolding lookup
over_nothing none k is_listed v h = ground arith
over_nothing (some t) k is_listed v h = ground arith

lookup-render_sections :
    (d : Document) (k : Bytes)
    → IsListed d
    → lookup k (render_sections d) ≡ Option.map section_to_json (lookup k d.sections)
unfolding render_sections
lookup-render_sections d k v =
    let at_main : str_eq k main_name ≡ true → lookup k d.sections ≡ lookup main_name d.sections =
      λ h. ap (λ n. lookup n d.sections) ((str_eq_iff k main_name).0 h) in
    elim (Option-cases (lookup main_name d.sections)) [
      | inl e ↦
          rw (e, lookup-render_order k d.sections d.section_order [])
            (over_nothing (lookup k d.sections) k (listed k d.section_order) (v k)
              (λ h. at_main h ∙ e))
      | inr (s, e) ↦
          rw
            (
              e,
              lookup-render_order k d.sections d.section_order
                  (assign main_name (section_to_json s) []),
            )
            (over_main (lookup k d.sections) k (section_to_json s) (listed k d.section_order) (v k)
              (λ h. ap (Option.map section_to_json) (at_main h ∙ e)))
    ]

rendered-verbs :
    (found : Option Section)
    → Option.map section_to_json found ≡ Option.map rendered (Option.map (λ s. s.verbs) found)
unfolding section_to_json
rendered-verbs none = refl
rendered-verbs (some s) = refl

spec_step-cong :
    (c : Command) (f g : Spec)
    → ((k : Bytes) → f k ≡ g k)
    → (k : Bytes) → spec_step f c k ≡ spec_step g c k
spec_step-cong (names n) f g h k = rw (h k) refl
spec_step-cong (adds n v) f g h k = rw (h k) refl

run-view :
    (cs : List Command) (d : Document) (f : Spec)
    → ((k : Bytes) → view d k ≡ f k)
    → (k : Bytes) → view (run d cs) k ≡ run_spec f cs k
run-view [] d f h k = h k
run-view (names n ∷ cs) d f h k =
    run-view cs (section d n).0 (spec_step f (names n))
      (λ j. section-view d n j ∙ spec_step-cong (names n) (view d) f h j) k
run-view (adds n v ∷ cs) d f h k =
    run-view cs (add_verb_to_section d n v.name v.params) (spec_step f (adds n v))
      (λ j. adds-view d n j v ∙ spec_step-cong (adds n v) (view d) f h j) k

run-IsListed : (cs : List Command) (d : Document) → IsListed d → IsListed (run d cs)
run-IsListed [] d v = v
run-IsListed (names n ∷ cs) d v = run-IsListed cs (section d n).0 (section-IsListed d n v)
run-IsListed (adds n w ∷ cs) d v =
    run-IsListed cs (add_verb_to_section d n w.name w.params) (adds-IsListed d n w v)

new_document-view : (k : Bytes) → view new_document k ≡ new_spec k
unfolding new_document empty_section lookup
new_document-view k =
    ground
      (arith, lookup-assign {V = Section} main_name k (record { name = main_name; verbs = [] }) [])

new_document-IsListed : IsListed new_document
unfolding new_document empty_section lookup
new_document-IsListed k other there = absurd (
    ground (
      arith,
      lookup-assign {V = Section} main_name k (record { name = main_name; verbs = [] }) [],
      str_eq_iff main_name k,
      str_eq_iff k main_name,
    ))

-- A document made by any calls that open sections and add verbs renders, under each name, exactly
-- what the specification holds for it: the verbs added to that section, in the order of the calls,
-- and nothing under a name that no call used (the main section is there from the start).
pub run-refines :
    (cs : List Command) (k : Bytes)
    → lookup k (render_sections (run new_document cs))
      ≡ Option.map rendered (run_spec new_spec cs k)
run-refines cs k =
    lookup-render_sections (run new_document cs) k
      (run-IsListed cs new_document new_document-IsListed)
    ∙ rendered-verbs (lookup k (run new_document cs).sections)
    ∙ ap (Option.map rendered) (run-view cs new_document new_spec new_document-view k)
