-- ===== src/Pom/Reading/Written.antt =====
-- What the reader finds in the members of a written section, and makes of it.
use mathlib.Core.Option
use signalwire_agents_cpp.Prelude.{
  Option, none, some, Bool, true, false, not, ◌||◌, ◌&&◌, ◌≡◌, refl, ◌∷◌, [], List, Bytes, codes,
  is_empty, is_nil, str_eq, if◌then◌else◌, ◌>>=◌, arith, map,
}
use signalwire_agents_cpp.Prelude.Map.{lookup}
use signalwire_agents_cpp.Prelude.Json.{
  Json, boolean, string, strings, array_of, Items, items, is_empty_json,
}
use signalwire_agents_cpp.Pom.{section_of, Sections, section_members, is_true}
use signalwire_agents_cpp.Pom.Reading.{
  get_title, get_body, get_texts, get_bullets, get_flag, or_false, is_string, is_array, is_boolean,
  if_there, is_there, is_text, is_filled, Found, accepts, read,
}

module _ (t : Option Bytes) (b : Bytes) (bs : List Bytes) (num : Option Bool) (nb has : Bool)
    (subs : Json) where
  abbrev pub written : List (Bytes × Json)
  written = section_members t b bs num nb has subs

  pub lookup-title : lookup (codes "title") written ≡ Option.map string t
  unfolding lookup str_eq
  lookup-title = ground arith

  pub lookup-body : lookup (codes "body") written ≡ (if is_empty b then none else some (string b))
  unfolding lookup str_eq
  lookup-body = ground arith

  pub lookup-bullets :
      lookup (codes "bullets") written ≡ (if is_nil bs then none else some (strings bs))
  unfolding lookup str_eq
  lookup-bullets = ground arith

  pub lookup-subsections : lookup (codes "subsections") written ≡ (if has then some subs else none)
  unfolding lookup str_eq
  lookup-subsections = ground arith

  pub lookup-numbered :
      lookup (codes "numbered") written ≡ (if is_true num then some (boolean true) else none)
  unfolding lookup str_eq
  lookup-numbered = ground arith

  pub lookup-numbered_bullets :
      lookup (codes "numberedBullets") written ≡ (if nb then some (boolean true) else none)
  unfolding lookup str_eq
  lookup-numbered_bullets = ground arith

  -- The members of a written section.
  abbrev pub found_written : Found
  found_written = record {
    title = Option.map string t;
    body = if is_empty b then none else some (string b);
    bullets = if is_nil bs then none else some (strings bs);
    subsections = if has then some subs else none;
    numbered = if is_true num then some (boolean true) else none;
    numbered_bullets = if nb then some (boolean true) else none;
  }

-- What reading a section back gives: `numbered = false` is not written.
abbrev pub kept : Option Bool → Option Bool
kept none = none
kept (some b) = if b then some true else none

abbrev pub has_title : Option Bytes → Bool
has_title none = false
has_title (some t) = true

get_texts-strings : (bs : List Bytes) → get_texts (items (map string bs)) ≡ some bs
get_texts-strings [] = refl
get_texts-strings (b ∷ bs) = rw (get_texts-strings bs) refl

title-read :
    (t : Option Bytes)
    → (if_there is_string (Option.map string t) ≡ true)
      × (get_title (Option.map string t) ≡ some t)
      × (is_there (Option.map string t) ≡ has_title t)
title-read none = (refl, refl, refl)
title-read (some t) = (refl, refl, refl)

body-read :
    (b : Bytes)
    → let j = if is_empty b then none else some (string b) in
      (is_text j ≡ not (is_empty b)) × (get_body j ≡ some b)
body-read [] = (refl, refl)
body-read (c ∷ b) = (refl, refl)

bullets-read :
    (bs : List Bytes)
    → let j = if is_nil bs then none else some (strings bs) in
      (if_there is_array j ≡ true) × (is_filled j ≡ not (is_nil bs)) × (get_bullets j ≡ some bs)
bullets-read [] = (refl, refl, refl)
bullets-read (b ∷ bs) = (refl, refl, get_texts-strings (b ∷ bs))

subsections-read :
    (has : Bool) (xs : Items)
    → let j = if has then some (array_of xs) else none in
      (if_there is_array j ≡ true) × (is_filled j ≡ (has && not (is_empty_json (array_of xs))))
subsections-read true xs = (refl, refl)
subsections-read false xs = (refl, refl)

numbered-read :
    (num : Option Bool)
    → let j = if is_true num then some (boolean true) else none in
      (if_there is_boolean j ≡ true) × (get_flag j ≡ some (kept num))
numbered-read none = (refl, refl)
numbered-read (some true) = (refl, refl)
numbered-read (some false) = (refl, refl)

numbered_bullets-read :
    (nb : Bool)
    → let j = if nb then some (boolean true) else none in
      (if_there is_boolean j ≡ true)
      × (get_flag j ≡ some (kept (some nb)))
      × (or_false (kept (some nb)) ≡ nb)
numbered_bullets-read true = (refl, refl, refl)
numbered_bullets-read false = (refl, refl, refl)

module _ (t : Option Bytes) (b : Bytes) (bs : List Bytes) (num : Option Bool) (nb has : Bool)
    (xs : Items) where
  abbrev pub found : Found
  found = found_written t b bs num nb has (array_of xs)

  pub accepts-written :
      (is_sub : Bool)
      → (not (is_empty b) || not (is_nil bs) || (has && not (is_empty_json (array_of xs)))) ≡ true
      → (is_sub ≡ true → has_title t ≡ true)
      → accepts is_sub found ≡ true
  accepts-written is_sub h titles =
      let (t1, t2, t3) = title-read t in
      let (b1, b2) = body-read b in
      let (l1, l2, l3) = bullets-read bs in
      let (s1, s2) = subsections-read has xs in
      let (n1, n2) = numbered-read num in
      let (m1, m2, m3) = numbered_bullets-read nb in
      rw (t1, t3, b1, l1, l2, s1, s2, n1, m1) (ground (arith, h, titles))

  pub read-written :
      (built : Option Sections)
      → read found built ≡ (built >>= λ ss. some (section_of t b bs (kept num) nb ss))
  read-written built =
      let (t1, t2, t3) = title-read t in
      let (b1, b2) = body-read b in
      let (l1, l2, l3) = bullets-read bs in
      let (n1, n2) = numbered-read num in
      let (m1, m2, m3) = numbered_bullets-read nb in rw (t2, b2, l3, n2, m2, m3) refl
