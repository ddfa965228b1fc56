-- ===== src/Prelude/Json.antt =====
-- JSON values, as `nlohmann::json` holds them: an object is a `std::map`, with its members in the
-- order of their keys. Where the code fills an object member by member, the model fills a map and
-- makes the object at the end. A floating-point number is no case of its own: it is passed as the
-- value that it becomes.
use signalwire_agents_cpp.Prelude.Text.{Bytes, codes}
use signalwire_agents_cpp.Prelude.Tests.{if◌then◌else◌}
use signalwire_agents_cpp.Prelude.Map.{Map, assign}
use signalwire_agents_cpp.Prelude.Int.{ℤ}
use Prim.Native.Nat.{ℕ, suc}
use mathlib.Core.Bool.{Bool, true, false}
use mathlib.Core.List.{List, [], ◌∷◌, map}
use mathlib.Core.Option.{Option, none, some}
use mathlib.Core.Path.{◌≡◌, refl, ap}

mutual
  pub data Json : Type 0 where
    null : Json
    boolean : Bool → Json
    number : ℤ → Json
    string : Bytes → Json
    array_of : Items → Json
    object_of : Members → Json

  pub data Items : Type 0 where
    no_items : Items
    item : Json → Items → Items

  pub data Members : Type 0 where
    no_members : Members
    member : Bytes → Json → Members → Members

abbrev pub items : List Json → Items
items [] = no_items
items (x ∷ xs) = item x (items xs)

abbrev pub list_of : Items → List Json
list_of no_items = []
list_of (item x xs) = x ∷ list_of xs

abbrev pub members : Map Json → Members
members [] = no_members
members ((k, v) ∷ m) = member k v (members m)

abbrev pub map_of : Members → Map Json
map_of no_members = []
map_of (member k v m) = (k, v) ∷ map_of m

pub list_of-items : (xs : List Json) → list_of (items xs) ≡ xs
list_of-items [] = refl
list_of-items (x ∷ xs) = ap (◌∷◌ x) (list_of-items xs)

pub map_of-members : (m : Map Json) → map_of (members m) ≡ m
map_of-members [] = refl
map_of-members ((k, v) ∷ m) = ap (◌∷◌ (k, v)) (map_of-members m)

abbrev pub array : List Json → Json
array xs = array_of (items xs)

abbrev pub object : Map Json → Json
object m = object_of (members m)

-- A value that is null until its first member is set.
abbrev pub object_or_null : Map Json → Json
object_or_null [] = null
object_or_null (e ∷ m) = object (e ∷ m)

-- `{{"k", v}, ...}`: an object from its members in any order.
abbrev pub fields : List (Bytes × Json) → Map Json
fields [] = []
fields ((k, v) ∷ es) = assign k v (fields es)

abbrev pub strings : List Bytes → Json
strings ss = array (map string ss)

-- `if (test) m[key] = value;`
abbrev pub assign_if : Bool → Bytes → Json → Map Json → Map Json
assign_if test k v m = if test then assign k v m else m

-- `value[key] = v` on a value that may not be an object: a null becomes one, and any other value
-- throws (`none`).
unfoldable pub set_member : Bytes → Json → Json → Option Json
set_member k v null = some (object ((k, v) ∷ []))
set_member k v (object_of m) = some (object (assign k v (map_of m)))
set_member k v (boolean b) = none
set_member k v (number n) = none
set_member k v (string s) = none
set_member k v (array_of xs) = none

-- `value.empty()`.
abbrev pub is_empty_json : Json → Bool
is_empty_json null = true
is_empty_json (array_of no_items) = true
is_empty_json (object_of no_members) = true
is_empty_json j = false

abbrev pub truth_text : Bool → Json
truth_text b = string (if b then codes "true" else codes "false")

-- The members of a value that is an object.
abbrev pub map_in : Json → Map Json
map_in (object_of m) = map_of m
map_in j = []

-- `j.items()`: the elements of an array go by their positions, and any other value is one element
-- without a key.
abbrev positions : (ℕ → Bytes) → ℕ → Items → Map Json
positions show i no_items = []
positions show i (item x xs) = (show i, x) ∷ positions show (suc i) xs

abbrev pub items_of : (ℕ → Bytes) → Json → Map Json
items_of show null = []
items_of show (object_of m) = map_of m
items_of show (array_of xs) = positions show 0 xs
items_of show j = ([], j) ∷ []

-- `for (auto& [k, v] : ...) m[k] = v;`
unfoldable pub assign_all : Map Json → Map Json → Map Json
assign_all [] m = m
assign_all ((k, v) ∷ es) m = assign_all es (assign k v m)
