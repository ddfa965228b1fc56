-- ===== src/Swml/Service/Order.antt =====
-- The order of the tools holds each name once, and the names of all tools.
use mathlib.Core.Option.{some-injective}
use signalwire_agents_cpp.Prelude.{
  ℕ, ◌+◌, ◌≤◌, Option, none, some, true, false, ◌||◌, ◌≡◌, refl, subst, ◌∷◌, [], ◌++◌, List, Bytes,
  str_eq, str_eq_iff, if◌then◌else◌, is_some, arith, Bool-cases, inl, inr,
}
use signalwire_agents_cpp.Prelude.Map.{lookup, lookup-assign}
use signalwire_agents_cpp.Prelude.Json.{Json, null, boolean, number, string, array_of, object_of}
use signalwire_agents_cpp.Swaig.ToolDefinition.{ToolDefinition}
use signalwire_agents_cpp.Swml.Service.Tools.{
  Tools, is_listed, list_once, define_tool, register_named, name_member, register_swaig_function,
}

-- How often a name occurs.
abbrev pub count : Bytes → List Bytes → ℕ
count n [] = 0
count n (x ∷ xs) = (if str_eq x n then 1 else 0) + count n xs

pub record IsOrdered (t : Tools) : Type 0 where
  pub once : (n : Bytes) → count n t.tool_order ≤ 1
  pub listed : (n : Bytes) → is_some (lookup n t.tools) ≡ true → is_listed n t.tool_order ≡ true

pub count-append_one :
    (n x : Bytes) (xs : List Bytes)
    → count n (xs ++ x ∷ []) ≡ count n xs + (if str_eq x n then 1 else 0)
count-append_one n x [] = omega arith
count-append_one n x (y ∷ xs) = omega (arith, count-append_one n x xs)

is_listed-count : (n : Bytes) (xs : List Bytes) → is_listed n xs ≡ false → count n xs ≡ 0
unfolding is_listed
is_listed-count n [] h = refl
is_listed-count n (x ∷ xs) h = ground (arith, h, is_listed-count n xs)

is_listed-append :
    (n x : Bytes) (xs : List Bytes) → is_listed n (xs ++ x ∷ []) ≡ (is_listed n xs || str_eq x n)
unfolding is_listed
is_listed-append n x [] = ground arith
is_listed-append n x (y ∷ xs) = ground (arith, is_listed-append n x xs)

list_once-once :
    (x : Bytes) (xs : List Bytes)
    → ((n : Bytes) → count n xs ≤ 1)
    → (n : Bytes) → count n (list_once x xs) ≤ 1
unfolding list_once
list_once-once x xs h n = elim (Bool-cases (is_listed x xs)) [
  | inl e ↦ rw e (h n)
  | inr e ↦
      rw (e, count-append_one n x xs) (ground (arith, h n, str_eq_iff x n, is_listed-count x xs e))
]

list_once-listed :
    (n x : Bytes) (xs : List Bytes) → is_listed n (list_once x xs) ≡ (is_listed n xs || str_eq x n)
unfolding list_once
list_once-listed n x xs = elim (Bool-cases (is_listed x xs)) [
  | inl e ↦ rw e (ground (arith, e, str_eq_iff x n))
  | inr e ↦ rw e (is_listed-append n x xs)
]

pub define_tool-IsOrdered :
    (t : Tools) (tool : ToolDefinition) → IsOrdered t → IsOrdered (define_tool t tool)
unfolding define_tool
define_tool-IsOrdered t tool v = record {
  once = list_once-once tool.name t.tool_order v.once;
  listed = λ n h. ground (
    arith,
    h,
    v.listed n,
    lookup-assign tool.name n tool t.tools,
    list_once-listed n tool.name t.tool_order,
  );
}

named-IsOrdered :
    (t : Tools) (name : Bytes) (registered : List Json)
    → IsOrdered t
    → IsOrdered (record t { registered = registered; tool_order = list_once name t.tool_order })
named-IsOrdered t name registered v = record {
  once = list_once-once name t.tool_order v.once;
  listed = λ n h. ground (arith, h, v.listed n, list_once-listed n name t.tool_order);
}

register_named-IsOrdered :
    (t t' : Tools) (f : Json) (o : Option Json)
    → register_named t f o ≡ some t'
    → IsOrdered t
    → IsOrdered t'
register_named-IsOrdered t t' f none h v = subst IsOrdered (some-injective t t' h) v
register_named-IsOrdered t t' f (some (string name)) h v =
    subst IsOrdered (some-injective _ t' h) (named-IsOrdered t name (t.registered ++ f ∷ []) v)
register_named-IsOrdered t t' f (some null) h v = absurd cc
register_named-IsOrdered t t' f (some (boolean b)) h v = absurd cc
register_named-IsOrdered t t' f (some (number n)) h v = absurd cc
register_named-IsOrdered t t' f (some (array_of xs)) h v = absurd cc
register_named-IsOrdered t t' f (some (object_of ms)) h v = absurd cc

pub register-IsOrdered :
    (t t' : Tools) (f : Json) → register_swaig_function t f ≡ some t' → IsOrdered t → IsOrdered t'
unfolding register_swaig_function
register-IsOrdered t t' f h v = register_named-IsOrdered t t' f (name_member f) h v
