-- ===== src/Prelude/Map.antt =====
-- `std::map<std::string, V>`: an association list in the order of the keys, as iteration visits it.
use signalwire_agents_cpp.Prelude.Text.{Bytes, str_eq, str_eq_iff}
use signalwire_agents_cpp.Prelude.Strings.{str_ltb}
use signalwire_agents_cpp.Prelude.Tests.{if◌then◌else◌}
use signalwire_agents_cpp.Prelude.Lists.{length}
use Prim.Native.Nat.{suc, ◌≤◌}
use mathlib.Core.Logic.{◌≢◌}
use mathlib.Core.List.{List, [], ◌∷◌, map}
use mathlib.Core.Option.{Option, none, some}
use mathlib.Core.Path.{◌≡◌, refl}
use native.Mathlib.Omega.{arith}

abbrev pub Map {ℓ} : Type ℓ → Type ℓ
Map V = List (Bytes × V)

module _ {ℓ} {V : Type ℓ} where
  -- `m.find(k)`.
  unfoldable pub lookup : Bytes → Map V → Option V
  lookup k [] = none
  lookup k ((j, v) ∷ m) = if str_eq j k then some v else lookup k m

  -- `m[k] = v`.
  unfoldable pub assign : Bytes → V → Map V → Map V
  assign k v [] = (k, v) ∷ []
  assign k v ((j, w) ∷ m) =
      if str_eq j k
      then (k, v) ∷ m
      else if str_ltb k j
      then (k, v) ∷ (j, w) ∷ m
      else (j, w) ∷ assign k v m

  -- `m.emplace(k, v)`: an entry that is there stays.
  unfoldable pub emplace : Bytes → V → Map V → Map V
  unfolding assign lookup
  emplace k v m = elim (lookup k m) [ none ↦ assign k v m | some w ↦ m ]

  -- `m.erase(k)`.
  unfoldable pub erase : Bytes → Map V → Map V
  erase k [] = []
  erase k ((j, v) ∷ m) = if str_eq j k then erase k m else (j, v) ∷ erase k m

  abbrev pub keys : Map V → List Bytes
  keys = map (λ e. e.0)

  pub lookup-assign :
      (k j : Bytes) (v : V) (m : Map V)
      → lookup j (assign k v m) ≡ (if str_eq k j then some v else lookup j m)
  unfolding lookup assign
  lookup-assign k j v [] = refl
  lookup-assign k j v ((i, w) ∷ m) =
      ground (arith, str_eq_iff k j, str_eq_iff i k, str_eq_iff i j, lookup-assign k j v m)

  pub lookup-erase :
      (k j : Bytes) (m : Map V) → lookup j (erase k m) ≡ (if str_eq k j then none else lookup j m)
  unfolding lookup erase
  lookup-erase k j [] = ground arith
  lookup-erase k j ((i, w) ∷ m) =
      ground (arith, str_eq_iff k j, str_eq_iff i k, str_eq_iff i j, lookup-erase k j m)

  -- What is left was there, under another key.
  pub erase_inv :
      (i j : Bytes) (k : V) (m : Map V)
      → lookup j (erase i m) ≡ some k
      → (j ≢ i) × (lookup j m ≡ some k)
  erase_inv i j k m h =
      let e = lookup-erase i j m in (λ t. ground (arith, e, str_eq_iff i j), ground (arith, e))

  pub length-assign : (k : Bytes) (v : V) (m : Map V) → length (assign k v m) ≤ suc (length m)
  unfolding assign
  length-assign k v [] = omega arith
  length-assign k v ((j, w) ∷ m) = ground (arith, length-assign k v m)

  pub length-erase : (k : Bytes) (m : Map V) → length (erase k m) ≤ length m
  unfolding erase
  length-erase k [] = omega arith
  length-erase k ((j, w) ∷ m) = ground (arith, length-erase k m)
