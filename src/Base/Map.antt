-- ===== src/Base/Map.antt =====
-- `std::map<std::string, V>`: an association list in the order of its keys.
use Prim.Native.Nat.{Ordering}
use Prim.Native.String.{String, compare}
use text.Mathlib.Text.{◌==◌ as str_eq}
use text.Mathlib.TextEquality.{eq_iff, path_by_compare}
use text.Mathlib.TextPositions.{compare_refl}
use mathlib.Core.Path.{◌≡◌, refl}
use mathlib.Core.List.{List, [], ◌∷◌}
use mathlib.Core.Option.{Option, none, some, map}
use native.Mathlib.Omega.{arith}
use esp32_sequencer.Base.Tests.{if◌then◌else◌}

abbrev pub Map {ℓ} : Type ℓ → Type ℓ
Map V = List (String × V)

module _ {ℓ} {V : Type ℓ} where
  -- `m.find(k)`: the end is `none`.
  unfoldable pub find : String → Map V → Option V
  find k [] = none
  find k ((j, v) ∷ m) = if str_eq j k then some v else find k m

  -- `m[k] = v`.
  unfoldable pub insert : String → V → Map V → Map V
  insert k v [] = (k, v) ∷ []
  insert k v ((j, w) ∷ m) = elim (compare k j) [
    | Ordering.lt ↦ (k, v) ∷ (j, w) ∷ m
    | Ordering.eq ↦ (k, v) ∷ m
    | Ordering.gt ↦ (j, w) ∷ insert k v m
  ]

  -- `m.erase(k)`.
  unfoldable pub erase : String → Map V → Map V
  erase k [] = []
  erase k ((j, w) ∷ m) = let rest = erase k m in if str_eq j k then rest else (j, w) ∷ rest

  pub find-insert :
      (j k : String) (v : V) (m : Map V)
      → find j (insert k v m) ≡ (if str_eq k j then some v else find j m)
  unfolding find insert
  find-insert j k v [] = refl
  find-insert j k v ((i, w) ∷ m) = ground (
    arith,
    eq_iff k j,
    eq_iff i j,
    path_by_compare k i,
    compare_refl k,
    compare_refl i,
    find-insert j k v m,
  )

  pub find-erase :
      (j k : String) (m : Map V) → find j (erase k m) ≡ (if str_eq k j then none else find j m)
  unfolding find erase
  find-erase j k [] = ground arith
  find-erase j k ((i, w) ∷ m) = ground (arith, eq_iff k j, eq_iff i j, eq_iff i k, find-erase j k m)

-- A map with a function applied to each value.
unfoldable pub map_values {ℓ κ} : {V : Type ℓ} {U : Type κ} → (V → U) → Map V → Map U
map_values f [] = []
map_values f ((j, w) ∷ m) = (j, f w) ∷ map_values f m

pub find-map_values {ℓ κ} :
    {V : Type ℓ} {U : Type κ} (f : V → U) (k : String) (m : Map V)
    → find k (map_values f m) ≡ map f (find k m)
unfolding find map_values
find-map_values f k [] = refl
find-map_values f k ((j, w) ∷ m) = ground (arith, find-map_values f k m)
