-- ===== src/Prelude/Maps.antt =====
-- Maps with numbers as keys: a `BTreeMap`, or a `HashMap` that is walked in the order of its keys,
-- is the list of its entries in that order.
use Prim.Native.Nat.{ℕ}
use mathlib.Core.List.{List, [], ◌∷◌, map}
use mathlib.Core.Option.{Option, none, some}
use temnion.Prelude.Tests.{ltb, ◌==◌, if◌then◌else◌}

abbrev pub Map {ℓ} : Type ℓ → Type ℓ
Map V = List (ℕ × V)

module _ {ℓ} {V : Type ℓ} where
  unfoldable pub map_get : ℕ → Map V → Option V
  map_get k [] = none
  map_get k ((key, v) ∷ m) = if k == key then some v else map_get k m

  -- `insert`: the value of a key that is there is replaced, a new entry takes its place.
  unfoldable pub map_insert : ℕ → V → Map V → Map V
  map_insert k v [] = (k, v) ∷ []
  map_insert k v ((key, w) ∷ m) =
      if k == key
      then (k, v) ∷ m
      else if ltb k key
      then (k, v) ∷ (key, w) ∷ m
      else (key, w) ∷ map_insert k v m

  -- `remove`
  unfoldable pub map_remove : ℕ → Map V → Map V
  map_remove k [] = []
  map_remove k ((key, v) ∷ m) = if k == key then m else (key, v) ∷ map_remove k m

  -- A write through `get_mut`: nothing happens on a missing key.
  unfoldable pub map_update : ℕ → (V → V) → Map V → Map V
  map_update k f [] = []
  map_update k f ((key, v) ∷ m) = if k == key then (key, f v) ∷ m else (key, v) ∷ map_update k f m

  abbrev pub map_values : Map V → List V
  map_values m = map (λ e. e.1) m
