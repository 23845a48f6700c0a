-- ===== src/Base/Maps.antt =====
-- A JavaScript `Map` in insertion order: writing an old key keeps its place.
use mathlib.Core.Path.{◌≡◌, refl}
use mathlib.Core.Option.{Option, none, some}
use mathlib.Core.List.{List, [], ◌∷◌}
use native.Mathlib.Omega.{arith}
use eventcommerce_os.Base.Tests.{Eq, ◌==◌, if◌then◌else◌}

module _ {ℓ κ} {K : Type κ} ⦃e : Eq K⦄ {V : Type ℓ} where
  -- `m.get(k)`
  abbrev pub map_get : K → List (K × V) → Option V
  map_get k [] = none
  map_get k ((j, v) ∷ m) = if j == k then some v else map_get k m

  -- `m.set(k, v)`
  abbrev pub map_set : K → V → List (K × V) → List (K × V)
  map_set k v [] = (k, v) ∷ []
  map_set k v ((j, w) ∷ m) = if j == k then (k, v) ∷ m else (j, w) ∷ map_set k v m

  -- `new Map(entries)`, on top of a map that is there
  abbrev pub map_from : List (K × V) → List (K × V) → List (K × V)
  map_from m [] = m
  map_from m ((k, v) ∷ entries) = map_from (map_set k v m) entries

  -- `[...m.keys()]`
  abbrev pub keys : List (K × V) → List K
  keys [] = []
  keys ((k, v) ∷ m) = k ∷ keys m

  pub map_get-map_set :
      (j k : K) (v : V) (m : List (K × V))
      → map_get j (map_set k v m) ≡ (if k == j then some v else map_get j m)
  map_get-map_set j k v [] = refl
  map_get-map_set j k v ((i, w) ∷ m) = ground (arith, map_get-map_set j k v m)
