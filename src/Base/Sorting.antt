-- ===== src/Base/Sorting.antt =====
-- `xs.sort(compare)` and ORDER BY: a stable sort by a key, for an order given as a test.
use mathlib.Core.Bool.{Bool}
use mathlib.Core.List.{List, [], ◌∷◌}
use eventcommerce_os.Base.Tests.{if◌then◌else◌}

module _ {ℓ κ} {A : Type ℓ} {K : Type κ} (le : K → K → Bool) (key : A → K) where
  abbrev pub insert_sorted : A → List A → List A
  insert_sorted x [] = x ∷ []
  insert_sorted x (y ∷ ys) = if le (key x) (key y) then x ∷ y ∷ ys else y ∷ insert_sorted x ys

  abbrev pub sort_by : List A → List A
  sort_by [] = []
  sort_by (x ∷ xs) = insert_sorted x (sort_by xs)
