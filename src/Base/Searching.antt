-- ===== src/Base/Searching.antt =====
-- Lemmas on `find`, `any`, `select` and `update_where`: looking rows up, and updating them in place.
use mathlib.Core.Path.{◌≡◌, refl}
use mathlib.Core.Bool.{Bool, true, false}
use mathlib.Core.Option.{none, some}
use mathlib.Core.List.{List, [], ◌∷◌}
use native.Mathlib.Omega.{arith}
use eventcommerce_os.Base.Tests.{if◌then◌else◌}
use eventcommerce_os.Base.Lists.{find, any, update_where}

module _ {ℓ} {A : Type ℓ} where
  pub find-holds : (p : A → Bool) (xs : List A) {x : A} → find p xs ≡ some x → p x ≡ true
  find-holds p [] h = cc
  find-holds p (y ∷ ys) {x} h = ground (arith, find-holds p ys {x = x})

  -- An update that does not change what is searched for.
  pub find-update_where :
      (p q : A → Bool) (f : A → A) (xs : List A) {x : A}
      → ((y : A) → q (f y) ≡ q y)
      → find q xs ≡ some x
      → find q (update_where p f xs) ≡ some (if p x then f x else x)
  find-update_where p q f [] keep h = cc
  find-update_where p q f (y ∷ ys) {x} keep h =
      ground (arith, keep y, find-update_where p q f ys {x = x} keep)

  pub find-update_where-none :
      (p q : A → Bool) (f : A → A) (xs : List A)
      → ((y : A) → q (f y) ≡ q y)
      → find q xs ≡ none
      → find q (update_where p f xs) ≡ none
  find-update_where-none p q f [] keep h = refl
  find-update_where-none p q f (y ∷ ys) keep h =
      ground (arith, keep y, find-update_where-none p q f ys keep)

  pub any-update_where :
      (p q : A → Bool) (f : A → A) (xs : List A)
      → ((y : A) → q (f y) ≡ q y)
      → any q (update_where p f xs) ≡ any q xs
  any-update_where p q f [] keep = refl
  any-update_where p q f (y ∷ ys) keep = ground (arith, keep y, any-update_where p q f ys keep)

  -- An update of rows that are not searched for.
  pub find-update_where_other :
      (p q : A → Bool) (f : A → A) (xs : List A)
      → ((y : A) → q (f y) ≡ q y)
      → ((y : A) → p y ≡ true → q y ≡ false)
      → find q (update_where p f xs) ≡ find q xs
  find-update_where_other p q f [] keep apart = refl
  find-update_where_other p q f (y ∷ ys) keep apart =
      ground (arith, keep y, apart y, find-update_where_other p q f ys keep apart)

  pub find-none_of_any : (p : A → Bool) (xs : List A) → any p xs ≡ false → find p xs ≡ none
  find-none_of_any p [] h = refl
  find-none_of_any p (y ∷ ys) h = ground (arith, find-none_of_any p ys)

  pub any_of_find : (p : A → Bool) (xs : List A) {x : A} → find p xs ≡ some x → any p xs ≡ true
  any_of_find p [] h = cc
  any_of_find p (y ∷ ys) {x} h = ground (arith, any_of_find p ys {x = x})

  pub any_of_find-none : (p : A → Bool) (xs : List A) → find p xs ≡ none → any p xs ≡ false
  any_of_find-none p [] h = refl
  any_of_find-none p (y ∷ ys) h = ground (arith, any_of_find-none p ys)
