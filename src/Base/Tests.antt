-- ===== src/Base/Tests.antt =====
-- The Boolean tests of the code. `==` stands for `===` on strings, numbers, bigints, enums and
-- nullable values of these; each type brings its decision of equality as an instance.
use Prim.Native.Nat.{ℕ, ◌≤◌, ◌<◌, compare, Ordering}
use Prim.Native.String.{String}
use mathlib.Core.Path.{◌≡◌, refl, sym, ap}
use mathlib.Core.Logic.{◌↔◌, ◌≢◌, ◌⊎◌, inl, inr}
use mathlib.Core.Bool.{Bool, true, false}
use mathlib.Core.Option.{Option, none, some}
use native.Mathlib.Omega.{arith}
use native.Mathlib.Decide.{ℕ_discrete}
use text.Mathlib.Text.{◌==◌ as str_eq}
use text.Mathlib.TextEquality.{eq_iff}

-- These compute to `compare`, which `ground` and `grind` read with no lemma listed.
abbrev pub ltb : ℕ → ℕ → Bool
ltb a b = elim (compare a b) [ Ordering.lt ↦ true | _ ↦ false ]

abbrev pub leb : ℕ → ℕ → Bool
leb a b = elim (compare a b) [ Ordering.gt ↦ false | _ ↦ true ]

infix 1 if◌then◌else◌
abbrev pub if◌then◌else◌ {ℓ} : {A : Type ℓ} → Bool → A → A → A
if true then x else y = x
if false then x else y = y

absurd_false : {P : Type 0} → (P → false ≡ true) → ¬ P
absurd_false g p = cc (g p)

dec_of_test : {P : Type 0} (b : Bool) → (b ≡ true → P) → (P → b ≡ true) → Dec P
dec_of_test true f g = yes (f refl)
dec_of_test false f g = no (absurd_false g)

unfoldable pub String-discrete : Discrete String
unfolding dec_of_test absurd_false
String-discrete a b = dec_of_test (str_eq a b) (eq_iff a b).0 (eq_iff a b).1

none-ne-some {ℓ} : {A : Type ℓ} (a : A) → none ≢ some a
none-ne-some a h = cc

some-inj {ℓ} : {A : Type ℓ} (a b : A) → some a ≡ some b → a ≡ b
some-inj a b h = cc

dec_some {ℓ} : {A : Type ℓ} (a b : A) → Dec (a ≡ b) → Dec (some a ≡ some b)
dec_some a b (yes p) = yes (ap some p)
dec_some a b (no n) = no (λ h. n (some-inj a b h))

unfoldable pub Option-discrete {ℓ} : {A : Type ℓ} → Discrete A → Discrete (Option A)
unfolding dec_some none-ne-some some-inj
Option-discrete d none none = yes refl
Option-discrete d none (some b) = no (none-ne-some b)
Option-discrete d (some a) none = no (λ h. none-ne-some a (sym h))
Option-discrete d (some a) (some b) = dec_some a b (d a b)

-- Types whose values the code compares by `===`.
pub record Eq {ℓ} (A : Type ℓ) : Type ℓ where
  pub dec_eq : Discrete A

infix 50 ◌==◌ ◌!=◌
abbrev pub ◌==◌ {ℓ} : {A : Type ℓ} ⦃e : Eq A⦄ → A → A → Bool
◌==◌ ⦃e⦄ a b = elim (e.dec_eq a b) [ yes _ ↦ true | no _ ↦ false ]

abbrev pub ◌!=◌ {ℓ} : {A : Type ℓ} ⦃e : Eq A⦄ → A → A → Bool
◌!=◌ ⦃e⦄ a b = elim (e.dec_eq a b) [ yes _ ↦ false | no _ ↦ true ]

instance abbrev pub string_eq : Eq String
string_eq = record { dec_eq = String-discrete }

instance abbrev pub nat_eq : Eq ℕ
nat_eq = record { dec_eq = ℕ_discrete }

instance abbrev pub option_eq {ℓ} : {A : Type ℓ} ⦃e : Eq A⦄ → Eq (Option A)
option_eq ⦃e⦄ = record { dec_eq = Option-discrete e.dec_eq }

-- `omega` reads a test through such lemmas.
pub ltb→lt : (a b : ℕ) → ltb a b ≡ true → a < b
ltb→lt a b h = ground arith

pub leb→le : (a b : ℕ) → leb a b ≡ true → a ≤ b
leb→le a b h = ground arith

pub ==_iff {ℓ} : {A : Type ℓ} ⦃e : Eq A⦄ (a b : A) → ((a == b) ≡ true) ↔ (a ≡ b)
==_iff ⦃e⦄ a b =
    elim (e.dec_eq a b) as (λ d. ((elim d [ yes _ ↦ true | no _ ↦ false ]) ≡ true) ↔ (a ≡ b)) [
      | yes p ↦ ((λ _. p), (λ _. refl))
      | no n ↦ ((λ h. cc), (λ h. absurd (n h)))
    ]

pub ==_refl {ℓ} : {A : Type ℓ} ⦃e : Eq A⦄ (a : A) → (a == a) ≡ true
==_refl a = (==_iff a a).1 refl

-- To split on a computed value and keep the equation.
pub Bool-cases : (b : Bool) → (b ≡ true) ⊎ (b ≡ false)
Bool-cases true = inl refl
Bool-cases false = inr refl

pub Option-cases {ℓ} : {A : Type ℓ} (o : Option A) → (o ≡ none) ⊎ ((a : A) × (o ≡ some a))
Option-cases none = inl refl
Option-cases (some a) = inr (a, refl)
