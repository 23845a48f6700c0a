-- ===== src/Base/Results.antt =====
-- Exceptions as values. A failure is the class of the exception that the code throws, with its
-- message; `database` is an error that PostgreSQL raises (a constraint, a range).
use Prim.Native.String.{String}
use mathlib.Core.Bool.{Bool, true, false}
use mathlib.Core.Path.{◌≡◌, refl}
use mathlib.Core.Logic.{◌⊎◌, inl, inr}
use native.Mathlib.Omega.{arith}

pub data Failure : Type 0 where
  error : String → Failure
  conflict : String → Failure
  forbidden : String → Failure
  not_found : String → Failure
  database : String → Failure

pub data Result {ℓ} (A : Type ℓ) : Type ℓ where
  ok : A → Result A
  err : Failure → Result A

-- `if (b) throw e`
abbrev pub throw_if : Bool → Failure → Result (Unit {0})
throw_if true e = err e
throw_if false e = ok tt

abbrev pub bind {ℓ κ} : {A : Type ℓ} {B : Type κ} → Result A → (A → Result B) → Result B
bind (ok a) f = f a
bind (err e) f = err e

pub Result-cases {ℓ} :
    {A : Type ℓ} (r : Result A) → ((a : A) × (r ≡ ok a)) ⊎ ((e : Failure) × (r ≡ err e))
Result-cases (ok a) = inl (a, refl)
Result-cases (err e) = inr (e, refl)

pub ok-inj {ℓ} : {A : Type ℓ} {a b : A} → ok a ≡ ok b → a ≡ b
ok-inj h = cc

-- for tests: a result is no exception, and its value
module _ {ℓ} {A : Type ℓ} where
  abbrev pub IsOk : Result A → Type 0
  IsOk (ok a) = Unit
  IsOk (err e) = ⊥

  abbrev pub value : (r : Result A) → IsOk r → A
  value (ok a) h = a
  value (err e) h = absurd h

  pub value_lem : (r : Result A) → (h : IsOk r) → r ≡ ok (value r h)
  value_lem (ok a) h = refl
  value_lem (err e) h = absurd h

-- A sequence that succeeds is two parts that succeed.
pub bind-eq_ok {ℓ κ} :
    {A : Type ℓ} {B : Type κ} (m : Result A) (f : A → Result B) {r : B}
    → bind m f ≡ ok r
    → (a : A) × (m ≡ ok a) × (f a ≡ ok r)
bind-eq_ok (ok a) f h = (a, refl, h)
bind-eq_ok (err e) f h = absurd (ground arith)

pub throw_if-eq_ok : (b : Bool) (e : Failure) {u : Unit {0}} → throw_if b e ≡ ok u → b ≡ false
throw_if-eq_ok true e h = absurd (ground arith)
throw_if-eq_ok false e h = refl
