-- ===== src/Edge/Db/Inversion.antt =====
-- apps/event-edge/src/database/database.service.ts: rules for actions that have succeeded.
use mathlib.Core.Path.{subst}
use eventcommerce_os.Base.{◌≡◌, refl, arith, Result, ok, err, ok-inj, List, [], ◌∷◌}
use eventcommerce_os.Edge.Db.{Db, Tx, ◌>>=◌, each}

-- A sequence that succeeds is two actions that succeed.
pub >>=-eq_ok :
    {A B : Type 0} (m : Tx A) (f : A → Tx B) (db : Db) {r : B × Db}
    → (m >>= f) db ≡ ok r
    → (a : A) × (db' : Db) × (m db ≡ ok (a, db')) × (f a db' ≡ ok r)
>>=-eq_ok {A} {B} m f db {r} h = go (m db) refl
  where
    go :
        (s : Result (A × Db))
        → m db ≡ s
        → (a : A) × (db' : Db) × (m db ≡ ok (a, db')) × (f a db' ≡ ok r)
    go (ok (a, db')) e = (a, db', e, rw (e, ◌>>=◌) at h)
    go (err x) e = ground (arith, rw (e, ◌>>=◌) at h)

-- The same for the first round of a loop.
pub each-eq_ok :
    {A : Type 0} (x : A) (xs : List A) (f : A → Tx (Unit {0})) (db : Db) {r : Unit {0} × Db}
    → each (x ∷ xs) f db ≡ ok r
    → (db' : Db) × (f x db ≡ ok (tt, db')) × (each xs f db' ≡ ok r)
each-eq_ok {A} x xs f db {r} h = go (f x db) refl
  where
    go :
        (s : Result (Unit {0} × Db))
        → f x db ≡ s
        → (db' : Db) × (f x db ≡ ok (tt, db')) × (each xs f db' ≡ ok r)
    go (ok (a, db')) e = (db', e, rw (e, each) at h)
    go (err y) e = ground (arith, rw (e, each) at h)

-- What each round of a loop keeps, the loop keeps.
pub each_inv :
    {A : Type 0} (P : Db → Type 0) (xs : List A) (f : A → Tx (Unit {0})) (db : Db)
    {r : Unit {0} × Db}
    → ((x : A) (s : Db) (t : Db) → f x s ≡ ok (tt, t) → P s → P t)
    → each xs f db ≡ ok r
    → P db
    → P r.1
each_inv P [] f db {r} keep h p = subst (λ (q : Unit {0} × Db). P q.1) (ok-inj h) p
each_inv P (x ∷ xs) f db keep h p =
    let (db', first, rest) = each-eq_ok x xs f db h in
    each_inv P xs f db' keep rest (keep x db db' first p)
