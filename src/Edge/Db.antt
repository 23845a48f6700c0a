-- ===== src/Edge/Db.antt =====
-- apps/event-edge/src/database/database.service.ts: the Edge's inventory tables, and what runs
-- inside `transaction`. An action that throws has no state after it: the transaction rolls back.
-- A lock is held to the end of the transaction; the list has the last one taken at its head.
pub mod Inversion
use eventcommerce_os.Base.{
  ℕ, ◌+◌, String, Option, Bool, true, false, List, [], ◌∷◌, Result, ok, err, Failure, database,
}
use eventcommerce_os.Edge.Rows.{
  Instant, PermissionRow, LocationRow, SkuRow, LedgerRow, TransferDbRow, TransferLineRow,
  HistoryRow, ReceiptRow, CountRow, CountLineRow, OutboxRow, LockKey,
}

pub record Db : Type 0 where
  pub permissions : List PermissionRow
  pub locations : List LocationRow
  pub skus : List SkuRow
  pub ledger : List LedgerRow
  pub transfers : List TransferDbRow
  pub transfer_lines : List TransferLineRow
  pub history : List HistoryRow
  pub receipts : List ReceiptRow
  pub counts : List CountRow
  pub count_lines : List CountLineRow
  pub outbox : List OutboxRow
  pub locks : List LockKey
  -- the values that `randomUUID` will return, and how many it has returned
  pub uuids : ℕ → String
  pub drawn : ℕ
  -- `now()` in the transaction
  pub now : Instant
  -- the order of `localeCompare`, and that of ORDER BY on a text column
  pub locale_le : String → String → Bool
  pub sql_le : String → String → Bool

abbrev pub Tx : Type 0 → Type 0
Tx A = Db → Result (A × Db)

module _ {A : Type 0} where
  abbrev pub pure : A → Tx A
  pure a db = ok (a, db)

  abbrev pub throw : Failure → Tx A
  throw e db = err e

  abbrev pub lift : Result A → Tx A
  lift (ok a) db = ok (a, db)
  lift (err e) db = err e

  abbrev pub gets : (Db → A) → Tx A
  gets f db = ok (f db, db)

  -- a row that must be there
  abbrev pub or_throw : Option A → Failure → Tx A
  or_throw Option.none e db = err e
  or_throw (Option.some a) e db = ok (a, db)

-- `if (b) { … } else { … }`
abbrev pub branch : {A : Type 0} → Bool → Tx A → Tx A → Tx A
branch true m k db = m db
branch false m k db = k db

infixl 5 ◌>>=◌ ◌>>◌
abbrev pub ◌>>=◌ : {A B : Type 0} → Tx A → (A → Tx B) → Tx B
◌>>=◌ m f db = elim (m db) [ ok (a, db') ↦ f a db' | err e ↦ err e ]

abbrev pub ◌>>◌ : {A B : Type 0} → Tx A → Tx B → Tx B
m >> k = m >>= λ _. k

-- `if (b) throw e`
abbrev pub throw_when : Bool → Failure → Tx (Unit {0})
throw_when true e db = err e
throw_when false e db = ok (tt, db)

abbrev pub modify : (Db → Db) → Tx (Unit {0})
modify f db = ok (tt, f db)

-- `for (const x of xs) await f(x)`
abbrev pub each : {A : Type 0} → List A → (A → Tx (Unit {0})) → Tx (Unit {0})
each [] f db = ok (tt, db)
each (x ∷ xs) f db = elim (f x db) [ ok (a, db') ↦ each xs f db' | err e ↦ err e ]

unfoldable pub random_uuid : Tx String
random_uuid db = ok (db.uuids db.drawn, record db { drawn = db.drawn + 1 })

unfoldable pub lock : LockKey → Tx (Unit {0})
lock key db = ok (tt, record db { locks = key ∷ db.locks })

-- `transaction(operation)`: COMMIT releases the locks; on an exception ROLLBACK leaves the tables
-- as they were. (The random values drawn before it are drawn again: no row has kept them.)
unfoldable pub transaction : {A : Type 0} → Tx A → Db → Result A × Db
transaction operation db = elim (operation db) [
  | ok (a, db') ↦ (ok a, record db' { locks = [] })
  | err e ↦ (err e, record db { locks = [] })
]
