-- ===== src/Edge/Ledger/Insert.antt =====
-- inventory-ledger.service.ts, `insert`: the ledger only grows, by one valid row, and a replay of
-- the same movement changes nothing.
use eventcommerce_os.Base.{
  ◌≡◌, refl, String, true, false, List, [], ◌∷◌, string_eq, option_eq, ok, arith, ◌⊎◌, inl, inr,
}
use eventcommerce_os.Base.Int.{fits_bigint}
use eventcommerce_os.Domain.Movement.Signs.{HasRightSign, require_inventory_delta_iff}
use eventcommerce_os.Edge.Rows.{InventoryPermission, LedgerInput, LedgerRow}
use eventcommerce_os.Edge.Db.{Db}
use eventcommerce_os.Edge.Ledger.{authorize, insert, collides, same_movement}
use eventcommerce_os.Edge.Ledger.Posting.{
  Posted, inserted, replayed, insert_with-Posted, insert-eq_ok, insert-found, Posted-found,
  insert_with-fits,
}

-- A replay of a posted movement is safe: after a movement was accepted under its idempotency key,
-- the same call returns the same row again, and neither the ledger nor the outbox changes.
pub insert_replay :
    (input : LedgerInput) (db : Db) {row : LedgerRow} {db' : Db}
    → insert input db ≡ ok (row, db')
    → row.idempotency_key ≡ input.idempotency_key
    → (db'' : Db) × (insert input db' ≡ ok (row, db''))
      × (db''.ledger ≡ db'.ledger)
      × (db''.outbox ≡ db'.outbox)
insert_replay input db {row} {db'} h k =
    let (id, drawn, same, sign, run) = insert-eq_ok input db h in
    let (found, matches) = Posted-found input id _ same k (insert_with-Posted input id _ run) in
    (_, insert-found input db' row sign (insert_with-fits input id _ run) found matches, refl, refl)

-- A valid ledger, from its oldest row up: no row collides with an older one in a unique index (its
-- id, its idempotency key, the movement that it reverses), and every quantity has the right sign for
-- its movement and fits its column.
abbrev pub IsLedger : List LedgerRow → Type 0
IsLedger [] = Unit
IsLedger (row ∷ rows) =
    (collides row rows ≡ false)
    × HasRightSign row.movement_type row.quantity_delta
    × (fits_bigint row.quantity_delta ≡ true)
    × IsLedger rows

Posted-IsLedger :
    (input : LedgerInput) (id : String) (db : Db) {row : LedgerRow} {db' : Db}
    → Posted input id db row db'
    → HasRightSign input.movement_type input.quantity_delta_base
    → IsLedger db.ledger
    → IsLedger db'.ledger × ((db'.ledger ≡ db.ledger) ⊎ (db'.ledger ≡ row ∷ db.ledger))
Posted-IsLedger input id db (inserted r f c e) s v = rw (e, r) ((rw r at c, s, f, v), inr refl)
Posted-IsLedger input id db (replayed x m e) s v = rw e (v, inl refl)

-- Every accepted movement keeps the ledger valid, and the ledger is append-only: the rows that were
-- there are there unchanged, under at most one new row.
pub insert-IsLedger :
    (input : LedgerInput) (db : Db) {row : LedgerRow} {db' : Db}
    → insert input db ≡ ok (row, db')
    → IsLedger db.ledger
    → IsLedger db'.ledger × ((db'.ledger ≡ db.ledger) ⊎ (db'.ledger ≡ row ∷ db.ledger))
insert-IsLedger input db h v =
    let (id, drawn, _, sign, run) = insert-eq_ok input db h in
    Posted-IsLedger input id _ (insert_with-Posted input id _ run)
      ((require_inventory_delta_iff input.movement_type input.quantity_delta_base).0 sign) v

-- What the returned row has in common with the movement that was asked for.
pub record Matches (row : LedgerRow) (input : LedgerInput) : Type 0 where
  pub event_id : row.event_id ≡ input.event_id
  pub location : row.inventory_location_id ≡ input.inventory_location_id
  pub sku_id : row.sku_id ≡ input.sku_id
  pub movement_type : row.movement_type ≡ input.movement_type
  pub quantity : row.quantity_delta ≡ input.quantity_delta_base
  pub source_type : row.source_type ≡ input.source_type
  pub source_id : row.source_id ≡ input.source_id
  pub actor_id : row.actor_id ≡ input.actor_id
  pub reason : row.reason ≡ input.reason
  pub occurred_at : row.occurred_at ≡ input.occurred_at
  pub target : row.reversal_of_ledger_id ≡ input.reversal_of_ledger_id

pub same_movement-Matches :
    (row : LedgerRow) (input : LedgerInput) → same_movement row input ≡ true → Matches row input
unfolding same_movement
same_movement-Matches row input h = ground arith

Posted-Matches :
    (input : LedgerInput) (id : String) (db : Db) {row : LedgerRow} {db' : Db}
    → Posted input id db row db'
    → Matches row input
Posted-Matches input id db {row} (inserted r f c e) = ground arith
Posted-Matches input id db {row} (replayed x m e) = same_movement-Matches row input m

-- Whether it is new or found, the row that `insert` returns is the movement that was asked for.
pub insert-Matches :
    (input : LedgerInput) (db : Db) {row : LedgerRow} {db' : Db}
    → insert input db ≡ ok (row, db')
    → Matches row input
insert-Matches input db h =
    let (id, drawn, _, _, run) = insert-eq_ok input db h in
    Posted-Matches input id _ (insert_with-Posted input id _ run)

-- The permission check reads the tables and leaves them alone.
pub authorize-same :
    (event actor : String) (permission : InventoryPermission) (db : Db) {r : Unit {0} × Db}
    → authorize event actor permission db ≡ ok r
    → r.1 ≡ db
unfolding authorize
authorize-same event actor permission db h = ground arith
