-- ===== src/Edge/Ledger/Reversal.antt =====
-- inventory-ledger.service.ts, `postManual`: reversals, and what may be posted by hand.
use eventcommerce_os.Base.{
  ◌≡◌, refl, ◌≢◌, ◌≤◌, String, Option, none, some, Bool, false, List, [], ◌∷◌, ◌==◌, string_eq,
  option_eq, ok, arith, inl, inr, Bool-cases, Option-cases, ==_iff, find, length, select, includes,
}
use eventcommerce_os.Base.Int.{neg}
use eventcommerce_os.Domain.Movement.{reversal, movement_type_eq, InventoryMovementType-discrete}
use eventcommerce_os.Edge.Rows.{LedgerRow, stock}
use eventcommerce_os.Edge.Db.{Db}
use eventcommerce_os.Edge.Db.Inversion.{>>=-eq_ok}
use eventcommerce_os.Edge.Ledger.{collides, reverses, truthy}
use eventcommerce_os.Edge.Ledger.Manual.{
  ManualMovementInput, manual_movement, post_manual, post_reversal, check_target, reverse_target,
  after_previous, dedicated_workflow_movements,
}
use eventcommerce_os.Edge.Ledger.Insert.{IsLedger, Matches, insert-Matches, same_movement-Matches}

none_reverse :
    (target : String) (row : LedgerRow) (rows : List LedgerRow)
    → row.reversal_of_ledger_id ≡ some target
    → collides row rows ≡ false
    → length (select (reverses (some target)) rows) ≡ 0
unfolding collides
none_reverse target row [] e h = refl
none_reverse target row (old ∷ rows) e h = ground (arith, none_reverse target row rows e)

-- In a valid ledger no movement is reversed twice.
pub reversed_once :
    (target : String) (rows : List LedgerRow)
    → IsLedger rows
    → length (select (reverses (some target)) rows) ≤ 1
reversed_once target [] v = omega arith
reversed_once target (row ∷ rows) v =
    ground (arith, reversed_once target rows v.3, none_reverse target row rows)

-- What a reversal that is accepted has to do with the movement that it reverses.
pub record Negates (row target : LedgerRow) : Type 0 where
  pub event_id : row.event_id ≡ target.event_id
  pub location : row.inventory_location_id ≡ target.inventory_location_id
  pub sku_id : row.sku_id ≡ target.sku_id
  pub quantity : row.quantity_delta ≡ neg target.quantity_delta
  pub is_reversal : row.movement_type ≡ reversal
  pub not_itself : target.movement_type ≢ reversal

after_previous-Matches :
    (input : ManualMovementInput) (previous : Option LedgerRow) (db : Db) {row : LedgerRow}
    {db' : Db}
    → after_previous input previous db ≡ ok (row, db')
    → Matches row (manual_movement input)
unfolding after_previous
after_previous-Matches input none db h = insert-Matches (manual_movement input) db h
after_previous-Matches input (some old) db {row} h =
    ground (arith, same_movement-Matches row (manual_movement input))

check_target-Negates :
    (input : ManualMovementInput) (target row : LedgerRow) (db : Db) {r : Unit {0} × Db}
    → check_target input target db ≡ ok r
    → input.movement_type ≡ reversal
    → Matches row (manual_movement input)
    → (Negates row target) × (r.1 ≡ db)
unfolding check_target
check_target-Negates input target row db h e m = ground arith

reverse_target-Negates :
    (input : ManualMovementInput) (target : LedgerRow) (db : Db) {row : LedgerRow} {db' : Db}
    → reverse_target input target db ≡ ok (row, db')
    → input.movement_type ≡ reversal
    → Negates row target
unfolding reverse_target
reverse_target-Negates input target db {row} {db'} h e =
    let (_, db₁, checked, rest) = >>=-eq_ok (check_target input target) _ db h in
    let previous = find (λ row. row.reversal_of_ledger_id == some target.id) db₁.ledger in
    (check_target-Negates input target row db checked e
      (after_previous-Matches input previous db₁ rest)).0

abbrev has_id : String → LedgerRow → Bool
has_id id row = row.id == id

post_reversal-Negates :
    (input : ManualMovementInput) (target_id : Option String) (db : Db) {row : LedgerRow} {db' : Db}
    → post_reversal input target_id db ≡ ok (row, db')
    → input.movement_type ≡ reversal
    → (id : String) × (target : LedgerRow) × (target_id ≡ some id)
      × (find (has_id id) db.ledger ≡ some target)
      × Negates row target
unfolding post_reversal
post_reversal-Negates input none db h e = cc
post_reversal-Negates input (some id) db {row} {db'} h e =
    elim (Option-cases (find (has_id id) db.ledger)) [
      | inl missing ↦ absurd (ground arith)
      | inr (target, found) ↦ (
        id,
        target,
        refl,
        found,
        reverse_target-Negates input target
            (record db {
              locks = stock input.event_id input.inventory_location_id input.sku_id ∷ db.locks;
            })
            {row = row} {db' = db'} (ground arith) e,
      )
    ]

-- A REVERSAL that is accepted negates one movement of the ledger exactly: the movement that it
-- names is there, is not itself a reversal, and is of the same event, location and SKU, and the
-- reversal's quantity is its quantity negated.
pub post_manual-Negates :
    (input : ManualMovementInput) (db : Db) {row : LedgerRow} {db' : Db}
    → post_manual input db ≡ ok (row, db')
    → input.movement_type ≡ reversal
    → (id : String) × (target : LedgerRow) × (truthy input.reversal_of_ledger_id ≡ some id)
      × (find (has_id id) db.ledger ≡ some target)
      × Negates row target
unfolding post_manual
post_manual-Negates input db {row} {db'} h e =
    post_reversal-Negates input (truthy input.reversal_of_ledger_id) db {row = row} {db' = db'}
      (ground arith) e

-- Sales, recipe consumption, transfers and count adjustments cannot be posted by hand: no row that
-- `postManual` returns is of such a type.
pub post_manual-not_dedicated :
    (input : ManualMovementInput) (db : Db) {row : LedgerRow} {db' : Db}
    → post_manual input db ≡ ok (row, db')
    → includes row.movement_type dedicated_workflow_movements ≡ false
unfolding post_manual InventoryMovementType-discrete
post_manual-not_dedicated input db {row} {db'} h =
    elim (Bool-cases (input.movement_type == reversal)) [
      | inl yes_reversal ↦
          let e = (==_iff input.movement_type reversal).0 yes_reversal in
          let (_, _, _, _, n) = post_manual-Negates input db h e in rw n.is_reversal refl
      | inr other ↦
          ground (arith, insert-Matches (manual_movement input) db {row = row} {db' = db'})
    ]
