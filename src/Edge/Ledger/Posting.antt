-- ===== src/Edge/Ledger/Posting.antt =====
-- inventory-ledger.service.ts, `insert`: how it ends, and how a movement is found again.
use eventcommerce_os.Base.{
  ◌≡◌, refl, ap, ◌∙◌, ℕ, ◌+◌, String, Option, none, some, Bool, true, false, List, [], ◌∷◌, ◌==◌,
  string_eq, option_eq, Result, ok, err, Failure, arith, ◌⊎◌, inl, inr, find, Bool-cases,
  Option-cases, template,
}
use eventcommerce_os.Base.Int.{ℤ, fits_bigint}
use eventcommerce_os.Domain.Movement.{InventoryMovementType, require_inventory_delta}
use eventcommerce_os.Domain.Movement.Signs.{require_inventory_delta_same}
use eventcommerce_os.Edge.Rows.{LedgerInput, LedgerRow, OutboxRow, ledger_posted, stock}
use eventcommerce_os.Edge.Db.{Db}
use eventcommerce_os.Edge.Ledger.{
  insert, insert_with, row_of, collides, existing_row, same_movement, same_id,
}

abbrev pub outbox_row : LedgerRow → OutboxRow
outbox_row row = record {
  id = template ("ledger:" ∷ row.id ∷ []);
  aggregate_id = row.id;
  payload = ledger_posted row;
}

-- What a successful `insert` has done, from the database `db` in which it has its lock and its id:
-- it has written one row and queued it for the cloud, or it has found the same movement and written
-- nothing. It touches no other table.
pub data Posted (input : LedgerInput) (id : String) (db : Db) (row : LedgerRow) (db' : Db)
    : Type 0 where
  inserted :
      row ≡ row_of id input
      → fits_bigint input.quantity_delta_base ≡ true
      → collides row db.ledger ≡ false
      → db' ≡ record db { ledger = row ∷ db.ledger; outbox = outbox_row row ∷ db.outbox }
      → Posted input id db row db'
  replayed :
      existing_row input.idempotency_key id db.ledger ≡ some row
      → same_movement row input ≡ true
      → db' ≡ db
      → Posted input id db row db'

pub insert_with-Posted :
    (input : LedgerInput) (id : String) (db : Db) {row : LedgerRow} {db' : Db}
    → insert_with input id db ≡ ok (row, db')
    → Posted input id db row db'
unfolding insert_with
insert_with-Posted input id db {row} {db'} h =
    elim (Bool-cases (collides (row_of id input) db.ledger)) [
      | inl taken ↦ elim (Option-cases (existing_row input.idempotency_key id db.ledger)) [
        | inl e ↦ absurd (ground arith)
        | inr (old, e) ↦ replayed (ground arith) (ground arith) (ground arith)
      ]
      | inr free ↦ inserted (ground arith) (ground arith) (ground arith) (ground arith)
    ]

pub same_movement-row_of :
    (id : String) (input : LedgerInput)
    → same_id input.id id ≡ true
    → same_movement (row_of id input) input ≡ true
unfolding same_movement
same_movement-row_of id input h = ground arith

collides_key :
    (row old : LedgerRow) (rows : List LedgerRow)
    → old.idempotency_key ≡ row.idempotency_key
    → collides row (old ∷ rows) ≡ true
unfolding collides
collides_key row old rows h = ground arith

existing_head :
    (key id : String) (row : LedgerRow) (rows : List LedgerRow)
    → row.idempotency_key ≡ key
    → existing_row key id (row ∷ rows) ≡ some row
unfolding existing_row
existing_head key id row rows h = ground arith

require_cases :
    (type : InventoryMovementType) (q : ℤ)
    → (require_inventory_delta type q ≡ ok q)
      ⊎ ((e : Failure) × (require_inventory_delta type q ≡ err e))
require_cases type q = go (require_inventory_delta type q) refl
  where
    go :
        (r : Result ℤ)
        → require_inventory_delta type q ≡ r
        → (require_inventory_delta type q ≡ ok q)
          ⊎ ((e : Failure) × (require_inventory_delta type q ≡ err e))
    go (ok r) e = inl (e ∙ ap ok (require_inventory_delta_same type q e))
    go (err f) e = inr (f, e)

-- the way in of `insert`: its sign check, its lock and its id come before the row is written
pub insert-eq_ok :
    (input : LedgerInput) (db : Db) {row : LedgerRow} {db' : Db}
    → insert input db ≡ ok (row, db')
    → (id : String) × (drawn : ℕ) × (same_id input.id id ≡ true)
      × (require_inventory_delta input.movement_type input.quantity_delta_base
          ≡ ok input.quantity_delta_base)
      × (insert_with input id (record db {
        locks = stock input.event_id input.inventory_location_id input.sku_id ∷ db.locks;
        drawn = drawn;
      })
          ≡ ok (row, db'))
unfolding insert
insert-eq_ok input db h = elim (Option-cases input.id) [
  | inl e ↦ (db.uuids db.drawn, db.drawn + 1, ground arith, sign, ground arith)
  | inr (id, e) ↦ (id, db.drawn, ground arith, sign, ground arith)
]
  where
    sign :
        require_inventory_delta input.movement_type input.quantity_delta_base
        ≡ ok input.quantity_delta_base
    sign = ground (arith, require_cases input.movement_type input.quantity_delta_base)

-- whether a row has an idempotency key
abbrev has_key : String → LedgerRow → Bool
has_key key row = row.idempotency_key == key

collides_found :
    (row : LedgerRow) (rows : List LedgerRow) {old : LedgerRow}
    → find (has_key row.idempotency_key) rows ≡ some old
    → collides row rows ≡ true
unfolding collides
collides_found row [] h = cc
collides_found row (x ∷ rows) {old} h = ground (arith, collides_found row rows {old = old})

find_other {ℓ} :
    {A : Type ℓ} (p q : A → Bool) (xs : List A) {x : A}
    → find p xs ≡ none
    → find q xs ≡ some x
    → p x ≡ false
find_other p q [] h k = cc
find_other p q (y ∷ ys) {x} h k = ground (arith, find_other p q ys {x = x})

existing-find :
    (key id : String) (rows : List LedgerRow) {row : LedgerRow}
    → existing_row key id rows ≡ some row
    → row.idempotency_key ≡ key
    → find (has_key key) rows ≡ some row
unfolding existing_row
existing-find key id rows {row} h k = elim (Option-cases (find (has_key key) rows)) [
  | inl e ↦ ground (arith, find_other (has_key key) (λ r. r.id == id) rows {x = row} e)
  | inr (old, e) ↦ ground arith
]

insert_with-found :
    (input : LedgerInput) (id : String) (db : Db) (row : LedgerRow)
    → fits_bigint input.quantity_delta_base ≡ true
    → find (has_key input.idempotency_key) db.ledger ≡ some row
    → same_movement row input ≡ true
    → insert_with input id db ≡ ok (row, db)
unfolding insert_with existing_row
insert_with-found input id db row fits f same =
    ground (arith, collides_found (row_of id input) db.ledger {old = row} f)

-- how far the stream of random values is after a call
abbrev drawn_after : Option String → ℕ → ℕ
drawn_after none n = n + 1
drawn_after (some _) n = n

-- What an earlier row under the same idempotency key, with the same movement, makes of a call.
pub insert-found :
    (input : LedgerInput) (db : Db) (row : LedgerRow)
    → require_inventory_delta input.movement_type input.quantity_delta_base
      ≡ ok input.quantity_delta_base
    → fits_bigint input.quantity_delta_base ≡ true
    → find (has_key input.idempotency_key) db.ledger ≡ some row
    → same_movement row input ≡ true
    → insert input db
      ≡ ok (
        row,
        record db {
          locks = stock input.event_id input.inventory_location_id input.sku_id ∷ db.locks;
          drawn = drawn_after input.id db.drawn;
        },
      )
unfolding insert
insert-found input db row sign fits f same = elim (Option-cases input.id) [
  | inl e ↦ ground (
    arith,
    insert_with-found input (db.uuids db.drawn)
        (record db {
          locks = stock input.event_id input.inventory_location_id input.sku_id ∷ db.locks;
          drawn = db.drawn + 1;
        })
        row fits f same,
  )
  | inr (id, e) ↦ ground (
    arith,
    insert_with-found input id
        (record db {
          locks = stock input.event_id input.inventory_location_id input.sku_id ∷ db.locks;
        })
        row fits f same,
  )
]

-- What is found in the ledger after a successful call: the row, under the key of the call.
pub Posted-found :
    (input : LedgerInput) (id : String) (db : Db) {row : LedgerRow} {db' : Db}
    → same_id input.id id ≡ true
    → row.idempotency_key ≡ input.idempotency_key
    → Posted input id db row db'
    → (find (has_key input.idempotency_key) db'.ledger ≡ some row)
      × (same_movement row input ≡ true)
Posted-found input id db s k (inserted r f c e) =
    (ground arith, rw r (same_movement-row_of id input s))
Posted-found input id db {row} s k (replayed x m e) =
    (rw e (existing-find input.idempotency_key id db.ledger x k), m)

pub insert_with-fits :
    (input : LedgerInput) (id : String) (db : Db) {row : LedgerRow} {db' : Db}
    → insert_with input id db ≡ ok (row, db')
    → fits_bigint input.quantity_delta_base ≡ true
unfolding insert_with
insert_with-fits input id db h = ground arith
