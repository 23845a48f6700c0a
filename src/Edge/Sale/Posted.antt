-- ===== src/Edge/Sale/Posted.antt =====
-- inventory-sale-consumer.service.ts, `consumeOne`: what the ledger has after a sale was posted.
use mathlib.Core.Path.{subst}
use eventcommerce_os.Base.{
  ◌≡◌, String, some, Bool, true, List, [], ◌∷◌, ◌==◌, map, string_eq, option_eq, Option-cases,
  Bool-cases, Result-cases, ok, arith, inl, inr, find, any, All,
}
use eventcommerce_os.Base.Sorting.{insert_sorted, sort_by}
use eventcommerce_os.Contracts.{SyncEventEnvelope}
use eventcommerce_os.Edge.Rows.{LedgerInput, LedgerRow}
use eventcommerce_os.Edge.Db.{Db, each}
use eventcommerce_os.Edge.Ledger.{insert, lock_stock, same_movement, same_id, existing_row}
use eventcommerce_os.Edge.Ledger.Posting.{
  Posted, inserted, replayed, insert-eq_ok, insert_with-Posted, same_movement-row_of,
}
use eventcommerce_os.Edge.Sale.Tables.{SaleDb, mark_processed}
use eventcommerce_os.Edge.Sale.Reading.{ParsedSale}
use eventcommerce_os.Edge.Sale.Recipes.{SaleMovement}
use eventcommerce_os.Edge.Sale.{
  insert_all, post_movements, post_sale, sale_input, ordered, movement_le, distinct,
}

-- a row of the ledger has the content of a movement
abbrev pub Holds : LedgerInput → List LedgerRow → Type 0
Holds input rows = any (λ row. same_movement row input) rows ≡ true

-- a ledger keeps what another holds
abbrev pub Keeps : List LedgerRow → List LedgerRow → Type 0
Keeps rows rows' = (other : LedgerInput) → Holds other rows → Holds other rows'

any_of_found {ℓ} :
    {A : Type ℓ} (p q : A → Bool) (xs : List A) {x : A}
    → find p xs ≡ some x
    → q x ≡ true
    → any q xs ≡ true
any_of_found p q [] h k = cc
any_of_found p q (y ∷ ys) {x} h k = ground (arith, any_of_found p q ys {x = x})

existing-Holds :
    (input : LedgerInput) (id : String) (rows : List LedgerRow) {row : LedgerRow}
    → existing_row input.idempotency_key id rows ≡ some row
    → same_movement row input ≡ true
    → Holds input rows
unfolding existing_row
existing-Holds input id rows {row} h same =
    elim (Option-cases (find (λ r. r.idempotency_key == input.idempotency_key) rows)) [
      | inl e ↦
          ground (arith, any_of_found (λ r. r.id == id) (λ r. same_movement r input) rows {x = row})
      | inr (old, e) ↦ ground (
        arith,
        any_of_found (λ r. r.idempotency_key == input.idempotency_key) (λ r. same_movement r input)
            rows {x = row},
      )
    ]

Posted-Holds :
    (input : LedgerInput) (id : String) (db : Db) {row : LedgerRow} {db' : Db}
    → same_id input.id id ≡ true
    → Posted input id db row db'
    → Holds input db'.ledger × Keeps db.ledger db'.ledger
Posted-Holds input id db s (inserted r f c e) =
    rw (e, r) (ground (arith, same_movement-row_of id input s), λ other h. ground arith)
Posted-Holds input id db s (replayed x same e) =
    rw e (existing-Holds input id db.ledger x same, λ other h. h)

insert-Holds :
    (input : LedgerInput) (db : Db) {row : LedgerRow} {db' : Db}
    → insert input db ≡ ok (row, db')
    → Holds input db'.ledger × Keeps db.ledger db'.ledger
insert-Holds input db h =
    let (id, _, same, _, run) = insert-eq_ok input db h in
    Posted-Holds input id _ same (insert_with-Posted input id _ run)

insert_all-Holds :
    (inputs : List LedgerInput) (db : Db) {done : Unit} {db' : Db}
    → insert_all inputs db ≡ ok (done, db')
    → All (λ input. Holds input db'.ledger) inputs × Keeps db.ledger db'.ledger
unfolding insert_all
insert_all-Holds [] db h = (tt, λ other held. subst (λ rows. Holds other rows) (ground arith) held)
insert_all-Holds (input ∷ inputs) db {done} {db'} h = elim (Result-cases (insert input db)) [
  | inl ((row, mid), e) ↦
      let (holds, keeps) = insert-Holds input db e in
      let (others, still) = insert_all-Holds inputs mid {done = done} {db' = db'} (ground arith) in
      ((still input holds, others), λ other held. still other (keeps other held))
  | inr (failure, e) ↦ absurd (ground arith)
]

locks-ledger :
    (event_id location : String) (skus : List String) (db : Db) {done : Unit} {db' : Db}
    → each skus (lock_stock event_id location) db ≡ ok (done, db')
    → db'.ledger ≡ db.ledger
unfolding lock_stock
locks-ledger event_id location [] db h = ground arith
locks-ledger event_id location (sku ∷ skus) db {done} {db'} h =
    locks-ledger event_id location skus _ {done = done} {db' = db'} h

post_movements-Holds :
    (event_id location : String) (inputs : List LedgerInput) (db : Db) {done : Unit} {db' : Db}
    → post_movements event_id location inputs db ≡ ok (done, db')
    → All (λ input. Holds input db'.ledger) inputs
unfolding post_movements
post_movements-Holds event_id location inputs db {done} {db'} h =
    elim (Result-cases
      (each (distinct (map (λ input. input.sku_id) inputs)) (lock_stock event_id location) db)) [
        | inl ((u, mid), e) ↦
            (insert_all-Holds inputs mid {done = done} {db' = db'} (ground arith)).0
        | inr (failure, e) ↦ absurd (ground arith)
      ]

-- sorting keeps every item
module _ {A : Type 0} (le : A → A → Bool) (P : A → Type 0) where
  All-insert_sorted :
      (x : A) (xs : List A) → All P (insert_sorted le (λ a. a) x xs) → P x × All P xs
  All-insert_sorted x [] h = h
  All-insert_sorted x (y ∷ ys) h = elim (Bool-cases (le x y)) [
    | inl e ↦ rw e at h
    | inr e ↦
        let (head, rest) = rw e at h in
        let (first, others) = All-insert_sorted x ys rest in (first, (head, others))
  ]

  All-sort_by : (xs : List A) → All P (sort_by le (λ a. a) xs) → All P xs
  All-sort_by [] h = tt
  All-sort_by (x ∷ xs) h =
      let (first, others) = All-insert_sorted x (sort_by le (λ a. a) xs) h in
      (first, All-sort_by xs others)

All-map :
    {A B : Type 0} (f : A → B) (P : B → Type 0) (xs : List A)
    → All P (map f xs)
    → All (λ a. P (f a)) xs
All-map f P [] h = tt
All-map f P (x ∷ xs) h = (h.0, All-map f P xs h.1)

-- the movement of an entry, as `consumeOne` posts it
abbrev pub input_of :
    SaleDb → SyncEventEnvelope → ParsedSale → String → String × SaleMovement → LedgerInput
input_of db event parsed location entry =
    sale_input event parsed location (db.milliseconds event.occurred_at) entry.1

pub post_sale-Holds :
    (event : SyncEventEnvelope) (parsed : ParsedSale) (location : String)
    (movements : List (String × SaleMovement)) (db : SaleDb) {db' : SaleDb}
    → post_sale event parsed location movements db ≡ ok db'
    → All (λ m. Holds (input_of db event parsed location m) db'.stock.ledger) movements
unfolding post_sale ordered mark_processed
post_sale-Holds event parsed location movements db {db'} h =
    elim (Result-cases (post_movements parsed.event_id location inputs db.stock)) [
      | inl ((u, stock), e) ↦
          subst (λ rows. All (λ m. Holds (input_of db event parsed location m) rows) movements)
            (ground arith)
            (All-map (λ m. m.1) (λ m. Holds (input m) stock.ledger) movements
              (All-sort_by (movement_le db.stock.locale_le) (λ m. Holds (input m) stock.ledger)
                (map (λ m. m.1) movements)
                (All-map input (λ i. Holds i stock.ledger) (ordered db.stock.locale_le movements)
                  (post_movements-Holds parsed.event_id location inputs db.stock e))))
      | inr (failure, e) ↦ absurd (ground arith)
    ]
  where
    input : SaleMovement → LedgerInput
    input = sale_input event parsed location (db.milliseconds event.occurred_at)

    inputs : List LedgerInput
    inputs = map input (ordered db.stock.locale_le movements)
