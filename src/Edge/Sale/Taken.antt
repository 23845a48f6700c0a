-- ===== src/Edge/Sale/Taken.antt =====
-- inventory-sale-consumer.service.ts, `consumeOne`: what a sale takes from the stock.
use mathlib.Core.Path.{subst}
use mathlib.Core.List.{Memᴰ}
use eventcommerce_os.Base.Int.{neg}
use eventcommerce_os.Base.{
  ◌≡◌, refl, none, String, Option, some, Bool, true, List, [], ◌∷◌, string_eq, option_eq,
  Bool-cases, Result-cases, ok, arith, inl, inr, find, any, All,
}
use eventcommerce_os.Contracts.{SyncEventEnvelope}
use eventcommerce_os.Edge.Rows.{Instant, LedgerRow}
use eventcommerce_os.Edge.Ledger.{same_movement}
use eventcommerce_os.Edge.Sale.Tables.{SaleDb, MappingRow}
use eventcommerce_os.Edge.Sale.Reading.{ParsedSale, parse}
use eventcommerce_os.Edge.Sale.Recipes.{SaleMovement, expanded, expand}
use eventcommerce_os.Edge.Sale.{
  post_sale, settle_sale, consume_mapped, consume_parsed, consume_one, is_mapped, known_skus,
  sold_recipes, sale_input,
}
use eventcommerce_os.Edge.Sale.Posted.{Holds, input_of, post_sale-Holds}

-- The specification: a row takes a movement of a sale from the stock of a place.
pub record IsSaleRow (event : SyncEventEnvelope) (parsed : ParsedSale) (location : String)
    (at : Instant) (movement : SaleMovement) (row : LedgerRow) : Type 0 where
  pub event_id : row.event_id ≡ parsed.event_id
  pub place : row.inventory_location_id ≡ location
  pub sku_id : row.sku_id ≡ movement.sku_id
  pub movement_type : row.movement_type ≡ movement.movement_type
  pub taken : row.quantity_delta ≡ neg movement.quantity
  pub order : (row.source_type ≡ "ORDER") × (row.source_id ≡ parsed.order_id)
  pub source_event : row.source_event_instance_id ≡ some event.event_instance_id
  pub device : row.device_id ≡ some event.device_id
  pub time : row.occurred_at ≡ at
  pub no_reversal : row.reversal_of_ledger_id ≡ none

-- the ledger has such a row
abbrev pub IsTaken :
    SyncEventEnvelope
    → ParsedSale
    → String
    → Instant
    → List LedgerRow
    → String × SaleMovement
    → Type 0
IsTaken event parsed location at rows entry =
    (row : LedgerRow) × Memᴰ row rows × IsSaleRow event parsed location at entry.1 row

member_of_any {ℓ} :
    {A : Type ℓ} (p : A → Bool) (xs : List A) → any p xs ≡ true → (x : A) × Memᴰ x xs × (p x ≡ true)
member_of_any p [] h = absurd (ground arith)
member_of_any p (x ∷ xs) h = elim (Bool-cases (p x)) [
  | inl here ↦ (x, Memᴰ.head refl, here)
  | inr other ↦ let (y, m, holds) = member_of_any p xs (ground arith) in (y, Memᴰ.tail m, holds)
]

same_movement-IsSaleRow :
    (event : SyncEventEnvelope) (parsed : ParsedSale) (location : String) (at : Instant)
    (movement : SaleMovement) (row : LedgerRow)
    → same_movement row (sale_input event parsed location at movement) ≡ true
    → IsSaleRow event parsed location at movement row
unfolding same_movement sale_input
same_movement-IsSaleRow event parsed location at movement row h = ground arith

IsTaken-Holds :
    (event : SyncEventEnvelope) (parsed : ParsedSale) (location : String) (at : Instant)
    (entry : String × SaleMovement) (rows : List LedgerRow)
    → Holds (sale_input event parsed location at entry.1) rows
    → IsTaken event parsed location at rows entry
IsTaken-Holds event parsed location at entry rows h =
    let input = sale_input event parsed location at entry.1 in
    let (row, m, same) = member_of_any (λ r. same_movement r input) rows h in
    (row, m, same_movement-IsSaleRow event parsed location at entry.1 row same)

All-weaken :
    {A : Type 0} {P Q : A → Type 0} (f : (a : A) → P a → Q a) (xs : List A) → All P xs → All Q xs
All-weaken f [] h = tt
All-weaken f (x ∷ xs) h = (f x h.0, All-weaken f xs h.1)

-- A sale that is consumed without an exception of the code, and whose payload, mapping and SKUs are in
-- order, is on the ledger: for each movement that its lines were expanded to, the ledger has a row of
-- the sale's event, order, instance and device, at the place that is mapped to where it was sold and at
-- its time, of the movement's SKU and type, that takes the movement's quantity from the stock.
pub consume_one-IsTaken :
    (event : SyncEventEnvelope) (db : SaleDb) (parsed : ParsedSale) (mapping : MappingRow)
    {movements : List (String × SaleMovement)} {affected : Option String} {db' : SaleDb}
    → parse event ≡ some parsed
    → find (is_mapped parsed) db.mappings ≡ some mapping
    → expand (known_skus parsed.event_id db) (sold_recipes parsed db) parsed.lines []
      ≡ ok (expanded movements)
    → consume_one event db ≡ (ok affected, db')
    → All
        (IsTaken event parsed mapping.inventory_location_id
          (db.milliseconds event.occurred_at)
          db'.stock.ledger)
        movements
unfolding consume_one consume_parsed consume_mapped settle_sale
consume_one-IsTaken event db parsed mapping {movements} {affected} {db'} p m x h =
    elim (Result-cases (post_sale event parsed mapping.inventory_location_id movements db)) [
      | inl (after, e) ↦
          All-weaken
            (λ entry held.
              IsTaken-Holds event parsed mapping.inventory_location_id
                (db.milliseconds event.occurred_at) entry db'.stock.ledger held)
            movements
            (subst
              (λ rows.
                All (λ m. Holds (input_of db event parsed mapping.inventory_location_id m) rows)
                  movements)
              (ground arith)
              (post_sale-Holds event parsed mapping.inventory_location_id movements db e))
      | inr (failure, e) ↦ absurd (ground arith)
    ]
