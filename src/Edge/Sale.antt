-- ===== src/Edge/Sale.antt =====
-- apps/event-edge/src/inventory/inventory-sale-consumer.service.ts: the stock that a sale consumes. A
-- closed cash order is read, its lines are expanded by the recipes, and the movements are posted on
-- the ledger in one transaction; a sale that cannot be read or placed is put on the exceptions.
pub mod Tables
pub mod Reading
pub mod Recipes
pub mod Demand
pub mod Posted
pub mod Taken
pub mod Exceptions
mod Tests
use eventcommerce_os.Base.{
  ℕ, String, Option, none, some, Bool, true, false, List, [], ◌∷◌, ◌++◌, ◌+◌, map, ◌==◌, ◌!=◌, ◌||◌,
  ◌&&◌, not, string_eq, option_eq, nat_eq, Result, ok, err, any, find, select, includes,
  update_where, template, is_empty, if◌then◌else◌,
}
use eventcommerce_os.Base.Maps.{map_get, map_set}
use eventcommerce_os.Base.Sorting.{sort_by}
use eventcommerce_os.Base.Int.{ℤ, pos, ◌+ℤ◌, neg}
use eventcommerce_os.Contracts.{
  Json, text, array, object, Items, nil, item, Members, empty, member, SyncEventEnvelope,
}
use eventcommerce_os.Cloud.Sync.Payload.{field, text_of, integer_of, trimmed}
use eventcommerce_os.Domain.Movement.{
  InventoryMovementType, sale, recipe_consumption, movement_name, consume_recipe,
}
use eventcommerce_os.Edge.Rows.{Instant, LedgerInput, SkuRow}
use eventcommerce_os.Edge.Db.{Db, Tx, each, pure, ◌>>=◌, ◌>>◌, transaction}
use eventcommerce_os.Edge.Sale.Tables.{
  SaleDb, MappingRow, RecipeRow, applied, mark_processed, reject,
}
use eventcommerce_os.Edge.Sale.Reading.{SaleLine, ParsedSale, parse}
use eventcommerce_os.Edge.Sale.Recipes.{
  SaleMovement, Expansion, expanded, unknown_sku, unknown_component, expand,
}
use eventcommerce_os.Edge.Ledger.{lock_stock, insert}

-- the comparison of `orderedMovements`
unfoldable pub movement_le : (String → String → Bool) → SaleMovement → SaleMovement → Bool
movement_le le a b =
    if le a.sku_id b.sku_id && le b.sku_id a.sku_id
    then le (movement_name a.movement_type) (movement_name b.movement_type)
    else le a.sku_id b.sku_id

unfoldable pub ordered : (String → String → Bool) → List (String × SaleMovement) → List SaleMovement
unfolding movement_le
ordered le movements = sort_by (movement_le le) (λ m. m) (map (λ e. e.1) movements)

unfoldable pub sale_input :
    SyncEventEnvelope → ParsedSale → String → Instant → SaleMovement → LedgerInput
sale_input event parsed location occurred_at movement = record {
  id = none;
  event_id = parsed.event_id;
  inventory_location_id = location;
  sku_id = movement.sku_id;
  movement_type = movement.movement_type;
  quantity_delta_base = neg movement.quantity;
  source_type = "ORDER";
  source_id = parsed.order_id;
  source_event_instance_id = some event.event_instance_id;
  actor_id = none;
  device_id = some event.device_id;
  reason = some "sale-driven inventory consumption";
  occurred_at = occurred_at;
  idempotency_key = template (
      "sale:"
      ∷ event.event_instance_id
      ∷ ":"
      ∷ movement_name movement.movement_type
      ∷ ":"
      ∷ movement.sku_id
      ∷ []);
  reversal_of_ledger_id = none;
}

-- `await this.ledger.insert(client, …)`, whose row is not used
unfoldable pub insert_all : List LedgerInput → Tx (Unit {0})
unfolding insert
insert_all inputs = each inputs (λ input. insert input >> pure tt)

-- `[...new Set(xs)]`
abbrev pub distinct : List String → List String
distinct [] = []
distinct (x ∷ xs) = x ∷ select (λ y. y != x) (distinct xs)

-- the locks in the order of the movements, then the movements
unfoldable pub post_movements : String → String → List LedgerInput → Tx (Unit {0})
unfolding insert_all lock_stock
post_movements event_id location inputs =
    each (distinct (map (λ input. input.sku_id) inputs)) (lock_stock event_id location)
    >> insert_all inputs

-- the end of a sale whose movements are known
unfoldable pub post_sale :
    SyncEventEnvelope → ParsedSale → String → List (String × SaleMovement) → SaleDb → Result SaleDb
unfolding ordered sale_input post_movements mark_processed
post_sale event parsed location movements db =
    elim (post_movements parsed.event_id location
      (map (sale_input event parsed location (db.milliseconds event.occurred_at))
        (ordered db.stock.locale_le movements))
      db.stock) [
        | ok (done, stock) ↦
            ok (mark_processed event.event_instance_id applied (record db { stock = stock }))
        | err e ↦ err e
      ]

abbrev pub detail : String → String → Members → Members
detail key value rest = member key (text value) rest

-- what follows the loop over the lines
unfoldable pub settle_sale :
    SyncEventEnvelope → ParsedSale → String → Expansion → SaleDb → Result SaleDb
unfolding post_sale reject
settle_sale event parsed location (expanded movements) db =
    post_sale event parsed location movements db
settle_sale event parsed location (unknown_sku sku) db = ok (
    reject event "UNCONFIGURED_SALE_SKU" (some parsed.event_id) (some parsed.sales_location_id)
      (object (detail "skuId" sku empty)) db)
settle_sale event parsed location (unknown_component sold component) db = ok (
    reject event "UNCONFIGURED_RECIPE_COMPONENT" (some parsed.event_id)
      (some parsed.sales_location_id)
      (object (detail "soldSkuId" sold (detail "componentSkuId" component empty))) db)

-- the SKUs and the recipes of the event, as the queries return them
abbrev pub known_skus : String → SaleDb → List String
known_skus event_id db =
    map (λ s. s.sku_id) (select (λ (s : SkuRow). s.event_id == event_id) db.stock.skus)

abbrev pub sold_recipes : ParsedSale → SaleDb → List RecipeRow
sold_recipes parsed db =
    select
      (λ r.
        r.event_id == parsed.event_id
        && includes r.sold_sku_id (distinct (map (λ (l : SaleLine). l.sku_id) parsed.lines)))
      db.recipes

unfoldable pub consume_mapped :
    SyncEventEnvelope → ParsedSale → Option MappingRow → SaleDb → Result SaleDb
unfolding reject expand settle_sale
consume_mapped event parsed none db = ok (
    reject event "MISSING_SALES_INVENTORY_MAPPING" (some parsed.event_id)
      (some parsed.sales_location_id) (object empty) db)
consume_mapped event parsed (some mapping) db =
    elim (expand (known_skus parsed.event_id db) (sold_recipes parsed db) parsed.lines []) [
      | ok expansion ↦ settle_sale event parsed mapping.inventory_location_id expansion db
      | err e ↦ err e
    ]

abbrev pub is_mapped : ParsedSale → MappingRow → Bool
is_mapped parsed m =
    m.event_id == parsed.event_id && m.sales_location_id == parsed.sales_location_id

-- the body of the transaction of `consumeOne`, whose result is `affected_event`
unfoldable pub consume_parsed : SyncEventEnvelope → Option ParsedSale → SaleDb → Result SaleDb
unfolding reject consume_mapped
consume_parsed event none db = ok (
    reject event "INVALID_SALE_INVENTORY_PAYLOAD" none none
      (object (member "payload" (object event.payload) empty)) db)
consume_parsed event (some parsed) db =
    consume_mapped event parsed (find (is_mapped parsed) db.mappings) db

abbrev pub affected_event : Option ParsedSale → Option String
affected_event none = none
affected_event (some parsed) = some parsed.event_id

abbrev pub unlocked : SaleDb → SaleDb
unlocked db = record db { stock = record db.stock { locks = [] } }

-- On an exception the transaction rolls back.
unfoldable pub consume_one : SyncEventEnvelope → SaleDb → Result (Option String) × SaleDb
unfolding parse consume_parsed
consume_one event db = elim (consume_parsed event (parse event) db) [
  | ok db' ↦ (ok (affected_event (parse event)), unlocked db')
  | err e ↦ (err e, unlocked db)
]

-- `affected.add(eventId)`
abbrev add_affected : Option String → List String → List String
add_affected none affected = affected
add_affected (some event) affected =
    if includes event affected then affected else affected ++ (event ∷ [])

-- the loop of `consume`: an exception ends it, and what was committed before it stays
unfoldable pub consume_from :
    List String → List SyncEventEnvelope → SaleDb → Result (List String) × SaleDb
unfolding consume_one
consume_from affected [] db = (ok affected, db)
consume_from affected (event ∷ events) db = elim (event.event_type == "ORDER_CLOSED_CASH") [
  | false ↦ consume_from affected events db
  | true ↦
      let (answer, db') = consume_one event db in
      elim answer [
        | ok sold ↦ consume_from (add_affected sold affected) events db'
        | err e ↦ (err e, db')
      ]
]

unfoldable pub consume : List SyncEventEnvelope → SaleDb → Result (List String) × SaleDb
unfolding consume_from
consume events db = consume_from [] events db
