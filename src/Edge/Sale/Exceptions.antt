-- ===== src/Edge/Sale/Exceptions.antt =====
-- inventory-sale-consumer.service.ts, `consumeOne`: the sales that cannot be posted.
use eventcommerce_os.Base.{
  ◌≡◌, refl, String, Option, none, some, true, false, List, [], ◌∷◌, ◌==◌, ◌&&◌, string_eq,
  option_eq, nat_eq, ok, arith, Bool-cases, inl, inr, any, find, All, update_where,
}
use eventcommerce_os.Contracts.{SyncEventEnvelope, Json, object, empty, member}
use eventcommerce_os.Edge.Rows.{Instant}
use eventcommerce_os.Edge.Sale.Tables.{
  SaleDb, MappingRow, SaleInboxRow, ExceptionRow, exception, reject, same_exception, fault,
  add_exception, mark_processed,
}
use eventcommerce_os.Edge.Sale.Reading.{ParsedSale, parse}
use eventcommerce_os.Edge.Sale.Recipes.{unknown_sku, unknown_component, expand}
use eventcommerce_os.Edge.Sale.{
  affected_event, unlocked, detail, settle_sale, consume_mapped, consume_parsed, consume_one,
  is_mapped, known_skus, sold_recipes,
}

-- why a sale is not posted
pub data Refused (event : SyncEventEnvelope) (db : SaleDb) : Type 0 where
  unreadable : parse event ≡ none → Refused event db
  unmapped :
      (parsed : ParsedSale)
      → parse event ≡ some parsed
      → find (is_mapped parsed) db.mappings ≡ none
      → Refused event db
  unconfigured_sku :
      (parsed : ParsedSale) (mapping : MappingRow) (sku : String)
      → parse event ≡ some parsed
      → find (is_mapped parsed) db.mappings ≡ some mapping
      → expand (known_skus parsed.event_id db) (sold_recipes parsed db) parsed.lines []
        ≡ ok (unknown_sku sku)
      → Refused event db
  unconfigured_component :
      (parsed : ParsedSale) (mapping : MappingRow) (sold component : String)
      → parse event ≡ some parsed
      → find (is_mapped parsed) db.mappings ≡ some mapping
      → expand (known_skus parsed.event_id db) (sold_recipes parsed db) parsed.lines []
        ≡ ok (unknown_component sold component)
      → Refused event db

-- an exception of an event is open
abbrev pub IsReported : String → List ExceptionRow → Type 0
IsReported id rows =
    any (λ e. e.source_event_instance_id == some id && e.resolved_at == none) rows ≡ true

-- the inbox says that an event was put on the exceptions
abbrev pub IsExcepted : String → SaleInboxRow → Type 0
IsExcepted id row =
    row.source_event_instance_id ≡ id → (row.outcome ≡ some exception) × (row.last_error ≡ none)

-- no stored exception has the id that is drawn next
abbrev pub IsFresh : SaleDb → Type 0
IsFresh db = any (λ e. e.id == db.stock.uuids db.stock.drawn) db.exceptions ≡ false

-- what a refused sale leaves behind
abbrev pub IsRefusal : SyncEventEnvelope → SaleDb → SaleDb → Type 0
IsRefusal event db db' =
    (db'.stock.ledger ≡ db.stock.ledger)
    × (db'.stock.outbox ≡ db.stock.outbox)
    × IsReported event.event_instance_id db'.exceptions
    × All (IsExcepted event.event_instance_id) db'.inbox

-- A conflict that is not one of ids is with an open exception of the same event.
reported_of_taken :
    (new : ExceptionRow) (rows : List ExceptionRow)
    → any (λ e. e.id == new.id) rows ≡ false
    → any (same_exception new) rows ≡ true
    → any
        (λ e. e.source_event_instance_id == new.source_event_instance_id && e.resolved_at == none)
        rows
      ≡ true
reported_of_taken new [] h k = k
reported_of_taken new (row ∷ rows) h k = ground (arith, reported_of_taken new rows)

IsReported-add_exception :
    (event : SyncEventEnvelope) (type : String) (e l : Option String) (details : Json) (db : SaleDb)
    → IsFresh db
    → IsReported event.event_instance_id (add_exception event type e l details db).exceptions
unfolding add_exception
IsReported-add_exception event type e l details db fresh = ground (
  arith,
  reported_of_taken (fault event type e l details (db.stock.uuids db.stock.drawn)) db.exceptions
      fresh,
)

IsExcepted-update :
    (id : String) (clock : Instant) (rows : List SaleInboxRow)
    → All (IsExcepted id) (
        update_where
          (λ row. row.source_event_instance_id == id)
          (λ row. record row {
            processed_at = some clock;
            outcome = some exception;
            last_error = none;
          })
          rows)
IsExcepted-update id clock [] = tt
IsExcepted-update id clock (row ∷ rows) = elim (Bool-cases (row.source_event_instance_id == id)) [
  | inl e ↦ rw e ((λ _. (refl, refl)), IsExcepted-update id clock rows)
  | inr e ↦ rw e ((λ same. absurd (ground arith)), IsExcepted-update id clock rows)
]

IsExcepted-mark_processed :
    (id : String) (db : SaleDb) → All (IsExcepted id) (mark_processed id exception db).inbox
unfolding mark_processed
IsExcepted-mark_processed id db = IsExcepted-update id db.clock db.inbox

reject-IsRefusal :
    (event : SyncEventEnvelope) (type : String) (e l : Option String) (details : Json) (db : SaleDb)
    → IsFresh db
    → IsRefusal event db (reject event type e l details db)
unfolding reject add_exception mark_processed
reject-IsRefusal event type e l details db fresh = (
  ground arith,
  ground arith,
  IsReported-add_exception event type e l details db fresh,
  IsExcepted-mark_processed event.event_instance_id (add_exception event type e l details db),
)

-- The way out through a rejection.
consume_reject :
    (event : SyncEventEnvelope) (type : String) (e l : Option String) (details : Json) (db : SaleDb)
    → IsFresh db
    → consume_parsed event (parse event) db ≡ ok (reject event type e l details db)
    → (db' : SaleDb) × (consume_one event db ≡ (ok (affected_event (parse event)), db'))
      × IsRefusal event db db'
unfolding consume_one
consume_reject event type e l details db fresh h = (
  unlocked (reject event type e l details db),
  rw (h, consume_one) refl,
  reject-IsRefusal event type e l details db fresh,
)

-- A sale whose payload cannot be read, whose place has no stock, or that names a SKU or a component of
-- a recipe that is not configured is always answered, with its event if that was read, and moves no
-- stock: the ledger and the outbox stay as they are, an open exception is on record for it (where the
-- id drawn for the exception is new), and its inbox row, if there is one, has the outcome EXCEPTION.
pub consume_one-IsRefusal :
    (event : SyncEventEnvelope) (db : SaleDb)
    → IsFresh db
    → Refused event db
    → (db' : SaleDb) × (consume_one event db ≡ (ok (affected_event (parse event)), db'))
      × IsRefusal event db db'
unfolding consume_parsed consume_mapped settle_sale
consume_one-IsRefusal event db fresh (unreadable p) =
    consume_reject event "INVALID_SALE_INVENTORY_PAYLOAD" none none
      (object (member "payload" (object event.payload) empty)) db fresh (rw p refl)
consume_one-IsRefusal event db fresh (unmapped parsed p m) =
    consume_reject event "MISSING_SALES_INVENTORY_MAPPING" (some parsed.event_id)
      (some parsed.sales_location_id) (object empty) db fresh (rw (p, m) refl)
consume_one-IsRefusal event db fresh (unconfigured_sku parsed mapping sku p m x) =
    consume_reject event "UNCONFIGURED_SALE_SKU" (some parsed.event_id)
      (some parsed.sales_location_id) (object (detail "skuId" sku empty)) db fresh
      (rw (p, m, consume_mapped, x) refl)
consume_one-IsRefusal event db fresh (unconfigured_component parsed mapping sold component p m x) =
    consume_reject event "UNCONFIGURED_RECIPE_COMPONENT" (some parsed.event_id)
      (some parsed.sales_location_id)
      (object (detail "soldSkuId" sold (detail "componentSkuId" component empty))) db fresh
      (rw (p, m, consume_mapped, x) refl)
