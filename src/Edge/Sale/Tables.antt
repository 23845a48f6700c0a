-- ===== src/Edge/Sale/Tables.antt =====
-- apps/event-edge/src/inventory/inventory-sale-consumer.service.ts: the tables of the sales
-- (migrations/0002_inventory.sql, 0003, 0007), `exception` and `markProcessed`.
use eventcommerce_os.Base.{
  ℕ, String, Option, none, some, Bool, List, ◌∷◌, ◌+◌, ◌==◌, ◌&&◌, ◌||◌, string_eq, option_eq,
  nat_eq, any, update_where, if◌then◌else◌,
}
use eventcommerce_os.Base.Int.{ℤ}
use eventcommerce_os.Contracts.{Json, SyncEventEnvelope}
use eventcommerce_os.Edge.Rows.{Instant}
use eventcommerce_os.Edge.Db.{Db}

pub record MappingRow : Type 0 where
  pub event_id : String
  pub sales_location_id : String
  pub inventory_location_id : String

pub record RecipeRow : Type 0 where
  pub event_id : String
  pub sold_sku_id : String
  pub component_sku_id : String
  pub quantity_per_sold_unit : ℤ

pub data SaleOutcome : Type 0 where
  applied exception : SaleOutcome

pub record SaleInboxRow : Type 0 where
  pub source_event_instance_id : String
  pub envelope : SyncEventEnvelope
  pub received_at : Instant
  pub attempts : ℕ
  pub next_attempt_at : Instant
  pub processed_at : Option Instant
  pub outcome : Option SaleOutcome
  pub last_error : Option String

pub record ExceptionRow : Type 0 where
  pub id : String
  pub exception_type : String
  pub event_id : Option String
  pub sales_location_id : Option String
  pub source_event_instance_id : Option String
  pub details : Json
  pub resolved_at : Option Instant

-- The Edge's inventory tables with those of the sales. `milliseconds` is how PostgreSQL reads the text
-- of a timestamp, and `clock` is `clock_timestamp()`.
pub record SaleDb : Type 0 where
  pub stock : Db
  pub mappings : List MappingRow
  pub recipes : List RecipeRow
  pub inbox : List SaleInboxRow
  pub exceptions : List ExceptionRow
  pub milliseconds : String → Instant
  pub clock : Instant

-- INSERT INTO edge_inventory_exceptions … ON CONFLICT DO NOTHING
abbrev pub same_exception : ExceptionRow → ExceptionRow → Bool
same_exception new old =
    old.id == new.id
    || old.source_event_instance_id == new.source_event_instance_id
      && old.exception_type == new.exception_type
      && old.resolved_at == none

abbrev pub fault :
    SyncEventEnvelope → String → Option String → Option String → Json → String → ExceptionRow
fault event type event_id location details id = record {
  id = id;
  exception_type = type;
  event_id = event_id;
  sales_location_id = location;
  source_event_instance_id = some event.event_instance_id;
  details = details;
  resolved_at = none;
}

unfoldable pub add_exception :
    SyncEventEnvelope → String → Option String → Option String → Json → SaleDb → SaleDb
add_exception event type event_id location details db =
    let row = fault event type event_id location details (db.stock.uuids db.stock.drawn) in
    let drawn = record db { stock = record db.stock { drawn = db.stock.drawn + 1 } } in
    if any (same_exception row) db.exceptions
    then drawn
    else record drawn { exceptions = row ∷ db.exceptions }

unfoldable pub mark_processed : String → SaleOutcome → SaleDb → SaleDb
mark_processed id outcome db = record db {
  inbox =
      update_where (λ row. row.source_event_instance_id == id)
        (λ row. record row {
          processed_at = some db.clock;
          outcome = some outcome;
          last_error = none;
        })
        db.inbox;
}

-- the exception and the outcome of a sale that is not posted
unfoldable pub reject :
    SyncEventEnvelope → String → Option String → Option String → Json → SaleDb → SaleDb
unfolding add_exception mark_processed
reject event type event_id location details db =
    mark_processed event.event_instance_id exception
      (add_exception event type event_id location details db)
