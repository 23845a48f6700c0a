-- ===== src/Edge/Rows.antt =====
-- apps/event-edge: the rows of the inventory tables (migrations/0002_inventory.sql, 0003, 0007) and
-- the inputs of the services (src/inventory/*.ts). An instant stands for the milliseconds of a
-- timestamp text, which the controller has validated; a quantity stands for the decimal text of a
-- bigint. A nullable column, or an optional field, is an `Option`.
use eventcommerce_os.Base.{ℕ, String, Option, Bool, List, Eq}
use eventcommerce_os.Base.Int.{ℤ}
use eventcommerce_os.Domain.Movement.{InventoryMovementType}
use eventcommerce_os.Domain.Transitions.{StockTransferState}

abbrev pub Instant : Type 0
Instant = ℕ

pub data InventoryPermission : Type 0 where
  inventory_move transfer_manage count_manage alert_manage inventory_configure : InventoryPermission

unfoldable pub InventoryPermission-discrete : Discrete InventoryPermission
InventoryPermission-discrete = hlevel

instance abbrev pub permission_eq : Eq InventoryPermission
permission_eq = record { dec_eq = InventoryPermission-discrete }

abbrev pub permission_name : InventoryPermission → String
permission_name inventory_move = "INVENTORY_MOVE"
permission_name transfer_manage = "TRANSFER_MANAGE"
permission_name count_manage = "COUNT_MANAGE"
permission_name alert_manage = "ALERT_MANAGE"
permission_name inventory_configure = "INVENTORY_CONFIGURE"

pub record PermissionRow : Type 0 where
  pub event_id : String
  pub actor_id : String
  pub permission : InventoryPermission

pub record LocationRow : Type 0 where
  pub event_id : String
  pub id : String

pub record SkuRow : Type 0 where
  pub event_id : String
  pub sku_id : String

pub record LedgerInput : Type 0 where
  pub id : Option String
  pub event_id : String
  pub inventory_location_id : String
  pub sku_id : String
  pub movement_type : InventoryMovementType
  pub quantity_delta_base : ℤ
  pub source_type : String
  pub source_id : String
  pub source_event_instance_id : Option String
  pub actor_id : Option String
  pub device_id : Option String
  pub reason : Option String
  pub occurred_at : Instant
  pub idempotency_key : String
  pub reversal_of_ledger_id : Option String

pub record LedgerRow : Type 0 where
  pub id : String
  pub event_id : String
  pub inventory_location_id : String
  pub sku_id : String
  pub movement_type : InventoryMovementType
  pub quantity_delta : ℤ
  pub source_type : String
  pub source_id : String
  pub source_event_instance_id : Option String
  pub actor_id : Option String
  pub device_id : Option String
  pub reason : Option String
  pub occurred_at : Instant
  pub idempotency_key : String
  pub reversal_of_ledger_id : Option String

pub record TransferDbRow : Type 0 where
  pub id : String
  pub event_id : String
  pub source_location_id : String
  pub destination_location_id : String
  pub state : StockTransferState
  pub requested_by_actor_id : String
  pub assigned_actor_id : Option String
  pub request_reason : String
  pub requested_at : Instant
  pub assigned_at : Option Instant
  pub picking_at : Option Instant
  pub in_transit_at : Option Instant
  pub received_at : Option Instant
  pub cancelled_at : Option Instant
  pub updated_at : Instant
  pub idempotency_key : Option String

pub record TransferLineRow : Type 0 where
  pub transfer_id : String
  pub sku_id : String
  pub requested_quantity : ℤ
  pub dispatched_quantity : ℤ
  pub received_quantity : ℤ

pub record HistoryRow : Type 0 where
  pub id : String
  pub transfer_id : String
  pub from_state : Option StockTransferState
  pub to_state : StockTransferState
  pub actor_id : String
  pub reason : Option String
  pub occurred_at : Instant

-- `payload` is the JSON text of the ordered list of quantities, as that list
pub record ReceiptRow : Type 0 where
  pub idempotency_key : String
  pub transfer_id : String
  pub actor_id : String
  pub payload : List (String × ℤ)
  pub received_at : Instant

pub record CountRow : Type 0 where
  pub id : String
  pub event_id : String
  pub inventory_location_id : String
  -- `state = 'CLOSED'`
  pub closed : Bool
  pub opened_by_actor_id : String
  pub opened_at : Instant
  pub closed_by_actor_id : Option String
  pub closed_at : Option Instant
  pub reason : Option String

pub record CountLineRow : Type 0 where
  pub count_id : String
  pub sku_id : String
  pub counted_quantity : ℤ
  pub expected_quantity_at_close : Option ℤ
  pub adjustment_ledger_id : Option String

-- What the outbox sends to the cloud, by `event_type`.
pub data OutboxPayload : Type 0 where
  ledger_posted : LedgerRow → OutboxPayload
  transfer_upserted : TransferDbRow → List TransferLineRow → OutboxPayload
  count_closed : CountRow → List CountLineRow → OutboxPayload

pub record OutboxRow : Type 0 where
  pub id : String
  pub aggregate_id : String
  pub payload : OutboxPayload

-- A key of `pg_advisory_xact_lock`, before it is hashed.
pub data LockKey : Type 0 where
  stock : (event_id inventory_location_id sku_id : String) → LockKey
  text : String → LockKey
