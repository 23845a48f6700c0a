-- ===== src/Contracts.antt =====
-- packages/contracts/src/sync.ts: what the devices, the edge and the cloud send each other. A number
-- that the code has validated as a positive safe integer is a natural number; an instant stands for
-- the milliseconds of a timestamp.
use eventcommerce_os.Base.{ℕ, String, Bool, List, Option, Eq, string_eq, nat_eq}
use eventcommerce_os.Base.Int.{ℤ, int_eq}

-- A value of JSON as PostgreSQL's `jsonb` keeps it: the members of an object are sorted and do not
-- repeat a key. A number that is no safe integer is its text.
mutual
  pub data Json : Type 0 where
    null : Json
    boolean : Bool → Json
    integer : ℤ → Json
    number : String → Json
    text : String → Json
    array : Items → Json
    object : Members → Json

  pub data Items : Type 0 where
    nil : Items
    item : Json → Items → Items

  pub data Members : Type 0 where
    empty : Members
    member : String → Json → Members → Members

unfoldable pub Members-discrete : Discrete Members
Members-discrete = hlevel (string_eq.dec_eq, int_eq.dec_eq)

pub record SyncEventEnvelope : Type 0 where
  pub event_instance_id : String
  pub event_id : String
  pub event_type : String
  pub aggregate_type : String
  pub aggregate_id : String
  pub event_version : ℕ
  pub device_id : String
  pub sequence : ℕ
  pub occurred_at : String
  pub idempotency_key : String
  pub payload : Members

unfoldable pub SyncEventEnvelope-discrete : Discrete SyncEventEnvelope
SyncEventEnvelope-discrete = hlevel (string_eq.dec_eq, nat_eq.dec_eq, Members-discrete)

instance abbrev pub envelope_eq : Eq SyncEventEnvelope
envelope_eq = record { dec_eq = SyncEventEnvelope-discrete }

pub record DeviceSyncBatch : Type 0 where
  pub device_id : String
  pub events : List SyncEventEnvelope

pub data ReceiptStatus : Type 0 where
  accepted duplicate conflicting : ReceiptStatus

unfoldable pub ReceiptStatus-discrete : Discrete ReceiptStatus
ReceiptStatus-discrete = hlevel

instance abbrev pub receipt_status_eq : Eq ReceiptStatus
receipt_status_eq = record { dec_eq = ReceiptStatus-discrete }

pub record SyncEventReceipt : Type 0 where
  pub event_instance_id : String
  pub status : ReceiptStatus
  pub reason : Option String

pub record DeviceSyncAck : Type 0 where
  pub device_id : String
  pub accepted_through_sequence : ℕ
  pub receipts : List SyncEventReceipt
  pub edge_backlog_count : ℕ
  pub server_time : ℕ

pub record DeviceCloudStatus : Type 0 where
  pub device_id : String
  pub last_seen_at : ℕ
  pub last_sequence_seen : ℕ
  pub edge_accepted_through_sequence : ℕ
  pub edge_backlog_count : ℕ
  pub last_cloud_delivery_at : Option ℕ

pub record EdgeCloudBatch : Type 0 where
  pub edge_id : String
  pub events : List SyncEventEnvelope
  pub device_statuses : List DeviceCloudStatus

pub record EdgeCloudAck : Type 0 where
  pub accepted_event_instance_ids : List String
  pub duplicate_event_instance_ids : List String
  pub conflict_event_instance_ids : List String
