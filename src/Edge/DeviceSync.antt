-- ===== src/Edge/DeviceSync.antt =====
-- apps/event-edge/src/sync/device-sync.service.ts: the events of the point-of-sale devices arrive in
-- batches, are stored once and queued for the cloud, and each device is told up to which sequence
-- number the edge has all of its events. The tables are those of migrations/0001_sync.sql; the columns
-- of a processed event are the fields of its envelope. The trigger that copies the sales to the
-- inventory's inbox is left out.
pub mod Stored
pub mod Gapless
pub mod Ack
pub mod Replay
pub mod Conflicts
pub mod Ranges
mod Tests
use eventcommerce_os.Base.{
  ℕ, ◌+◌, ◌-◌, ◌^◌, max, min, not, ◌!=◌, String, Option, none, some, Bool, true, false, ◌&&◌, ◌||◌,
  List, [], ◌∷◌, map, length, ◌==◌, string_eq, nat_eq, option_eq, ltb, leb, find, any, select,
  update_where, if◌then◌else◌, Result, ok, err, throw_if, database,
}
use mathlib.Core.Option.{map as map_option}
use eventcommerce_os.Base.Do.{◌>>=◌, ◌>>◌}
use eventcommerce_os.Base.Int.{fits_integer}
use eventcommerce_os.Base.Sorting.{sort_by}
use eventcommerce_os.Contracts.{
  SyncEventEnvelope, envelope_eq, DeviceSyncBatch, accepted, duplicate, conflicting,
  SyncEventReceipt, DeviceSyncAck,
}

pub record ProcessedRow : Type 0 where
  pub envelope : SyncEventEnvelope
  pub received_at : ℕ

pub record CloudOutboxRow : Type 0 where
  pub event_instance_id : String
  pub device_id : String
  pub sequence : ℕ
  pub envelope : SyncEventEnvelope
  pub attempts : ℕ
  pub next_attempt_at : ℕ
  pub delivered_at : Option ℕ
  pub last_error : Option String

pub record WatermarkRow : Type 0 where
  pub device_id : String
  pub accepted_through_sequence : ℕ
  pub highest_sequence_seen : ℕ
  pub last_seen_at : ℕ
  pub last_cloud_delivery_at : Option ℕ

-- the JSON text in `details`, by its members
pub data ExceptionDetails : Type 0 where
  -- existingDeviceId, existingSequence
  reused_instance : String → ℕ → ExceptionDetails
  -- existingEventInstanceId
  reused_sequence : Option String → ExceptionDetails
  -- cloudConflict
  cloud_conflict : ExceptionDetails

pub record ExceptionRow : Type 0 where
  pub id : String
  pub exception_type : String
  pub device_id : Option String
  pub sequence : Option ℕ
  pub event_instance_id : Option String
  pub details : ExceptionDetails
  pub resolved_at : Option ℕ

-- the tables, the values that `randomUUID` will return and how many it has, and `now()`
pub record SyncDb : Type 0 where
  pub events : List ProcessedRow
  pub outbox : List CloudOutboxRow
  pub watermarks : List WatermarkRow
  pub exceptions : List ExceptionRow
  pub uuids : ℕ → String
  pub drawn : ℕ
  pub now : ℕ
  -- whether PostgreSQL takes the texts of an event for its columns: `occurred_at` as a timestamptz, the
  -- payload and the envelope as jsonb, no NUL character, keys no longer than an index holds
  pub readable : SyncEventEnvelope → Bool

abbrev pub has_instance : String → ProcessedRow → Bool
has_instance id row = row.envelope.event_instance_id == id

abbrev pub has_sequence : String → ℕ → ProcessedRow → Bool
has_sequence device sequence row =
    row.envelope.device_id == device && row.envelope.sequence == sequence

-- one of the keys of the event's row is taken
abbrev pub is_taken : SyncEventEnvelope → SyncDb → Bool
is_taken event db =
    any (has_instance event.event_instance_id) db.events
    || any (has_sequence event.device_id event.sequence) db.events

abbrev pub queued : SyncEventEnvelope → ℕ → CloudOutboxRow
queued event now = record {
  event_instance_id = event.event_instance_id;
  device_id = event.device_id;
  sequence = event.sequence;
  envelope = event;
  attempts = 0;
  next_attempt_at = now;
  delivered_at = none;
  last_error = none;
}

-- both INSERTs of an event that is new
unfoldable pub store : SyncEventEnvelope → SyncDb → SyncDb
store event db = record db {
  events = record { envelope = event; received_at = db.now } ∷ db.events;
  outbox = queued event db.now ∷ db.outbox;
}

unfoldable pub exception : String → SyncEventEnvelope → ExceptionDetails → SyncDb → SyncDb
exception type event details db = record db {
  exceptions =
      record {
        id = db.uuids db.drawn;
        exception_type = type;
        device_id = some event.device_id;
        sequence = some event.sequence;
        event_instance_id = some event.event_instance_id;
        details = details;
        resolved_at = none;
      }
      ∷ db.exceptions;
  drawn = db.drawn + 1;
}

abbrev pub receipt_of : SyncEventEnvelope → SyncEventReceipt
receipt_of event = record {
  event_instance_id = event.event_instance_id;
  status = accepted;
  reason = none;
}

abbrev pub instance_reuse : SyncEventEnvelope → SyncEventReceipt
instance_reuse event = record {
  event_instance_id = event.event_instance_id;
  status = conflicting;
  reason = some "event instance ID was reused with different content";
}

abbrev pub sequence_reuse : SyncEventEnvelope → SyncEventReceipt
sequence_reuse event = record {
  event_instance_id = event.event_instance_id;
  status = conflicting;
  reason = some "device sequence was already used by another event";
}

abbrev pub instance_of : ProcessedRow → String
instance_of row = row.envelope.event_instance_id

-- what `persistEvent` does when no row was inserted
unfoldable pub refuse : SyncEventEnvelope → Option ProcessedRow → SyncDb → SyncEventReceipt × SyncDb
unfolding exception
refuse event (some row) db =
    if row.envelope == event then (record (receipt_of event) { status = duplicate }, db) else (
      instance_reuse event,
      exception "EVENT_INSTANCE_REUSE" event
          (reused_instance row.envelope.device_id row.envelope.sequence) db,
    )
refuse event none db = (
  sequence_reuse event,
  exception "DEVICE_SEQUENCE_REUSE" event
      (reused_sequence
        (map_option instance_of (find (has_sequence event.device_id event.sequence) db.events)))
      db,
)

-- Which of the row's values PostgreSQL refuses first is not said: the version comes first here.
unfoldable pub persist_event : SyncEventEnvelope → SyncDb → Result (SyncEventReceipt × SyncDb)
unfolding fits_integer store refuse
persist_event event db =
    throw_if (not (fits_integer event.event_version)) (database "integer out of range")
    >> throw_if (not (db.readable event)) (database "invalid input value")
    >> ok (
        if is_taken event db
        then refuse event (find (has_instance event.event_instance_id) db.events) db
        else (receipt_of event, store event db))

unfoldable pub persist_all :
    List SyncEventEnvelope → SyncDb → Result (List SyncEventReceipt × SyncDb)
unfolding persist_event
persist_all [] db = ok ([], db)
persist_all (event ∷ events) db = persist_event event db >>= λ first.
    persist_all events first.1 >>= λ rest. ok (first.0 ∷ rest.0, rest.1)

abbrev pub is_of : String → WatermarkRow → Bool
is_of device row = row.device_id == device

-- Math.max over the batch, which has an event
abbrev pub highest : List SyncEventEnvelope → ℕ
highest [] = 0
highest (event ∷ events) = max event.sequence (highest events)

-- INSERT … ON CONFLICT (device_id) DO UPDATE
unfoldable pub see_device : String → ℕ → SyncDb → SyncDb
see_device device seen db = record db {
  watermarks =
      if any (is_of device) db.watermarks
      then update_where (is_of device)
          (λ row. record row {
            highest_sequence_seen = max row.highest_sequence_seen seen;
            last_seen_at = db.now;
          })
          db.watermarks
      else record {
        device_id = device;
        accepted_through_sequence = 0;
        highest_sequence_seen = seen;
        last_seen_at = db.now;
        last_cloud_delivery_at = none;
      }
        ∷ db.watermarks;
}

-- `accepted_through_sequence ?? '0'`
abbrev pub accepted_through : Option WatermarkRow → ℕ
accepted_through none = 0
accepted_through (some row) = row.accepted_through_sequence

abbrev pub sequence_of : ProcessedRow → ℕ
sequence_of row = row.envelope.sequence

-- the loop over the stored sequence numbers above the watermark, in their order
abbrev pub walk : ℕ → List ProcessedRow → ℕ
walk watermark [] = watermark
walk watermark (row ∷ rows) =
    let rest = walk (sequence_of row) rows in
    if sequence_of row == watermark + 1 then rest else watermark

unfoldable pub advance_watermark : String → SyncDb → ℕ
advance_watermark device db =
    let watermark = accepted_through (find (is_of device) db.watermarks) in
    walk watermark (
      sort_by leb sequence_of (
        select (λ row. row.envelope.device_id == device && ltb watermark (sequence_of row))
          db.events))

abbrev pub lesser : Option ℕ → Option ℕ → Option ℕ
lesser none b = b
lesser (some a) none = some a
lesser (some a) (some b) = some (min a b)

-- MIN(sequence)
abbrev pub least : List ExceptionRow → Option ℕ
least [] = none
least (row ∷ rows) = lesser row.sequence (least rows)

abbrev pub is_blocking : String → ExceptionRow → Bool
is_blocking device row =
    row.device_id == some device
    && row.resolved_at == none
    && row.sequence != none
    && (row.exception_type == "DEVICE_SEQUENCE_REUSE"
        || row.exception_type == "EVENT_INSTANCE_REUSE")

abbrev pub below_blocking : Option ℕ → ℕ → ℕ
below_blocking none watermark = watermark
below_blocking (some blocking) watermark = min watermark (blocking - 1)

unfoldable pub acknowledge : String → ℕ → SyncDb → SyncDb
acknowledge device sequence db = record db {
  watermarks =
      update_where (is_of device) (λ row. record row { accepted_through_sequence = sequence })
        db.watermarks;
}

-- count(*) of what is not delivered
abbrev pub backlog : SyncDb → ℕ
backlog db = length (select (λ (row : CloudOutboxRow). row.delivered_at == none) db.outbox)

unfoldable pub accepted_sequence : String → SyncDb → ℕ
unfolding advance_watermark
accepted_sequence device db =
    below_blocking (least (select (is_blocking device) db.exceptions)) (advance_watermark device db)

abbrev pub ack_of : String → ℕ → List SyncEventReceipt → SyncDb → DeviceSyncAck
ack_of device sequence receipts db = record {
  device_id = device;
  accepted_through_sequence = sequence;
  receipts = receipts;
  edge_backlog_count = backlog db;
  server_time = db.now;
}

-- the body of the transaction of `ingest`, and the answer
unfoldable pub ingest : DeviceSyncBatch → SyncDb → Result (DeviceSyncAck × SyncDb)
unfolding persist_all see_device accepted_sequence acknowledge
ingest batch db = persist_all batch.events db >>= λ persisted.
    let seen = see_device batch.device_id (highest batch.events) persisted.1 in
    let sequence = accepted_sequence batch.device_id seen in
    ok (
      ack_of batch.device_id sequence persisted.0 (acknowledge batch.device_id sequence seen),
      acknowledge batch.device_id sequence seen,
    )

-- `status`
unfoldable pub status : String → SyncDb → DeviceSyncAck
status device db = ack_of device (accepted_through (find (is_of device) db.watermarks)) [] db
