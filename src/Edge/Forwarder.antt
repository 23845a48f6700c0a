-- ===== src/Edge/Forwarder.antt =====
-- apps/event-edge/src/sync/cloud-forwarder.service.ts, `drainOnce`: the outbox is sent to the cloud, and
-- what the cloud acknowledges is delivered. The order of texts in the database, the rounded product of
-- `retryDelayMs` (src/sync/retry-policy.ts) with a random factor, and the transport, which fails with a
-- message where it throws, are parameters. The roster of the devices is left out of the batch, and the
-- timer that calls `drainOnce` too.
pub mod Outbox
pub mod Sound
mod Tests
use eventcommerce_os.Base.{
  ℕ, zero, suc, ◌+◌, ◌-◌, ◌*◌, ◌^◌, min, max, String, Option, none, some, Bool, true, false, not,
  ◌&&◌, ◌||◌, List, [], ◌∷◌, ◌++◌, map, length, take, ◌==◌, ◌!=◌, string_eq, nat_eq, option_eq, ltb,
  leb, any, all, find, select, includes, update_where, if◌then◌else◌, Result, ok, err, Failure,
  error, conflict, forbidden, not_found, database,
}
use eventcommerce_os.Base.Sorting.{sort_by}
use eventcommerce_os.Contracts.{SyncEventEnvelope, DeviceCloudStatus, EdgeCloudBatch, EdgeCloudAck}
use eventcommerce_os.Edge.DeviceSync.{SyncDb, CloudOutboxRow, WatermarkRow, cloud_conflict, backlog}

-- `new Set(xs)`, as its items
abbrev pub set_of : List String → List String
set_of [] = []
set_of (x ∷ xs) = let rest = set_of xs in if includes x rest then rest else x ∷ rest

unfoldable pub retry_delay_ms : (ℕ → ℕ) → ℕ → ℕ
retry_delay_ms jittered attempt =
    let safe_attempt = max 1 (min attempt 16) in
    let exponential = min 30000 (500 * 2 ^ (safe_attempt - 1)) in
    max 500 (min 30000 (jittered exponential))

-- ORDER BY next_attempt_at, device_id, sequence
abbrev pub due_before : (String → String → Bool) → ℕ × String × ℕ → ℕ × String × ℕ → Bool
due_before sql_le (t, d, s) (t', d', s') =
    ltb t t' || (t == t' && ((d != d' && sql_le d d') || (d == d' && leb s s')))

abbrev pub due_key : CloudOutboxRow → ℕ × String × ℕ
due_key row = (row.next_attempt_at, row.device_id, row.sequence)

abbrev pub is_due : ℕ → CloudOutboxRow → Bool
is_due now row = row.delivered_at == none && leb row.next_attempt_at now

unfoldable pub due_rows : (String → String → Bool) → ℕ → SyncDb → List CloudOutboxRow
due_rows sql_le limit db =
    take (max 1 (min limit 100))
      (sort_by (due_before sql_le) due_key (select (is_due db.now) db.outbox))

abbrev pub instance_of : CloudOutboxRow → String
instance_of row = row.event_instance_id

abbrev pub undelivered_of : String → CloudOutboxRow → Bool
undelivered_of device row = row.device_id == device && row.delivered_at == none

abbrev pub device_status : SyncDb → WatermarkRow → DeviceCloudStatus
device_status db row = record {
  device_id = row.device_id;
  last_seen_at = row.last_seen_at;
  last_sequence_seen = row.highest_sequence_seen;
  edge_accepted_through_sequence = row.accepted_through_sequence;
  edge_backlog_count = length (select (undelivered_of row.device_id) db.outbox);
  last_cloud_delivery_at = row.last_cloud_delivery_at;
}

abbrev pub device_of : CloudOutboxRow → String
device_of row = row.device_id

abbrev pub device_statuses : List CloudOutboxRow → SyncDb → List DeviceCloudStatus
device_statuses rows db =
    map (device_status db)
      (select (λ (w : WatermarkRow). includes w.device_id (map device_of rows)) db.watermarks)

abbrev pub batch_of : String → List CloudOutboxRow → SyncDb → EdgeCloudBatch
batch_of edge_id rows db = record {
  edge_id = edge_id;
  events = map (λ (r : CloudOutboxRow). r.envelope) rows;
  device_statuses = device_statuses rows db;
}

abbrev pub acknowledged : EdgeCloudAck → List String
acknowledged ack =
    ack.accepted_event_instance_ids
    ++ (ack.duplicate_event_instance_ids ++ ack.conflict_event_instance_ids)

-- every acknowledged id was sent, and there are as many of them as were sent
unfoldable pub covers_batch : EdgeCloudAck → List CloudOutboxRow → Bool
covers_batch ack rows =
    all (λ id. includes id (map instance_of rows)) (acknowledged ack)
    && length (set_of (acknowledged ack)) == length (set_of (map instance_of rows))

-- the exception of a conflict, from the row that was sent
unfoldable pub conflict_exception : Option CloudOutboxRow → SyncDb → SyncDb
conflict_exception none db = db
conflict_exception (some row) db = record db {
  exceptions =
      record {
        id = db.uuids db.drawn;
        exception_type = "CLOUD_RECONCILIATION_REQUIRED";
        device_id = some row.device_id;
        sequence = some row.sequence;
        event_instance_id = some row.event_instance_id;
        details = cloud_conflict;
        resolved_at = none;
      }
      ∷ db.exceptions;
  drawn = db.drawn + 1;
}

abbrev pub sent_as : String → CloudOutboxRow → Bool
sent_as id row = row.event_instance_id == id

unfoldable pub conflict_exceptions : List String → List CloudOutboxRow → SyncDb → SyncDb
unfolding conflict_exception
conflict_exceptions [] rows db = db
conflict_exceptions (id ∷ ids) rows db =
    conflict_exceptions ids rows (conflict_exception (find (sent_as id) rows) db)

abbrev pub delivered : ℕ → CloudOutboxRow → CloudOutboxRow
delivered now row = record row { delivered_at = some now; last_error = none }

abbrev pub is_acknowledged : EdgeCloudAck → CloudOutboxRow → Bool
is_acknowledged ack row = includes row.event_instance_id (acknowledged ack)

-- UPDATE edge_cloud_outbox … WHERE event_instance_id = ANY
unfoldable pub mark_delivered : EdgeCloudAck → SyncDb → SyncDb
mark_delivered ack db = record db {
  outbox = update_where (is_acknowledged ack) (delivered db.now) db.outbox;
}

unfoldable pub mark_devices : List CloudOutboxRow → SyncDb → SyncDb
mark_devices rows db = record db {
  watermarks =
      update_where (λ (w : WatermarkRow). includes w.device_id (map device_of rows))
        (λ w. record w { last_cloud_delivery_at = some db.now }) db.watermarks;
}

-- the transaction after an acknowledgement
unfoldable pub deliver : List CloudOutboxRow → EdgeCloudAck → SyncDb → SyncDb
unfolding mark_delivered conflict_exceptions mark_devices
deliver rows ack db =
    mark_devices rows
      (conflict_exceptions (set_of ack.conflict_event_instance_ids) rows (mark_delivered ack db))

abbrev pub is_waiting : String → CloudOutboxRow → Bool
is_waiting id row = row.event_instance_id == id && row.delivered_at == none

abbrev pub postponed : ℕ → ℕ → ℕ → String → CloudOutboxRow → CloudOutboxRow
postponed attempts delay now message row = record row {
  attempts = attempts;
  next_attempt_at = now + delay;
  last_error = some message;
}

-- the transaction after a failure, row by row; the delays are those of `retryDelayMs`
unfoldable pub postpone : (ℕ → ℕ) → List CloudOutboxRow → String → SyncDb → SyncDb
unfolding retry_delay_ms
postpone jittered [] message db = db
postpone jittered (row ∷ rows) message db = postpone jittered rows message (record db {
  outbox =
      update_where (is_waiting row.event_instance_id)
        (postponed (row.attempts + 1) (retry_delay_ms jittered (row.attempts + 1)) db.now message)
        db.outbox;
})

-- `error.message`
abbrev pub message_of : Failure → String
message_of (error m) = m
message_of (conflict m) = m
message_of (forbidden m) = m
message_of (not_found m) = m
message_of (database m) = m

abbrev pub not_covered : String
not_covered = "cloud acknowledgement did not exactly cover the sent batch"

-- `slice(0, 500)` of a message is a parameter
module _ (jittered : ℕ → ℕ) (first_500 : String → String) where
  -- what follows the answer, or the failure, of the transport; the count of rows sent
  unfoldable pub settle_batch : List CloudOutboxRow → Result EdgeCloudAck → SyncDb → ℕ × SyncDb
  unfolding covers_batch deliver postpone
  settle_batch rows (err e) db = (0, postpone jittered rows (first_500 (message_of e)) db)
  settle_batch rows (ok ack) db =
      if covers_batch ack rows
      then (length rows, deliver rows ack db)
      else (0, postpone jittered rows (first_500 not_covered) db)

  module _ (sql_le : String → String → Bool) (edge_id : String)
      (send : EdgeCloudBatch → Result EdgeCloudAck) where
    abbrev pub forward : List CloudOutboxRow → SyncDb → ℕ × SyncDb
    forward [] db = (0, db)
    forward (row ∷ rows) db = settle_batch (row ∷ rows) (send (batch_of edge_id (row ∷ rows) db)) db

    -- `drainOnce`: how many rows were sent, and the backlog
    unfoldable pub drain_once : ℕ → SyncDb → (ℕ × ℕ) × SyncDb
    unfolding due_rows settle_batch
    drain_once limit db =
        let outcome = forward (due_rows sql_le limit db) db in
        ((outcome.0, backlog outcome.1), outcome.1)
