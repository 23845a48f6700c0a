-- ===== src/System/Tests.antt =====
-- The edge and the cloud together: the theorem at one event that reaches the cloud.
use eventcommerce_os.Base.{
  ◌≡◌, ◌≢◌, refl, ℕ, String-discrete, Option, Option-discrete, none, some, true, [], ◌∷◌, find,
}
use native.Mathlib.Decide.{ℕ_discrete}
use eventcommerce_os.Base.Int.{fits_integer}
use eventcommerce_os.Contracts.{SyncEventEnvelope, empty, ReceiptStatus-discrete}
use eventcommerce_os.Edge.DeviceSync.{SyncDb, queued}
use eventcommerce_os.Edge.Forwarder.{
  due_rows, batch_of, covers_batch, sent_as, delivered, drain_once, settle_batch, deliver,
  mark_delivered, mark_devices, conflict_exceptions,
}
use eventcommerce_os.Cloud.Sync.Tables.{EdgeSyncIdentity, CloudSyncDb}
use eventcommerce_os.Cloud.Sync.Events.{store, new_event, by_sequence, by_instance, process_event}
use eventcommerce_os.Cloud.Sync.{process_all, check_claims, keep_statuses, ingest}
use eventcommerce_os.System.Record.{is_on_record}
use eventcommerce_os.System.Delivery.{answer_of, tables_after, delivered_on_record}

abbrev event : SyncEventEnvelope
event = record {
  event_instance_id = "i1";
  event_id = "e1";
  event_type = "TILL_OPENED";
  aggregate_type = "TILL";
  aggregate_id = "t1";
  event_version = 1;
  device_id = "till";
  sequence = 1;
  occurred_at = "2026-01-01T00:00:00.000Z";
  idempotency_key = "i1";
  payload = empty;
}

abbrev waiting : SyncDb
waiting = record {
  events = record { envelope = event; received_at = 900 } ∷ [];
  outbox = queued event 900 ∷ [];
  watermarks = [];
  exceptions = [];
  uuids = λ n. "uuid";
  drawn = 0;
  now = 1000;
  readable = λ e. true;
}

abbrev own : EdgeSyncIdentity
own = record { edge_id = "edge"; organisation_id = "org" }

abbrev cloud : CloudSyncDb
cloud = record {
  roster = [];
  device_states = [];
  events = [];
  orders = [];
  exceptions = [];
  uuids = λ n. "uuid";
  drawn = 0;
  now = 1000;
  readable = λ e. true;
}

abbrev after : SyncDb
after = (drain_once (λ n. n) (λ s. s) (λ a b. true) "edge" (answer_of own cloud) 100 waiting).1

after_outbox : find (sent_as "i1") after.outbox ≡ some (delivered 1000 (queued event 900))
unfolding drain_once due_rows settle_batch covers_batch deliver mark_delivered mark_devices
    conflict_exceptions String-discrete Option-discrete ℕ_discrete ingest check_claims process_all
    keep_statuses process_event by_instance by_sequence new_event store fits_integer
    ReceiptStatus-discrete
after_outbox = refl

now_delivered : ◌≢◌ {A = Option ℕ} (some 1000) none
now_delivered h = cc

delivered_on_record_example :
    is_on_record "i1" (
      tables_after
        (ingest (batch_of "edge" (due_rows (λ a b. true) 100 waiting) waiting) own cloud)
        cloud)
    ≡ true
unfolding String-discrete
delivered_on_record_example =
    delivered_on_record (λ n. n) (λ s. s) (λ a b. true) "edge" own cloud 100 waiting "i1"
      (queued event 900) (delivered 1000 (queued event 900)) refl refl after_outbox now_delivered
