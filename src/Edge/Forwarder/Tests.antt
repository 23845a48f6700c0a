-- ===== src/Edge/Forwarder/Tests.antt =====
-- cloud-forwarder.service.ts: the theorems at one event that waits for the cloud.
use eventcommerce_os.Base.{
  ◌≡◌, refl, String-discrete, Option-discrete, true, [], ◌∷◌, Result, ok, err, error, arith,
  string_eq,
}
use native.Mathlib.Decide.{ℕ_discrete}
use eventcommerce_os.Contracts.{SyncEventEnvelope, empty, EdgeCloudBatch, EdgeCloudAck}
use eventcommerce_os.Edge.DeviceSync.{SyncDb, queued}
use eventcommerce_os.Edge.DeviceSync.Ack.{IsSound}
use eventcommerce_os.Edge.Forwarder.{
  due_rows, covers_batch, drain_once, settle_batch, deliver, mark_delivered, mark_devices,
  conflict_exceptions, postpone, retry_delay_ms,
}
use eventcommerce_os.Edge.Forwarder.Outbox.{IsSent, IsNamed, answer_for, drain_once-IsSent}
use eventcommerce_os.Edge.Forwarder.Sound.{drain_once-IsSound}

abbrev event : SyncEventEnvelope
event = record {
  event_instance_id = "i1";
  event_id = "e1";
  event_type = "TILL_OPENED";
  aggregate_type = "TILL";
  aggregate_id = "t1";
  event_version = 1;
  device_id = "till";
  sequence = 1;
  occurred_at = "2026-01-01T00:00:00.000Z";
  idempotency_key = "i1";
  payload = empty;
}

abbrev waiting : SyncDb
waiting = record {
  events = record { envelope = event; received_at = 900 } ∷ [];
  outbox = queued event 900 ∷ [];
  watermarks = [];
  exceptions = [];
  uuids = λ n. "uuid";
  drawn = 0;
  now = 1000;
  readable = λ e. true;
}

abbrev accepts : EdgeCloudBatch → Result EdgeCloudAck
accepts batch = ok (record {
  accepted_event_instance_ids = "i1" ∷ [];
  duplicate_event_instance_ids = [];
  conflict_event_instance_ids = [];
})

abbrev fails : EdgeCloudBatch → Result EdgeCloudAck
fails batch = err (error "offline")

after_answer : (drain_once (λ n. n) (λ s. s) (λ a b. true) "edge" accepts 100 waiting).0 ≡ (1, 0)
unfolding drain_once due_rows settle_batch covers_batch deliver mark_delivered mark_devices
    conflict_exceptions String-discrete Option-discrete ℕ_discrete
after_answer = refl

after_failure : (drain_once (λ n. n) (λ s. s) (λ a b. true) "edge" fails 100 waiting).0 ≡ (0, 1)
unfolding drain_once due_rows settle_batch postpone retry_delay_ms String-discrete Option-discrete
    ℕ_discrete
after_failure = refl

drain_once-IsSent_example :
    IsSent
      (IsNamed
        (answer_for (λ n. n) (λ s. s) (λ a b. true) "edge" accepts 100 waiting)
        (due_rows (λ a b. true) 100 waiting)
        "i1")
      "i1"
      (queued event 900)
      (drain_once (λ n. n) (λ s. s) (λ a b. true) "edge" accepts 100 waiting).1.outbox
unfolding String-discrete
drain_once-IsSent_example =
    drain_once-IsSent (λ n. n) (λ s. s) (λ a b. true) "edge" accepts 100 waiting "i1"
      (queued event 900) refl

waiting-IsSound : IsSound waiting
waiting-IsSound = record {
  stored = record { queued_once = refl; instances = refl; sequences = refl };
  gapless = λ device s positive le. absurd (omega arith);
}

drain_once-IsSound_example :
    IsSound (drain_once (λ n. n) (λ s. s) (λ a b. true) "edge" fails 100 waiting).1
drain_once-IsSound_example =
    drain_once-IsSound (λ n. n) (λ s. s) (λ a b. true) "edge" fails 100 waiting waiting-IsSound
