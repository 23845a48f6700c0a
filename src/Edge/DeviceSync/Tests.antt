-- ===== src/Edge/DeviceSync/Tests.antt =====
-- device-sync.service.ts: the theorems at one device with two events.
use eventcommerce_os.Base.{
  ◌≡◌, refl, ℕ, String, true, [], ◌∷◌, IsOk, value, map, ◌↔◌, ◌≤◌, ◌-◌, value_lem, string_eq,
  nat_eq, ok, arith, String-discrete, false, Option-discrete,
}
use native.Mathlib.Decide.{ℕ_discrete}
use eventcommerce_os.Contracts.{
  SyncEventEnvelope, SyncEventEnvelope-discrete, Members-discrete, SyncEventReceipt, duplicate,
  DeviceSyncBatch, DeviceSyncAck, empty, conflicting, ReceiptStatus-discrete,
}
use eventcommerce_os.Base.Int.{fits_integer}
use eventcommerce_os.Edge.DeviceSync.{
  SyncDb, ingest, persist_all, persist_event, refuse, store, exception, see_device, acknowledge,
  accepted_sequence, advance_watermark,
}
use eventcommerce_os.Edge.DeviceSync.Gapless.{Gapless}
use eventcommerce_os.Edge.DeviceSync.Ack.{IsSound, ingest-IsSound}
use eventcommerce_os.Edge.DeviceSync.Replay.{IsReplay, ingest_again}
use eventcommerce_os.Edge.DeviceSync.Conflicts.{EachConflict, ingest_conflict}
use eventcommerce_os.Edge.DeviceSync.Ranges.{all_storable, IsDatabaseError, ingest_error}

abbrev event : String → ℕ → SyncEventEnvelope
event id sequence = record {
  event_instance_id = id;
  event_id = "order-opened";
  event_type = "ORDER_OPENED";
  aggregate_type = "ORDER";
  aggregate_id = "o1";
  event_version = 1;
  device_id = "till";
  sequence = sequence;
  occurred_at = "2026-01-01T00:00:00.000Z";
  idempotency_key = id;
  payload = empty;
}

abbrev batch : DeviceSyncBatch
batch = record { device_id = "till"; events = event "i1" 1 ∷ event "i2" 2 ∷ [] }

-- the first event again, and another event with its number
abbrev reused : DeviceSyncBatch
reused = record { device_id = "till"; events = event "i1" 1 ∷ event "i3" 1 ∷ [] }

abbrev nothing : SyncDb
nothing = record {
  events = [];
  outbox = [];
  watermarks = [];
  exceptions = [];
  uuids = λ n. "uuid";
  drawn = 0;
  now = 1000;
  readable = λ e. true;
}

taken-IsOk : IsOk (ingest batch nothing)
unfolding ingest persist_all persist_event fits_integer String-discrete ℕ_discrete
taken-IsOk = tt

abbrev first : DeviceSyncAck × SyncDb
first = value (ingest batch nothing) taken-IsOk

reused-IsOk : IsOk (ingest reused first.1)
unfolding ingest persist_all persist_event fits_integer String-discrete ℕ_discrete store see_device
    acknowledge accepted_sequence advance_watermark refuse SyncEventEnvelope-discrete
    Members-discrete
reused-IsOk = tt

abbrev second : DeviceSyncAck × SyncDb
second = value (ingest reused first.1) reused-IsOk

first_sequence : first.0.accepted_through_sequence ≡ 2
unfolding ingest persist_all persist_event fits_integer String-discrete ℕ_discrete store see_device
    acknowledge accepted_sequence advance_watermark
first_sequence = refl

second_answer :
    (second.0.accepted_through_sequence ≡ 0)
    × (map (λ (r : SyncEventReceipt). r.status) second.0.receipts ≡ duplicate ∷ conflicting ∷ [])
unfolding ingest persist_all persist_event fits_integer String-discrete ℕ_discrete store see_device
    acknowledge accepted_sequence advance_watermark refuse SyncEventEnvelope-discrete exception
    Option-discrete Members-discrete
second_answer = (refl, refl)

nothing-IsSound : IsSound nothing
nothing-IsSound = record {
  stored = record { queued_once = refl; instances = refl; sequences = refl };
  gapless = λ device s positive le. absurd (omega arith);
}

ingest-IsSound_example : IsSound first.1 × Gapless "till" first.0.accepted_through_sequence first.1
ingest-IsSound_example =
    ingest-IsSound batch nothing nothing-IsSound (value_lem (ingest batch nothing) taken-IsOk)

ingest_again_example : IsReplay batch first.1
unfolding ingest persist_all persist_event fits_integer String-discrete ℕ_discrete store see_device
    acknowledge accepted_sequence advance_watermark ReceiptStatus-discrete
ingest_again_example = ingest_again batch nothing (value_lem (ingest batch nothing) taken-IsOk) refl

ingest_conflict_example :
    EachConflict
      (λ e. second.0.accepted_through_sequence ≤ e.sequence - 1)
      reused.events
      second.0.receipts
ingest_conflict_example =
    ingest_conflict reused first.1 (refl, (refl, tt))
      (value_lem (ingest reused first.1) reused-IsOk)

ingest_error_example :
    (((r : DeviceSyncAck × SyncDb) × (ingest batch nothing ≡ ok r))
      ↔ (all_storable batch.events nothing ≡ true))
    × (IsDatabaseError (ingest batch nothing) ↔ (all_storable batch.events nothing ≡ false))
ingest_error_example = ingest_error batch nothing
