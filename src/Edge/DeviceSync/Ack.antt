-- ===== src/Edge/DeviceSync/Ack.antt =====
-- device-sync.service.ts, `ingest`: what the edge tells a device that it has is stored.
use mathlib.Core.Path.{subst}
use eventcommerce_os.Base.{
  ◌≡◌, refl, sym, ap, ◌∙◌, ℕ, ◌≤◌, ◌<◌, max, String, some, true, List, string_eq, ==_iff, any, find,
  ok, arith, Bool-cases, Option-cases, Result-cases, inl, inr, if◌then◌else◌,
}
use eventcommerce_os.Base.Searching.{
  find-holds, find-update_where, find-update_where-none, find-none_of_any,
}
use eventcommerce_os.Contracts.{SyncEventEnvelope, DeviceSyncBatch, SyncEventReceipt, DeviceSyncAck}
use eventcommerce_os.Edge.DeviceSync.{
  SyncDb, WatermarkRow, has_instance, has_sequence, is_of, accepted_through, store, persist_event,
  persist_all, highest, see_device, acknowledge, accepted_sequence, ack_of, ingest,
}
use eventcommerce_os.Edge.DeviceSync.Stored.{
  IsStored, refuse-same, persist_event-cases, persist_event-IsStored, persist_all_inv,
}
use eventcommerce_os.Edge.DeviceSync.Gapless.{Gapless, accepted_sequence-Gapless}

abbrev pub watermark_of : String → SyncDb → ℕ
watermark_of device db = accepted_through (find (is_of device) db.watermarks)

-- What the edge's tables promise: the stored events are queued once, and each device's watermark
-- covers stored events only.
pub record IsSound (db : SyncDb) : Type 0 where
  pub stored : IsStored db
  pub gapless : (device : String) → Gapless device (watermark_of device db) db

-- What the device knows of its own event does not change the watermarks, and loses no event.
persist_event-Gapless :
    (event : SyncEventEnvelope) (db : SyncDb) {r : SyncEventReceipt × SyncDb} (device : String)
    → persist_event event db ≡ ok r
    → Gapless device (watermark_of device db) db
    → Gapless device (watermark_of device r.1) r.1
unfolding store
persist_event-Gapless event db {r} device h g = elim (persist_event-cases event db h) [
  | inl (free, e) ↦
      rw (ap (λ (q : SyncEventReceipt × SyncDb). q.1) e)
        (λ s positive le. ground (arith, g s positive le))
  | inr (taken, e) ↦
      let same = refuse-same event (find (has_instance event.event_instance_id) db.events) db in
      rw (ap (λ (q : SyncEventReceipt × SyncDb). q.1) e, same.events, same.watermarks) g
]

pub persist_event-IsSound :
    (event : SyncEventEnvelope) (db : SyncDb) (r : SyncEventReceipt × SyncDb)
    → persist_event event db ≡ ok r
    → IsSound db
    → IsSound r.1
persist_event-IsSound event db r h sound = record {
  stored = persist_event-IsStored event db h sound.stored;
  gapless = λ device. persist_event-Gapless event db device h (sound.gapless device);
}

see_device-watermark :
    (device : String) (seen : ℕ) (db : SyncDb) (other : String)
    → watermark_of other (see_device device seen db) ≡ watermark_of other db
unfolding see_device
see_device-watermark device seen db other =
    let change = λ (row : WatermarkRow). record row {
      highest_sequence_seen = max row.highest_sequence_seen seen;
      last_seen_at = db.now;
    } in
    elim (Bool-cases (any (is_of device) db.watermarks)) [
      | inl known ↦ elim (Option-cases (find (is_of other) db.watermarks)) [
        | inl missing ↦ ground (
          arith,
          find-update_where-none (is_of device) (is_of other) change db.watermarks (λ y. refl)
              missing,
        )
        | inr (row, found) ↦ ground (
          arith,
          find-update_where (is_of device) (is_of other) change db.watermarks {x = row} (λ y. refl)
              found,
        )
      ]
      | inr new ↦
          ground (arith, ==_iff device other, find-none_of_any (is_of device) db.watermarks new)
    ]

-- The row that `acknowledge` leaves has the new number, if it is the device's, or is as it was.
acknowledged-row :
    (device : String) (sequence : ℕ) (db : SyncDb) (other : String) (row : WatermarkRow) (s : ℕ)
    → find (is_of other) db.watermarks ≡ some row
    → Gapless device sequence db
    → Gapless other row.accepted_through_sequence db
    → 0 < s
    → s
      ≤ accepted_through (
          some
            (if is_of device row then record row { accepted_through_sequence = sequence } else row))
    → any (has_sequence other s) db.events ≡ true
acknowledged-row device sequence db other row s found new old positive le =
    elim (Bool-cases (is_of device row)) [
      | inr e ↦ old s positive (rw e at le)
      | inl e ↦
          let same : device ≡ other =
            sym ((==_iff row.device_id device).0 e)
            ∙ (==_iff row.device_id other).0 (find-holds (is_of other) db.watermarks found) in
          subst (λ d. any (has_sequence d s) db.events ≡ true) same (new s positive (rw e at le))
    ]

acknowledge-Gapless :
    (device : String) (sequence : ℕ) (db : SyncDb) (other : String)
    → Gapless device sequence db
    → Gapless other (watermark_of other db) db
    → Gapless other
        (watermark_of other (acknowledge device sequence db))
        (acknowledge device sequence db)
unfolding acknowledge
acknowledge-Gapless device sequence db other new old =
    let change = λ (row : WatermarkRow). record row { accepted_through_sequence = sequence } in
    elim (Option-cases (find (is_of other) db.watermarks)) [
      | inl missing ↦
          rw
            (find-update_where-none (is_of device) (is_of other) change db.watermarks (λ y. refl)
              missing)
            (λ s positive le. absurd (omega arith))
      | inr (row, found) ↦
          rw
            (find-update_where (is_of device) (is_of other) change db.watermarks {x = row}
              (λ y. refl) found)
            (λ s positive le.
              acknowledged-row device sequence db other row s found new (rw found at old) positive
                le)
    ]

-- `ingest` succeeds when its loop does, with these answer and tables.
pub ingest-eq_ok :
    (batch : DeviceSyncBatch) (db : SyncDb) {ack : DeviceSyncAck} {db' : SyncDb}
    → ingest batch db ≡ ok (ack, db')
    → (receipts : List SyncEventReceipt) × (stored : SyncDb) × (sequence : ℕ) × (persist_all
          batch.events db
        ≡ ok (receipts, stored))
      × (sequence
          ≡ accepted_sequence batch.device_id
              (see_device batch.device_id (highest batch.events) stored))
      × (db'
          ≡ acknowledge batch.device_id sequence
              (see_device batch.device_id (highest batch.events) stored))
      × (ack ≡ ack_of batch.device_id sequence receipts db')
unfolding ingest
ingest-eq_ok batch db {ack} {db'} h = elim (Result-cases (persist_all batch.events db)) [
  | inr (x, e) ↦ absurd (ground arith)
  | inl ((receipts, stored), e) ↦ (receipts, stored, _, e, refl, ground arith, ground arith)
]

see_device-IsSound :
    (device : String) (seen : ℕ) (db : SyncDb) → IsSound db → IsSound (see_device device seen db)
unfolding see_device
see_device-IsSound device seen db sound = record {
  stored = record {
    queued_once = sound.stored.queued_once;
    instances = sound.stored.instances;
    sequences = sound.stored.sequences;
  };
  gapless = λ other. rw (see_device-watermark device seen db other) (sound.gapless other);
}

acknowledge-IsSound :
    (device : String) (sequence : ℕ) (db : SyncDb)
    → Gapless device sequence db
    → IsSound db
    → IsSound (acknowledge device sequence db)
unfolding acknowledge
acknowledge-IsSound device sequence db new sound = record {
  stored = record {
    queued_once = sound.stored.queued_once;
    instances = sound.stored.instances;
    sequences = sound.stored.sequences;
  };
  gapless = λ other. acknowledge-Gapless device sequence db other new (sound.gapless other);
}

-- A batch that is taken in leaves the tables sound: every stored event is in the outbox for the cloud
-- exactly once, no two stored events share an event instance or a device's sequence number, and
-- every number from 1 up to a device's watermark is stored. The number that the batch's device is
-- told is one up to which all of its events are stored.
pub ingest-IsSound :
    (batch : DeviceSyncBatch) (db : SyncDb) {ack : DeviceSyncAck} {db' : SyncDb}
    → IsSound db
    → ingest batch db ≡ ok (ack, db')
    → IsSound db' × Gapless batch.device_id ack.accepted_through_sequence db'
unfolding acknowledge
ingest-IsSound batch db {ack} {db'} sound h =
    let (receipts, stored, sequence, persisted, e, e', e'') = ingest-eq_ok batch db h in
    let seen = see_device batch.device_id (highest batch.events) stored in
    let seen_sound =
      see_device-IsSound batch.device_id (highest batch.events) stored
        (persist_all_inv IsSound batch.events db persist_event-IsSound persisted sound) in
    let covered : Gapless batch.device_id sequence seen =
      rw e (accepted_sequence-Gapless batch.device_id seen (seen_sound.gapless batch.device_id)) in
    (
      rw e' (acknowledge-IsSound batch.device_id sequence seen covered seen_sound),
      subst (λ n. Gapless batch.device_id n db')
          (sym (ap (λ (a : DeviceSyncAck). a.accepted_through_sequence) e'')) (rw e' covered),
    )
