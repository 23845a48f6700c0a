-- ===== src/Edge/Forwarder/Sound.antt =====
-- cloud-forwarder.service.ts, `drainOnce`: what the edge promises its devices holds while the outbox is
-- sent.
use eventcommerce_os.Base.{
  ◌≡◌, refl, sym, ap, ◌∙◌, ℕ, ◌+◌, String, some, Bool, List, [], ◌∷◌, map, string_eq, find,
  includes, update_where, Result, ok, err, Bool-cases, inl, inr, arith,
}
use eventcommerce_os.Contracts.{SyncEventEnvelope, EdgeCloudBatch, EdgeCloudAck}
use eventcommerce_os.Edge.DeviceSync.{SyncDb, CloudOutboxRow, WatermarkRow, is_of, accepted_through}
use eventcommerce_os.Edge.DeviceSync.Ack.{IsSound, watermark_of}
use eventcommerce_os.Edge.Forwarder.{
  set_of, due_rows, batch_of, covers_batch, conflict_exceptions, delivered, device_of,
  is_acknowledged, mark_delivered, mark_devices, deliver, is_waiting, postponed, retry_delay_ms,
  postpone, settle_batch, message_of, not_covered, forward, drain_once,
}
use eventcommerce_os.Edge.Forwarder.Outbox.{conflict_exceptions-SameTables}

abbrev envelope_of : CloudOutboxRow → SyncEventEnvelope
envelope_of row = row.envelope

-- what the devices are promised looks at: the events, the queue and the watermarks
record KeepsPromises (db db' : SyncDb) : Type 0 where
  pub events : db'.events ≡ db.events
  pub queue : map envelope_of db'.outbox ≡ map envelope_of db.outbox
  pub watermarks : (device : String) → watermark_of device db' ≡ watermark_of device db

IsSound-kept : (db db' : SyncDb) → KeepsPromises db db' → IsSound db → IsSound db'
IsSound-kept db db' kept sound = record {
  stored = record {
    queued_once = kept.queue ∙ (sound.stored.queued_once ∙ sym (ap (map _) kept.events));
    instances = rw kept.events sound.stored.instances;
    sequences = rw kept.events sound.stored.sequences;
  };
  gapless = λ device. rw (kept.events, kept.watermarks device) (sound.gapless device);
}

map-update_where :
    (p : CloudOutboxRow → Bool) (change : CloudOutboxRow → CloudOutboxRow)
    (rows : List CloudOutboxRow)
    → ((row : CloudOutboxRow) → (change row).envelope ≡ row.envelope)
    → map envelope_of (update_where p change rows) ≡ map envelope_of rows
map-update_where p change [] keep = refl
map-update_where p change (row ∷ rows) keep =
    ground (arith, keep row, map-update_where p change rows keep)

-- an update of the watermarks that does not move them
moved-watermark :
    (p : WatermarkRow → Bool) (change : WatermarkRow → WatermarkRow) (rows : List WatermarkRow)
    (device : String)
    → ((row : WatermarkRow) → (change row).device_id ≡ row.device_id)
    → ((row : WatermarkRow)
        → (change row).accepted_through_sequence ≡ row.accepted_through_sequence)
    → accepted_through (find (is_of device) (update_where p change rows))
      ≡ accepted_through (find (is_of device) rows)
moved-watermark p change [] device keep same = refl
moved-watermark p change (row ∷ rows) device keep same =
    ground (arith, keep row, same row, moved-watermark p change rows device keep same)

KeepsPromises-trans : (a b c : SyncDb) → KeepsPromises a b → KeepsPromises b c → KeepsPromises a c
KeepsPromises-trans a b c h k = record {
  events = k.events ∙ h.events;
  queue = k.queue ∙ h.queue;
  watermarks = λ device. k.watermarks device ∙ h.watermarks device;
}

deliver-KeepsPromises :
    (rows : List CloudOutboxRow) (ack : EdgeCloudAck) (db : SyncDb)
    → KeepsPromises db (deliver rows ack db)
unfolding deliver mark_devices mark_delivered
deliver-KeepsPromises rows ack db =
    let marked = mark_delivered ack db in
    let same =
      conflict_exceptions-SameTables (set_of ack.conflict_event_instance_ids) rows marked in
    let after = conflict_exceptions (set_of ack.conflict_event_instance_ids) rows marked in
    record {
      events = same.events;
      queue =
          ap (map envelope_of) same.outbox
          ∙ map-update_where (is_acknowledged ack) (delivered db.now) db.outbox (λ row. refl);
      watermarks = λ device.
          moved-watermark (λ (w : WatermarkRow). includes w.device_id (map device_of rows))
            (λ w. record w { last_cloud_delivery_at = some after.now }) after.watermarks device
            (λ row. refl) (λ row. refl)
          ∙ ap (λ ws. accepted_through (find (is_of device) ws)) same.watermarks;
    }

postpone-KeepsPromises :
    (jittered : ℕ → ℕ) (rows : List CloudOutboxRow) (message : String) (db : SyncDb)
    → KeepsPromises db (postpone jittered rows message db)
unfolding postpone
postpone-KeepsPromises jittered [] message db = record {
  events = refl;
  queue = refl;
  watermarks = λ device. refl;
}
postpone-KeepsPromises jittered (row ∷ rows) message db =
    let change =
      postponed (row.attempts + 1) (retry_delay_ms jittered (row.attempts + 1)) db.now message in
    let next : SyncDb = record db {
      outbox = update_where (is_waiting row.event_instance_id) change db.outbox;
    } in
    KeepsPromises-trans db next (postpone jittered rows message next)
      (record {
        events = refl;
        queue = map-update_where (is_waiting row.event_instance_id) change db.outbox (λ r. refl);
        watermarks = λ device. refl;
      })
      (postpone-KeepsPromises jittered rows message next)

module _ (jittered : ℕ → ℕ) (first_500 : String → String) where
  settle_batch-KeepsPromises :
      (rows : List CloudOutboxRow) (answer : Result EdgeCloudAck) (db : SyncDb)
      → KeepsPromises db (settle_batch jittered first_500 rows answer db).1
  unfolding settle_batch
  settle_batch-KeepsPromises rows (err e) db =
      postpone-KeepsPromises jittered rows (first_500 (message_of e)) db
  settle_batch-KeepsPromises rows (ok ack) db = elim (Bool-cases (covers_batch ack rows)) [
    | inl covered ↦ rw covered (deliver-KeepsPromises rows ack db)
    | inr short ↦ rw short (postpone-KeepsPromises jittered rows (first_500 not_covered) db)
  ]

  module _ (sql_le : String → String → Bool) (edge_id : String)
      (send : EdgeCloudBatch → Result EdgeCloudAck) where
    forward-KeepsPromises :
        (rows : List CloudOutboxRow) (db : SyncDb)
        → KeepsPromises db (forward jittered first_500 sql_le edge_id send rows db).1
    forward-KeepsPromises [] db = record {
      events = refl;
      queue = refl;
      watermarks = λ device. refl;
    }
    forward-KeepsPromises (row ∷ rows) db =
        settle_batch-KeepsPromises (row ∷ rows) (send (batch_of edge_id (row ∷ rows) db)) db

    -- Sending the outbox, whatever comes of it, keeps the edge's tables sound: every stored event stays
    -- in the outbox exactly once, delivered or not, no two stored events share an instance or a
    -- device's sequence number, and every number from 1 up to a device's watermark is stored.
    pub drain_once-IsSound :
        (limit : ℕ) (db : SyncDb)
        → IsSound db
        → IsSound (drain_once jittered first_500 sql_le edge_id send limit db).1
    unfolding drain_once
    drain_once-IsSound limit db sound =
        IsSound-kept db
          (forward jittered first_500 sql_le edge_id send (due_rows sql_le limit db) db).1
          (forward-KeepsPromises (due_rows sql_le limit db) db) sound
