-- ===== src/Edge/DeviceSync/Replay.antt =====
-- device-sync.service.ts, `ingest`: a batch that is sent again changes no event and queues nothing.
use eventcommerce_os.Base.{
  ◌≡◌, refl, ap, ℕ, Option, none, some, true, false, List, [], ◌∷◌, map, ◌==◌, ◌!=◌, string_eq,
  nat_eq, ==_iff, ==_refl, all, find, All, ok, arith, Bool-cases, inl, inr,
}
use eventcommerce_os.Base.Searching.{any_of_find}
use eventcommerce_os.Contracts.{
  SyncEventEnvelope, envelope_eq, DeviceSyncBatch, duplicate, conflicting, receipt_status_eq,
  SyncEventReceipt, DeviceSyncAck,
}
use eventcommerce_os.Edge.DeviceSync.{
  SyncDb, ProcessedRow, has_instance, is_taken, receipt_of, store, refuse, persist_event,
  persist_all, highest, see_device, acknowledge, accepted_sequence, ack_of, ingest,
}
use eventcommerce_os.Edge.DeviceSync.Stored.{
  is_storable, persist_event-cases, persist_all-eq_ok, refuse-same, persist_all_inv,
}
use eventcommerce_os.Edge.DeviceSync.Ack.{ingest-eq_ok}

-- the event is stored as it is, and the database takes its values
abbrev pub Holds : SyncEventEnvelope → SyncDb → Type 0
Holds event db =
    (row : ProcessedRow) × (find (has_instance event.event_instance_id) db.events ≡ some row)
    × (row.envelope ≡ event)
    × (is_storable event db ≡ true)

abbrev pub already : SyncEventEnvelope → SyncEventReceipt
already event = record (receipt_of event) { status = duplicate }

persist_event-storable :
    (event : SyncEventEnvelope) (db : SyncDb) {r : SyncEventReceipt × SyncDb}
    → persist_event event db ≡ ok r
    → is_storable event db ≡ true
unfolding persist_event
persist_event-storable event db h = ground arith

store-Holds :
    (event : SyncEventEnvelope) (db : SyncDb)
    → is_storable event db ≡ true
    → Holds event (store event db)
unfolding store
store-Holds event db fits = (
  record { envelope = event; received_at = db.now },
  ground (arith, ==_refl event.event_instance_id),
  refl,
  fits,
)

refuse-Holds :
    (event : SyncEventEnvelope) (found : Option ProcessedRow) (db : SyncDb)
    → find (has_instance event.event_instance_id) db.events ≡ found
    → ((refuse event found db).0.status != conflicting) ≡ true
    → is_storable event db ≡ true
    → Holds event (refuse event found db).1
unfolding refuse
refuse-Holds event none db e kept fits = absurd (ground arith)
refuse-Holds event (some row) db e kept fits = elim (Bool-cases (row.envelope == event)) [
  | inl same ↦ rw same (row, e, (==_iff row.envelope event).0 same, fits)
  | inr other ↦ absurd (ground arith)
]

-- A receipt that is no conflict is that of a stored event.
persist_event-Holds :
    (event : SyncEventEnvelope) (db : SyncDb) {r : SyncEventReceipt × SyncDb}
    → persist_event event db ≡ ok r
    → (r.0.status != conflicting) ≡ true
    → Holds event r.1
persist_event-Holds event db {r} h kept =
    let fits = persist_event-storable event db h in
    elim (persist_event-cases event db h) [
      | inl (free, e) ↦
          rw (ap (λ (q : SyncEventReceipt × SyncDb). q.1) e) (store-Holds event db fits)
      | inr (taken, e) ↦ rw (ap (λ (q : SyncEventReceipt × SyncDb). q.1) e) (
          refuse-Holds event (find (has_instance event.event_instance_id) db.events) db refl
            (rw e at kept) fits)
    ]

store-keeps :
    (event other : SyncEventEnvelope) (db : SyncDb)
    → is_taken other db ≡ false
    → Holds event db
    → Holds event (store other db)
unfolding store
store-keeps event other db free (row, found, same, fits) = (
  row,
  ground (
    arith,
    ==_iff other.event_instance_id event.event_instance_id,
    any_of_find (has_instance event.event_instance_id) db.events {x = row},
  ),
  same,
  fits,
)

-- A later event of the batch does not touch a stored one.
persist_event-keeps :
    (event other : SyncEventEnvelope) (db : SyncDb) (r : SyncEventReceipt × SyncDb)
    → persist_event other db ≡ ok r
    → Holds event db
    → Holds event r.1
persist_event-keeps event other db r h held = elim (persist_event-cases other db h) [
  | inl (free, e) ↦
      rw (ap (λ (q : SyncEventReceipt × SyncDb). q.1) e) (store-keeps event other db free held)
  | inr (taken, e) ↦
      rw
        (
          ap (λ (q : SyncEventReceipt × SyncDb). q.1) e,
          (refuse-same other (find (has_instance other.event_instance_id) db.events) db).events,
          (refuse-same other (find (has_instance other.event_instance_id) db.events) db).readable,
        )
        held
]

persist_event_again :
    (event : SyncEventEnvelope) (db : SyncDb)
    → Holds event db
    → persist_event event db ≡ ok (already event, db)
unfolding persist_event refuse
persist_event_again event db (row, found, same, fits) = ground (
  arith,
  ==_iff row.envelope event,
  any_of_find (has_instance event.event_instance_id) db.events {x = row},
)

-- Every event of a batch without a conflict is stored when the loop is over.
persist_all-Holds :
    (events : List SyncEventEnvelope) (db : SyncDb) {receipts : List SyncEventReceipt}
    {db' : SyncDb}
    → persist_all events db ≡ ok (receipts, db')
    → all (λ r. r.status != conflicting) receipts ≡ true
    → All (λ e. Holds e db') events
persist_all-Holds [] db h kept = tt
persist_all-Holds (event ∷ events) db {receipts} {db'} h kept =
    let (first, rest, e, e', e'') = persist_all-eq_ok event events db h in
    let kept' : all (λ r. r.status != conflicting) (first.0 ∷ rest) ≡ true = rw e'' at kept in
    let holds = persist_event-Holds event db e (ground arith) in
    (
      persist_all_inv (Holds event) events first.1 (persist_event-keeps event) e' holds,
      persist_all-Holds events first.1 e' (ground arith),
    )

persist_all_again :
    (events : List SyncEventEnvelope) (db : SyncDb)
    → All (λ e. Holds e db) events
    → persist_all events db ≡ ok (map already events, db)
unfolding persist_all
persist_all_again [] db held = refl
persist_all_again (event ∷ events) db (held, rest) =
    rw (persist_event_again event db held) (rw (persist_all_again events db rest) refl)

-- The batch is taken in again: with duplicates only, and with no change of events, outbox or
-- exceptions.
abbrev pub IsReplay : DeviceSyncBatch → SyncDb → Type 0
IsReplay batch db =
    (again : DeviceSyncAck) × (db' : SyncDb) × (ingest batch db ≡ ok (again, db'))
    × (again.receipts ≡ map already batch.events)
    × (db'.events ≡ db.events)
    × (db'.outbox ≡ db.outbox)
    × (db'.exceptions ≡ db.exceptions)

again_lem :
    (batch : DeviceSyncBatch) (db : SyncDb)
    → persist_all batch.events db ≡ ok (map already batch.events, db)
    → IsReplay batch db
unfolding ingest see_device acknowledge
again_lem batch db e =
    let seen = see_device batch.device_id (highest batch.events) db in
    let sequence = accepted_sequence batch.device_id seen in
    let db' = acknowledge batch.device_id sequence seen in
    (
      ack_of batch.device_id sequence (map already batch.events) db',
      db',
      rw e refl,
      refl,
      refl,
      refl,
      refl,
    )

settled-Holds :
    (batch : DeviceSyncBatch) (events : List SyncEventEnvelope) (sequence : ℕ) (stored : SyncDb)
    → All (λ e. Holds e stored) events
    → All
        (λ e. Holds e (
          acknowledge batch.device_id sequence
            (see_device batch.device_id (highest batch.events) stored)))
        events
unfolding see_device acknowledge
settled-Holds batch events sequence stored held = held

-- Where a batch was taken in without a conflict, the same batch sent again (a retry after a lost
-- answer) is taken in: each of its events is answered as a duplicate, and the stored events, the
-- outbox and the exceptions stay as they are.
pub ingest_again :
    (batch : DeviceSyncBatch) (db : SyncDb) {ack : DeviceSyncAck} {db' : SyncDb}
    → ingest batch db ≡ ok (ack, db')
    → all (λ r. r.status != conflicting) ack.receipts ≡ true
    → IsReplay batch db'
ingest_again batch db {ack} {db'} h kept =
    let (receipts, stored, sequence, persisted, e, e', e'') = ingest-eq_ok batch db h in
    let held =
      persist_all-Holds batch.events db persisted
        (rw (ap (λ (a : DeviceSyncAck). a.receipts) e'') at kept) in
    rw e' (
      again_lem batch _
        (persist_all_again batch.events _ (settled-Holds batch batch.events sequence stored held)))
