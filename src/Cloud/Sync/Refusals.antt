-- ===== src/Cloud/Sync/Refusals.antt =====
-- cloud-sync.service.ts, `processEvent`: conflicts are on record.
use eventcommerce_os.Base.{
  ◌≡◌, ◌≢◌, ◌⊎◌, refl, sym, String, Option, none, some, ◌∷◌, ◌==◌, ◌!=◌, ◌&&◌, ◌||◌, string_eq,
  option_eq, find, Result, ok, err, ok-inj, arith, Bool-cases, Option-cases, inl, inr,
}
use eventcommerce_os.Contracts.{
  SyncEventEnvelope, envelope_eq, accepted, duplicate, conflicting, receipt_status_eq,
}
use eventcommerce_os.Cloud.Sync.Payload.{OrderProjectionPayload, order_payload}
use eventcommerce_os.Cloud.Sync.Tables.{
  EdgeSyncIdentity, CloudSyncDb, OrderStateRow, CloudEventRow, CloudExceptionRow,
  CloudExceptionDetails, has_instance, has_sequence, exception,
}
use eventcommerce_os.Cloud.Sync.Projection.{
  Outcome, refused, apply_existing, apply_to, apply_parsed, apply_order,
}
use eventcommerce_os.Cloud.Sync.Events.{
  store, known_instance, new_event, by_sequence, by_instance, process_event,
}
use eventcommerce_os.Cloud.Sync.Orders.{apply_existing-cases}

-- A conflict is on record: the order's table is as it was, and one exception names the event. Any
-- other outcome leaves no exception.
abbrev pub IsRecorded : SyncEventEnvelope → CloudSyncDb → Outcome → Type 0
IsRecorded event db r =
    ((r.0 ≢ conflicting) × (r.1.exceptions ≡ db.exceptions))
    ⊎ ((r.0 ≡ conflicting)
        × (r.1.orders ≡ db.orders)
        × (x : CloudExceptionRow) × (r.1.exceptions ≡ x ∷ db.exceptions)
        × (x.event_instance_id ≡ event.event_instance_id)
        × (x.device_id ≡ event.device_id))

accepted_other : accepted ≢ conflicting
accepted_other h = cc

duplicate_other : duplicate ≢ conflicting
duplicate_other h = cc

refused-IsRecorded :
    (type : String) (event : SyncEventEnvelope) (details : CloudExceptionDetails) (db : CloudSyncDb)
    → IsRecorded event db (refused type event details db)
unfolding exception
refused-IsRecorded type event details db = inr (refl, refl, _, refl, refl, refl)

apply_to-IsRecorded :
    (event : SyncEventEnvelope) (payload : OrderProjectionPayload) (there : Option OrderStateRow)
    (db : CloudSyncDb)
    → IsRecorded event db (apply_to event payload there db)
unfolding apply_to apply_existing
apply_to-IsRecorded event payload none db = inl (accepted_other, refl)
apply_to-IsRecorded event payload (some row) db = elim (apply_existing-cases event payload row db) [
  | inl e ↦ rw e (inl (accepted_other, refl))
  | inr (inl (type, details, e)) ↦ rw e (refused-IsRecorded type event details db)
  | inr (inr (e, _)) ↦ rw e (inl (accepted_other, refl))
]

apply_parsed-IsRecorded :
    (event : SyncEventEnvelope) (parsed : Result OrderProjectionPayload) (db : CloudSyncDb)
    → IsRecorded event db (apply_parsed event parsed db)
unfolding apply_parsed
apply_parsed-IsRecorded event (err x) db = refused-IsRecorded _ event _ db
apply_parsed-IsRecorded event (ok payload) db = apply_to-IsRecorded event payload _ db

new_event-IsRecorded :
    (event : SyncEventEnvelope) (identity : EdgeSyncIdentity) (db : CloudSyncDb) {r : Outcome}
    → new_event event identity db ≡ ok r
    → IsRecorded event db r
unfolding new_event store apply_order
new_event-IsRecorded event identity db {r} h = elim (Bool-cases (event.aggregate_type != "ORDER")) [
  | inl other ↦
      let e : r ≡ (accepted, store event identity db) = ground arith in
      rw e (inl (accepted_other, refl))
  | inr order ↦
      let e : r ≡ apply_parsed event (order_payload event) (store event identity db) =
        ground arith in
      rw e (apply_parsed-IsRecorded event (order_payload event) (store event identity db))
]

known_instance-IsRecorded :
    (event : SyncEventEnvelope) (identity : EdgeSyncIdentity) (row : CloudEventRow)
    (db : CloudSyncDb)
    → IsRecorded event db (known_instance event identity row db)
unfolding known_instance
known_instance-IsRecorded event identity row db =
    elim (Bool-cases (
      row.envelope == event
      && (row.organisation_id == none || row.organisation_id == some identity.organisation_id))) [
        | inl known ↦ rw known (inl (duplicate_other, refl))
        | inr other ↦ rw other (refused-IsRecorded _ event _ db)
      ]

-- An event that is taken in is answered with a conflict exactly when one exception that names the
-- event and its device is put on record; a conflict leaves the table of orders as it was.
pub process_event-IsRecorded :
    (event : SyncEventEnvelope) (identity : EdgeSyncIdentity) (db : CloudSyncDb) {r : Outcome}
    → process_event event identity db ≡ ok r
    → IsRecorded event db r
unfolding process_event by_instance by_sequence
process_event-IsRecorded event identity db {r} h =
    elim (Option-cases (find (has_instance event.event_instance_id) db.events)) [
      | inl new ↦
          elim (Option-cases (
            find (has_sequence identity.organisation_id event.device_id event.sequence)
              db.events)) [
                | inl free ↦ new_event-IsRecorded event identity db (rw free at (rw new at h))
                | inr (row, taken) ↦
                    rw (sym (ok-inj (rw taken at (rw new at h)))) (refused-IsRecorded _ event _ db)
              ]
      | inr (row, found) ↦
          rw (sym (ok-inj (rw found at h))) (known_instance-IsRecorded event identity row db)
    ]
