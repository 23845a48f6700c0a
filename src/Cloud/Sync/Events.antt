-- ===== src/Cloud/Sync/Events.antt =====
-- apps/cloud-api/src/sync/cloud-sync.service.ts, `processEvent`: an event is stored once, and an
-- order's event is projected.
use eventcommerce_os.Base.{
  Option, none, some, not, ◌&&◌, ◌||◌, ◌∷◌, ◌==◌, ◌!=◌, string_eq, nat_eq, option_eq, find,
  if◌then◌else◌, Result, ok, throw_if, database,
}
use eventcommerce_os.Base.Do.{◌>>◌}
use eventcommerce_os.Base.Int.{fits_integer}
use eventcommerce_os.Contracts.{
  SyncEventEnvelope, envelope_eq, accepted, duplicate, receipt_status_eq,
}
use eventcommerce_os.Cloud.Sync.Tables.{
  EdgeSyncIdentity, CloudEventRow, CloudSyncDb, reused_instance, reused_sequence, has_instance,
  has_sequence, exception,
}
use eventcommerce_os.Cloud.Sync.Projection.{Outcome, refused, apply_order}

-- INSERT INTO sync_processed_events; its keys have been looked up
unfoldable pub store : SyncEventEnvelope → EdgeSyncIdentity → CloudSyncDb → CloudSyncDb
store event identity db = record db {
  events =
      record {
        envelope = event;
        edge_id = some identity.edge_id;
        organisation_id = some identity.organisation_id;
        received_at = db.now;
      }
      ∷ db.events;
}

-- the row that has the event's instance, compared with the event
unfoldable pub known_instance :
    SyncEventEnvelope → EdgeSyncIdentity → CloudEventRow → CloudSyncDb → Outcome
unfolding exception
known_instance event identity existing db =
    if existing.envelope == event
      && (existing.organisation_id == none
          || existing.organisation_id == some identity.organisation_id)
    then (duplicate, db)
    else refused "EVENT_INSTANCE_REUSE" event (reused_instance existing.edge_id identity.edge_id) db

-- an event whose keys are free
unfoldable pub new_event : SyncEventEnvelope → EdgeSyncIdentity → CloudSyncDb → Result Outcome
unfolding fits_integer store apply_order
new_event event identity db =
    throw_if (not (fits_integer event.event_version)) (database "integer out of range")
    >> throw_if (not (db.readable event)) (database "invalid input value")
    >> ok (
        if event.aggregate_type != "ORDER"
        then (accepted, store event identity db)
        else apply_order event (store event identity db))

unfoldable pub by_sequence :
    SyncEventEnvelope → EdgeSyncIdentity → Option CloudEventRow → CloudSyncDb → Result Outcome
unfolding exception new_event
by_sequence event identity none db = new_event event identity db
by_sequence event identity (some row) db = ok (
    refused "DEVICE_SEQUENCE_REUSE" event
      (reused_sequence row.envelope.event_instance_id identity.edge_id) db)

unfoldable pub by_instance :
    SyncEventEnvelope → EdgeSyncIdentity → Option CloudEventRow → CloudSyncDb → Result Outcome
unfolding known_instance by_sequence
by_instance event identity (some existing) db = ok (known_instance event identity existing db)
by_instance event identity none db =
    by_sequence event identity
      (find (has_sequence identity.organisation_id event.device_id event.sequence) db.events) db

unfoldable pub process_event : SyncEventEnvelope → EdgeSyncIdentity → CloudSyncDb → Result Outcome
unfolding by_instance
process_event event identity db =
    by_instance event identity (find (has_instance event.event_instance_id) db.events) db
