-- ===== src/Cloud/Sync.antt =====
-- apps/cloud-api/src/sync/cloud-sync.service.ts: the cloud takes the batches of an event's edge in. It
-- stores each event once, projects the orders, and keeps what the edge says of its devices. Advisory
-- locks are left out: batches are taken in one after another.
pub mod Payload
pub mod Tables
pub mod Projection
pub mod Events
pub mod Orders
pub mod Forward
pub mod Batches
pub mod Once
pub mod Refusals
pub mod Scopes
pub mod Foreign
pub mod Untouched
pub mod Telemetry
pub mod Attributed
mod Tests
use eventcommerce_os.Base.{
  ℕ, ◌+◌, ◌^◌, max, String, Option, none, some, Bool, true, false, not, ◌&&◌, ◌||◌, List, [], ◌∷◌,
  ◌++◌, map, ◌==◌, ◌!=◌, string_eq, nat_eq, option_eq, ltb, find, any, includes, update_where,
  if◌then◌else◌, Result, ok, err, throw_if, conflict, database, template, Failure,
}
use mathlib.Core.Option.{map as map_option}
use eventcommerce_os.Base.Do.{◌>>=◌, ◌>>◌}
use eventcommerce_os.Base.Int.{fits_integer}
use eventcommerce_os.Contracts.{
  SyncEventEnvelope, envelope_eq, ReceiptStatus, accepted, duplicate, conflicting,
  receipt_status_eq, DeviceCloudStatus, EdgeCloudBatch, EdgeCloudAck,
}
use eventcommerce_os.Cloud.Sync.Tables.{
  EdgeSyncIdentity, RosterRow, DeviceStateRow, CloudEventRow, CloudSyncDb, reused_instance,
  reused_sequence, has_instance, has_sequence, exception,
}
use eventcommerce_os.Cloud.Sync.Events.{process_event}

-- the loop over the batch's events; the outcome of each event, with its instance
abbrev pub Outcomes : Type 0
Outcomes = List (String × ReceiptStatus)

unfoldable pub process_all :
    List SyncEventEnvelope → EdgeSyncIdentity → CloudSyncDb → Result (Outcomes × CloudSyncDb)
unfolding process_event
process_all [] identity db = ok ([], db)
process_all (event ∷ events) identity db = process_event event identity db >>= λ first.
    process_all events identity first.1 >>= λ rest.
    ok ((event.event_instance_id, first.0) ∷ rest.0, rest.1)

-- the ids of the devices that the batch speaks of; the Set and its order serve the locks only
abbrev pub devices_of : EdgeCloudBatch → List String
devices_of batch =
    map (λ (e : SyncEventEnvelope). e.device_id) batch.events
    ++ map (λ (s : DeviceCloudStatus). s.device_id) batch.device_statuses

-- a row of the roster, of the telemetry, or of an event that belongs to another edge's scope
abbrev pub other_roster : EdgeSyncIdentity → List String → RosterRow → Bool
other_roster identity devices row =
    includes row.device_id devices
    && (row.organisation_id != identity.organisation_id || row.edge_id != identity.edge_id)

-- `value !== null && value !== own`
abbrev pub differs : Option String → String → Bool
differs none own = false
differs (some a) own = a != own

abbrev pub other_state : EdgeSyncIdentity → List String → DeviceStateRow → Bool
other_state identity devices row =
    includes row.device_id devices
    && (differs row.organisation_id identity.organisation_id
        || differs row.edge_id identity.edge_id)

abbrev pub other_event : EdgeSyncIdentity → List String → CloudEventRow → Bool
other_event identity devices row =
    row.organisation_id == some identity.organisation_id
    && includes row.envelope.device_id devices
    && differs row.edge_id identity.edge_id

abbrev pub refuse_device : Option String → String → Result (Unit {0})
refuse_device none claim = ok tt
refuse_device (some device) claim =
    err (conflict (template ("device " ∷ device ∷ " " ∷ claim ∷ " another Event Edge scope" ∷ [])))

-- the three tests that come before the events
unfoldable pub check_claims : EdgeSyncIdentity → List String → CloudSyncDb → Result (Unit {0})
check_claims identity devices db = do
  refuse_device
      (map_option (λ (r : RosterRow). r.device_id) (find (other_roster identity devices) db.roster))
      "is already attributed to"
  refuse_device
      (map_option (λ (r : DeviceStateRow). r.device_id)
        (find (other_state identity devices) db.device_states))
      "already has telemetry from"
  refuse_device
      (map_option (λ (r : CloudEventRow). r.envelope.device_id)
        (find (other_event identity devices) db.events))
      "already has events from"

abbrev pub is_device : String → DeviceStateRow → Bool
is_device id row = row.device_id == id

abbrev pub device_row : DeviceCloudStatus → EdgeSyncIdentity → DeviceStateRow
device_row status identity = record {
  device_id = status.device_id;
  last_seen_at = status.last_seen_at;
  last_sequence_seen = status.last_sequence_seen;
  edge_accepted_through_sequence = status.edge_accepted_through_sequence;
  edge_backlog_count = status.edge_backlog_count;
  last_cloud_delivery_at = status.last_cloud_delivery_at;
  edge_id = some identity.edge_id;
  organisation_id = some identity.organisation_id;
}

-- COALESCE
abbrev pub latest : Option ℕ → Option ℕ → Option ℕ
latest none b = b
latest (some a) b = some a

-- the SET clause of ON CONFLICT DO UPDATE
abbrev pub update_device : DeviceCloudStatus → EdgeSyncIdentity → DeviceStateRow → DeviceStateRow
update_device status identity row = record row {
  last_seen_at = max row.last_seen_at status.last_seen_at;
  last_sequence_seen = max row.last_sequence_seen status.last_sequence_seen;
  edge_accepted_through_sequence =
      max row.edge_accepted_through_sequence status.edge_accepted_through_sequence;
  edge_backlog_count = status.edge_backlog_count;
  last_cloud_delivery_at = latest status.last_cloud_delivery_at row.last_cloud_delivery_at;
  edge_id = some identity.edge_id;
  organisation_id = some identity.organisation_id;
}

-- the UPSERT of a device's status, by the row that is there
unfoldable pub upsert_device :
    DeviceCloudStatus → EdgeSyncIdentity → Option DeviceStateRow → CloudSyncDb → Result CloudSyncDb
upsert_device status identity none db =
    ok (record db { device_states = device_row status identity ∷ db.device_states })
upsert_device status identity (some row) db =
    throw_if
      (differs row.organisation_id identity.organisation_id || differs row.edge_id identity.edge_id)
      (conflict (
        template (
          "device " ∷ status.device_id ∷ " is already attributed to another Event Edge scope"
          ∷ [])))
    >> ok (record db {
      device_states =
          update_where (is_device status.device_id) (update_device status identity)
            db.device_states;
    })

unfoldable pub keep_status : DeviceCloudStatus → EdgeSyncIdentity → CloudSyncDb → Result CloudSyncDb
unfolding fits_integer upsert_device
keep_status status identity db =
    throw_if (not (fits_integer status.edge_backlog_count)) (database "integer out of range")
    >> upsert_device status identity (find (is_device status.device_id) db.device_states) db

unfoldable pub keep_statuses :
    List DeviceCloudStatus → EdgeSyncIdentity → CloudSyncDb → Result CloudSyncDb
unfolding keep_status
keep_statuses [] identity db = ok db
keep_statuses (status ∷ statuses) identity db =
    keep_status status identity db >>= λ db'. keep_statuses statuses identity db'

-- the ids of the events with an outcome
abbrev pub with_status : ReceiptStatus → Outcomes → List String
with_status status [] = []
with_status status ((id, s) ∷ rest) =
    let others = with_status status rest in if s == status then id ∷ others else others

abbrev pub cloud_ack : Outcomes → EdgeCloudAck
cloud_ack outcomes = record {
  accepted_event_instance_ids = with_status accepted outcomes;
  duplicate_event_instance_ids = with_status duplicate outcomes;
  conflict_event_instance_ids = with_status conflicting outcomes;
}

-- the body of the transaction of `ingest`, and the answer
unfoldable pub ingest :
    EdgeCloudBatch → EdgeSyncIdentity → CloudSyncDb → Result (EdgeCloudAck × CloudSyncDb)
unfolding check_claims process_all keep_statuses
ingest batch identity db = do
  check_claims identity (devices_of batch) db
  processed ← process_all batch.events identity db
  db' ← keep_statuses batch.device_statuses identity processed.1
  ok (cloud_ack processed.0, db')
