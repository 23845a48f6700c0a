-- ===== src/Cloud/Sync/Batches.antt =====
-- cloud-sync.service.ts, `ingest`: every order only moves forward, whatever the batch says.
use eventcommerce_os.Base.{
  ◌≡◌, ◌∙◌, String, Option, none, some, List, [], ◌∷◌, string_eq, find, ok, arith, Bool-cases,
  Result-cases, inl, inr, option_eq,
}
use eventcommerce_os.Base.Int.{fits_integer}
use eventcommerce_os.Contracts.{
  SyncEventEnvelope, envelope_eq, DeviceCloudStatus, EdgeCloudBatch, EdgeCloudAck,
}
use eventcommerce_os.Cloud.Sync.Tables.{
  EdgeSyncIdentity, CloudSyncDb, OrderStateRow, DeviceStateRow, is_order,
}
use eventcommerce_os.Cloud.Sync.Projection.{Outcome}
use eventcommerce_os.Cloud.Sync.Events.{process_event}
use eventcommerce_os.Cloud.Sync.Forward.{Forward, Forward-refl, process_event-Forward}
use eventcommerce_os.Cloud.Sync.{
  Outcomes, process_all, devices_of, check_claims, upsert_device, keep_status, keep_statuses,
  cloud_ack, ingest, is_device,
}
use eventcommerce_os.Cloud.Sync.Orders.{Advances, Advances-trans}

-- The first round of the loop over the events, and the rest of it.
pub process_all-eq_ok :
    (event : SyncEventEnvelope) (events : List SyncEventEnvelope) (identity : EdgeSyncIdentity)
    (db : CloudSyncDb) {outcomes : Outcomes} {db' : CloudSyncDb}
    → process_all (event ∷ events) identity db ≡ ok (outcomes, db')
    → (first : Outcome) × (rest : Outcomes) × (process_event event identity db ≡ ok first)
      × (process_all events identity first.1 ≡ ok (rest, db'))
      × (outcomes ≡ (event.event_instance_id, first.0) ∷ rest)
unfolding process_all
process_all-eq_ok event events identity db {outcomes} {db'} h =
    elim (Result-cases (process_event event identity db)) [
      | inr (x, e) ↦ absurd (ground arith)
      | inl (first, e) ↦ elim (Result-cases (process_all events identity first.1)) [
        | inr (x, e') ↦ absurd (ground arith)
        | inl (rest, e') ↦ (first, rest.0, e, ground arith, ground arith)
      ]
    ]

process_all-Forward :
    (events : List SyncEventEnvelope) (identity : EdgeSyncIdentity) (db : CloudSyncDb) (id : String)
    (row : OrderStateRow) {outcomes : Outcomes} {db' : CloudSyncDb}
    → process_all events identity db ≡ ok (outcomes, db')
    → find (is_order id) db.orders ≡ some row
    → Forward id row db'.orders
unfolding process_all
process_all-Forward [] identity db id row {outcomes} {db'} h found =
    let e : db'.orders ≡ db.orders = ground arith in rw e (Forward-refl id row db.orders found)
process_all-Forward (event ∷ events) identity db id row h found =
    let (first, rest, e, e', _) = process_all-eq_ok event events identity db h in
    let (mid, there, step) = process_event-Forward event identity db id row e found in
    let (new, there', step') = process_all-Forward events identity first.1 id mid e' there in
    (new, there', Advances-trans row mid new step step')

-- What the telemetry of the devices leaves alone.
abbrev pub SameEvents : CloudSyncDb → CloudSyncDb → Type 0
SameEvents db db' =
    (db'.orders ≡ db.orders) × (db'.events ≡ db.events) × (db'.exceptions ≡ db.exceptions)

upsert_device-SameEvents :
    (status : DeviceCloudStatus) (identity : EdgeSyncIdentity) (there : Option DeviceStateRow)
    (db : CloudSyncDb) {db' : CloudSyncDb}
    → upsert_device status identity there db ≡ ok db'
    → SameEvents db db'
unfolding upsert_device
upsert_device-SameEvents status identity none db h = (ground arith, ground arith, ground arith)
upsert_device-SameEvents status identity (some row) db h =
    (ground arith, ground arith, ground arith)

keep_status-SameEvents :
    (status : DeviceCloudStatus) (identity : EdgeSyncIdentity) (db : CloudSyncDb)
    {db' : CloudSyncDb}
    → keep_status status identity db ≡ ok db'
    → SameEvents db db'
unfolding keep_status
keep_status-SameEvents status identity db h =
    elim (Bool-cases (fits_integer status.edge_backlog_count)) [
      | inl fits ↦
          upsert_device-SameEvents status identity
            (find (is_device status.device_id) db.device_states) db (rw fits at h)
      | inr bad ↦ absurd (ground arith)
    ]

pub keep_statuses-SameEvents :
    (statuses : List DeviceCloudStatus) (identity : EdgeSyncIdentity) (db : CloudSyncDb)
    {db' : CloudSyncDb}
    → keep_statuses statuses identity db ≡ ok db'
    → SameEvents db db'
unfolding keep_statuses
keep_statuses-SameEvents [] identity db h = (ground arith, ground arith, ground arith)
keep_statuses-SameEvents (status ∷ statuses) identity db h =
    elim (Result-cases (keep_status status identity db)) [
      | inr (x, e) ↦ absurd (ground arith)
      | inl (mid, e) ↦
          let (orders, events, exceptions) =
            keep_statuses-SameEvents statuses identity mid (rw e at h) in
          let (orders', events', exceptions') = keep_status-SameEvents status identity db e in
          (orders ∙ orders', events ∙ events', exceptions ∙ exceptions')
    ]

pub ingest-eq_ok :
    (batch : EdgeCloudBatch) (identity : EdgeSyncIdentity) (db : CloudSyncDb) {ack : EdgeCloudAck}
    {db' : CloudSyncDb}
    → ingest batch identity db ≡ ok (ack, db')
    → (outcomes : Outcomes) × (mid : CloudSyncDb) × (process_all batch.events identity db
        ≡ ok (outcomes, mid))
      × (keep_statuses batch.device_statuses identity mid ≡ ok db')
      × (ack ≡ cloud_ack outcomes)
unfolding ingest
ingest-eq_ok batch identity db {ack} {db'} h =
    elim (Result-cases (check_claims identity (devices_of batch) db)) [
      | inr (x, e) ↦ absurd (ground arith)
      | inl (_, e₀) ↦ elim (Result-cases (process_all batch.events identity db)) [
        | inr (x, e) ↦ absurd (ground arith)
        | inl ((outcomes, mid), e) ↦
            elim (Result-cases (keep_statuses batch.device_statuses identity mid)) [
              | inr (x, e') ↦ absurd (ground arith)
              | inl (last, e') ↦ (outcomes, mid, e, ground arith, ground arith)
            ]
      ]
    ]

-- Whatever batch the cloud takes in, an order that has a row keeps one that it has advanced to: the
-- order stays with its device and its business event, its last sequence number does not fall, once
-- CLOSED it stays CLOSED, and a location, a cashier and a way of closing that are known do not change.
pub ingest-Advances :
    (batch : EdgeCloudBatch) (identity : EdgeSyncIdentity) (db : CloudSyncDb) {ack : EdgeCloudAck}
    {db' : CloudSyncDb} (id : String) (row : OrderStateRow)
    → ingest batch identity db ≡ ok (ack, db')
    → find (is_order id) db.orders ≡ some row
    → (new : OrderStateRow) × (find (is_order id) db'.orders ≡ some new) × Advances row new
ingest-Advances batch identity db id row h found =
    let (outcomes, mid, e, e', _) = ingest-eq_ok batch identity db h in
    rw (keep_statuses-SameEvents batch.device_statuses identity mid e').0
      (process_all-Forward batch.events identity db id row e found)
