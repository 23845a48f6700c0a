-- ===== src/System/Record.antt =====
-- cloud-sync.service.ts: an event that the cloud acknowledges is stored there, or is on record there as
-- an exception.
use mathlib.Core.Path.{subst}
use eventcommerce_os.Base.{
  ◌≡◌, refl, String, Bool, true, List, [], ◌∷◌, ◌++◌, ◌==◌, ◌||◌, string_eq, ==_iff, ==_refl, any,
  includes, ok, ok-inj, arith, Bool-cases, inl, inr,
}
use eventcommerce_os.Contracts.{
  SyncEventEnvelope, EdgeCloudBatch, EdgeCloudAck, accepted, duplicate, conflicting, ReceiptStatus,
  receipt_status_eq,
}
use eventcommerce_os.Cloud.Sync.Tables.{
  EdgeSyncIdentity, CloudSyncDb, CloudExceptionRow, has_instance,
}
use eventcommerce_os.Cloud.Sync.Projection.{Outcome}
use eventcommerce_os.Cloud.Sync.Events.{process_event}
use eventcommerce_os.Cloud.Sync.{Outcomes, process_all, with_status, cloud_ack, ingest}
use eventcommerce_os.Edge.Forwarder.{acknowledged}
use eventcommerce_os.Cloud.Sync.Batches.{process_all-eq_ok, ingest-eq_ok, keep_statuses-SameEvents}
use eventcommerce_os.Cloud.Sync.Once.{process_event-events}
use eventcommerce_os.Cloud.Sync.Refusals.{process_event-IsRecorded}
use eventcommerce_os.Base.Searching.{any_of_find}

-- the cloud has the event's instance among its events, or an exception that names it
abbrev names : String → CloudExceptionRow → Bool
names id x = x.event_instance_id == id

abbrev pub is_on_record : String → CloudSyncDb → Bool
is_on_record id cloud = any (has_instance id) cloud.events || any (names id) cloud.exceptions

process_event-on_record :
    (event : SyncEventEnvelope) (identity : EdgeSyncIdentity) (db : CloudSyncDb) {r : Outcome}
    → process_event event identity db ≡ ok r
    → is_on_record event.event_instance_id r.1 ≡ true
process_event-on_record event identity db {r} h =
    let id = event.event_instance_id in
    elim (process_event-IsRecorded event identity db h) [
      | inr (_, _, x, added, named, _) ↦ ground (arith, ==_iff x.event_instance_id id)
      | inl (other, _) ↦ elim (process_event-events event identity db h) [
        | inl (same, inl conflict) ↦ absurd (other conflict)
        | inl (same, inr (row, there, _)) ↦
            ground (arith, any_of_find (has_instance id) db.events {x = row} there)
        | inr (_, added) ↦ ground (arith, ==_refl id)
      ]
    ]

-- Neither an event nor an exception is lost while events are processed.
events-kept :
    (id : String) (event : SyncEventEnvelope) (identity : EdgeSyncIdentity) (db : CloudSyncDb)
    {r : Outcome}
    → process_event event identity db ≡ ok r
    → any (has_instance id) db.events ≡ true
    → any (has_instance id) r.1.events ≡ true
events-kept id event identity db h before = elim (process_event-events event identity db h) [
  | inl (same, _) ↦ rw same before
  | inr (_, added) ↦ ground arith
]

exceptions-kept :
    (id : String) (event : SyncEventEnvelope) (identity : EdgeSyncIdentity) (db : CloudSyncDb)
    {r : Outcome}
    → process_event event identity db ≡ ok r
    → any (names id) db.exceptions ≡ true
    → any (names id) r.1.exceptions ≡ true
exceptions-kept id event identity db h before =
    elim (process_event-IsRecorded event identity db h) [
      | inl (_, same) ↦ rw same before
      | inr (_, _, x, added, _, _) ↦ ground arith
    ]

process_event-kept :
    (id : String) (event : SyncEventEnvelope) (identity : EdgeSyncIdentity) (db : CloudSyncDb)
    {r : Outcome}
    → process_event event identity db ≡ ok r
    → is_on_record id db ≡ true
    → is_on_record id r.1 ≡ true
process_event-kept id event identity db h before =
    elim (Bool-cases (any (has_instance id) db.events)) [
      | inl e ↦ ground (arith, events-kept id event identity db h e)
      | inr e ↦ ground (arith, exceptions-kept id event identity db h (ground arith))
    ]

process_all-kept :
    (id : String) (events : List SyncEventEnvelope) (identity : EdgeSyncIdentity) (db : CloudSyncDb)
    {outcomes : Outcomes} {db' : CloudSyncDb}
    → process_all events identity db ≡ ok (outcomes, db')
    → is_on_record id db ≡ true
    → is_on_record id db' ≡ true
unfolding process_all
process_all-kept id [] identity db {outcomes} {db'} h before =
    subst (λ (q : Outcomes × CloudSyncDb). is_on_record id q.1 ≡ true) (ok-inj h) before
process_all-kept id (event ∷ events) identity db h before =
    let (first, rest, e, e', _) = process_all-eq_ok event events identity db h in
    process_all-kept id events identity first.1 e'
      (process_event-kept id event identity db e before)

-- the loop has an outcome for the event
abbrev has_outcome : String → String × ReceiptStatus → Bool
has_outcome id outcome = outcome.0 == id

process_all-on_record :
    (id : String) (events : List SyncEventEnvelope) (identity : EdgeSyncIdentity) (db : CloudSyncDb)
    {outcomes : Outcomes} {db' : CloudSyncDb}
    → process_all events identity db ≡ ok (outcomes, db')
    → any (has_outcome id) outcomes ≡ true
    → is_on_record id db' ≡ true
unfolding process_all
process_all-on_record id [] identity db {outcomes} {db'} h any_id = absurd (ground arith)
process_all-on_record id (event ∷ events) identity db {outcomes} {db'} h some_id =
    let (first, rest, e, e', e'') = process_all-eq_ok event events identity db h in
    elim (Bool-cases (event.event_instance_id == id)) [
      | inl own ↦ process_all-kept id events identity first.1 e' (
          subst (λ i. is_on_record i first.1 ≡ true) ((==_iff event.event_instance_id id).0 own)
            (process_event-on_record event identity db e))
      | inr other ↦
          process_all-on_record id events identity first.1 e' (ground (arith, rw e'' at some_id))
    ]

with_status-outcome :
    (id : String) (status : ReceiptStatus) (outcomes : Outcomes)
    → includes id (with_status status outcomes) ≡ true
    → any (has_outcome id) outcomes ≡ true
with_status-outcome id status [] h = absurd (ground arith)
with_status-outcome id status ((i, s) ∷ rest) h = ground (arith, with_status-outcome id status rest)

includes-append :
    (id : String) (xs ys : List String)
    → includes id (xs ++ ys) ≡ (includes id xs || includes id ys)
includes-append id [] ys = refl
includes-append id (x ∷ xs) ys = ground (arith, includes-append id xs ys)

acknowledged-outcome :
    (id : String) (outcomes : Outcomes)
    → includes id (acknowledged (cloud_ack outcomes)) ≡ true
    → any (has_outcome id) outcomes ≡ true
acknowledged-outcome id outcomes h =
    let (a, d, c) : List String × List String × List String = (
      with_status accepted outcomes,
      with_status duplicate outcomes,
      with_status conflicting outcomes,
    ) in
    ground (
      arith,
      includes-append id a (d ++ c),
      includes-append id d c,
      with_status-outcome id accepted outcomes,
      with_status-outcome id duplicate outcomes,
      with_status-outcome id conflicting outcomes,
    )

-- Every event that an accepted batch acknowledges is on record in the cloud.
pub ingest-on_record :
    (id : String) (batch : EdgeCloudBatch) (identity : EdgeSyncIdentity) (cloud : CloudSyncDb)
    {ack : EdgeCloudAck} {cloud' : CloudSyncDb}
    → ingest batch identity cloud ≡ ok (ack, cloud')
    → includes id (acknowledged ack) ≡ true
    → is_on_record id cloud' ≡ true
ingest-on_record id batch identity cloud h named =
    let (outcomes, mid, e, e', e'') = ingest-eq_ok batch identity cloud h in
    let (_, events, exceptions) = keep_statuses-SameEvents batch.device_statuses identity mid e' in
    rw (events, exceptions)
      (process_all-on_record id batch.events identity cloud e
        (acknowledged-outcome id outcomes (rw e'' at named)))
