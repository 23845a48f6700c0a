-- ===== src/Cloud/Sync/Untouched.antt =====
-- cloud-sync.service.ts, `processEvent`: it leaves the telemetry alone and raises no conflict.
use eventcommerce_os.Base.{
  ◌≡◌, ◌≢◌, conflict, refl, String, List, [], ◌∷◌, string_eq, option_eq, find, Result, ok, err,
  Failure, arith, Option-cases, Result-cases, inl, inr, ◌∙◌,
}
use eventcommerce_os.Contracts.{SyncEventEnvelope}
use eventcommerce_os.Cloud.Sync.Tables.{
  CloudExceptionDetails, exception, EdgeSyncIdentity, CloudSyncDb,
}
use eventcommerce_os.Cloud.Sync.Tables.{is_order}
use eventcommerce_os.Cloud.Sync.Payload.{OrderProjectionPayload, order_payload}
use eventcommerce_os.Cloud.Sync.Projection.{Outcome, refused, apply_order, apply_to, apply_parsed}
use eventcommerce_os.Cloud.Sync.Events.{
  process_event, by_instance, by_sequence, new_event, known_instance, store,
}
use eventcommerce_os.Cloud.Sync.Orders.{apply_existing-cases}
use eventcommerce_os.Cloud.Sync.{process_all, Outcomes}
use eventcommerce_os.Cloud.Sync.Scopes.{IsConflict}

pub conflict_of :
    {A : Type 0} (r : Result A) → IsConflict r → (message : String) × (r ≡ err (conflict message))
conflict_of (err (conflict message)) h = (message, refl)
conflict_of (ok a) h = absurd h
conflict_of (err (Failure.error m)) h = absurd h
conflict_of (err (Failure.forbidden m)) h = absurd h
conflict_of (err (Failure.not_found m)) h = absurd h
conflict_of (err (Failure.database m)) h = absurd h

-- No event makes the batch fail as a conflict.
process_event-no_conflict :
    (event : SyncEventEnvelope) (identity : EdgeSyncIdentity) (db : CloudSyncDb) {message : String}
    → process_event event identity db ≢ err (conflict message)
unfolding process_event by_instance by_sequence new_event
process_event-no_conflict event identity db h = ground arith

-- an outcome leaves the telemetry alone
abbrev KeepsStates : CloudSyncDb → Outcome → Type 0
KeepsStates db r = r.1.device_states ≡ db.device_states

refused-KeepsStates :
    (type : String) (event : SyncEventEnvelope) (details : CloudExceptionDetails) (db : CloudSyncDb)
    → KeepsStates db (refused type event details db)
unfolding exception
refused-KeepsStates type event details db = refl

apply_parsed-KeepsStates :
    (event : SyncEventEnvelope) (parsed : Result OrderProjectionPayload) (db : CloudSyncDb)
    → KeepsStates db (apply_parsed event parsed db)
unfolding apply_parsed apply_to
apply_parsed-KeepsStates event (err x) db = refused-KeepsStates _ event _ db
apply_parsed-KeepsStates event (ok payload) db =
    elim (Option-cases (find (is_order event.aggregate_id) db.orders)) [
      | inl e ↦ rw e refl
      | inr (row, e) ↦ rw e (elim (apply_existing-cases event payload row db) [
        | inl same ↦ rw same refl
        | inr (inl (type, details, same)) ↦ rw same (refused-KeepsStates type event details db)
        | inr (inr (same, _)) ↦ rw same refl
      ])
    ]

process_event-KeepsStates :
    (event : SyncEventEnvelope) (identity : EdgeSyncIdentity) (db : CloudSyncDb) {r : Outcome}
    → process_event event identity db ≡ ok r
    → KeepsStates db r
unfolding process_event by_instance by_sequence new_event known_instance exception apply_order store
process_event-KeepsStates event identity db h =
    ground (arith, apply_parsed-KeepsStates event (order_payload event) (store event identity db))

pub process_all-KeepsStates :
    (events : List SyncEventEnvelope) (identity : EdgeSyncIdentity) (db : CloudSyncDb)
    {outcomes : Outcomes} {db' : CloudSyncDb}
    → process_all events identity db ≡ ok (outcomes, db')
    → db'.device_states ≡ db.device_states
unfolding process_all
process_all-KeepsStates [] identity db h = ground arith
process_all-KeepsStates (event ∷ events) identity db {db' = db'} h =
    elim (Result-cases (process_event event identity db)) [
      | inr (x, e) ↦ absurd (ground arith)
      | inl (first, e) ↦ elim (Result-cases (process_all events identity first.1)) [
        | inr (x, e') ↦ absurd (ground arith)
        | inl ((rest, last), e') ↦
            let same : db' ≡ last = ground arith in
            rw same (
              process_all-KeepsStates events identity first.1 e'
              ∙ process_event-KeepsStates event identity db e)
      ]
    ]

pub process_all-no_conflict :
    (events : List SyncEventEnvelope) (identity : EdgeSyncIdentity) (db : CloudSyncDb)
    {message : String}
    → process_all events identity db ≢ err (conflict message)
unfolding process_all
process_all-no_conflict [] identity db h = ground arith
process_all-no_conflict (event ∷ events) identity db {message} h =
    elim (Result-cases (process_event event identity db)) [
      | inr (x, e) ↦ process_event-no_conflict event identity db {message = message} (ground arith)
      | inl (first, e) ↦ elim (Result-cases (process_all events identity first.1)) [
        | inr (x, e') ↦
            process_all-no_conflict events identity first.1 {message = message} (ground arith)
        | inl (rest, e') ↦ ground arith
      ]
    ]
