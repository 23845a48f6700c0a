-- ===== src/Edge/DeviceSync/Ranges.antt =====
-- device-sync.service.ts, `ingest`: when the transaction fails.
use eventcommerce_os.Base.{
  ◌≡◌, refl, Bool, true, false, List, [], ◌∷◌, all, ok, err, database, Result, arith, ◌↔◌, String,
  ◌∙◌, Bool-cases, Result-cases, inl, inr,
}
use eventcommerce_os.Contracts.{SyncEventEnvelope, DeviceSyncBatch, SyncEventReceipt, DeviceSyncAck}
use eventcommerce_os.Base.Int.{fits_integer}
use eventcommerce_os.Edge.DeviceSync.{SyncDb, persist_event, persist_all, ingest}
use eventcommerce_os.Edge.DeviceSync.Stored.{is_storable, persist_event-readable}

abbrev pub all_storable : List SyncEventEnvelope → SyncDb → Bool
all_storable events db = all (λ e. is_storable e db) events

-- the database has raised an error
abbrev pub IsDatabaseError {ℓ} : {A : Type ℓ} → Result A → Type 0
IsDatabaseError (err (database message)) = Unit
IsDatabaseError _ = ⊥

persist_event_total :
    (event : SyncEventEnvelope) (db : SyncDb)
    → is_storable event db ≡ true
    → (r : SyncEventReceipt × SyncDb) × (persist_event event db ≡ ok r)
unfolding persist_event
persist_event_total event db fits = elim (Result-cases (persist_event event db)) [
  | inl done ↦ done
  | inr (x, e) ↦ absurd (ground arith)
]

persist_event_fails :
    (event : SyncEventEnvelope) (db : SyncDb)
    → is_storable event db ≡ false
    → (message : String) × (persist_event event db ≡ err (database message))
unfolding persist_event
persist_event_fails event db bad = elim (Bool-cases (fits_integer event.event_version)) [
  | inl fits ↦ ("invalid input value", ground arith)
  | inr wide ↦ ("integer out of range", ground arith)
]

-- What the database takes does not depend on what was stored.
all_storable-same :
    (events : List SyncEventEnvelope) (db db' : SyncDb)
    → db'.readable ≡ db.readable
    → all_storable events db' ≡ all_storable events db
all_storable-same events db db' e = rw e refl

persist_all_total :
    (events : List SyncEventEnvelope) (db : SyncDb)
    → all_storable events db ≡ true
    → (r : List SyncEventReceipt × SyncDb) × (persist_all events db ≡ ok r)
unfolding persist_all
persist_all_total [] db fits = (_, refl)
persist_all_total (event ∷ events) db fits =
    let (first, e) = persist_event_total event db (ground arith) in
    let same = all_storable-same events db first.1 (persist_event-readable event db e) in
    let (rest, e') = persist_all_total events first.1 (same ∙ ground arith) in
    ((first.0 ∷ rest.0, rest.1), ground (arith, e, e'))

persist_all_fails :
    (events : List SyncEventEnvelope) (db : SyncDb)
    → all_storable events db ≡ false
    → (message : String) × (persist_all events db ≡ err (database message))
unfolding persist_all
persist_all_fails [] db fits = absurd (ground arith)
persist_all_fails (event ∷ events) db fits = elim (Bool-cases (is_storable event db)) [
  | inr bad ↦ let (message, e) = persist_event_fails event db bad in (message, rw e refl)
  | inl good ↦
      let (first, e) = persist_event_total event db good in
      let same = all_storable-same events db first.1 (persist_event-readable event db e) in
      let (message, e') = persist_all_fails events first.1 (same ∙ ground arith) in
      (message, rw e (rw e' refl))
]

ingest_total :
    (batch : DeviceSyncBatch) (db : SyncDb)
    → all_storable batch.events db ≡ true
    → (r : DeviceSyncAck × SyncDb) × (ingest batch db ≡ ok r)
unfolding ingest
ingest_total batch db fits = elim (Result-cases (ingest batch db)) [
  | inl done ↦ done
  | inr (x, e) ↦ let (r, e') = persist_all_total batch.events db fits in absurd (ground arith)
]

ingest_fails :
    (batch : DeviceSyncBatch) (db : SyncDb)
    → all_storable batch.events db ≡ false
    → IsDatabaseError (ingest batch db)
unfolding ingest
ingest_fails batch db fits = let (message, e) = persist_all_fails batch.events db fits in rw e tt

-- A batch is taken in exactly when the database takes the values of each of its events, that is, the
-- version fits the column `event_version` and the texts can be read as the other columns want them;
-- exactly when one of the events has a value that it does not take, it refuses the batch as a whole.
pub ingest_error :
    (batch : DeviceSyncBatch) (db : SyncDb)
    → (((r : DeviceSyncAck × SyncDb) × (ingest batch db ≡ ok r))
        ↔ (all_storable batch.events db ≡ true))
      × (IsDatabaseError (ingest batch db) ↔ (all_storable batch.events db ≡ false))
ingest_error batch db = elim (Bool-cases (all_storable batch.events db)) [
  | inl fits ↦
      let (r, e) = ingest_total batch db fits in
      (((λ h. fits), (λ h. (r, e))), ((λ h. absurd (rw e at h)), (λ h. absurd (ground arith))))
  | inr bad ↦
      let failed = ingest_fails batch db bad in
      (
        ((λ h. absurd (rw h.1 at failed)), (λ h. absurd (ground arith))),
        ((λ h. bad), (λ h. failed)),
      )
]
