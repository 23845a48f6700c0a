-- ===== src/Cloud/Sync/Once.antt =====
-- cloud-sync.service.ts, `processEvent`: an event that was stored is a duplicate from then on.
use mathlib.Core.Path.{subst}
use eventcommerce_os.Base.{
  ◌≡◌, ◌⊎◌, refl, sym, ap, ◌∙◌, String, Option, none, some, Bool, true, List, [], ◌∷◌, map, ◌==◌,
  ◌!=◌, ◌&&◌, ◌||◌, string_eq, option_eq, ==_iff, ==_refl, find, all, All, Result, ok, err, ok-inj,
  arith, Bool-cases, Option-cases, inl, inr,
}
use eventcommerce_os.Contracts.{
  SyncEventEnvelope, envelope_eq, ReceiptStatus, duplicate, conflicting, receipt_status_eq,
}
use eventcommerce_os.Cloud.Sync.Payload.{OrderProjectionPayload, order_payload}
use eventcommerce_os.Cloud.Sync.Tables.{
  EdgeSyncIdentity, CloudSyncDb, OrderStateRow, CloudEventRow, has_instance, has_sequence,
  exception,
}
use eventcommerce_os.Cloud.Sync.Projection.{
  Outcome, apply_existing, apply_to, apply_parsed, apply_order,
}
use eventcommerce_os.Cloud.Sync.Events.{
  store, known_instance, new_event, by_sequence, by_instance, process_event,
}
use eventcommerce_os.Cloud.Sync.{Outcomes, process_all}
use eventcommerce_os.Cloud.Sync.Batches.{process_all-eq_ok}

apply_existing-events :
    (event : SyncEventEnvelope) (payload : OrderProjectionPayload) (row : OrderStateRow)
    (db : CloudSyncDb)
    → (apply_existing event payload row db).1.events ≡ db.events
unfolding apply_existing exception
apply_existing-events event payload row db = ground arith

apply_to-events :
    (event : SyncEventEnvelope) (payload : OrderProjectionPayload) (there : Option OrderStateRow)
    (db : CloudSyncDb)
    → (apply_to event payload there db).1.events ≡ db.events
unfolding apply_to
apply_to-events event payload none db = refl
apply_to-events event payload (some row) db = apply_existing-events event payload row db

apply_parsed-events :
    (event : SyncEventEnvelope) (parsed : Result OrderProjectionPayload) (db : CloudSyncDb)
    → (apply_parsed event parsed db).1.events ≡ db.events
unfolding apply_parsed exception
apply_parsed-events event (err x) db = refl
apply_parsed-events event (ok payload) db = apply_to-events event payload _ db

abbrev pub stored_row : SyncEventEnvelope → EdgeSyncIdentity → CloudSyncDb → CloudEventRow
stored_row event identity db = record {
  envelope = event;
  edge_id = some identity.edge_id;
  organisation_id = some identity.organisation_id;
  received_at = db.now;
}

new_event-events :
    (event : SyncEventEnvelope) (identity : EdgeSyncIdentity) (db : CloudSyncDb) {r : Outcome}
    → new_event event identity db ≡ ok r
    → r.1.events ≡ stored_row event identity db ∷ db.events
unfolding new_event store apply_order
new_event-events event identity db {r} h = elim (Bool-cases (event.aggregate_type != "ORDER")) [
  | inl other ↦ ground arith
  | inr order ↦
      let e : r ≡ apply_parsed event (order_payload event) (store event identity db) =
        ground arith in
      ap (λ (q : Outcome). q.1.events) e
      ∙ apply_parsed-events event (order_payload event) (store event identity db)
]

known_instance-events :
    (event : SyncEventEnvelope) (identity : EdgeSyncIdentity) (row : CloudEventRow)
    (db : CloudSyncDb)
    → (known_instance event identity row db).1.events ≡ db.events
unfolding known_instance exception
known_instance-events event identity row db = ground arith

-- the event is stored as it is, for the organisation or from before there were organisations
abbrev pub is_known : SyncEventEnvelope → EdgeSyncIdentity → CloudEventRow → Bool
is_known event identity row =
    row.envelope == event
    && (row.organisation_id == none || row.organisation_id == some identity.organisation_id)

abbrev pub Holds : SyncEventEnvelope → EdgeSyncIdentity → CloudSyncDb → Type 0
Holds event identity db =
    (row : CloudEventRow) × (find (has_instance event.event_instance_id) db.events ≡ some row)
    × (is_known event identity row ≡ true)

process_event_known :
    (event : SyncEventEnvelope) (identity : EdgeSyncIdentity) (db : CloudSyncDb)
    → Holds event identity db
    → process_event event identity db ≡ ok (duplicate, db)
unfolding process_event by_instance known_instance
process_event_known event identity db (row, found, known) = rw found (rw known refl)

store-Holds :
    (event : SyncEventEnvelope) (identity : EdgeSyncIdentity) (db db' : CloudSyncDb)
    → db'.events ≡ stored_row event identity db ∷ db.events
    → Holds event identity db'
store-Holds event identity db db' e = (
  stored_row event identity db,
  rw (e, ==_refl event.event_instance_id) refl,
  ground (arith, ==_refl event, ==_refl (some identity.organisation_id)),
)

-- An event whose instance and sequence number were free is stored whatever becomes of the order:
-- sent again it is a duplicate that changes nothing, also where its first answer was a conflict.
pub process_event_again :
    (event : SyncEventEnvelope) (identity : EdgeSyncIdentity) (db : CloudSyncDb) {r : Outcome}
    → find (has_instance event.event_instance_id) db.events ≡ none
    → find (has_sequence identity.organisation_id event.device_id event.sequence) db.events ≡ none
    → process_event event identity db ≡ ok r
    → process_event event identity r.1 ≡ ok (duplicate, r.1)
unfolding process_event by_instance by_sequence
process_event_again event identity db {r} new free h = process_event_known event identity r.1 (
    store-Holds event identity db r.1
      (new_event-events event identity db (rw free at (rw new at h))))

known_instance-Holds :
    (event : SyncEventEnvelope) (identity : EdgeSyncIdentity) (row : CloudEventRow)
    (db : CloudSyncDb) {r : Outcome}
    → find (has_instance event.event_instance_id) db.events ≡ some row
    → r ≡ known_instance event identity row db
    → (r.0 ≡ conflicting) ⊎ Holds event identity db
unfolding known_instance
known_instance-Holds event identity row db {r} found e =
    elim (Bool-cases (is_known event identity row)) [
      | inl known ↦ inr (row, found, known)
      | inr other ↦ inl (ap (λ (q : Outcome). q.0) (rw other at e))
    ]

-- What `processEvent` does to the stored events: nothing, or the event is new and is added.
pub process_event-events :
    (event : SyncEventEnvelope) (identity : EdgeSyncIdentity) (db : CloudSyncDb) {r : Outcome}
    → process_event event identity db ≡ ok r
    → ((r.1.events ≡ db.events) × ((r.0 ≡ conflicting) ⊎ Holds event identity db))
      ⊎ ((find (has_instance event.event_instance_id) db.events ≡ none)
          × (r.1.events ≡ stored_row event identity db ∷ db.events))
unfolding process_event by_instance by_sequence exception
process_event-events event identity db {r} h =
    elim (Option-cases (find (has_instance event.event_instance_id) db.events)) [
      | inl new ↦
          elim (Option-cases (
            find (has_sequence identity.organisation_id event.device_id event.sequence)
              db.events)) [
                | inl free ↦
                    inr (new, new_event-events event identity db (rw free at (rw new at h)))
                | inr (row, taken) ↦
                    let h' = rw taken at (rw new at h) in inl (ground arith, inl (ground arith))
              ]
      | inr (row, found) ↦
          let e : r ≡ known_instance event identity row db = sym (ok-inj (rw found at h)) in
          inl (
            ap (λ (q : Outcome). q.1.events) e ∙ known_instance-events event identity row db,
            known_instance-Holds event identity row db found e,
          )
    ]

-- An event in the loop does not touch another that is stored.
process_event-keeps :
    (event other : SyncEventEnvelope) (identity : EdgeSyncIdentity) (db : CloudSyncDb) {r : Outcome}
    → process_event other identity db ≡ ok r
    → Holds event identity db
    → Holds event identity r.1
process_event-keeps event other identity db {r} h (row, found, known) =
    elim (process_event-events other identity db h) [
      | inl (same, _) ↦ (row, rw same found, known)
      | inr (new, added) ↦
          (row, ground (arith, ==_iff other.event_instance_id event.event_instance_id), known)
    ]

process_event-Holds :
    (event : SyncEventEnvelope) (identity : EdgeSyncIdentity) (db : CloudSyncDb) {r : Outcome}
    → process_event event identity db ≡ ok r
    → (r.0 != conflicting) ≡ true
    → Holds event identity r.1
process_event-Holds event identity db {r} h kept = elim (process_event-events event identity db h) [
  | inl (same, inl conflict) ↦ absurd (ground arith)
  | inl (same, inr (row, found, known)) ↦ (row, rw same found, known)
  | inr (new, added) ↦ store-Holds event identity db r.1 added
]

process_all-keeps :
    (event : SyncEventEnvelope) (events : List SyncEventEnvelope) (identity : EdgeSyncIdentity)
    (db : CloudSyncDb) {outcomes : Outcomes} {db' : CloudSyncDb}
    → process_all events identity db ≡ ok (outcomes, db')
    → Holds event identity db
    → Holds event identity db'
unfolding process_all
process_all-keeps event [] identity db h held =
    subst (Holds event identity) (ap (λ (q : Outcomes × CloudSyncDb). q.1) (ok-inj h)) held
process_all-keeps event (other ∷ events) identity db h held =
    let (first, rest, e, e', _) = process_all-eq_ok other events identity db h in
    process_all-keeps event events identity first.1 e'
      (process_event-keeps event other identity db e held)

abbrev pub no_conflict : Outcomes → Bool
no_conflict outcomes = all (λ (o : String × ReceiptStatus). o.1 != conflicting) outcomes

process_all-Holds :
    (events : List SyncEventEnvelope) (identity : EdgeSyncIdentity) (db : CloudSyncDb)
    {outcomes : Outcomes} {db' : CloudSyncDb}
    → process_all events identity db ≡ ok (outcomes, db')
    → no_conflict outcomes ≡ true
    → All (λ e. Holds e identity db') events
process_all-Holds [] identity db h kept = tt
process_all-Holds (event ∷ events) identity db {outcomes} {db'} h kept =
    let (first, rest, e, e', e'') = process_all-eq_ok event events identity db h in
    let kept' : no_conflict ((event.event_instance_id, first.0) ∷ rest) ≡ true = rw e'' at kept in
    (
      process_all-keeps event events identity first.1 e'
          (process_event-Holds event identity db e (ground arith)),
      process_all-Holds events identity first.1 e' (ground arith),
    )

abbrev pub duplicate_of : SyncEventEnvelope → String × ReceiptStatus
duplicate_of event = (event.event_instance_id, duplicate)

process_all_known :
    (events : List SyncEventEnvelope) (identity : EdgeSyncIdentity) (db : CloudSyncDb)
    → All (λ e. Holds e identity db) events
    → process_all events identity db ≡ ok (map duplicate_of events, db)
unfolding process_all
process_all_known [] identity db held = refl
process_all_known (event ∷ events) identity db (held, rest) =
    rw (process_event_known event identity db held)
      (rw (process_all_known events identity db rest) refl)

-- Where the loop of `ingest` has taken events in without a conflict, the same events sent again by
-- the edge are duplicates, all of them, and the loop changes nothing: no order, no event and no
-- exception.
pub process_all_again :
    (events : List SyncEventEnvelope) (identity : EdgeSyncIdentity) (db : CloudSyncDb)
    {outcomes : Outcomes} {db' : CloudSyncDb}
    → process_all events identity db ≡ ok (outcomes, db')
    → no_conflict outcomes ≡ true
    → process_all events identity db' ≡ ok (map duplicate_of events, db')
process_all_again events identity db {db' = db'} h kept =
    process_all_known events identity db' (process_all-Holds events identity db h kept)
