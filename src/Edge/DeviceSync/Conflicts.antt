-- ===== src/Edge/DeviceSync/Conflicts.antt =====
-- device-sync.service.ts, `ingest`: an event in conflict holds the device's watermark back.
use mathlib.Core.Path.{subst}
use eventcommerce_os.Base.{
  ◌≡◌, sym, ap, ℕ, ◌-◌, ◌≤◌, String, Option, none, some, Bool, true, List, [], ◌∷◌, ◌==◌, string_eq,
  nat_eq, option_eq, ==_iff, ==_refl, any, find, select, All, ok, arith, Bool-cases, ◌≢◌, ◌⊎◌, inl,
  inr, ◌&&◌,
}
use eventcommerce_os.Contracts.{
  SyncEventEnvelope, envelope_eq, DeviceSyncBatch, conflicting, receipt_status_eq, SyncEventReceipt,
  DeviceSyncAck,
}
use eventcommerce_os.Edge.DeviceSync.{
  SyncDb, ProcessedRow, ExceptionRow, has_instance, is_blocking, lesser, least, below_blocking,
  store, exception, refuse, persist_event, persist_all, highest, see_device, advance_watermark,
  accepted_sequence, ingest,
}
use eventcommerce_os.Edge.DeviceSync.Stored.{
  persist_event-cases, persist_all-eq_ok, persist_all_inv,
}
use eventcommerce_os.Edge.DeviceSync.Ack.{ingest-eq_ok}

-- an exception that blocks the device at the sequence number
abbrev blocks_at : String → ℕ → ExceptionRow → Bool
blocks_at device sequence row = is_blocking device row && row.sequence == some sequence

abbrev pub IsBlocked : String → ℕ → SyncDb → Type 0
IsBlocked device sequence db = any (blocks_at device sequence) db.exceptions ≡ true

abbrev AtMost : Option ℕ → ℕ → Type 0
AtMost none n = ⊥
AtMost (some m) n = m ≤ n

lesser-left : (a b : Option ℕ) (n : ℕ) → AtMost a n → AtMost (lesser a b) n
lesser-left none b n h = absurd h
lesser-left (some a) none n h = h
lesser-left (some a) (some b) n h = ground arith

lesser-right : (a b : Option ℕ) (n : ℕ) → AtMost b n → AtMost (lesser a b) n
lesser-right none b n h = h
lesser-right (some a) none n h = absurd h
lesser-right (some a) (some b) n h = ground arith

-- MIN over the blocking rows is at most the number of each of them.
least-AtMost :
    (device : String) (sequence : ℕ) (rows : List ExceptionRow)
    → any (blocks_at device sequence) rows ≡ true
    → AtMost (least (select (is_blocking device) rows)) sequence
least-AtMost device sequence [] h = absurd (ground arith)
least-AtMost device sequence (row ∷ rows) h = elim (Bool-cases (is_blocking device row)) [
  | inr free ↦ rw free (least-AtMost device sequence rows (ground arith))
  | inl blocking ↦ elim (Bool-cases (row.sequence == some sequence)) [
    | inl here ↦ rw blocking (
        lesser-left row.sequence _ sequence
          (rw ((==_iff row.sequence (some sequence)).0 here) (omega arith)))
    | inr elsewhere ↦
        rw blocking
          (lesser-right row.sequence _ sequence (least-AtMost device sequence rows (ground arith)))
  ]
]

below_blocking-lt :
    (b : Option ℕ) (w sequence : ℕ) → AtMost b sequence → below_blocking b w ≤ sequence - 1
below_blocking-lt none w sequence h = absurd h
below_blocking-lt (some b) w sequence h = ground arith

refuse-IsBlocked :
    (event : SyncEventEnvelope) (found : Option ProcessedRow) (db : SyncDb)
    → (refuse event found db).0.status ≡ conflicting
    → IsBlocked event.device_id event.sequence (refuse event found db).1
unfolding refuse exception
refuse-IsBlocked event none db h = ground (arith, ==_refl event.device_id, ==_refl event.sequence)
refuse-IsBlocked event (some row) db h = elim (Bool-cases (row.envelope == event)) [
  | inl same ↦ absurd (ground arith)
  | inr other ↦ rw other (ground (arith, ==_refl event.device_id, ==_refl event.sequence))
]

refuse-keeps :
    (device : String) (sequence : ℕ) (event : SyncEventEnvelope) (found : Option ProcessedRow)
    (db : SyncDb)
    → IsBlocked device sequence db
    → IsBlocked device sequence (refuse event found db).1
unfolding refuse exception
refuse-keeps device sequence event none db h = ground arith
refuse-keeps device sequence event (some row) db h = elim (Bool-cases (row.envelope == event)) [
  | inl same ↦ rw same h
  | inr other ↦ rw other (ground arith)
]

persist_event-IsBlocked :
    (event : SyncEventEnvelope) (db : SyncDb) {r : SyncEventReceipt × SyncDb}
    → persist_event event db ≡ ok r
    → r.0.status ≡ conflicting
    → IsBlocked event.device_id event.sequence r.1
persist_event-IsBlocked event db {r} h conflict = elim (persist_event-cases event db h) [
  | inl (free, e) ↦ absurd (ground arith)
  | inr (taken, e) ↦ rw (ap (λ (q : SyncEventReceipt × SyncDb). q.1) e) (
      refuse-IsBlocked event (find (has_instance event.event_instance_id) db.events) db
        (rw e at conflict))
]

persist_event-keeps :
    (device : String) (sequence : ℕ) (event : SyncEventEnvelope) (db : SyncDb)
    (r : SyncEventReceipt × SyncDb)
    → persist_event event db ≡ ok r
    → IsBlocked device sequence db
    → IsBlocked device sequence r.1
unfolding store
persist_event-keeps device sequence event db r h blocked = elim (persist_event-cases event db h) [
  | inl (free, e) ↦ rw (ap (λ (q : SyncEventReceipt × SyncDb). q.1) e) blocked
  | inr (taken, e) ↦ rw (ap (λ (q : SyncEventReceipt × SyncDb). q.1) e) (
      refuse-keeps device sequence event (find (has_instance event.event_instance_id) db.events) db
        blocked)
]

-- each event is not in conflict, by its receipt, or has the property
abbrev pub EachConflict :
    (SyncEventEnvelope → Type 0) → List SyncEventEnvelope → List SyncEventReceipt → Type 0
EachConflict P [] receipts = Unit
EachConflict P (event ∷ events) [] = ⊥
EachConflict P (event ∷ events) (receipt ∷ receipts) =
    ((receipt.status ≢ conflicting) ⊎ P event) × EachConflict P events receipts

persist_all-IsBlocked :
    (events : List SyncEventEnvelope) (db : SyncDb) {receipts : List SyncEventReceipt}
    {db' : SyncDb}
    → persist_all events db ≡ ok (receipts, db')
    → EachConflict (λ e. IsBlocked e.device_id e.sequence db') events receipts
persist_all-IsBlocked [] db h = tt
persist_all-IsBlocked (event ∷ events) db {receipts} {db'} h =
    let (first, rest, e, e', e'') = persist_all-eq_ok event events db h in
    rw e'' (
      elim (receipt_status_eq.dec_eq first.0.status conflicting) [
        | no free ↦ inl free
        | yes conflict ↦ inr (
            persist_all_inv (IsBlocked event.device_id event.sequence) events first.1
              (persist_event-keeps event.device_id event.sequence) e'
              (persist_event-IsBlocked event db e conflict))
      ],
      persist_all-IsBlocked events first.1 e',
    )

-- the events of the batch are the device's, as its validation has seen to
abbrev pub AllOf : String → List SyncEventEnvelope → Type 0
AllOf device events = All (λ (e : SyncEventEnvelope). e.device_id ≡ device) events

each_below :
    (device : String) (n : ℕ) (db : SyncDb) (events : List SyncEventEnvelope)
    (receipts : List SyncEventReceipt)
    → ((sequence : ℕ) → IsBlocked device sequence db → n ≤ sequence - 1)
    → AllOf device events
    → EachConflict (λ e. IsBlocked e.device_id e.sequence db) events receipts
    → EachConflict (λ e. n ≤ e.sequence - 1) events receipts
each_below device n db [] receipts below of h = tt
each_below device n db (event ∷ events) [] below of h = absurd h
each_below device n db (event ∷ events) (receipt ∷ receipts) below (e, of) (first, rest) = (
  elim first [
    | inl free ↦ inl free
    | inr blocked ↦
        inr (below event.sequence (subst (λ d. IsBlocked d event.sequence db) e blocked))
  ],
  each_below device n db events receipts below of rest,
)

-- Where the events of a batch are those of its device, an event that is answered with a conflict
-- is not acknowledged: the number that the device is told is at most the one before the event's own sequence number, whatever else is stored.
pub ingest_conflict :
    (batch : DeviceSyncBatch) (db : SyncDb) {ack : DeviceSyncAck} {db' : SyncDb}
    → AllOf batch.device_id batch.events
    → ingest batch db ≡ ok (ack, db')
    → EachConflict (λ e. ack.accepted_through_sequence ≤ e.sequence - 1) batch.events ack.receipts
unfolding see_device accepted_sequence
ingest_conflict batch db {ack} {db'} of h =
    let (receipts, stored, sequence, persisted, e, e', e'') = ingest-eq_ok batch db h in
    let seen = see_device batch.device_id (highest batch.events) stored in
    let told =
      each_below batch.device_id sequence stored batch.events receipts
        (λ s blocked. rw e (
          below_blocking-lt (least (select (is_blocking batch.device_id) stored.exceptions))
            (advance_watermark batch.device_id seen) s
            (least-AtMost batch.device_id s stored.exceptions blocked)))
        of (persist_all-IsBlocked batch.events db persisted) in
    subst
      (λ (a : DeviceSyncAck).
        EachConflict (λ v. a.accepted_through_sequence ≤ v.sequence - 1) batch.events a.receipts)
      (sym e'') told
