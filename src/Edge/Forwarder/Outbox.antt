-- ===== src/Edge/Forwarder/Outbox.antt =====
-- cloud-forwarder.service.ts, `drainOnce`: no event of the outbox is lost, and an event is delivered only
-- when the cloud has said so.
use eventcommerce_os.Base.{
  ◌≡◌, ◌⊎◌, refl, ap, ◌∙◌, ℕ, ◌+◌, String, Option, none, some, Bool, true, List, [], ◌∷◌, string_eq,
  ==_iff, find, includes, update_where, if◌then◌else◌, Result, ok, err, Bool-cases, inl, inr,
}
use eventcommerce_os.Base.Searching.{find-holds, find-update_where}
use eventcommerce_os.Contracts.{EdgeCloudBatch, EdgeCloudAck}
use eventcommerce_os.Edge.DeviceSync.{SyncDb, CloudOutboxRow}
use eventcommerce_os.Edge.DeviceSync.Stored.{SameTables}
use eventcommerce_os.Edge.Forwarder.{
  set_of, due_rows, batch_of, covers_batch, acknowledged, conflict_exception, conflict_exceptions,
  sent_as, delivered, is_acknowledged, mark_delivered, mark_devices, deliver, is_waiting, postponed,
  retry_delay_ms, postpone, settle_batch, message_of, not_covered, forward, drain_once,
}

conflict_exception-SameTables :
    (row : Option CloudOutboxRow) (db : SyncDb) → SameTables db (conflict_exception row db)
unfolding conflict_exception
conflict_exception-SameTables none db = record {
  events = refl;
  outbox = refl;
  watermarks = refl;
  readable = refl;
}
conflict_exception-SameTables (some row) db = record {
  events = refl;
  outbox = refl;
  watermarks = refl;
  readable = refl;
}

pub conflict_exceptions-SameTables :
    (ids : List String) (rows : List CloudOutboxRow) (db : SyncDb)
    → SameTables db (conflict_exceptions ids rows db)
unfolding conflict_exceptions
conflict_exceptions-SameTables [] rows db = record {
  events = refl;
  outbox = refl;
  watermarks = refl;
  readable = refl;
}
conflict_exceptions-SameTables (id ∷ ids) rows db =
    let first = conflict_exception-SameTables (find (sent_as id) rows) db in
    let rest =
      conflict_exceptions-SameTables ids rows (conflict_exception (find (sent_as id) rows) db) in
    record {
      events = rest.events ∙ first.events;
      outbox = rest.outbox ∙ first.outbox;
      watermarks = rest.watermarks ∙ first.watermarks;
      readable = rest.readable ∙ first.readable;
    }

-- the outbox after an acknowledgement
pub deliver-outbox :
    (rows : List CloudOutboxRow) (ack : EdgeCloudAck) (db : SyncDb)
    → (deliver rows ack db).outbox ≡ update_where (is_acknowledged ack) (delivered db.now) db.outbox
unfolding deliver mark_devices mark_delivered
deliver-outbox rows ack db =
    (conflict_exceptions-SameTables (set_of ack.conflict_event_instance_ids) rows
      (mark_delivered ack db)).outbox

-- The row is still in the outbox with its event, and it is delivered as it was, or the reason holds.
abbrev pub IsSent : Type 0 → String → CloudOutboxRow → List CloudOutboxRow → Type 0
IsSent Reason id row outbox =
    (new : CloudOutboxRow) × (find (sent_as id) outbox ≡ some new)
    × (new.envelope ≡ row.envelope)
    × ((new.delivered_at ≡ row.delivered_at) ⊎ Reason)

deliver-IsSent :
    (rows : List CloudOutboxRow) (ack : EdgeCloudAck) (db : SyncDb) (id : String)
    (row : CloudOutboxRow)
    → find (sent_as id) db.outbox ≡ some row
    → IsSent (includes id (acknowledged ack) ≡ true) id row (deliver rows ack db).outbox
deliver-IsSent rows ack db id row there =
    let updated =
      find-update_where (is_acknowledged ack) (sent_as id) (delivered db.now) db.outbox {x = row}
        (λ y. refl) there in
    rw (deliver-outbox rows ack db) (elim (Bool-cases (is_acknowledged ack row)) [
      | inl named ↦
          let own = (==_iff row.event_instance_id id).0 (find-holds (sent_as id) db.outbox there) in
          (
            delivered db.now row,
            updated ∙ ap (λ b. some (if b then delivered db.now row else row)) named,
            refl,
            inr (rw own at named),
          )
      | inr other ↦ (
        row,
        updated ∙ ap (λ b. some (if b then delivered db.now row else row)) other,
        refl,
        inl refl,
      )
    ])

postpone-IsSent :
    (jittered : ℕ → ℕ) (rows : List CloudOutboxRow) (message : String) (db : SyncDb) (id : String)
    (row : CloudOutboxRow)
    → find (sent_as id) db.outbox ≡ some row
    → IsSent ⊥ id row (postpone jittered rows message db).outbox
unfolding postpone
postpone-IsSent jittered [] message db id row there = (row, there, refl, inl refl)
postpone-IsSent jittered (first ∷ rest) message db id row there =
    let change =
      postponed (first.attempts + 1) (retry_delay_ms jittered (first.attempts + 1)) db.now
        message in
    let next : SyncDb = record db {
      outbox = update_where (is_waiting first.event_instance_id) change db.outbox;
    } in
    let updated =
      find-update_where (is_waiting first.event_instance_id) (sent_as id) change db.outbox {x = row}
        (λ y. refl) there in
    elim (Bool-cases (is_waiting first.event_instance_id row)) [
      | inl waiting ↦
          postpone-IsSent jittered rest message next id (change row)
            (updated ∙ ap (λ b. some (if b then change row else row)) waiting)
      | inr other ↦
          postpone-IsSent jittered rest message next id row
            (updated ∙ ap (λ b. some (if b then change row else row)) other)
    ]

or_reason :
    {P Q : Type 0} (id : String) (row : CloudOutboxRow) (outbox : List CloudOutboxRow)
    → (P → Q)
    → IsSent P id row outbox
    → IsSent Q id row outbox
or_reason id row outbox f (new, there, same, inl e) = (new, there, same, inl e)
or_reason id row outbox f (new, there, same, inr p) = (new, there, same, inr (f p))

-- the cloud has answered for the rows, with an acknowledgement that covers them and names the event
abbrev pub IsNamed : Result EdgeCloudAck → List CloudOutboxRow → String → Type 0
IsNamed answer rows id =
    (ack : EdgeCloudAck) × (answer ≡ ok ack)
    × (covers_batch ack rows ≡ true)
    × (includes id (acknowledged ack) ≡ true)

module _ (jittered : ℕ → ℕ) (first_500 : String → String) where
  pub settle_batch-IsSent :
      (rows : List CloudOutboxRow) (answer : Result EdgeCloudAck) (db : SyncDb) (id : String)
      (row : CloudOutboxRow)
      → find (sent_as id) db.outbox ≡ some row
      → IsSent
          (IsNamed answer rows id)
          id
          row
          (settle_batch jittered first_500 rows answer db).1.outbox
  unfolding settle_batch
  settle_batch-IsSent rows (err e) db id row there =
      or_reason id row _ (λ x. absurd x)
        (postpone-IsSent jittered rows (first_500 (message_of e)) db id row there)
  settle_batch-IsSent rows (ok ack) db id row there = elim (Bool-cases (covers_batch ack rows)) [
    | inl covered ↦ rw covered (
        or_reason id row _ (λ named. (ack, refl, covered, named))
          (deliver-IsSent rows ack db id row there))
    | inr short ↦ rw short (
        or_reason id row _ (λ x. absurd x)
          (postpone-IsSent jittered rows (first_500 not_covered) db id row there))
  ]

  module _ (sql_le : String → String → Bool) (edge_id : String)
      (send : EdgeCloudBatch → Result EdgeCloudAck) where
    abbrev pub answer_for : ℕ → SyncDb → Result EdgeCloudAck
    answer_for limit db = send (batch_of edge_id (due_rows sql_le limit db) db)

    forward-IsSent :
        (rows : List CloudOutboxRow) (db : SyncDb) (id : String) (row : CloudOutboxRow)
        → find (sent_as id) db.outbox ≡ some row
        → IsSent
            (IsNamed (send (batch_of edge_id rows db)) rows id)
            id
            row
            (forward jittered first_500 sql_le edge_id send rows db).1.outbox
    forward-IsSent [] db id row there = (row, there, refl, inl refl)
    forward-IsSent (first ∷ rest) db id row there =
        settle_batch-IsSent (first ∷ rest) (send (batch_of edge_id (first ∷ rest) db)) db id row
          there

    -- Whatever the transport answers, an event of the outbox is still there after `drainOnce`, with its
    -- envelope. It is newly delivered only where the cloud has acknowledged the batch with an answer
    -- that covers it and that names the event; a failure or a partial answer delivers nothing.
    pub drain_once-IsSent :
        (limit : ℕ) (db : SyncDb) (id : String) (row : CloudOutboxRow)
        → find (sent_as id) db.outbox ≡ some row
        → IsSent
            (IsNamed (answer_for limit db) (due_rows sql_le limit db) id)
            id
            row
            (drain_once jittered first_500 sql_le edge_id send limit db).1.outbox
    unfolding drain_once
    drain_once-IsSent limit db id row there =
        forward-IsSent (due_rows sql_le limit db) db id row there
