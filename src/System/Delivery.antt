-- ===== src/System/Delivery.antt =====
-- cloud-forwarder.service.ts with cloud-sync.service.ts at the other end of its transport: an event that
-- the edge counts as delivered is on record in the cloud.
use eventcommerce_os.Base.{
  ◌≡◌, ◌≢◌, sym, ap, ◌∙◌, ℕ, String, none, some, Bool, true, find, Result, ok, err, ok-inj, arith,
  Result-cases, inl, inr,
}
use eventcommerce_os.Base.Do.{◌>>=◌}
use eventcommerce_os.Contracts.{EdgeCloudBatch, EdgeCloudAck}
use eventcommerce_os.Edge.DeviceSync.{SyncDb, CloudOutboxRow}
use eventcommerce_os.Edge.Forwarder.{due_rows, batch_of, sent_as, drain_once}
use eventcommerce_os.Edge.Forwarder.Outbox.{drain_once-IsSent}
use eventcommerce_os.Cloud.Sync.Tables.{EdgeSyncIdentity, CloudSyncDb}
use eventcommerce_os.Cloud.Sync.{ingest}
use eventcommerce_os.System.Record.{is_on_record, ingest-on_record}

-- the answer of the cloud to a batch, and its tables after it: those from before where it failed
abbrev pub answer_of : EdgeSyncIdentity → CloudSyncDb → EdgeCloudBatch → Result EdgeCloudAck
answer_of identity cloud batch = ingest batch identity cloud >>= λ r. ok r.0

abbrev pub tables_after : Result (EdgeCloudAck × CloudSyncDb) → CloudSyncDb → CloudSyncDb
tables_after (ok r) cloud = r.1
tables_after (err e) cloud = cloud

-- An answer is one that the cloud gave.
answer-ingest :
    (identity : EdgeSyncIdentity) (cloud : CloudSyncDb) (batch : EdgeCloudBatch)
    {ack : EdgeCloudAck}
    → answer_of identity cloud batch ≡ ok ack
    → (cloud' : CloudSyncDb) × (ingest batch identity cloud ≡ ok (ack, cloud'))
answer-ingest identity cloud batch {ack} h = elim (Result-cases (ingest batch identity cloud)) [
  | inl ((ack', cloud'), e) ↦ (cloud', e ∙ ap (λ a. ok (a, cloud')) (ok-inj (rw e at h)))
  | inr (x, e) ↦ absurd (ground arith)
]

-- An event of the edge's outbox that was not delivered, and that is after `drainOnce` with the cloud at
-- the other end, is on record in the cloud: its instance is among the stored events, or an exception
-- names it. This holds whatever the cloud's tables were, and whether or not it refused the event.
pub delivered_on_record :
    (jittered : ℕ → ℕ) (first_500 : String → String) (sql_le : String → String → Bool)
    (edge_id : String) (identity : EdgeSyncIdentity) (cloud : CloudSyncDb) (limit : ℕ) (db : SyncDb)
    (id : String) (row new : CloudOutboxRow)
    → find (sent_as id) db.outbox ≡ some row
    → row.delivered_at ≡ none
    → find
        (sent_as id)
        (drain_once jittered first_500 sql_le edge_id (answer_of identity cloud) limit db).1.outbox
      ≡ some new
    → new.delivered_at ≢ none
    → is_on_record id (
        tables_after (ingest (batch_of edge_id (due_rows sql_le limit db) db) identity cloud) cloud)
      ≡ true
delivered_on_record jittered first_500 sql_le edge_id identity cloud limit db id row new there
      waiting there' delivered =
    let batch = batch_of edge_id (due_rows sql_le limit db) db in
    let (found, found_there, _, why) =
      drain_once-IsSent jittered first_500 sql_le edge_id (answer_of identity cloud) limit db id row
        there in
    elim why [
      | inl same ↦
          let e : found ≡ new = ground arith in
          absurd
            (delivered (ap (λ (r : CloudOutboxRow). r.delivered_at) (sym e) ∙ (same ∙ waiting)))
      | inr (ack, answer, _, named) ↦
          let (cloud', e) = answer-ingest identity cloud batch answer in
          rw e (ingest-on_record id batch identity cloud e named)
    ]
