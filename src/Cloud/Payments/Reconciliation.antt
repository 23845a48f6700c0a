-- ===== src/Cloud/Payments/Reconciliation.antt =====
-- payments.service.ts, `scheduleRetry`, `promoteStaleCreatedAttempts`, `reconcileAttempt` and
-- `reconcileDue`. A delay of so many seconds is 1000 times as many milliseconds.
pub mod Bounds
pub mod Moves
use eventcommerce_os.Base.{
  ℕ, ◌+◌, ◌-◌, ◌*◌, ◌^◌, min, max, String, Option, none, some, Bool, true, false, ◌&&◌, not, List,
  [], ◌∷◌, ◌==◌, string_eq, leb, find, select, take, update_where, includes, Result, ok, err, bind,
  error, if◌then◌else◌,
}
use eventcommerce_os.Base.Sorting.{sort_by}
use eventcommerce_os.Domain.Payment.{created, initiated, pending, unknown, payment_attempt_state_eq}
use eventcommerce_os.Cloud.Payments.{
  PayDb, AttemptRow, AttemptDbRow, ReconciliationJobRow, ProviderTruth, ProviderTruthState,
  truth_pending, truth_unknown, truth_succeeded, truth_failed, PaymentProvider, JobStatus,
  job_pending, manual_review, job_status_eq, given, has_id, coalesce, new_job, upsert_job,
  upsert_reconciliation_job, load_attempt_by_id, apply_provider_truth,
}

abbrev pub is_job_of : String → ReconciliationJobRow → Bool
is_job_of id j = j.payment_attempt_id == id

-- `existing.rows[0]?.attempt_count ?? 0`
abbrev pub count_of : Option ReconciliationJobRow → ℕ
count_of none = 0
count_of (some job) = job.attempt_count

-- the delay of a retry, in seconds
abbrev pub delay_seconds : ℕ → ℕ
delay_seconds next = min 300 (5 * 2 ^ max 0 (next - 1))

-- the job of the next retry, where there is one or none before it
abbrev pub next_retry : ℕ → Option String → PayDb → ReconciliationJobRow → ReconciliationJobRow
next_retry next error_code db job = record job {
  status = job_pending;
  attempt_count = next;
  next_attempt_at = db.now + 1000 * delay_seconds next;
  last_error_code = error_code;
}

unfoldable pub schedule_retry : String → Option String → PayDb → PayDb
unfolding upsert_reconciliation_job
schedule_retry id error_code db =
    let next = count_of (find (is_job_of id) db.jobs) + 1 in
    if leb 6 next
    then upsert_reconciliation_job id manual_review error_code db
    else upsert_job (next_retry next error_code db (new_job id job_pending error_code db))
        (next_retry next error_code db) db

abbrev pub is_stale : ℕ → AttemptDbRow → Bool
is_stale now a = a.status == created && leb (a.updated_at + 60000) now

-- one stale attempt: UPDATE … WHERE id = $1 AND status = 'CREATED', and its job
abbrev pub promote : AttemptDbRow → PayDb → PayDb
promote row db =
    upsert_reconciliation_job row.id manual_review (some "AMBIGUOUS_INITIATION_CRASH") (record db {
      attempts =
          update_where (λ (a : AttemptDbRow). a.id == row.id && a.status == created)
            (λ a. record a {
              status = unknown;
              failure_code = some "AMBIGUOUS_INITIATION_CRASH";
              updated_at = db.now;
            })
            db.attempts;
    })

abbrev pub promote_all : List AttemptDbRow → PayDb → PayDb
promote_all [] db = db
promote_all (row ∷ rows) db = promote_all rows (promote row db)

-- SELECT … ORDER BY updated_at LIMIT 20
abbrev pub stale_attempts : PayDb → List AttemptDbRow
stale_attempts db =
    take 20
      (sort_by leb (λ (a : AttemptDbRow). a.updated_at) (select (is_stale db.now) db.attempts))

-- `promoteStaleCreatedAttempts`, where no other transaction holds a lock on one of the rows
unfoldable pub promote_stale_created_attempts : PayDb → PayDb
unfolding upsert_reconciliation_job
promote_stale_created_attempts db = promote_all (stale_attempts db) db

-- ['INITIATED', 'PENDING', 'UNKNOWN'].includes(status)
abbrev pub is_open : AttemptRow → Bool
is_open a = includes a.status (initiated ∷ pending ∷ unknown ∷ [])

-- a provider's answer; an adapter that throws is an unknown outcome
abbrev pub or_unknown : String → Result ProviderTruth → ProviderTruth
or_unknown reference (ok truth) = record truth {
  provider_reference = coalesce truth.provider_reference (some reference);
}
or_unknown reference (err e) = record {
  payment_attempt_id = none;
  status = truth_unknown;
  provider_reference = some reference;
  amount_minor = none;
  currency = none;
  failure_code = some "PROVIDER_ADAPTER_ERROR";
}

-- a retry is due while the provider's word is PENDING or UNKNOWN
abbrev pub retry_after : String → ProviderTruth → Bool × PayDb → PayDb
retry_after id truth (false, db) = db
retry_after id truth (true, db) = elim truth.status [
  | truth_pending ↦ schedule_retry id truth.failure_code db
  | truth_unknown ↦ schedule_retry id truth.failure_code db
  | truth_succeeded ↦ db
  | truth_failed ↦ db
]

-- the last transaction of `reconcileAttempt`
abbrev pub settle_truth : String → ProviderTruth → Option AttemptRow → PayDb → PayDb
settle_truth id truth none db = db
settle_truth id truth (some locked) db =
    if not (is_open locked) then db else retry_after id truth (apply_provider_truth locked truth db)

-- the status query of `reconcileAttempt` for an attempt with a reference
abbrev pub query : PaymentProvider → AttemptRow → String → PayDb → PayDb
query provider current reference db =
    if not provider.query_status_supported
    then upsert_reconciliation_job current.id manual_review
        (some "PROVIDER_STATUS_QUERY_UNSUPPORTED") db
    else settle_truth current.id (or_unknown reference (provider.query_status reference))
        (load_attempt_by_id current.id db) db

abbrev pub query_known : PaymentProvider → AttemptRow → Option String → PayDb → PayDb
query_known provider current none db =
    upsert_reconciliation_job current.id manual_review (some "MISSING_PROVIDER_REFERENCE") db
query_known provider current (some reference) db = query provider current reference db

-- `reconcileAttempt`, for the provider of the attempt, without the view that it returns
abbrev pub reconcile_loaded : PaymentProvider → Option AttemptRow → PayDb → Result PayDb
reconcile_loaded provider none db = err (error "Payment attempt not found")
reconcile_loaded provider (some current) db =
    if not (is_open current)
    then ok db
    else ok (query_known provider current (given current.provider_reference) db)

unfoldable pub reconcile_attempt : PaymentProvider → String → PayDb → Result PayDb
unfolding schedule_retry load_attempt_by_id apply_provider_truth upsert_reconciliation_job
reconcile_attempt provider id db = reconcile_loaded provider (load_attempt_by_id id db) db
