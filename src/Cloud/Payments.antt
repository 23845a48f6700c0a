-- ===== src/Cloud/Payments.antt =====
-- apps/cloud-api/src/payments/payments.service.ts: the tables of migrations/0007_payments.sql and the
-- writes that an attempt, its callbacks and its reconciliation make. An amount is a safe integer of
-- minor units; an instant is in milliseconds. Of two columns that are null or missing the code tells
-- no difference, so both are `none`. The columns that only views show (created_at, and the joined
-- row's key and times) are left out. A blank-padded `char(3)` currency has its three letters.
pub mod Moves
pub mod Truth
pub mod Callbacks
pub mod Initiation
pub mod Reconciliation
mod Tests
use eventcommerce_os.Base.{
  ℕ, ◌+◌, String, Option, none, some, Bool, true, false, ◌&&◌, ◌||◌, not, List, [], ◌∷◌, ◌==◌, ◌!=◌,
  string_eq, nat_eq, option_eq, any, find, update_where, if◌then◌else◌, Eq, includes, Result,
}
use eventcommerce_os.Domain.Payment.{
  PaymentAttemptState, created, initiated, pending, succeeded, failed, unknown,
  payment_attempt_state_eq, payment_attempt_is_terminal, can_transition_payment_attempt,
}

pub record PaymentRow : Type 0 where
  pub id : String
  pub event_id : String
  pub order_id : String
  pub amount_minor : ℕ
  pub currency : String

-- a row of `payment_attempts`
pub record AttemptDbRow : Type 0 where
  pub id : String
  pub payment_id : String
  pub provider_id : String
  pub idempotency_key : String
  pub status : PaymentAttemptState
  pub provider_reference : Option String
  pub failure_code : Option String
  pub request_fingerprint : String
  pub initiated_at : Option ℕ
  pub resolved_at : Option ℕ
  pub updated_at : ℕ

-- an attempt with the columns of its payment
pub record AttemptRow : Type 0 where
  pub id : String
  pub payment_id : String
  pub event_id : String
  pub order_id : String
  pub provider_id : String
  pub amount_minor : ℕ
  pub currency : String
  pub status : PaymentAttemptState
  pub provider_reference : Option String
  pub failure_code : Option String
  pub request_fingerprint : String

-- PENDING, SUCCEEDED, FAILED, UNKNOWN: what a provider says of a payment
pub data ProviderTruthState : Type 0 where
  truth_pending truth_succeeded truth_failed truth_unknown : ProviderTruthState

abbrev pub state_of_truth : ProviderTruthState → PaymentAttemptState
state_of_truth truth_pending = pending
state_of_truth truth_succeeded = succeeded
state_of_truth truth_failed = failed
state_of_truth truth_unknown = unknown

pub record ProviderTruth : Type 0 where
  pub payment_attempt_id : Option String
  pub status : ProviderTruthState
  pub provider_reference : Option String
  pub amount_minor : Option ℕ
  pub currency : Option String
  pub failure_code : Option String

pub data JobStatus : Type 0 where
  job_pending job_running job_resolved manual_review : JobStatus

unfoldable pub JobStatus-discrete : Discrete JobStatus
JobStatus-discrete = hlevel

instance abbrev pub job_status_eq : Eq JobStatus
job_status_eq = record { dec_eq = JobStatus-discrete }

pub record ReconciliationJobRow : Type 0 where
  pub payment_attempt_id : String
  pub status : JobStatus
  pub attempt_count : ℕ
  pub next_attempt_at : ℕ
  pub last_error_code : Option String

pub record ProviderEventRow : Type 0 where
  pub id : ℕ
  pub provider_id : String
  pub provider_event_key : String
  pub payment_attempt_id : Option String
  pub payload : ProviderTruth
  pub received_at : ℕ

pub record PayDb : Type 0 where
  pub payments : List PaymentRow
  pub attempts : List AttemptDbRow
  pub jobs : List ReconciliationJobRow
  pub events : List ProviderEventRow
  -- the next value of the events' `bigserial`
  pub next_event_id : ℕ
  -- `now()`
  pub now : ℕ

abbrev pub has_id : String → AttemptDbRow → Bool
has_id id row = row.id == id

-- `attemptSelect`: an attempt joined with its payment
abbrev pub joined : AttemptDbRow → PaymentRow → AttemptRow
joined row p = record {
  id = row.id;
  payment_id = row.payment_id;
  event_id = p.event_id;
  order_id = p.order_id;
  provider_id = row.provider_id;
  amount_minor = p.amount_minor;
  currency = p.currency;
  status = row.status;
  provider_reference = row.provider_reference;
  failure_code = row.failure_code;
  request_fingerprint = row.request_fingerprint;
}

unfoldable pub join : PayDb → Option AttemptDbRow → Option AttemptRow
join db none = none
join db (some row) = elim (find (λ (p : PaymentRow). p.id == row.payment_id) db.payments) [
  | none ↦ none
  | some p ↦ some (joined row p)
]

unfoldable pub load_attempt_by_id : String → PayDb → Option AttemptRow
unfolding join
load_attempt_by_id id db = join db (find (has_id id) db.attempts)

unfoldable pub load_attempt_by_idempotency : String → PayDb → Option AttemptRow
unfolding join
load_attempt_by_idempotency key db = join db (find (λ a. a.idempotency_key == key) db.attempts)

unfoldable pub load_attempt_by_provider_reference : String → String → PayDb → Option AttemptRow
unfolding join
load_attempt_by_provider_reference provider reference db =
    join db
      (find (λ a. a.provider_id == provider && a.provider_reference == some reference) db.attempts)

-- INSERT … ON CONFLICT (payment_attempt_id) DO UPDATE
abbrev pub upsert_job :
    ReconciliationJobRow → (ReconciliationJobRow → ReconciliationJobRow) → PayDb → PayDb
upsert_job new change db = record db {
  jobs =
      if any (λ (j : ReconciliationJobRow). j.payment_attempt_id == new.payment_attempt_id) db.jobs
      then update_where
          (λ (j : ReconciliationJobRow). j.payment_attempt_id == new.payment_attempt_id) change
          db.jobs
      else new ∷ db.jobs;
}

abbrev pub new_job : String → JobStatus → Option String → PayDb → ReconciliationJobRow
new_job id status error_code db = record {
  payment_attempt_id = id;
  status = status;
  attempt_count = 0;
  next_attempt_at = db.now;
  last_error_code = error_code;
}

abbrev pub set_job : JobStatus → Option String → ReconciliationJobRow → ReconciliationJobRow
set_job status error_code job = record job { status = status; last_error_code = error_code }

unfoldable pub upsert_reconciliation_job : String → JobStatus → Option String → PayDb → PayDb
upsert_reconciliation_job id status error_code db =
    upsert_job (new_job id status error_code db) (set_job status error_code) db

abbrev pub update_attempt : String → (AttemptDbRow → AttemptDbRow) → PayDb → PayDb
update_attempt id change db = record db { attempts = update_where (has_id id) change db.attempts }

-- the answer to a truth that is not about the attempt: manual review, and the outcome is UNKNOWN
-- unless the attempt is settled
unfoldable pub distrust : AttemptRow → String → PayDb → PayDb
unfolding upsert_reconciliation_job payment_attempt_is_terminal
distrust current code db =
    let db' = upsert_reconciliation_job current.id manual_review (some code) db in
    if payment_attempt_is_terminal current.status
    then db'
    else update_attempt current.id
        (λ row. record row { status = unknown; failure_code = some code; updated_at = db.now }) db'

-- a value that was given and differs
abbrev pub differs : {A : Type 0} ⦃e : Eq A⦄ → Option A → A → Bool
differs none a = false
differs (some b) a = b != a

-- two references that are both known and differ
abbrev pub references_differ : Option String → Option String → Bool
references_differ none given = false
references_differ (some known) given = differs given known

-- coalesce(a, b)
abbrev pub coalesce : {A : Type 0} → Option A → Option A → Option A
coalesce none b = b
coalesce (some a) b = some a

-- CASE WHEN status IN ('SUCCEEDED','FAILED') THEN now() ELSE resolved_at END
abbrev pub resolved : PaymentAttemptState → ℕ → Option ℕ → Option ℕ
resolved succeeded now at = some now
resolved failed now at = some now
resolved _ now at = at

-- the job that an accepted truth leads to
abbrev pub job_after_truth : String → ProviderTruthState → Option String → PayDb → PayDb
job_after_truth id truth_pending code db = upsert_reconciliation_job id job_pending code db
job_after_truth id truth_unknown code db = upsert_reconciliation_job id job_pending code db
job_after_truth id truth_succeeded code db = upsert_reconciliation_job id job_resolved none db
job_after_truth id truth_failed code db = upsert_reconciliation_job id job_resolved none db

-- the UPDATE of an accepted truth
abbrev pub accept_truth : ProviderTruth → ℕ → AttemptDbRow → AttemptDbRow
accept_truth truth now row = record row {
  status = state_of_truth truth.status;
  provider_reference = coalesce truth.provider_reference row.provider_reference;
  failure_code = truth.failure_code;
  resolved_at = resolved (state_of_truth truth.status) now row.resolved_at;
  updated_at = now;
}

-- whether a truth was applied, and the tables after it
unfoldable pub apply_provider_truth : AttemptRow → ProviderTruth → PayDb → Bool × PayDb
unfolding distrust upsert_reconciliation_job payment_attempt_is_terminal
    can_transition_payment_attempt
apply_provider_truth current truth db =
    if differs truth.payment_attempt_id current.id
    then (false, distrust current "PROVIDER_MERCHANT_REFERENCE_MISMATCH" db)
    else if references_differ current.provider_reference truth.provider_reference
    then (false, distrust current "PROVIDER_REFERENCE_MISMATCH" db)
    else if differs truth.amount_minor current.amount_minor
        || differs truth.currency current.currency
    then (false, distrust current "PROVIDER_AMOUNT_MISMATCH" db)
    else if payment_attempt_is_terminal current.status
        && current.status != state_of_truth truth.status
    then (
      false,
      upsert_reconciliation_job current.id manual_review (some "CONFLICTING_PROVIDER_TRUTH") db,
    )
    else if not (can_transition_payment_attempt current.status (state_of_truth truth.status))
    then (
      false,
      upsert_reconciliation_job current.id manual_review (some "INVALID_PROVIDER_TRANSITION") db,
    )
    else (
      true,
      job_after_truth current.id truth.status truth.failure_code
          (update_attempt current.id (accept_truth truth db.now) db),
    )

-- INITIATED, PENDING, FAILED, UNKNOWN: how a provider answers an initiation
pub data InitiationState : Type 0 where
  answer_initiated answer_pending answer_failed answer_unknown : InitiationState

abbrev pub state_of_answer : InitiationState → PaymentAttemptState
state_of_answer answer_initiated = initiated
state_of_answer answer_pending = pending
state_of_answer answer_failed = failed
state_of_answer answer_unknown = unknown

pub record ProviderInitiationResult : Type 0 where
  pub status : InitiationState
  pub provider_reference : Option String
  pub failure_code : Option String

pub record ProviderInitiationRequest : Type 0 where
  pub payment_attempt_id : String
  pub idempotency_key : String
  pub amount_minor : ℕ
  pub currency : String
  pub customer_phone : Option String
  pub account_reference : String
  pub description : Option String

pub record VerifiedProviderCallback : Type 0 where
  pub provider_event_key : String
  pub truth : ProviderTruth

-- What the service asks of a provider's adapter; an adapter that throws returns `err`.
pub record PaymentProvider : Type 0 where
  pub id : String
  pub asynchronous_callbacks : Bool
  pub query_status_supported : Bool
  pub initiate : ProviderInitiationRequest → Result ProviderInitiationResult
  pub query_status : String → Result ProviderTruth
  pub parse_and_verify_webhook : String → Result VerifiedProviderCallback

-- an optional text as a condition of `if`: the empty text counts as missing
abbrev pub given : Option String → Option String
given none = none
given (some t) = if t == "" then none else some t
