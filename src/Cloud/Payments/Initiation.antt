-- ===== src/Cloud/Payments/Initiation.antt =====
-- payments.service.ts, `initiate` and `applyInitiationResult`. `requestFingerprint`, a SHA-256 of the
-- request, is the parameter `fingerprint`. The provider has been found by its id.
-- `attemptView` only renames columns: the row itself is returned.
pub mod Claims
use eventcommerce_os.Base.{
  ℕ, String, Option, none, some, Bool, true, false, ◌||◌, not, List, [], ◌∷◌, ◌==◌, ◌!=◌, string_eq,
  nat_eq, any, find, Result, ok, err, bind, error, database, throw_if, if◌then◌else◌, includes,
}
use eventcommerce_os.Domain.Payment.{
  created, initiated, pending, unknown, failed, payment_attempt_state_eq,
  assert_payment_attempt_transition,
}
use eventcommerce_os.Cloud.Payments.{
  PayDb, PaymentRow, AttemptRow, AttemptDbRow, ProviderInitiationResult, ProviderInitiationRequest,
  PaymentProvider, InitiationState, answer_unknown, answer_initiated, answer_pending, answer_failed,
  state_of_answer, has_id, given, coalesce, resolved, update_attempt, upsert_reconciliation_job,
  job_pending, job_resolved, manual_review, load_attempt_by_id, load_attempt_by_idempotency,
}
use eventcommerce_os.Cloud.Payments.Callbacks.{apply_unmatched_callbacks}

pub record InitiatePaymentRequest : Type 0 where
  pub event_id : String
  pub payment_id : String
  pub payment_attempt_id : String
  pub order_id : String
  pub provider_id : String
  pub idempotency_key : String
  pub amount_minor : ℕ
  pub currency : String
  pub customer_phone : Option String
  pub account_reference : String
  pub description : Option String

abbrev pub new_payment : InitiatePaymentRequest → PaymentRow
new_payment request = record {
  id = request.payment_id;
  event_id = request.event_id;
  order_id = request.order_id;
  amount_minor = request.amount_minor;
  currency = request.currency;
}

abbrev pub is_payment : String → PaymentRow → Bool
is_payment id p = p.id == id

-- INSERT INTO payments … ON CONFLICT (id) DO NOTHING
unfoldable pub insert_payment : InitiatePaymentRequest → PayDb → PayDb
insert_payment request db =
    if any (is_payment request.payment_id) db.payments
    then db
    else record db { payments = new_payment request ∷ db.payments }

abbrev pub new_attempt : InitiatePaymentRequest → String → PayDb → AttemptDbRow
new_attempt request fingerprint db = record {
  id = request.payment_attempt_id;
  payment_id = request.payment_id;
  provider_id = request.provider_id;
  idempotency_key = request.idempotency_key;
  status = created;
  provider_reference = none;
  failure_code = none;
  request_fingerprint = fingerprint;
  initiated_at = none;
  resolved_at = none;
  updated_at = db.now;
}

abbrev pub has_key : String → AttemptDbRow → Bool
has_key key a = a.idempotency_key == key

abbrev pub is_other_payment : InitiatePaymentRequest → PaymentRow → Bool
is_other_payment request p =
    p.event_id != request.event_id
    || p.order_id != request.order_id
    || p.amount_minor != request.amount_minor
    || p.currency != request.currency

-- a payment that is there is the one that is asked for
abbrev pub check_payment : InitiatePaymentRequest → Option PaymentRow → Result (Unit {0})
check_payment request none = err (error "Payment creation failed")
check_payment request (some p) =
    throw_if (is_other_payment request p)
      (error "Payment identity conflicts with existing financial record")

-- a request that finds its idempotency key taken
abbrev pub replay : String → Option AttemptRow → PayDb → Result (Bool × PayDb)
replay fingerprint none db = err (error "Idempotency conflict without existing payment attempt")
replay fingerprint (some existing) db =
    bind
      (throw_if (existing.request_fingerprint != fingerprint)
        (error "Idempotency key was reused for a different payment request"))
      (λ _. ok (false, db))

-- INSERT INTO payment_attempts … ON CONFLICT (idempotency_key) DO NOTHING, and what follows
unfoldable pub insert_attempt : InitiatePaymentRequest → String → PayDb → Result (Bool × PayDb)
unfolding load_attempt_by_idempotency
insert_attempt request fingerprint db =
    if any (has_key request.idempotency_key) db.attempts
    then replay fingerprint (load_attempt_by_idempotency request.idempotency_key db) db
    else if any (has_id request.payment_attempt_id) db.attempts
    then err (database "duplicate key in payment_attempts")
    else ok (true, record db { attempts = new_attempt request fingerprint db ∷ db.attempts })

-- the transaction of `initiate`: whether this request owns the initiation
unfoldable pub claim : InitiatePaymentRequest → String → PayDb → Result (Bool × PayDb)
unfolding insert_payment insert_attempt
claim request fingerprint db =
    let db' = insert_payment request db in
    bind (check_payment request (find (is_payment request.payment_id) db'.payments))
      (λ _. insert_attempt request fingerprint db')

abbrev pub accept_initiation : ProviderInitiationResult → ℕ → AttemptDbRow → AttemptDbRow
accept_initiation result now row = record row {
  status = state_of_answer result.status;
  provider_reference = coalesce result.provider_reference row.provider_reference;
  failure_code = result.failure_code;
  initiated_at = coalesce row.initiated_at (some now);
  resolved_at = resolved (state_of_answer result.status) now row.resolved_at;
  updated_at = now;
}

-- a job waits for the provider's reference
abbrev pub job_with_reference : String → Option String → Option String → PayDb → PayDb
job_with_reference id none code db =
    upsert_reconciliation_job id manual_review (some "MISSING_PROVIDER_REFERENCE") db
job_with_reference id (some reference) code db = upsert_reconciliation_job id job_pending code db

abbrev pub job_after_initiation : String → ProviderInitiationResult → PayDb → PayDb
job_after_initiation id result db =
    if includes (state_of_answer result.status) (initiated ∷ pending ∷ unknown ∷ [])
    then job_with_reference id (given result.provider_reference) result.failure_code db
    else if state_of_answer result.status == failed
    then upsert_reconciliation_job id job_resolved none db
    else db

-- the transaction of `applyInitiationResult`
abbrev pub record_initiation :
    String → ProviderInitiationResult → Option AttemptRow → PayDb → Result PayDb
record_initiation id result none db = err (error "Payment attempt not found")
record_initiation id result (some current) db =
    if current.status != created
    then ok db
    else bind (assert_payment_attempt_transition current.status (state_of_answer result.status))
        (λ _.
          ok (
            job_after_initiation id result
              (update_attempt id (accept_initiation result db.now) db)))

-- `if (attempt) await this.applyUnmatchedCallbacks(attempt)`
abbrev pub apply_stored : Option AttemptRow → PayDb → PayDb
apply_stored none db = db
apply_stored (some attempt) db = apply_unmatched_callbacks attempt db

unfoldable pub apply_initiation_result : String → ProviderInitiationResult → PayDb → Result PayDb
unfolding load_attempt_by_id assert_payment_attempt_transition upsert_reconciliation_job
    apply_unmatched_callbacks
apply_initiation_result id result db =
    bind (record_initiation id result (load_attempt_by_id id db) db)
      (λ db'. ok (apply_stored (load_attempt_by_id id db') db'))

abbrev pub provider_request : InitiatePaymentRequest → ProviderInitiationRequest
provider_request request = record {
  payment_attempt_id = request.payment_attempt_id;
  idempotency_key = request.idempotency_key;
  amount_minor = request.amount_minor;
  currency = request.currency;
  customer_phone = given request.customer_phone;
  account_reference = request.account_reference;
  description = given request.description;
}

-- an adapter that throws is an initiation whose outcome is unknown
abbrev pub or_unknown : Result ProviderInitiationResult → ProviderInitiationResult
or_unknown (ok result) = result
or_unknown (err e) = record {
  status = answer_unknown;
  provider_reference = none;
  failure_code = some "PROVIDER_ADAPTER_ERROR";
}

abbrev pub view : String → Option AttemptRow → PayDb → Result (AttemptRow × PayDb)
view message none db = err (error message)
view message (some row) db = ok (row, db)

-- `initiate` once it is known whether it owns the initiation
unfoldable pub initiate_claimed :
    PaymentProvider → InitiatePaymentRequest → Bool → PayDb → Result (AttemptRow × PayDb)
unfolding load_attempt_by_id load_attempt_by_idempotency apply_initiation_result
initiate_claimed provider request false db =
    view "Payment attempt disappeared after idempotent replay"
      (load_attempt_by_idempotency request.idempotency_key db) db
initiate_claimed provider request true db =
    bind
      (apply_initiation_result request.payment_attempt_id
        (or_unknown (provider.initiate (provider_request request))) db)
      (λ db'.
        view "Payment attempt disappeared after provider initiation"
          (load_attempt_by_id request.payment_attempt_id db') db')

unfoldable pub initiate :
    PaymentProvider
    → (InitiatePaymentRequest → String)
    → InitiatePaymentRequest
    → PayDb
    → Result (AttemptRow × PayDb)
unfolding claim initiate_claimed
initiate provider fingerprint request db =
    bind (claim request (fingerprint request) db)
      (λ claimed. initiate_claimed provider request claimed.0 claimed.1)
