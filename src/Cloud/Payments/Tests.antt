-- ===== src/Cloud/Payments/Tests.antt =====
-- payments.service.ts: the theorems at one payment of 500 shillings.
use eventcommerce_os.Base.{
  ◌≡◌, ◌≢◌, ◌⊎◌, suc, refl, String, none, some, true, false, [], ◌∷◌, find, Failure, ok, err, error,
  ==_iff, ◌==◌, string_eq, nat_eq, arith, String-discrete,
}
use native.Mathlib.Decide.{ℕ_discrete}
use eventcommerce_os.Domain.Payment.{
  pending, succeeded, PaymentAttemptState-discrete, can_transition_payment_attempt,
  payment_attempt_is_terminal,
}
use eventcommerce_os.Cloud.Payments.{
  PayDb, AttemptRow, ReconciliationJobRow, ProviderTruth, truth_succeeded, VerifiedProviderCallback,
  PaymentProvider, has_id, joined, load_attempt_by_id, apply_provider_truth, accept_truth, differs,
  references_differ, manual_review, upsert_reconciliation_job,
}
use eventcommerce_os.Cloud.Payments.Moves.{MovesTo, apply_provider_truth-MovesTo}
use eventcommerce_os.Cloud.Payments.Truth.{apply_provider_truth-succeeded}
use eventcommerce_os.Cloud.Payments.Callbacks.{duplicate, ingest, apply_unmatched_callbacks}
use eventcommerce_os.Cloud.Payments.Callbacks.Once.{ingest-once}
use eventcommerce_os.Cloud.Payments.Callbacks.Order.{apply_unmatched_callbacks-MovesTo}
use eventcommerce_os.Cloud.Payments.Initiation.{
  InitiatePaymentRequest, claim, new_attempt, new_payment,
}
use eventcommerce_os.Cloud.Payments.Initiation.Claims.{claim-once}
use eventcommerce_os.Cloud.Payments.Reconciliation.{
  is_job_of, count_of, schedule_retry, promote_stale_created_attempts, reconcile_attempt,
}
use eventcommerce_os.Cloud.Payments.Reconciliation.Bounds.{
  Reviewed, Retried, schedule_retry-bounds, retry_times, retry_times-end,
}
use eventcommerce_os.Cloud.Payments.Reconciliation.Moves.{reconcile-MovesTo}

abbrev request : InitiatePaymentRequest
request = record {
  event_id = "fest";
  payment_id = "p1";
  payment_attempt_id = "a1";
  order_id = "o1";
  provider_id = "mpesa";
  idempotency_key = "key";
  amount_minor = 500;
  currency = "KES";
  customer_phone = none;
  account_reference = "o1";
  description = none;
}

abbrev nothing : PayDb
nothing = record {
  payments = [];
  attempts = [];
  jobs = [];
  events = [];
  next_event_id = 1;
  now = 1000;
}

abbrev claimed : PayDb
claimed = record nothing {
  payments = new_payment request ∷ [];
  attempts = new_attempt request "print" nothing ∷ [];
}

claiming : claim request "print" nothing ≡ ok (true, claimed)
unfolding claim String-discrete ℕ_discrete
claiming = refl

abbrev print : String
print = "print"

abbrev another : String
another = "another"

print-differs : (print == another) ≡ false
unfolding String-discrete
print-differs = refl

other_print : print ≢ another
other_print e = ground (arith, print-differs, ==_iff print another)

claim-once_example :
    (claim request "print" claimed ≡ ok (false, claimed))
    × (e : Failure) × (claim request "another" claimed ≡ err e)
claim-once_example = claim-once request request "print" "another" nothing claiming refl other_print

abbrev waiting : PayDb
waiting = record claimed {
  attempts = record (new_attempt request "print" nothing) { status = pending } ∷ [];
}

abbrev waiting_attempt : AttemptRow
waiting_attempt =
    joined (record (new_attempt request "print" nothing) { status = pending }) (new_payment request)

abbrev paid : ProviderTruth
paid = record {
  payment_attempt_id = some "a1";
  status = truth_succeeded;
  provider_reference = some "MP1";
  amount_minor = some 500;
  currency = some "KES";
  failure_code = none;
}

waiting_loaded : load_attempt_by_id "a1" waiting ≡ some waiting_attempt
unfolding load_attempt_by_id String-discrete
waiting_loaded = refl

apply_provider_truth-MovesTo_example :
    MovesTo "a1" waiting (apply_provider_truth waiting_attempt paid waiting).1
apply_provider_truth-MovesTo_example =
    apply_provider_truth-MovesTo waiting_attempt paid waiting "a1" waiting_loaded

paid_stored :
    find (has_id "a1") (apply_provider_truth waiting_attempt paid waiting).1.attempts
    ≡ some
        (accept_truth paid 1000 (record (new_attempt request "print" nothing) { status = pending }))
unfolding apply_provider_truth upsert_reconciliation_job String-discrete ℕ_discrete
    PaymentAttemptState-discrete can_transition_payment_attempt payment_attempt_is_terminal
paid_stored = refl

not_yet : waiting_attempt.status ≢ succeeded
not_yet e = ground arith

apply_provider_truth-succeeded_example :
    (paid.status ≡ truth_succeeded)
    × (differs paid.payment_attempt_id waiting_attempt.id ≡ false)
    × (references_differ waiting_attempt.provider_reference paid.provider_reference ≡ false)
    × (differs paid.amount_minor waiting_attempt.amount_minor ≡ false)
    × (differs paid.currency waiting_attempt.currency ≡ false)
apply_provider_truth-succeeded_example =
    apply_provider_truth-succeeded waiting_attempt paid waiting
      (accept_truth paid 1000 (record (new_attempt request "print" nothing) { status = pending }))
      waiting_loaded not_yet paid_stored refl

abbrev callback : VerifiedProviderCallback
callback = record { provider_event_key = "MP1"; truth = paid }

ingest-once_example :
    ingest "mpesa" callback (ingest "mpesa" callback waiting).1
    ≡ (duplicate, (ingest "mpesa" callback waiting).1)
ingest-once_example = ingest-once "mpesa" callback callback waiting refl

apply_unmatched_callbacks-MovesTo_example :
    MovesTo "a1"
      (ingest "mpesa" callback nothing).1
      (apply_unmatched_callbacks waiting_attempt (ingest "mpesa" callback nothing).1)
apply_unmatched_callbacks-MovesTo_example =
    apply_unmatched_callbacks-MovesTo waiting_attempt "a1" (ingest "mpesa" callback nothing).1

schedule_retry-bounds_example :
    (job : ReconciliationJobRow) × (find (is_job_of "a1") (schedule_retry "a1" none waiting).jobs
      ≡ some job)
    × (Reviewed job (count_of (find (is_job_of "a1") waiting.jobs))
        ⊎ Retried job (count_of (find (is_job_of "a1") waiting.jobs)) waiting.now)
schedule_retry-bounds_example = schedule_retry-bounds "a1" none waiting

retry_times-end_example :
    (job : ReconciliationJobRow) × (find
        (is_job_of "a1")
        (retry_times (suc 5) "a1" none waiting).jobs
      ≡ some job)
    × (job.status ≡ manual_review)
retry_times-end_example = retry_times-end 5 "a1" none waiting (ground arith)

-- a provider that cannot be asked for a payment's state
abbrev terminal : PaymentProvider
terminal = record {
  id = "terminal";
  asynchronous_callbacks = false;
  query_status_supported = false;
  initiate = λ r. err (error "offline");
  query_status = λ r. err (error "unsupported");
  parse_and_verify_webhook = λ p. err (error "unsupported");
}

abbrev reviewed_later : PayDb
reviewed_later = record waiting {
  jobs =
      record {
        payment_attempt_id = "a1";
        status = manual_review;
        attempt_count = 0;
        next_attempt_at = 1000;
        last_error_code = some "MISSING_PROVIDER_REFERENCE";
      }
      ∷ [];
}

reconciling :
    reconcile_attempt terminal "a1" (promote_stale_created_attempts waiting) ≡ ok reviewed_later
unfolding reconcile_attempt promote_stale_created_attempts upsert_reconciliation_job
    load_attempt_by_id String-discrete PaymentAttemptState-discrete
reconciling = refl

reconcile-MovesTo_example : MovesTo "a1" waiting reviewed_later
reconcile-MovesTo_example = reconcile-MovesTo terminal "a1" "a1" waiting reconciling
