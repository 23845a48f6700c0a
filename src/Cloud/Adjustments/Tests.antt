-- ===== src/Cloud/Adjustments/Tests.antt =====
-- payment-adjustments.service.ts: the theorems at one payment of 500 shillings.
use eventcommerce_os.Base.{
  ◌≡◌, ◌≢◌, refl, ℕ, String, String-discrete, Option, Option-discrete, none, some, true, false,
  List, [], ◌∷◌, ◌==◌, string_eq, find, if◌then◌else◌, err, error, IsOk, value, value_lem, arith,
}
use native.Mathlib.Decide.{ℕ_discrete}
use eventcommerce_os.Domain.Payment.{succeeded, PaymentAttemptState-discrete}
use eventcommerce_os.Cloud.Payments.{AttemptDbRow, ProviderTruth, truth_succeeded}
use eventcommerce_os.Cloud.Adjustments.Tables.{
  refund, adjustment_succeeded, adjustment_requested, AdjustmentStatus-discrete, AdjustmentRow,
  AdjustmentInput, AdjustmentProvider, AdjustmentDb, has_id, update_requested, rail, reserved,
  table,
}
use eventcommerce_os.Cloud.Adjustments.{
  Claim, replay, insert_requested, claim_new, claim_or_replay, claim, settle, finish,
  request_adjustment, assert_same_request,
}
use eventcommerce_os.Cloud.Adjustments.Balance.{IsCovered}
use eventcommerce_os.Cloud.Adjustments.Runs.{
  AdjustmentAction, claims, settles, act, run, run-IsCovered,
}
use eventcommerce_os.Cloud.Adjustments.Once.{claim_once}
use eventcommerce_os.Cloud.Adjustments.Settled.{run_settled}

abbrev done_truth : ProviderTruth
done_truth = record {
  payment_attempt_id = none;
  status = truth_succeeded;
  provider_reference = some "R1";
  amount_minor = none;
  currency = none;
  failure_code = none;
}

abbrev mpesa : AdjustmentProvider
mpesa = record {
  id = "mpesa";
  refunds = true;
  reversals = false;
  refund = some (λ call. some done_truth);
  reverse = none;
}

abbrev lookup : String → Option AdjustmentProvider
lookup name = if name == "mpesa" then some mpesa else none

abbrev paid_attempt : AttemptDbRow
paid_attempt = record {
  id = "a1";
  payment_id = "p1";
  provider_id = "mpesa";
  idempotency_key = "key";
  status = succeeded;
  provider_reference = some "T1";
  failure_code = none;
  request_fingerprint = "f";
  initiated_at = some 100;
  resolved_at = some 200;
  updated_at = 200;
}

abbrev paid : AdjustmentDb
paid = record {
  payments =
      record { id = "p1"; event_id = "fest"; order_id = "o1"; amount_minor = 500; currency = "KES" }
      ∷ [];
  attempts = record { attempt = paid_attempt; created_at = 90 } ∷ [];
  refunds = [];
  reversals = [];
  now = 1000;
}

abbrev give_back : String → ℕ → AdjustmentInput
give_back id amount = record {
  id = id;
  payment_id = "p1";
  amount_minor = amount;
  currency = "KES";
  reason = "spilt";
  requesting_actor_id = "ann";
  approving_actor_id = none;
  idempotency_key = id;
}

first-IsOk : IsOk (claim lookup refund (give_back "r1" 300) 1000 paid)
unfolding claim claim_or_replay claim_new rail reserved insert_requested String-discrete
    Option-discrete PaymentAttemptState-discrete
first-IsOk = tt

abbrev first : Claim × AdjustmentDb
first = value (claim lookup refund (give_back "r1" 300) 1000 paid) first-IsOk

-- a second refund of 300 does not fit
too_much :
    claim lookup refund (give_back "r2" 300) 1000 first.1
    ≡ err (error "Adjustment would exceed the unadjusted payment balance")
unfolding claim claim_or_replay claim_new rail reserved insert_requested String-discrete
    Option-discrete PaymentAttemptState-discrete AdjustmentStatus-discrete
too_much = refl

again-IsOk : IsOk (
    claim lookup refund
      (give_back "r1" 300)
      2000
      (run lookup (settles refund "r1" done_truth ∷ []) first.1))
unfolding claim claim_or_replay claim_new rail reserved insert_requested String-discrete
    Option-discrete PaymentAttemptState-discrete AdjustmentStatus-discrete run act settle
    update_requested replay assert_same_request ℕ_discrete
again-IsOk = tt

abbrev again : Claim × AdjustmentDb
again =
    value
      (claim lookup refund (give_back "r1" 300) 2000
        (run lookup (settles refund "r1" done_truth ∷ []) first.1))
      again-IsOk

claim_once_example : again.0.0 ≡ false
claim_once_example =
    claim_once lookup refund (give_back "r1" 300) (give_back "r1" 300) 1000 2000 paid
      (settles refund "r1" done_truth ∷ [])
      (value_lem (claim lookup refund (give_back "r1" 300) 1000 paid) first-IsOk) refl
      (value_lem
        (claim lookup refund (give_back "r1" 300) 2000
          (run lookup (settles refund "r1" done_truth ∷ []) first.1))
        again-IsOk)

abbrev rush : List AdjustmentAction
rush =
    claims refund (give_back "r1" 300) 1000
    ∷ claims refund (give_back "r2" 300) 1000
    ∷ settles refund "r1" done_truth
    ∷ []

paid-IsCovered : IsCovered paid
unfolding reserved
paid-IsCovered id payment there = omega arith

run-IsCovered_example : IsCovered (run lookup rush paid)
run-IsCovered_example = run-IsCovered lookup rush paid paid-IsCovered

abbrev settled_row : AdjustmentRow
settled_row = record {
  id = "r1";
  payment_id = "p1";
  provider_id = "mpesa";
  source_provider_reference = "T1";
  amount_minor = 300;
  currency = "KES";
  reason = "spilt";
  requesting_actor_id = "ann";
  approving_actor_id = none;
  provider_reference = some "R1";
  failure_code = none;
  idempotency_key = "r1";
  status = adjustment_succeeded;
  created_at = 1000;
  updated_at = 1000;
}

abbrev with_refund : AdjustmentDb
with_refund = record paid { refunds = settled_row ∷ [] }

settled_ne : adjustment_succeeded ≢ adjustment_requested
settled_ne h = cc

run_settled_example :
    find (has_id "r1") (table refund (run lookup rush with_refund)) ≡ some settled_row
unfolding String-discrete
run_settled_example = run_settled lookup refund settled_row rush with_refund settled_ne refl

request-IsOk : IsOk (request_adjustment lookup refund (give_back "r1" 300) 1000 paid)
unfolding claim claim_or_replay claim_new rail reserved insert_requested String-discrete
    Option-discrete PaymentAttemptState-discrete AdjustmentStatus-discrete request_adjustment finish
    settle update_requested
request-IsOk = tt

abbrev requested : AdjustmentRow × AdjustmentDb
requested = value (request_adjustment lookup refund (give_back "r1" 300) 1000 paid) request-IsOk

requested_row : requested.0 ≡ settled_row
unfolding claim claim_or_replay claim_new rail reserved insert_requested String-discrete
    Option-discrete PaymentAttemptState-discrete AdjustmentStatus-discrete request_adjustment finish
    settle update_requested
requested_row = refl
