-- ===== src/Cloud/Adjustments.antt =====
-- apps/cloud-api/src/payments/payment-adjustments.service.ts: refunds and reversals of a payment, over
-- the tables of migrations/0007_payments.sql. A request claims its amount in a transaction that holds
-- the payment's row, then asks the provider, and then records the answer; between these steps other
-- requests may run. The lookup of a provider by its name is a parameter, as are the providers, whose
-- calls answer `none` where they throw.
pub mod Tables
pub mod Claims
pub mod Balance
pub mod Runs
pub mod Once
pub mod Settled
mod Tests
use eventcommerce_os.Base.{
  ℕ, ◌+◌, ◌-◌, String, Option, none, some, Bool, true, false, not, ◌&&◌, ◌||◌, List, [], ◌∷◌, ◌==◌,
  ◌!=◌, string_eq, nat_eq, option_eq, ltb, leb, any, find, select, update_where, if◌then◌else◌, Eq,
  Result, ok, err, error, database, throw_if, template,
}
use eventcommerce_os.Base.Do.{◌>>=◌, ◌>>◌}
use eventcommerce_os.Base.Sorting.{sort_by}
use eventcommerce_os.Domain.Payment.{succeeded, payment_attempt_state_eq}
use eventcommerce_os.Cloud.Payments.{
  PaymentRow, AttemptDbRow, ProviderTruth, ProviderTruthState, truth_pending, truth_succeeded,
  truth_failed, truth_unknown,
}
use eventcommerce_os.Cloud.Adjustments.Tables.{
  AdjustmentKind, refund, reversal, AdjustmentStatus, adjustment_requested, adjustment_pending,
  adjustment_succeeded, adjustment_failed, adjustment_unknown, adjustment_status_eq, AdjustmentRow,
  AdjustmentInput, RailAttempt, AdjustmentCall, AdjustmentProvider, AdjustmentDb, table, set_table,
  has_id, has_key, is_payment, update_requested, rail, method, supports, plural, reserved,
}

-- a row that must be there
abbrev pub or_error {ℓ} : {A : Type ℓ} → Option A → String → Result A
or_error none message = err (error message)
or_error (some a) message = ok a

unfoldable pub assert_same_request : AdjustmentRow → AdjustmentInput → Result (Unit {0})
assert_same_request existing input =
    throw_if
      (existing.id != input.id
        || existing.payment_id != input.payment_id
        || existing.amount_minor != input.amount_minor
        || existing.currency != input.currency
        || existing.reason != input.reason
        || existing.requesting_actor_id != input.requesting_actor_id
        || existing.approving_actor_id != input.approving_actor_id)
      (error "Adjustment idempotency key was reused for a different request")

abbrev pub abandoned : ℕ → AdjustmentRow → AdjustmentRow
abandoned now row = record row {
  status = adjustment_unknown;
  failure_code = some "AMBIGUOUS_ADJUSTMENT_CRASH";
  updated_at = now;
}

-- whether the caller is the one to ask the provider, and the row
abbrev pub Claim : Type 0
Claim = Bool × AdjustmentRow

-- a request whose key is stored; `clock` is Date.now()
unfoldable pub replay :
    AdjustmentKind
    → AdjustmentInput
    → AdjustmentRow
    → ℕ
    → AdjustmentDb
    → Result (Claim × AdjustmentDb)
unfolding assert_same_request update_requested
replay kind input existing clock db =
    assert_same_request existing input
    >> (if existing.status == adjustment_requested && leb (existing.updated_at + 60000) clock
        then (or_error
              (find (has_id existing.id)
                (table kind (update_requested kind existing.id (abandoned db.now) db)))
              "Payment adjustment disappeared"
            >>= λ uncertain.
                ok ((false, uncertain), update_requested kind existing.id (abandoned db.now) db))
        else ok ((false, existing), db))

abbrev pub approver : AdjustmentKind → AdjustmentInput → Option String
approver refund input = input.approving_actor_id
approver reversal input = none

abbrev pub new_row : AdjustmentKind → AdjustmentInput → String × String → ℕ → AdjustmentRow
new_row kind input (provider, reference) now = record {
  id = input.id;
  payment_id = input.payment_id;
  provider_id = provider;
  source_provider_reference = reference;
  amount_minor = input.amount_minor;
  currency = input.currency;
  reason = input.reason;
  requesting_actor_id = input.requesting_actor_id;
  approving_actor_id = approver kind input;
  provider_reference = none;
  failure_code = none;
  idempotency_key = input.idempotency_key;
  status = adjustment_requested;
  created_at = now;
  updated_at = now;
}

-- `insertRequested`: the primary key is the table's; the idempotency key was looked up
unfoldable pub insert_requested :
    AdjustmentKind
    → AdjustmentInput
    → String × String
    → AdjustmentDb
    → Result (AdjustmentRow × AdjustmentDb)
insert_requested kind input chosen db =
    throw_if (any (has_id input.id) (table kind db)) (database "duplicate key")
    >> ok (
      new_row kind input chosen db.now,
      set_table kind (new_row kind input chosen db.now ∷ table kind db) db,
    )

module _ (provider : String → Option AdjustmentProvider) where
  -- a request whose key is new
  unfoldable pub claim_new :
      AdjustmentKind → AdjustmentInput → PaymentRow → AdjustmentDb → Result (Claim × AdjustmentDb)
  unfolding rail reserved insert_requested
  claim_new kind input payment db = do
    throw_if (payment.currency != input.currency)
        (error "Adjustment currency must match the original payment")
    throw_if (ltb payment.amount_minor input.amount_minor)
        (error "Adjustment amount cannot exceed the original payment")
    chosen ←
        or_error (rail input.payment_id db)
          "Payment has no successful provider transaction to adjust"
    its_provider ←
        or_error (provider chosen.0) (template ("Unsupported payment provider: " ∷ chosen.0 ∷ []))
    throw_if (not (supports kind its_provider))
        (error (template ("Provider " ∷ its_provider.id ∷ " does not support " ∷ plural kind ∷ [])))
    throw_if (ltb payment.amount_minor (reserved input.payment_id db + input.amount_minor))
        (error "Adjustment would exceed the unadjusted payment balance")
    inserted ← insert_requested kind input chosen db
    ok ((true, inserted.0), inserted.1)

  unfoldable pub claim_or_replay :
      AdjustmentKind
      → AdjustmentInput
      → PaymentRow
      → Option AdjustmentRow
      → ℕ
      → AdjustmentDb
      → Result (Claim × AdjustmentDb)
  unfolding replay claim_new
  claim_or_replay kind input payment none clock db = claim_new kind input payment db
  claim_or_replay kind input payment (some existing) clock db = replay kind input existing clock db

  -- the transaction of `requestAdjustment`
  unfoldable pub claim :
      AdjustmentKind → AdjustmentInput → ℕ → AdjustmentDb → Result (Claim × AdjustmentDb)
  unfolding claim_or_replay
  claim kind input clock db =
      or_error (find (is_payment input.payment_id) db.payments) "Payment not found" >>= λ payment.
      claim_or_replay kind input payment (find (has_key input.idempotency_key) (table kind db))
        clock db

abbrev pub status_of : ProviderTruthState → AdjustmentStatus
status_of truth_pending = adjustment_pending
status_of truth_succeeded = adjustment_succeeded
status_of truth_failed = adjustment_failed
status_of truth_unknown = adjustment_unknown

-- coalesce($3, provider_reference)
abbrev pub or_old : Option String → Option String → Option String
or_old none old = old
or_old (some new) old = some new

abbrev pub answered : ProviderTruth → ℕ → AdjustmentRow → AdjustmentRow
answered result now row = record row {
  status = status_of result.status;
  provider_reference = or_old result.provider_reference row.provider_reference;
  failure_code = result.failure_code;
  updated_at = now;
}

-- the UPDATE that records the provider's answer
unfoldable pub settle : AdjustmentKind → String → ProviderTruth → AdjustmentDb → AdjustmentDb
unfolding update_requested
settle kind id result db = update_requested kind id (answered result db.now) db

abbrev pub call_of : AdjustmentRow → AdjustmentCall
call_of row = record {
  provider_reference = row.source_provider_reference;
  amount_minor = row.amount_minor;
  currency = row.currency;
  idempotency_key = row.idempotency_key;
}

-- what stands for the answer of a call that throws
abbrev pub adjustment_error : ProviderTruth
adjustment_error = record {
  payment_attempt_id = none;
  status = truth_unknown;
  provider_reference = none;
  amount_minor = none;
  currency = none;
  failure_code = some "PROVIDER_ADJUSTMENT_ERROR";
}

abbrev pub caught : Option ProviderTruth → ProviderTruth
caught none = adjustment_error
caught (some result) = result

abbrev pub ask : Option (AdjustmentCall → Option ProviderTruth) → AdjustmentRow → ProviderTruth
ask none row = adjustment_error
ask (some call) row = caught (call (call_of row))

module _ (provider : String → Option AdjustmentProvider) where
  -- what follows the claim, for its owner
  unfoldable pub finish :
      AdjustmentKind → AdjustmentRow → AdjustmentDb → Result (AdjustmentRow × AdjustmentDb)
  unfolding settle
  finish kind row db =
      or_error (provider row.provider_id)
        (template ("Unsupported payment provider: " ∷ row.provider_id ∷ []))
      >>= λ its_provider.
          let db' = settle kind row.id (ask (method kind its_provider) row) db in
          or_error (find (has_id row.id) (table kind db'))
            "Payment adjustment disappeared after provider call"
          >>= λ saved. ok (saved, db')

  -- `requestAdjustment` where nothing runs in between; the view of the row is left out
  unfoldable pub request_adjustment :
      AdjustmentKind → AdjustmentInput → ℕ → AdjustmentDb → Result (AdjustmentRow × AdjustmentDb)
  unfolding claim finish
  request_adjustment kind input clock db = claim provider kind input clock db >>= λ claimed.
      if claimed.0.0 then finish kind claimed.0.1 claimed.1 else ok (claimed.0.1, claimed.1)
