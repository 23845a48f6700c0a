-- ===== src/Cloud/Adjustments/Runs.antt =====
-- payment-adjustments.service.ts: claims and answers of several requests, in any order.
use eventcommerce_os.Base.{
  ◌≡◌, ℕ, String, Option, none, some, true, false, List, [], ◌∷◌, string_eq, find, Result, ok, err,
  Result-cases, ◌⊎◌, inl, inr,
}
use eventcommerce_os.Cloud.Payments.{ProviderTruth, truth_unknown}
use eventcommerce_os.Cloud.Adjustments.Tables.{
  AdjustmentKind, refund, reversal, AdjustmentCall, adjustment_status_eq, AdjustmentRow,
  AdjustmentInput, AdjustmentProvider, AdjustmentDb, reserved, has_id, table,
}
use eventcommerce_os.Cloud.Adjustments.{Claim, claim, settle}
use eventcommerce_os.Cloud.Adjustments.Balance.{IsCovered, claim-IsCovered, settle-IsCovered}

-- What the requests that run at the same time do to the tables, step by step.
pub data AdjustmentAction : Type 0 where
  -- the first transaction of a request, at the time that its process reads
  claims : AdjustmentKind → AdjustmentInput → ℕ → AdjustmentAction
  -- the UPDATE with the answer of a provider for an adjustment
  settles : AdjustmentKind → String → ProviderTruth → AdjustmentAction
  -- the database's clock goes to a time
  waits : ℕ → AdjustmentAction

-- The specification of a provider's answer: what its method makes of the values of the row, or the
-- error that stands for a method that is missing or fails.
abbrev pub IsAnswer :
    Option (AdjustmentCall → Option ProviderTruth) → AdjustmentRow → ProviderTruth → Type 0
IsAnswer none row answer =
    (answer.status ≡ truth_unknown) × (answer.failure_code ≡ some "PROVIDER_ADJUSTMENT_ERROR")
IsAnswer (some call) row answer =
    let given : Option ProviderTruth = call (record {
      provider_reference = row.source_provider_reference;
      amount_minor = row.amount_minor;
      currency = row.currency;
      idempotency_key = row.idempotency_key;
    }) in
    (given ≡ some answer)
    ⊎ ((given ≡ none)
        × (answer.status ≡ truth_unknown)
        × (answer.failure_code ≡ some "PROVIDER_ADJUSTMENT_ERROR"))

-- the method that a request of a kind asks for
abbrev pub own_method :
    AdjustmentKind → AdjustmentProvider → Option (AdjustmentCall → Option ProviderTruth)
own_method refund its = its.refund
own_method reversal its = its.reverse

module _ (provider : String → Option AdjustmentProvider) where
  -- the tables after a transaction: as they were, where it failed
  abbrev pub committed : Result (Claim × AdjustmentDb) → AdjustmentDb → AdjustmentDb
  committed (ok r) db = r.1
  committed (err e) db = db

  unfoldable pub act : AdjustmentAction → AdjustmentDb → AdjustmentDb
  unfolding claim settle
  act (claims kind input clock) db = committed (claim provider kind input clock db) db
  act (settles kind id result) db = settle kind id result db
  act (waits time) db = record db { now = time }

  unfoldable pub run : List AdjustmentAction → AdjustmentDb → AdjustmentDb
  unfolding act
  run [] db = db
  run (action ∷ actions) db = run actions (act action db)

  act-IsCovered :
      (action : AdjustmentAction) (db : AdjustmentDb) → IsCovered db → IsCovered (act action db)
  unfolding act reserved
  act-IsCovered (claims kind input clock) db covered =
      elim (Result-cases (claim provider kind input clock db)) [
        | inl (r, e) ↦ rw e (claim-IsCovered provider kind input clock db e covered)
        | inr (x, e) ↦ rw e covered
      ]
  act-IsCovered (settles kind id result) db covered = settle-IsCovered kind id result db covered
  act-IsCovered (waits time) db covered = covered

  -- In whatever order the claims of refunds and reversals and the answers of the providers reach the
  -- database, and whichever of them fail or never come: where what is reserved for each payment's
  -- refunds and reversals that have not failed is within the payment's amount, it stays so.
  pub run-IsCovered :
      (actions : List AdjustmentAction) (db : AdjustmentDb)
      → IsCovered db
      → IsCovered (run actions db)
  unfolding run
  run-IsCovered [] db covered = covered
  run-IsCovered (action ∷ actions) db covered =
      run-IsCovered actions (act action db) (act-IsCovered action db covered)

  -- What a request that succeeds has done: its claim alone, or its claim and the provider's answer.
  abbrev pub IsRequest :
      AdjustmentKind → AdjustmentInput → ℕ → AdjustmentDb → AdjustmentRow → AdjustmentDb → Type 0
  IsRequest kind input clock db saved db' =
      ((claim provider kind input clock db ≡ ok ((false, saved), db'))
        × (db' ≡ run (claims kind input clock ∷ []) db))
      ⊎ ((row : AdjustmentRow) × (mid : AdjustmentDb) × (claim provider kind input clock db
            ≡ ok ((true, row), mid))
          × (its : AdjustmentProvider) × (provider row.provider_id ≡ some its)
          × (answer : ProviderTruth) × IsAnswer (own_method kind its) row answer
          × (db' ≡ run (claims kind input clock ∷ settles kind row.id answer ∷ []) db)
          × (find (has_id row.id) (table kind db') ≡ some saved))
