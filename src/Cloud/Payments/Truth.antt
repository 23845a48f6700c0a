-- ===== src/Cloud/Payments/Truth.antt =====
-- payments.service.ts, `applyProviderTruth`: what it takes for an attempt to succeed.
use eventcommerce_os.Base.{
  ◌≡◌, ◌≢◌, refl, sym, ap, ◌∙◌, String, some, Bool, false, List, ◌==◌, string_eq, nat_eq, option_eq,
  find, arith, Bool-cases, inl, inr, if◌then◌else◌, update_where,
}
use eventcommerce_os.Base.Searching.{find-holds, find-update_where}
use eventcommerce_os.Domain.Payment.{
  succeeded, unknown, payment_attempt_state_eq, payment_attempt_is_terminal,
}
use eventcommerce_os.Cloud.Payments.{
  PayDb, job_after_truth, AttemptRow, AttemptDbRow, ProviderTruth, ProviderTruthState,
  truth_succeeded, truth_pending, truth_failed, truth_unknown, state_of_truth, has_id,
  load_attempt_by_id, update_attempt, distrust, upsert_reconciliation_job, differs,
  references_differ, accept_truth, apply_provider_truth,
}
use eventcommerce_os.Cloud.Payments.Moves.{
  distrusted, reviewed, accepted, some_inj, apply_provider_truth-Outcome, job_after-attempts,
  review-attempts, load-row,
}

truth_won : (s : ProviderTruthState) → state_of_truth s ≡ succeeded → s ≡ truth_succeeded
truth_won truth_succeeded h = refl
truth_won truth_pending h = ground arith
truth_won truth_failed h = ground arith
truth_won truth_unknown h = ground arith

-- the row of an attempt after its own update
updated-row :
    (id : String) (change : AttemptDbRow → AttemptDbRow) (rows : List AttemptDbRow)
    (row : AttemptDbRow)
    → ((r : AttemptDbRow) → (change r).id ≡ r.id)
    → find (has_id id) rows ≡ some row
    → find (has_id id) (update_where (has_id id) change rows) ≡ some (change row)
updated-row id change rows row keep found =
    find-update_where (has_id id) (has_id id) change rows {x = row}
      (λ y. ap (λ i. i == id) (keep y)) found
    ∙ ap (λ b. some (if b then change row else row)) (find-holds (has_id id) rows found)

accepted-row :
    (current : AttemptRow) (truth : ProviderTruth) (db : PayDb) (row : AttemptDbRow)
    → find (has_id current.id) db.attempts ≡ some row
    → find
        (has_id current.id)
        (job_after_truth current.id truth.status truth.failure_code
          (update_attempt current.id (accept_truth truth db.now) db)).attempts
      ≡ some (accept_truth truth db.now row)
accepted-row current truth db row found =
    ap (find (has_id current.id)) (
      job_after-attempts current.id truth.status truth.failure_code
        (update_attempt current.id (accept_truth truth db.now) db))
    ∙ updated-row current.id (accept_truth truth db.now) db.attempts row (λ r. refl) found

distrust-not_succeeded :
    (current : AttemptRow) (code : String) (db : PayDb) (row new : AttemptDbRow)
    → find (has_id current.id) db.attempts ≡ some row
    → row.status ≡ current.status
    → current.status ≢ succeeded
    → find (has_id current.id) (distrust current code db).attempts ≡ some new
    → new.status ≢ succeeded
unfolding distrust upsert_reconciliation_job
distrust-not_succeeded current code db row new found same open_before stored won =
    elim (Bool-cases (payment_attempt_is_terminal current.status)) [
      | inl e ↦
          let it : row ≡ new = some_inj (sym found ∙ (rw e at stored)) in
          open_before (sym same ∙ ap (λ (r : AttemptDbRow). r.status) it ∙ won)
      | inr e ↦
          let after =
            updated-row current.id
              (λ r. record r { status = unknown; failure_code = some code; updated_at = db.now })
              db.attempts row (λ r. refl) found in
          let it = some_inj (sym after ∙ (rw e at stored)) in
          ground (arith, ap (λ (r : AttemptDbRow). r.status) it)
    ]

-- An attempt only becomes SUCCEEDED by a truth that says so and that agrees with it: the amount and
-- the currency are those of the payment, and the attempt's id and the provider's reference are the
-- known ones, wherever the truth names them.
pub apply_provider_truth-succeeded :
    (current : AttemptRow) (truth : ProviderTruth) (db : PayDb) (new : AttemptDbRow)
    → load_attempt_by_id current.id db ≡ some current
    → current.status ≢ succeeded
    → find (has_id current.id) (apply_provider_truth current truth db).1.attempts ≡ some new
    → new.status ≡ succeeded
    → (truth.status ≡ truth_succeeded)
      × (differs truth.payment_attempt_id current.id ≡ false)
      × (references_differ current.provider_reference truth.provider_reference ≡ false)
      × (differs truth.amount_minor current.amount_minor ≡ false)
      × (differs truth.currency current.currency ≡ false)
apply_provider_truth-succeeded current truth db new loaded open_before stored won =
    let (row, found, same, _, _) = load-row current.id db loaded in
    elim (apply_provider_truth-Outcome current truth db) [
      | distrusted code e ↦ absurd (
          distrust-not_succeeded current code db row new found same open_before
            (ap (λ (r : Bool × PayDb). find (has_id current.id) r.1.attempts) (sym e) ∙ stored) won)
      | reviewed code e ↦
          let kept = review-attempts current.id code db in
          let it : row ≡ new = some_inj (
            sym found
            ∙ ap (find (has_id current.id)) (sym kept)
            ∙ ap (λ (r : Bool × PayDb). find (has_id current.id) r.1.attempts) (sym e)
            ∙ stored) in
          absurd (open_before (sym same ∙ ap (λ (r : AttemptDbRow). r.status) it ∙ won))
      | accepted e₁ e₂ e₃ e₄ allowed e ↦
          let after = accepted-row current truth db row found in
          let it : accept_truth truth db.now row ≡ new = some_inj (
            sym after
            ∙ ap (λ (r : Bool × PayDb). find (has_id current.id) r.1.attempts) (sym e)
            ∙ stored) in
          (truth_won truth.status (ap (λ (r : AttemptDbRow). r.status) it ∙ won), e₁, e₂, e₃, e₄)
    ]
