-- ===== src/Cloud/Payments/Moves.antt =====
-- payments.service.ts, `applyProviderTruth`: how it ends, and how attempts move.
use mathlib.Core.Path.{subst}
use eventcommerce_os.Base.{
  ◌≡◌, refl, sym, ap, ◌∙◌, String, Option, some, Bool, true, false, ◌&&◌, ◌||◌, ◌==◌, ◌!=◌,
  string_eq, nat_eq, option_eq, ==_iff, ==_refl, find, arith, Bool-cases, Option-cases, inl, inr,
  if◌then◌else◌, update_where,
}
use eventcommerce_os.Base.Searching.{find-holds, find-update_where, find-update_where_other}
use eventcommerce_os.Domain.Payment.{
  PaymentAttemptState, created, initiated, pending, succeeded, failed, unknown,
  payment_attempt_state_eq, payment_attempt_is_terminal, can_transition_payment_attempt,
  PaymentAttemptState-discrete,
}
use eventcommerce_os.Cloud.Payments.{
  PayDb, PaymentRow, manual_review, job_after_truth, AttemptRow, AttemptDbRow, ProviderTruth,
  ProviderTruthState, truth_succeeded, truth_pending, truth_failed, truth_unknown, state_of_truth,
  has_id, join, load_attempt_by_id, update_attempt, distrust, upsert_reconciliation_job, differs,
  references_differ, accept_truth, apply_provider_truth,
}

-- The attempt of an id has moved along an allowed transition, or stayed.
abbrev pub MovesTo : String → PayDb → PayDb → Type 0
MovesTo id db db' =
    (old : AttemptDbRow)
    → find (has_id id) db.attempts ≡ some old
    → (new : AttemptDbRow) × (find (has_id id) db'.attempts ≡ some new)
      × (can_transition_payment_attempt old.status new.status ≡ true)
      × (old.payment_id ≡ new.payment_id)
      × (old.idempotency_key ≡ new.idempotency_key)

pub some_inj : {A : Type 0} {a b : A} → some a ≡ some b → a ≡ b
some_inj h = cc

pub stays : (id : String) (db db' : PayDb) → db'.attempts ≡ db.attempts → MovesTo id db db'
unfolding can_transition_payment_attempt
stays id db db' same old found =
    (old, ap (find (has_id id)) same ∙ found, ground (arith, ==_refl old.status), refl, refl)

-- A change of one attempt moves every attempt along an allowed transition if it does so to that one.
update-MovesTo :
    (id other : String) (change : AttemptDbRow → AttemptDbRow) (db db' : PayDb) (row : AttemptDbRow)
    → ((r : AttemptDbRow)
        → ((change r).id ≡ r.id)
          × ((change r).payment_id ≡ r.payment_id)
          × ((change r).idempotency_key ≡ r.idempotency_key))
    → find (has_id id) db.attempts ≡ some row
    → can_transition_payment_attempt row.status (change row).status ≡ true
    → db'.attempts ≡ update_where (has_id id) change db.attempts
    → MovesTo other db db'
unfolding can_transition_payment_attempt
update-MovesTo id other change db db' row keep found allowed e old found' =
    elim (Bool-cases (other == id)) [
      | inl same ↦
          let at : other ≡ id = ground (arith, ==_iff other id) in
          let it : old ≡ row =
            some_inj (sym found' ∙ ap (λ i. find (has_id i) db.attempts) at ∙ found) in
          let stored =
            find-update_where (has_id id) (has_id other) change db.attempts {x = old}
              (λ y. ap (λ i. i == other) (keep y).0) found'
            ∙ ap (λ b. some (if b then change old else old))
                (subst (λ i. has_id i old ≡ true) at
                  (find-holds (has_id other) db.attempts found')) in
          (
            change old,
            ap (find (has_id other)) e ∙ stored,
            subst (λ r. can_transition_payment_attempt r.status (change r).status ≡ true) (sym it)
                allowed,
            sym (keep old).1,
            sym (keep old).2,
          )
      | inr apart ↦
          let kept =
            find-update_where_other (has_id id) (has_id other) change db.attempts
              (λ y. ap (λ i. i == other) (keep y).0)
              (λ y h.
                ground
                  (arith, ==_iff y.id id, ==_iff id other, ==_iff other id, ==_iff y.id other)) in
          (
            old,
            ap (find (has_id other)) e ∙ kept ∙ found',
            ground (arith, ==_refl old.status),
            refl,
            refl,
          )
    ]

-- The ways in which `applyProviderTruth` ends.
pub data Outcome (current : AttemptRow) (truth : ProviderTruth) (db : PayDb) (r : Bool × PayDb)
    : Type 0 where
  distrusted : (code : String) → r ≡ (false, distrust current code db) → Outcome current truth db r
  reviewed :
      (code : String)
      → r ≡ (false, upsert_reconciliation_job current.id manual_review (some code) db)
      → Outcome current truth db r
  accepted :
      differs truth.payment_attempt_id current.id ≡ false
      → references_differ current.provider_reference truth.provider_reference ≡ false
      → differs truth.amount_minor current.amount_minor ≡ false
      → differs truth.currency current.currency ≡ false
      → can_transition_payment_attempt current.status (state_of_truth truth.status) ≡ true
      → r ≡ (
        true,
        job_after_truth current.id truth.status truth.failure_code
            (update_attempt current.id (accept_truth truth db.now) db),
      )
      → Outcome current truth db r

pub apply_provider_truth-Outcome :
    (current : AttemptRow) (truth : ProviderTruth) (db : PayDb)
    → Outcome current truth db (apply_provider_truth current truth db)
unfolding apply_provider_truth
apply_provider_truth-Outcome current truth db =
    elim (Bool-cases (differs truth.payment_attempt_id current.id)) [
      | inl e ↦ distrusted "PROVIDER_MERCHANT_REFERENCE_MISMATCH" (rw e refl)
      | inr e₁ ↦
          elim (Bool-cases
            (references_differ current.provider_reference truth.provider_reference)) [
              | inl e ↦ distrusted "PROVIDER_REFERENCE_MISMATCH" (rw (e₁, e) refl)
              | inr e₂ ↦
                  elim (Bool-cases (
                    differs truth.amount_minor current.amount_minor
                    || differs truth.currency current.currency)) [
                      | inl e ↦ distrusted "PROVIDER_AMOUNT_MISMATCH" (rw (e₁, e₂, e) refl)
                      | inr e₃ ↦ rest e₁ e₂ e₃
                    ]
            ]
    ]
  where
    rest :
        differs truth.payment_attempt_id current.id ≡ false
        → references_differ current.provider_reference truth.provider_reference ≡ false
        → (differs truth.amount_minor current.amount_minor
            || differs truth.currency current.currency)
          ≡ false
        → Outcome current truth db (apply_provider_truth current truth db)
    rest e₁ e₂ e₃ =
        elim (Bool-cases (
          payment_attempt_is_terminal current.status
          && current.status != state_of_truth truth.status)) [
            | inl e ↦ reviewed "CONFLICTING_PROVIDER_TRUTH" (rw (e₁, e₂, e₃, e) refl)
            | inr e₄ ↦
                elim (Bool-cases
                  (can_transition_payment_attempt current.status (state_of_truth truth.status))) [
                    | inl e ↦
                        accepted e₁ e₂ (ground arith) (ground arith) e (rw (e₁, e₂, e₃, e₄, e) refl)
                    | inr e ↦ reviewed "INVALID_PROVIDER_TRANSITION" (rw (e₁, e₂, e₃, e₄, e) refl)
                  ]
          ]

pub job_after-attempts :
    (id : String) (status : ProviderTruthState) (code : Option String) (db : PayDb)
    → (job_after_truth id status code db).attempts ≡ db.attempts
unfolding upsert_reconciliation_job
job_after-attempts id truth_pending code db = refl
job_after-attempts id truth_unknown code db = refl
job_after-attempts id truth_succeeded code db = refl
job_after-attempts id truth_failed code db = refl

pub review-attempts :
    (id code : String) (db : PayDb)
    → (upsert_reconciliation_job id manual_review (some code) db).attempts ≡ db.attempts
unfolding upsert_reconciliation_job
review-attempts id code db = refl

-- A loaded attempt has its row's state.
pub load-row :
    (id : String) (db : PayDb) {current : AttemptRow}
    → load_attempt_by_id id db ≡ some current
    → (row : AttemptDbRow) × (find (has_id id) db.attempts ≡ some row)
      × (row.status ≡ current.status)
      × (row.id ≡ current.id)
      × (row.id ≡ id)
unfolding load_attempt_by_id join
load-row id db {current} h = elim (Option-cases (find (has_id id) db.attempts)) [
  | inl e ↦ absurd (ground arith)
  | inr (row, e) ↦
      let same : row.id ≡ id =
        ground (arith, ==_iff row.id id, find-holds (has_id id) db.attempts {x = row}) in
      elim (Option-cases (find (λ (p : PaymentRow). p.id == row.payment_id) db.payments)) [
        | inl n ↦ absurd (ground arith)
        | inr (p, k) ↦ (row, e, ground arith, ground arith, same)
      ]
]

open_to_unknown :
    (s : PaymentAttemptState)
    → payment_attempt_is_terminal s ≡ false
    → can_transition_payment_attempt s unknown ≡ true
unfolding payment_attempt_is_terminal can_transition_payment_attempt PaymentAttemptState-discrete
open_to_unknown created h = refl
open_to_unknown initiated h = refl
open_to_unknown pending h = refl
open_to_unknown unknown h = refl
open_to_unknown succeeded h = ground arith
open_to_unknown failed h = ground arith

distrust-MovesTo :
    (current : AttemptRow) (code : String) (db : PayDb) (row : AttemptDbRow) (other : String)
    → find (has_id current.id) db.attempts ≡ some row
    → row.status ≡ current.status
    → MovesTo other db (distrust current code db)
unfolding distrust upsert_reconciliation_job
distrust-MovesTo current code db row other found same =
    elim (Bool-cases (payment_attempt_is_terminal current.status)) [
      | inl e ↦ stays other db (distrust current code db) (rw e refl)
      | inr e ↦
          update-MovesTo current.id other
            (λ r. record r { status = unknown; failure_code = some code; updated_at = db.now }) db
            (distrust current code db) row (λ r. (refl, refl, refl)) found
            (open_to_unknown row.status (ap payment_attempt_is_terminal same ∙ e)) (rw e refl)
    ]

-- Whatever a provider says of an attempt that was loaded, every attempt of the database is afterwards
-- where an allowed transition leads from where it was (from a settled state to itself alone), and
-- keeps its payment and its idempotency key.
pub apply_provider_truth-MovesTo :
    (current : AttemptRow) (truth : ProviderTruth) (db : PayDb) (other : String)
    → load_attempt_by_id current.id db ≡ some current
    → MovesTo other db (apply_provider_truth current truth db).1
apply_provider_truth-MovesTo current truth db other loaded =
    let (row, found, same, _, _) = load-row current.id db loaded in
    elim (apply_provider_truth-Outcome current truth db) [
      | distrusted code e ↦
          subst (λ (r : Bool × PayDb). MovesTo other db r.1) (sym e)
            (distrust-MovesTo current code db row other found same)
      | reviewed code e ↦
          subst (λ (r : Bool × PayDb). MovesTo other db r.1) (sym e)
            (stays other db (upsert_reconciliation_job current.id manual_review (some code) db)
              (review-attempts current.id code db))
      | accepted e₁ e₂ e₃ e₄ allowed e ↦
          subst (λ (r : Bool × PayDb). MovesTo other db r.1) (sym e)
            (update-MovesTo current.id other (accept_truth truth db.now) db
              (job_after_truth current.id truth.status truth.failure_code
                (update_attempt current.id (accept_truth truth db.now) db))
              row (λ r. (refl, refl, refl)) found
              (ap (λ s. can_transition_payment_attempt s (state_of_truth truth.status)) same
                ∙ allowed)
              (job_after-attempts current.id truth.status truth.failure_code
                (update_attempt current.id (accept_truth truth db.now) db)))
    ]
