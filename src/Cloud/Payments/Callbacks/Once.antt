-- ===== src/Cloud/Payments/Callbacks/Once.antt =====
-- payments.service.ts: a callback is applied at most once, and in every order callbacks only move
-- attempts along allowed transitions.
use eventcommerce_os.Base.{
  ◌≡◌, refl, ap, ◌∙◌, ℕ, String, Option, none, some, Bool, true, false, ◌==◌, ◌!=◌, string_eq,
  nat_eq, ==_refl, any, arith, Bool-cases, inl, inr,
}
use eventcommerce_os.Base.Searching.{any-update_where}
use eventcommerce_os.Cloud.Payments.{
  PayDb, AttemptRow, ProviderTruth, ProviderTruthState, truth_pending, truth_succeeded,
  truth_failed, truth_unknown, ProviderEventRow, VerifiedProviderCallback, given,
  upsert_reconciliation_job, distrust, job_after_truth, apply_provider_truth, update_attempt,
  accept_truth,
}
use eventcommerce_os.Cloud.Payments.Moves.{
  distrusted, reviewed, accepted, apply_provider_truth-Outcome,
}
use eventcommerce_os.Cloud.Payments.Callbacks.{
  with_event, duplicate, is_event, attach_event, load_by_truth, ingest_for, ingest, status_of,
}

job_after-events :
    (id : String) (status : ProviderTruthState) (code : Option String) (db : PayDb)
    → (job_after_truth id status code db).events ≡ db.events
unfolding upsert_reconciliation_job
job_after-events id truth_pending code db = refl
job_after-events id truth_unknown code db = refl
job_after-events id truth_succeeded code db = refl
job_after-events id truth_failed code db = refl

apply-events :
    (current : AttemptRow) (truth : ProviderTruth) (db : PayDb)
    → (apply_provider_truth current truth db).1.events ≡ db.events
unfolding distrust upsert_reconciliation_job
apply-events current truth db = elim (apply_provider_truth-Outcome current truth db) [
  | distrusted code e ↦ ap (λ (r : Bool × PayDb). r.1.events) e ∙ ground arith
  | reviewed code e ↦ ap (λ (r : Bool × PayDb). r.1.events) e
  | accepted e₁ e₂ e₃ e₄ allowed e ↦
      ap (λ (r : Bool × PayDb). r.1.events) e
      ∙ job_after-events current.id truth.status truth.failure_code
          (update_attempt current.id (accept_truth truth db.now) db)
]

status_of-db : (r : Bool × PayDb) → (status_of r).1 ≡ r.1
status_of-db (true, db) = refl
status_of-db (false, db) = refl

ingest_for-event :
    (provider key : String) (event_id : ℕ) (truth : ProviderTruth) (attempt : Option AttemptRow)
    (db : PayDb)
    → any (is_event provider key) db.events ≡ true
    → any (is_event provider key) (ingest_for provider event_id truth attempt db).1.events ≡ true
unfolding ingest_for
ingest_for-event provider key event_id truth none db h = h
ingest_for-event provider key event_id truth (some attempt) db h =
    elim (Bool-cases (attempt.provider_id != provider)) [
      | inl e ↦ rw e h
      | inr e ↦
          let db' = attach_event attempt.id event_id db in
          rw
            (
              e,
              status_of-db (apply_provider_truth attempt truth db'),
              apply-events attempt truth db',
            )
            (any-update_where (λ (x : ProviderEventRow). x.id == event_id) (is_event provider key)
                (λ x. record x { payment_attempt_id = some attempt.id }) db.events (λ y. refl)
              ∙ h)
    ]

-- A callback is taken once: whatever became of it, a later callback of the same provider with the
-- same event key is answered DUPLICATE and changes nothing at all.
pub ingest-once :
    (provider : String) (callback again : VerifiedProviderCallback) (db : PayDb)
    → again.provider_event_key ≡ callback.provider_event_key
    → ingest provider again (ingest provider callback db).1
      ≡ (duplicate, (ingest provider callback db).1)
unfolding ingest
ingest-once provider callback again db key =
    elim (Bool-cases (any (is_event provider callback.provider_event_key) db.events)) [
      | inl e ↦ rw (e, key, e) refl
      | inr e ↦
          let db' = with_event provider callback db in
          let there =
            ingest_for-event provider callback.provider_event_key db.next_event_id callback.truth
              (load_by_truth provider (given callback.truth.payment_attempt_id)
                (given callback.truth.provider_reference) db')
              db' (ground (arith, ==_refl provider, ==_refl callback.provider_event_key)) in
          rw (e, key, there) refl
    ]
