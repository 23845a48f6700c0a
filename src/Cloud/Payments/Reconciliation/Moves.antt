-- ===== src/Cloud/Payments/Reconciliation/Moves.antt =====
-- payments.service.ts: where the watchdog and the reconciliation can lead an attempt.
use mathlib.Core.Path.{subst}
use eventcommerce_os.Base.{
  ◌≡◌, refl, sym, ap, ◌∙◌, String, Option, none, some, Bool, true, false, ◌&&◌, not, List, [], ◌∷◌,
  ◌==◌, string_eq, ==_refl, find, arith, Bool-cases, Option-cases, inl, inr, ok, if◌then◌else◌,
}
use eventcommerce_os.Base.Searching.{find-update_where}
use eventcommerce_os.Domain.Payment.{
  PaymentAttemptState, created, unknown, payment_attempt_state_eq, can_transition_payment_attempt,
  PaymentAttemptState-discrete,
}
use eventcommerce_os.Cloud.Payments.{
  PayDb, AttemptRow, AttemptDbRow, ProviderTruth, truth_pending, truth_unknown, truth_succeeded,
  truth_failed, PaymentProvider, given, has_id, manual_review, upsert_reconciliation_job,
  load_attempt_by_id, apply_provider_truth,
}
use eventcommerce_os.Cloud.Payments.Moves.{
  MovesTo, stays, review-attempts, apply_provider_truth-MovesTo, load-row,
}
use eventcommerce_os.Cloud.Payments.Callbacks.Order.{MovesTo-trans}
use eventcommerce_os.Cloud.Payments.Reconciliation.{
  schedule_retry, promote, promote_all, stale_attempts, promote_stale_created_attempts, is_open,
  or_unknown, retry_after, settle_truth, query_known, reconcile_attempt,
}

ok_inj : {A : Type 0} {a b : A} → ok a ≡ ok b → a ≡ b
ok_inj h = cc

-- the UPDATE of the watchdog
abbrev crash : PayDb → AttemptDbRow → AttemptDbRow
crash db a = record a {
  status = unknown;
  failure_code = some "AMBIGUOUS_INITIATION_CRASH";
  updated_at = db.now;
}

crashed :
    (s : PaymentAttemptState)
    → (s == created) ≡ true
    → can_transition_payment_attempt s unknown ≡ true
unfolding can_transition_payment_attempt PaymentAttemptState-discrete
crashed created h = refl
crashed _ h = ground arith

stays_refl : (s : PaymentAttemptState) → can_transition_payment_attempt s s ≡ true
unfolding can_transition_payment_attempt
stays_refl s = ground (arith, ==_refl s)

promote-MovesTo :
    (row : AttemptDbRow) (other : String) (db : PayDb) → MovesTo other db (promote row db)
promote-MovesTo row other db old found =
    let p : AttemptDbRow → Bool = λ a. a.id == row.id && a.status == created in
    let stored : find (has_id other) (promote row db).attempts
        ≡ some (if p old then crash db old else old) =
      ap (find (has_id other)) (review-attempts row.id "AMBIGUOUS_INITIATION_CRASH" _)
      ∙ find-update_where p (has_id other) (crash db) db.attempts {x = old} (λ y. refl) found in
    elim (Bool-cases (p old)) [
      | inl hit ↦ (
        crash db old,
        stored ∙ ap (λ b. some (if b then crash db old else old)) hit,
        crashed old.status (ground arith),
        refl,
        refl,
      )
      | inr miss ↦ (
        old,
        stored ∙ ap (λ b. some (if b then crash db old else old)) miss,
        stays_refl old.status,
        refl,
        refl,
      )
    ]

promote_all-MovesTo :
    (rows : List AttemptDbRow) (other : String) (db : PayDb)
    → MovesTo other db (promote_all rows db)
promote_all-MovesTo [] other db = stays other db db refl
promote_all-MovesTo (row ∷ rows) other db =
    MovesTo-trans other db (promote row db) (promote_all rows (promote row db))
      (promote-MovesTo row other db) (promote_all-MovesTo rows other (promote row db))

schedule_retry-attempts :
    (id : String) (code : Option String) (db : PayDb)
    → (schedule_retry id code db).attempts ≡ db.attempts
unfolding schedule_retry upsert_reconciliation_job
schedule_retry-attempts id code db = ground arith

retry_after-MovesTo :
    (id other : String) (truth : ProviderTruth) (db : PayDb) (r : Bool × PayDb)
    → MovesTo other db r.1
    → MovesTo other db (retry_after id truth r)
retry_after-MovesTo id other truth db (false, d) m = m
retry_after-MovesTo id other truth db (true, d) m =
    let retried : MovesTo other db (schedule_retry id truth.failure_code d) =
      MovesTo-trans other db d (schedule_retry id truth.failure_code d) m (
        stays other d (schedule_retry id truth.failure_code d)
          (schedule_retry-attempts id truth.failure_code d)) in
    elim truth.status
      as (λ s. MovesTo other db (elim s as (λ _. PayDb) [
        | truth_pending ↦ schedule_retry id truth.failure_code d
        | truth_unknown ↦ schedule_retry id truth.failure_code d
        | truth_succeeded ↦ d
        | truth_failed ↦ d
      ])) [
        | truth_pending ↦ retried
        | truth_unknown ↦ retried
        | truth_succeeded ↦ m
        | truth_failed ↦ m
      ]

settle_truth-MovesTo :
    (id other : String) (truth : ProviderTruth) (db : PayDb)
    → MovesTo other db (settle_truth id truth (load_attempt_by_id id db) db)
settle_truth-MovesTo id other truth db = go (load_attempt_by_id id db) refl
  where
    go :
        (loaded : Option AttemptRow)
        → load_attempt_by_id id db ≡ loaded
        → MovesTo other db (settle_truth id truth loaded db)
    go none h = stays other db db refl
    go (some locked) h = elim (Bool-cases (not (is_open locked))) [
      | inl shut ↦
          subst
            (λ b.
              MovesTo other db
                (if b then db else retry_after id truth (apply_provider_truth locked truth db)))
            (sym shut) (stays other db db refl)
      | inr opened ↦
          let (row, found, same, e, k) = load-row id db h in
          let at = subst (λ i. load_attempt_by_id i db ≡ some locked) (sym k ∙ e) h in
          subst
            (λ b.
              MovesTo other db
                (if b then db else retry_after id truth (apply_provider_truth locked truth db)))
            (sym opened)
            (retry_after-MovesTo id other truth db (apply_provider_truth locked truth db)
              (apply_provider_truth-MovesTo locked truth db other at))
    ]

query_known-MovesTo :
    (provider : PaymentProvider) (current : AttemptRow) (reference : Option String)
    (id other : String) (db : PayDb)
    → current.id ≡ id
    → MovesTo other db (query_known provider current reference db)
query_known-MovesTo provider current none id other db same =
    stays other db (query_known provider current none db)
      (review-attempts current.id "MISSING_PROVIDER_REFERENCE" db)
query_known-MovesTo provider current (some reference) id other db same =
    elim (Bool-cases (not provider.query_status_supported)) [
      | inl e ↦
          subst
            (λ b. MovesTo other db (
              if b
              then upsert_reconciliation_job current.id manual_review
                  (some "PROVIDER_STATUS_QUERY_UNSUPPORTED") db
              else settle_truth current.id (or_unknown reference (provider.query_status reference))
                  (load_attempt_by_id current.id db) db))
            (sym e)
            (stays other db
              (upsert_reconciliation_job current.id manual_review
                (some "PROVIDER_STATUS_QUERY_UNSUPPORTED") db)
              (review-attempts current.id "PROVIDER_STATUS_QUERY_UNSUPPORTED" db))
      | inr e ↦
          subst
            (λ b. MovesTo other db (
              if b
              then upsert_reconciliation_job current.id manual_review
                  (some "PROVIDER_STATUS_QUERY_UNSUPPORTED") db
              else settle_truth current.id (or_unknown reference (provider.query_status reference))
                  (load_attempt_by_id current.id db) db))
            (sym e)
            (settle_truth-MovesTo current.id other
              (or_unknown reference (provider.query_status reference)) db)
    ]

-- A reconciliation after a run of the watchdog only moves attempts along allowed transitions (which
-- lead from a settled state to itself alone), whatever the provider answers, and whether its adapter
-- answers at all; every attempt keeps its payment and its idempotency key.
pub reconcile-MovesTo :
    (provider : PaymentProvider) (id other : String) (db : PayDb) {db' : PayDb}
    → reconcile_attempt provider id (promote_stale_created_attempts db) ≡ ok db'
    → MovesTo other db db'
unfolding reconcile_attempt promote_stale_created_attempts
reconcile-MovesTo provider id other db {db'} h =
    let d = promote_stale_created_attempts db in
    MovesTo-trans other db d db' (promote_all-MovesTo (stale_attempts db) other db)
      (elim (Option-cases (load_attempt_by_id id d)) [
        | inl e ↦ absurd (ground arith)
        | inr (current, e) ↦ elim (Bool-cases (not (is_open current))) [
          | inl shut ↦ subst (MovesTo other d) (ok_inj (rw (e, shut) at h)) (stays other d d refl)
          | inr opened ↦ subst (MovesTo other d) (ok_inj (rw (e, opened) at h)) (
              query_known-MovesTo provider current (given current.provider_reference) current.id
                other d refl)
        ]
      ])
