-- ===== src/Cloud/Payments/Reconciliation/Bounds.antt =====
-- payments.service.ts: how long an attempt is retried, and where reconciliation can lead.
use mathlib.Core.Path.{subst}
use eventcommerce_os.Base.{
  ◌≡◌, ◌≤◌, ◌+◌, ◌*◌, ℕ, zero, suc, refl, sym, ap, ◌∙◌, String, Option, none, some, Bool, true,
  false, List, [], ◌∷◌, ◌==◌, string_eq, ==_refl, leb, any, find, arith, Bool-cases, Option-cases,
  inl, inr, ◌⊎◌, if◌then◌else◌,
}
use eventcommerce_os.Base.Searching.{find-holds, find-update_where}
use eventcommerce_os.Cloud.Payments.{
  new_job, set_job, PayDb, ReconciliationJobRow, JobStatus, job_pending, manual_review, upsert_job,
  upsert_reconciliation_job,
}
use eventcommerce_os.Cloud.Payments.Reconciliation.{
  is_job_of, count_of, delay_seconds, next_retry, schedule_retry,
}

find-none-any :
    (p : ReconciliationJobRow → Bool) (rows : List ReconciliationJobRow)
    → find p rows ≡ none
    → any p rows ≡ false
find-none-any p [] h = refl
find-none-any p (x ∷ rows) h = ground (arith, find-none-any p rows)

find-some-any :
    (p : ReconciliationJobRow → Bool) (rows : List ReconciliationJobRow) {x : ReconciliationJobRow}
    → find p rows ≡ some x
    → any p rows ≡ true
find-some-any p [] h = cc
find-some-any p (y ∷ rows) {x} h = ground (arith, find-some-any p rows {x = x})

-- the job of an attempt after it was written
abbrev written :
    Option ReconciliationJobRow
    → ReconciliationJobRow
    → (ReconciliationJobRow → ReconciliationJobRow)
    → ReconciliationJobRow
written none new change = new
written (some job) new change = change job

upsert_job-find :
    (new : ReconciliationJobRow) (change : ReconciliationJobRow → ReconciliationJobRow) (db : PayDb)
    → ((j : ReconciliationJobRow) → (change j).payment_attempt_id ≡ j.payment_attempt_id)
    → find (is_job_of new.payment_attempt_id) (upsert_job new change db).jobs
      ≡ some (written (find (is_job_of new.payment_attempt_id) db.jobs) new change)
upsert_job-find new change db keep =
    elim (Option-cases (find (is_job_of new.payment_attempt_id) db.jobs)) [
      | inl e ↦
          let absent = find-none-any (is_job_of new.payment_attempt_id) db.jobs e in
          rw (e, absent, ==_refl new.payment_attempt_id) refl
      | inr (job, e) ↦
          let there = find-some-any (is_job_of new.payment_attempt_id) db.jobs e in
          let stored =
            find-update_where (is_job_of new.payment_attempt_id) (is_job_of new.payment_attempt_id)
              change db.jobs {x = job} (λ y. ap (λ i. i == new.payment_attempt_id) (keep y)) e
            ∙ ap (λ b. some (if b then change job else job))
                (find-holds (is_job_of new.payment_attempt_id) db.jobs e) in
          rw (e, there) stored
    ]

set-job :
    (id : String) (status : JobStatus) (code : Option String) (db : PayDb)
    (old : Option ReconciliationJobRow)
    → ((written old (new_job id status code db) (set_job status code)).status ≡ status)
      × ((written old (new_job id status code db) (set_job status code)).attempt_count
          ≡ count_of old)
set-job id status code db none = (refl, refl)
set-job id status code db (some job) = (refl, refl)

-- A job as `scheduleRetry` leaves it, from the count that was there.
abbrev pub Reviewed : ReconciliationJobRow → ℕ → Type 0
Reviewed job count = (job.status ≡ manual_review) × (job.attempt_count ≡ count) × (5 ≤ count)

abbrev pub Retried : ReconciliationJobRow → ℕ → ℕ → Type 0
Retried job count now =
    (job.status ≡ job_pending)
    × (job.attempt_count ≡ count + 1)
    × (job.attempt_count ≤ 5)
    × (job.next_attempt_at ≡ now + 1000 * delay_seconds (count + 1))

Retried-job :
    (id : String) (code : Option String) (db : PayDb) (count : ℕ)
    (old : Option ReconciliationJobRow)
    → leb 6 (count + 1) ≡ false
    → Retried
        (written old
          (next_retry (count + 1) code db (new_job id job_pending code db))
          (next_retry (count + 1) code db))
        count
        db.now
Retried-job id code db count none under = (refl, refl, ground arith, refl)
Retried-job id code db count (some job) under = (refl, refl, ground arith, refl)

-- A retry is the next one, at most the fifth, after the delay of its number; or the attempt has had
-- five and waits for a review, its count unchanged.
pub schedule_retry-bounds :
    (id : String) (code : Option String) (db : PayDb)
    → (job : ReconciliationJobRow) × (find (is_job_of id) (schedule_retry id code db).jobs
        ≡ some job)
      × (Reviewed job (count_of (find (is_job_of id) db.jobs))
          ⊎ Retried job (count_of (find (is_job_of id) db.jobs)) db.now)
unfolding schedule_retry upsert_reconciliation_job
schedule_retry-bounds id code db =
    let old = find (is_job_of id) db.jobs in
    let count = count_of old in
    elim (Bool-cases (leb 6 (count + 1))) [
      | inl over ↦
          let (status, same) = set-job id manual_review code db old in
          (
            written old (new_job id manual_review code db) (set_job manual_review code),
            rw over (
                upsert_job-find (new_job id manual_review code db) (set_job manual_review code) db
                  (λ j. refl)),
            inl (status, same, ground arith),
          )
      | inr under ↦ (
        written old (next_retry (count + 1) code db (new_job id job_pending code db))
            (next_retry (count + 1) code db),
        rw under (
            upsert_job-find (next_retry (count + 1) code db (new_job id job_pending code db))
              (next_retry (count + 1) code db) db (λ j. refl)),
        inr (Retried-job id code db count old under),
      )
    ]

-- `scheduleRetry` so many times
unfoldable pub retry_times : ℕ → String → Option String → PayDb → PayDb
retry_times zero id code db = db
retry_times (suc n) id code db = retry_times n id code (schedule_retry id code db)

-- Retries end: when the retries that an attempt has had and those that follow are six or more, the
-- last of them leaves the attempt waiting for a review.
pub retry_times-end :
    (n : ℕ) (id : String) (code : Option String) (db : PayDb)
    → 6 ≤ count_of (find (is_job_of id) db.jobs) + suc n
    → (job : ReconciliationJobRow) × (find (is_job_of id) (retry_times (suc n) id code db).jobs
        ≡ some job)
      × (job.status ≡ manual_review)
unfolding retry_times
retry_times-end zero id code db h =
    let (job, found, outcome) = schedule_retry-bounds id code db in
    elim outcome [
      | inl (status, _, _) ↦ (job, found, status)
      | inr (_, count, most, _) ↦ absurd (ground arith)
    ]
retry_times-end (suc n) id code db h =
    let (job, found, outcome) = schedule_retry-bounds id code db in
    retry_times-end n id code (schedule_retry id code db) (
      subst (λ o. 6 ≤ count_of o + suc n) (sym found)
        (elim outcome [
          | inl (status, count, least) ↦ ground arith
          | inr (_, count, most, _) ↦ ground arith
        ]))
