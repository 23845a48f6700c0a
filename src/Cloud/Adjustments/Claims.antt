-- ===== src/Cloud/Adjustments/Claims.antt =====
-- payment-adjustments.service.ts, `requestAdjustment`: what a claim has done when it succeeds.
use eventcommerce_os.Base.{
  ◌≡◌, sym, ap, ◌∙◌, ℕ, ◌+◌, String, Option, none, some, true, false, not, [], ◌∷◌, ◌==◌, ◌!=◌,
  ◌&&◌, string_eq, nat_eq, any, find, ltb, leb, ◌≤◌, ok, ok-inj, bind-eq_ok, throw_if-eq_ok,
  throw_if, error, template, arith, Bool-cases, Option-cases, inl, inr,
}
use eventcommerce_os.Cloud.Payments.{PaymentRow}
use eventcommerce_os.Cloud.Adjustments.Tables.{
  AdjustmentKind, adjustment_requested, adjustment_status_eq, AdjustmentRow, AdjustmentInput,
  AdjustmentProvider, AdjustmentDb, table, set_table, has_id, has_key, is_payment, update_requested,
  rail, reserved, supports, plural,
}
use eventcommerce_os.Cloud.Adjustments.{
  abandoned, Claim, replay, assert_same_request, or_error, new_row, insert_requested, claim_new,
  claim_or_replay, claim,
}

-- A claim that succeeds has claim_inserted the request's row, or has claim_found a row with its key and at most
-- told that its provider was never heard of.
pub data Claimed (kind : AdjustmentKind) (input : AdjustmentInput) (db : AdjustmentDb)
    (claimed : Claim) (db' : AdjustmentDb) : Type 0 where
  claim_inserted :
      (payment : PaymentRow) (chosen : String × String)
      → find (is_payment input.payment_id) db.payments ≡ some payment
      → reserved input.payment_id db + input.amount_minor ≤ payment.amount_minor
      → find (has_key input.idempotency_key) (table kind db) ≡ none
      → any (has_id input.id) (table kind db) ≡ false
      → claimed ≡ (true, new_row kind input chosen db.now)
      → db' ≡ set_table kind (new_row kind input chosen db.now ∷ table kind db) db
      → Claimed kind input db claimed db'
  claim_found :
      (existing : AdjustmentRow)
      → find (has_key input.idempotency_key) (table kind db) ≡ some existing
      → claimed.0 ≡ false
      → db' ≡ db
      → Claimed kind input db claimed db'
  claim_abandoned :
      (existing : AdjustmentRow)
      → find (has_key input.idempotency_key) (table kind db) ≡ some existing
      → claimed.0 ≡ false
      → db' ≡ update_requested kind existing.id (abandoned db.now) db
      → Claimed kind input db claimed db'

insert_requested-eq_ok :
    (kind : AdjustmentKind) (input : AdjustmentInput) (chosen : String × String) (db : AdjustmentDb)
    {r : AdjustmentRow × AdjustmentDb}
    → insert_requested kind input chosen db ≡ ok r
    → (any (has_id input.id) (table kind db) ≡ false)
      × (r.0 ≡ new_row kind input chosen db.now)
      × (r.1 ≡ set_table kind (new_row kind input chosen db.now ∷ table kind db) db)
unfolding insert_requested
insert_requested-eq_ok kind input chosen db h =
    elim (Bool-cases (any (has_id input.id) (table kind db))) [
      | inl taken ↦ absurd (ground arith)
      | inr free ↦ (free, ground arith, ground arith)
    ]

replay-Claimed :
    (kind : AdjustmentKind) (input : AdjustmentInput) (existing : AdjustmentRow) (clock : ℕ)
    (db : AdjustmentDb) {claimed : Claim} {db' : AdjustmentDb}
    → find (has_key input.idempotency_key) (table kind db) ≡ some existing
    → replay kind input existing clock db ≡ ok (claimed, db')
    → Claimed kind input db claimed db'
unfolding replay
replay-Claimed kind input existing clock db there h =
    let (_, _, h₁) = bind-eq_ok (assert_same_request existing input) _ h in
    elim (Bool-cases
      (existing.status == adjustment_requested && leb (existing.updated_at + 60000) clock)) [
        | inr recent ↦
            let e = ok-inj (rw recent at h₁) in
            claim_found existing there (sym (ap (λ (q : Claim × AdjustmentDb). q.0.0) e))
              (sym (ap (λ (q : Claim × AdjustmentDb). q.1) e))
        | inl stale ↦
            let (_, _, h₂) =
              bind-eq_ok
                (or_error
                  (find (has_id existing.id)
                    (table kind (update_requested kind existing.id (abandoned db.now) db)))
                  "Payment adjustment disappeared")
                _ (rw stale at h₁) in
            let e = ok-inj h₂ in
            claim_abandoned existing there (sym (ap (λ (q : Claim × AdjustmentDb). q.0.0) e))
              (sym (ap (λ (q : Claim × AdjustmentDb). q.1) e))
      ]

claim_new-Claimed :
    (provider : String → Option AdjustmentProvider) (kind : AdjustmentKind)
    (input : AdjustmentInput) (payment : PaymentRow) (db : AdjustmentDb) {claimed : Claim}
    {db' : AdjustmentDb}
    → find (is_payment input.payment_id) db.payments ≡ some payment
    → find (has_key input.idempotency_key) (table kind db) ≡ none
    → claim_new provider kind input payment db ≡ ok (claimed, db')
    → Claimed kind input db claimed db'
unfolding claim_new
claim_new-Claimed provider kind input payment db {claimed} {db'} known new h =
    let (_, _, h₁) =
      bind-eq_ok
        (throw_if (payment.currency != input.currency)
          (error "Adjustment currency must match the original payment"))
        _ h in
    let (_, _, h₂) =
      bind-eq_ok
        (throw_if (ltb payment.amount_minor input.amount_minor)
          (error "Adjustment amount cannot exceed the original payment"))
        _ h₁ in
    let (chosen, _, h₃) =
      bind-eq_ok
        (or_error (rail input.payment_id db)
          "Payment has no successful provider transaction to adjust")
        _ h₂ in
    let (its_provider, _, h₄) =
      bind-eq_ok
        (or_error (provider chosen.0) (template ("Unsupported payment provider: " ∷ chosen.0 ∷ [])))
        _ h₃ in
    let (_, _, h₅) =
      bind-eq_ok
        (throw_if (not (supports kind its_provider)) (
          error
            (template ("Provider " ∷ its_provider.id ∷ " does not support " ∷ plural kind ∷ []))))
        _ h₄ in
    let (_, fits, h₆) =
      bind-eq_ok
        (throw_if (ltb payment.amount_minor (reserved input.payment_id db + input.amount_minor))
          (error "Adjustment would exceed the unadjusted payment balance"))
        _ h₅ in
    let (_, e, h₇) = bind-eq_ok (insert_requested kind input chosen db) _ h₆ in
    let within = throw_if-eq_ok _ _ fits in
    let (free, row, tables) = insert_requested-eq_ok kind input chosen db e in
    let e' = ok-inj h₇ in
    claim_inserted payment chosen known (ground (arith, within)) new free
      (sym (ap (λ (q : Claim × AdjustmentDb). q.0) e') ∙ ap (λ r. (true, r)) row)
      (sym (ap (λ (q : Claim × AdjustmentDb). q.1) e') ∙ tables)

pub claim-Claimed :
    (provider : String → Option AdjustmentProvider) (kind : AdjustmentKind)
    (input : AdjustmentInput) (clock : ℕ) (db : AdjustmentDb) {claimed : Claim} {db' : AdjustmentDb}
    → claim provider kind input clock db ≡ ok (claimed, db')
    → Claimed kind input db claimed db'
unfolding claim claim_or_replay
claim-Claimed provider kind input clock db {claimed} {db'} h =
    elim (Option-cases (find (is_payment input.payment_id) db.payments)) [
      | inl missing ↦ absurd (ground arith)
      | inr (payment, known) ↦
          elim (Option-cases (find (has_key input.idempotency_key) (table kind db))) [
            | inl new ↦
                claim_new-Claimed provider kind input payment db known new (rw (known, new) at h)
            | inr (existing, old) ↦
                replay-Claimed kind input existing clock db old (rw (known, old) at h)
          ]
    ]
