-- ===== src/Cloud/Adjustments/Balance.antt =====
-- payment-adjustments.service.ts: what is refunded and reversed stays within the payment.
use mathlib.Core.Path.{subst}
use eventcommerce_os.Base.{
  ◌≡◌, refl, sym, ℕ, ◌+◌, ◌≤◌, String, Option, some, true, ◌&&◌, List, [], ◌∷◌, ◌==◌, ◌!=◌,
  string_eq, nat_eq, ==_iff, find, update_where, if◌then◌else◌, ok, arith, Bool-cases, inl, inr,
}
use eventcommerce_os.Cloud.Payments.{PaymentRow, ProviderTruth}
use eventcommerce_os.Cloud.Adjustments.Tables.{
  AdjustmentKind, refund, reversal, adjustment_requested, adjustment_failed, adjustment_status_eq,
  AdjustmentStatus-discrete, AdjustmentRow, AdjustmentInput, AdjustmentProvider, AdjustmentDb,
  table, set_table, is_payment, is_requested, update_requested, reserved_in, reserved,
}
use eventcommerce_os.Cloud.Adjustments.Claims.{
  claim_inserted, claim_found, claim_abandoned, claim-Claimed,
}
use eventcommerce_os.Cloud.Adjustments.{abandoned, Claim, new_row, claim, answered, settle}

-- What is reserved for a payment's refunds and reversals is at most its amount.
abbrev pub IsCovered : AdjustmentDb → Type 0
IsCovered db =
    (id : String) (payment : PaymentRow)
    → find (is_payment id) db.payments ≡ some payment
    → reserved id db ≤ payment.amount_minor

-- an update that keeps the payment and the amount of a row
abbrev KeepsAmount : (AdjustmentRow → AdjustmentRow) → Type 0
KeepsAmount change =
    (row : AdjustmentRow)
    → ((change row).payment_id ≡ row.payment_id) × ((change row).amount_minor ≡ row.amount_minor)

counted-le :
    (payment : String) (row row' : AdjustmentRow) (n m : ℕ)
    → row'.payment_id ≡ row.payment_id
    → row'.amount_minor ≡ row.amount_minor
    → (row.status != adjustment_failed) ≡ true
    → n ≤ m
    → (if row'.payment_id == payment && row'.status != adjustment_failed
        then row'.amount_minor + n
        else n)
      ≤ (if row.payment_id == payment && row.status != adjustment_failed
          then row.amount_minor + m
          else m)
counted-le payment row row' n m same amount counted le =
    rw (same, amount, counted) (ground (arith, le))

-- A requested row is reserved; an update of it can only free its amount.
reserved_in-le :
    (payment id : String) (change : AdjustmentRow → AdjustmentRow) (rows : List AdjustmentRow)
    → KeepsAmount change
    → reserved_in payment (update_where (is_requested id) change rows) ≤ reserved_in payment rows
unfolding AdjustmentStatus-discrete
reserved_in-le payment id change [] keep = omega arith
reserved_in-le payment id change (row ∷ rows) keep =
    let rest = reserved_in-le payment id change rows keep in
    elim (Bool-cases (is_requested id row)) [
      | inr free ↦ rw free (ground (arith, rest))
      | inl own ↦
          let requested : row.status ≡ adjustment_requested =
            ground (arith, ==_iff row.status adjustment_requested) in
          let counted : (row.status != adjustment_failed) ≡ true = rw requested refl in
          rw own (counted-le payment row (change row) _ _ (keep row).0 (keep row).1 counted rest)
    ]

update_requested-le :
    (payment id : String) (kind : AdjustmentKind) (change : AdjustmentRow → AdjustmentRow)
    (db : AdjustmentDb)
    → KeepsAmount change
    → reserved payment (update_requested kind id change db) ≤ reserved payment db
unfolding update_requested reserved
update_requested-le payment id refund change db keep =
    omega (arith, reserved_in-le payment id change db.refunds keep)
update_requested-le payment id reversal change db keep =
    omega (arith, reserved_in-le payment id change db.reversals keep)

update_requested-payments :
    (kind : AdjustmentKind) (id : String) (change : AdjustmentRow → AdjustmentRow)
    (db : AdjustmentDb)
    → (update_requested kind id change db).payments ≡ db.payments
unfolding update_requested
update_requested-payments refund id change db = refl
update_requested-payments reversal id change db = refl

update_requested-IsCovered :
    (kind : AdjustmentKind) (id : String) (change : AdjustmentRow → AdjustmentRow)
    (db : AdjustmentDb)
    → KeepsAmount change
    → IsCovered db
    → IsCovered (update_requested kind id change db)
update_requested-IsCovered kind id change db keep covered payment row found = omega (
  arith,
  update_requested-le payment id kind change db keep,
  covered payment row (rw (update_requested-payments kind id change db) at found),
)

pub settle-IsCovered :
    (kind : AdjustmentKind) (id : String) (result : ProviderTruth) (db : AdjustmentDb)
    → IsCovered db
    → IsCovered (settle kind id result db)
unfolding settle
settle-IsCovered kind id result db covered =
    update_requested-IsCovered kind id (answered result db.now) db (λ row. (refl, refl)) covered

added-IsCovered :
    (kind : AdjustmentKind) (new : AdjustmentRow) (db : AdjustmentDb) (own : PaymentRow)
    → find (is_payment new.payment_id) db.payments ≡ some own
    → reserved new.payment_id db + new.amount_minor ≤ own.amount_minor
    → IsCovered db
    → IsCovered (set_table kind (new ∷ table kind db) db)
unfolding reserved
added-IsCovered refund new db own known fits covered payment row there =
    ground (arith, ==_iff new.payment_id payment, covered payment row there)
added-IsCovered reversal new db own known fits covered payment row there =
    ground (arith, ==_iff new.payment_id payment, covered payment row there)

-- A claim that succeeds leaves every payment covered.
pub claim-IsCovered :
    (provider : String → Option AdjustmentProvider) (kind : AdjustmentKind)
    (input : AdjustmentInput) (clock : ℕ) (db : AdjustmentDb) {claimed : Claim} {db' : AdjustmentDb}
    → claim provider kind input clock db ≡ ok (claimed, db')
    → IsCovered db
    → IsCovered db'
claim-IsCovered provider kind input clock db h covered =
    elim (claim-Claimed provider kind input clock db h) [
      | claim_inserted payment chosen known fits new free e e' ↦
          subst IsCovered (sym e')
            (added-IsCovered kind (new_row kind input chosen db.now) db payment known fits covered)
      | claim_found existing there e e' ↦ subst IsCovered (sym e') covered
      | claim_abandoned existing there e e' ↦ subst IsCovered (sym e') (
          update_requested-IsCovered kind existing.id (abandoned db.now) db (λ row. (refl, refl))
            covered)
    ]
