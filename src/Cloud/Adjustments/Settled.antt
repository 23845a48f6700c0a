-- ===== src/Cloud/Adjustments/Settled.antt =====
-- payment-adjustments.service.ts: the outcome of an adjustment is final.
use mathlib.Core.Path.{subst}
use eventcommerce_os.Base.{
  ◌≡◌, ◌≢◌, refl, sym, ap, ◌∙◌, String, Option, some, false, List, [], ◌∷◌, ◌==◌, string_eq, nat_eq,
  ==_iff, any, find, update_where, if◌then◌else◌, arith, Result-cases, inl, inr,
}
use eventcommerce_os.Base.Searching.{find-update_where, any_of_find}
use eventcommerce_os.Cloud.Adjustments.Tables.{
  AdjustmentKind, refund, reversal, adjustment_requested, adjustment_status_eq, AdjustmentRow,
  AdjustmentInput, AdjustmentProvider, AdjustmentDb, table, set_table, has_id, is_requested,
  update_requested,
}
use eventcommerce_os.Cloud.Adjustments.{abandoned, Claim, new_row, claim, answered, settle}
use eventcommerce_os.Cloud.Adjustments.Claims.{
  Claimed, claim_inserted, claim_found, claim_abandoned, claim-Claimed,
}
use eventcommerce_os.Cloud.Adjustments.Runs.{AdjustmentAction, claims, settles, waits, act, run}

-- The adjustment's row is in the table, as it is.
abbrev Stands : AdjustmentKind → AdjustmentRow → AdjustmentDb → Type 0
Stands kind row db = find (has_id row.id) (table kind db) ≡ some row

not_requested :
    (id : String) (row : AdjustmentRow)
    → row.status ≢ adjustment_requested
    → is_requested id row ≡ false
not_requested id row ne = ground (arith, ==_iff row.status adjustment_requested)

kept-row :
    (row : AdjustmentRow) (id : String) (change : AdjustmentRow → AdjustmentRow)
    (rows : List AdjustmentRow)
    → row.status ≢ adjustment_requested
    → ((r : AdjustmentRow) → (change r).id ≡ r.id)
    → find (has_id row.id) rows ≡ some row
    → find (has_id row.id) (update_where (is_requested id) change rows) ≡ some row
kept-row row id change rows ne keep there =
    find-update_where (is_requested id) (has_id row.id) change rows {x = row}
      (λ y. ap (λ i. i == row.id) (keep y)) there
    ∙ ap (λ b. some (if b then change row else row)) (not_requested id row ne)

update_requested-Stands :
    (kind other : AdjustmentKind) (row : AdjustmentRow) (id : String)
    (change : AdjustmentRow → AdjustmentRow) (db : AdjustmentDb)
    → row.status ≢ adjustment_requested
    → ((r : AdjustmentRow) → (change r).id ≡ r.id)
    → Stands kind row db
    → Stands kind row (update_requested other id change db)
unfolding update_requested
update_requested-Stands refund refund row id change db ne keep there =
    kept-row row id change db.refunds ne keep there
update_requested-Stands reversal reversal row id change db ne keep there =
    kept-row row id change db.reversals ne keep there
update_requested-Stands refund reversal row id change db ne keep there = there
update_requested-Stands reversal refund row id change db ne keep there = there

added-Stands :
    (kind other : AdjustmentKind) (row new : AdjustmentRow) (db : AdjustmentDb)
    → any (has_id new.id) (table other db) ≡ false
    → Stands kind row db
    → Stands kind row (set_table other (new ∷ table other db) db)
added-Stands refund refund row new db free there =
    ground (arith, ==_iff new.id row.id, any_of_find (has_id row.id) db.refunds {x = row} there)
added-Stands reversal reversal row new db free there =
    ground (arith, ==_iff new.id row.id, any_of_find (has_id row.id) db.reversals {x = row} there)
added-Stands refund reversal row new db free there = there
added-Stands reversal refund row new db free there = there

claim-keeps :
    (kind other : AdjustmentKind) (row : AdjustmentRow) (input : AdjustmentInput)
    (db : AdjustmentDb) {claimed : Claim} {db' : AdjustmentDb}
    → row.status ≢ adjustment_requested
    → Claimed other input db claimed db'
    → Stands kind row db
    → Stands kind row db'
claim-keeps kind other row input db ne c there = elim c [
  | claim_inserted payment chosen known fits new free e e' ↦
      subst (Stands kind row) (sym e')
        (added-Stands kind other row (new_row other input chosen db.now) db free there)
  | claim_found existing old e e' ↦ subst (Stands kind row) (sym e') there
  | claim_abandoned existing old e e' ↦ subst (Stands kind row) (sym e') (
      update_requested-Stands kind other row existing.id (abandoned db.now) db ne (λ r. refl) there)
]

module _ (provider : String → Option AdjustmentProvider) where
  act-Stands :
      (kind : AdjustmentKind) (row : AdjustmentRow) (action : AdjustmentAction) (db : AdjustmentDb)
      → row.status ≢ adjustment_requested
      → Stands kind row db
      → Stands kind row (act provider action db)
  unfolding act settle
  act-Stands kind row (claims other input clock) db ne there =
      elim (Result-cases (claim provider other input clock db)) [
        | inl (r, e) ↦ rw e (
            claim-keeps kind other row input db ne (claim-Claimed provider other input clock db e)
              there)
        | inr (x, e) ↦ rw e there
      ]
  act-Stands kind row (settles other id result) db ne there =
      update_requested-Stands kind other row id (answered result db.now) db ne (λ r. refl) there
  act-Stands refund row (waits time) db ne there = there
  act-Stands reversal row (waits time) db ne there = there

  -- An adjustment whose status is no longer REQUESTED is final: whatever claims and answers follow, a
  -- late answer of its own provider call among them, its row stays as it is.
  pub run_settled :
      (kind : AdjustmentKind) (row : AdjustmentRow) (actions : List AdjustmentAction)
      (db : AdjustmentDb)
      → row.status ≢ adjustment_requested
      → find (has_id row.id) (table kind db) ≡ some row
      → find (has_id row.id) (table kind (run provider actions db)) ≡ some row
  unfolding run
  run_settled kind row [] db ne there = there
  run_settled kind row (action ∷ actions) db ne there =
      run_settled kind row actions (act provider action db) ne
        (act-Stands kind row action db ne there)
