-- ===== src/Cloud/Adjustments/Once.antt =====
-- payment-adjustments.service.ts: a key is claimed once, and what is settled stays.
use mathlib.Core.Path.{subst}
use eventcommerce_os.Base.{
  ◌≡◌, refl, sym, ap, ◌∙◌, ℕ, String, Option, true, false, List, [], ◌∷◌, ◌==◌, string_eq, nat_eq,
  ==_refl, any, ok, arith, Result-cases, inl, inr,
}
use eventcommerce_os.Base.Searching.{any-update_where, any_of_find, any_of_find-none}
use eventcommerce_os.Cloud.Adjustments.Tables.{
  AdjustmentKind, refund, reversal, adjustment_status_eq, AdjustmentRow, AdjustmentInput,
  AdjustmentProvider, AdjustmentDb, table, set_table, has_key, is_requested, update_requested,
}
use eventcommerce_os.Cloud.Adjustments.{abandoned, Claim, new_row, claim, answered, settle}
use eventcommerce_os.Cloud.Adjustments.Claims.{
  Claimed, claim_inserted, claim_found, claim_abandoned, claim-Claimed,
}
use eventcommerce_os.Cloud.Adjustments.Runs.{AdjustmentAction, claims, settles, waits, act, run}

-- the table has a row with the key
abbrev HasKey : AdjustmentKind → String → AdjustmentDb → Type 0
HasKey kind key db = any (has_key key) (table kind db) ≡ true

-- A change that keeps the keys of the rows keeps the key.
update_requested-HasKey :
    (kind other : AdjustmentKind) (key id : String) (change : AdjustmentRow → AdjustmentRow)
    (db : AdjustmentDb)
    → ((row : AdjustmentRow) → (change row).idempotency_key ≡ row.idempotency_key)
    → HasKey kind key db
    → HasKey kind key (update_requested other id change db)
unfolding update_requested
update_requested-HasKey refund refund key id change db keep held =
    any-update_where (is_requested id) (has_key key) change db.refunds
      (λ y. ap (λ k. k == key) (keep y))
    ∙ held
update_requested-HasKey reversal reversal key id change db keep held =
    any-update_where (is_requested id) (has_key key) change db.reversals
      (λ y. ap (λ k. k == key) (keep y))
    ∙ held
update_requested-HasKey refund reversal key id change db keep held = held
update_requested-HasKey reversal refund key id change db keep held = held

added-HasKey :
    (kind other : AdjustmentKind) (key : String) (new : AdjustmentRow) (db : AdjustmentDb)
    → HasKey kind key db
    → HasKey kind key (set_table other (new ∷ table other db) db)
added-HasKey refund refund key new db held = ground arith
added-HasKey reversal reversal key new db held = ground arith
added-HasKey refund reversal key new db held = held
added-HasKey reversal refund key new db held = held

claim-keeps :
    (kind other : AdjustmentKind) (key : String) (input : AdjustmentInput) (db : AdjustmentDb)
    {claimed : Claim} {db' : AdjustmentDb}
    → Claimed other input db claimed db'
    → HasKey kind key db
    → HasKey kind key db'
claim-keeps kind other key input db c held = elim c [
  | claim_inserted payment chosen known fits new free e e' ↦
      subst (HasKey kind key) (sym e')
        (added-HasKey kind other key (new_row other input chosen db.now) db held)
  | claim_found existing there e e' ↦ subst (HasKey kind key) (sym e') held
  | claim_abandoned existing there e e' ↦
      subst (HasKey kind key) (sym e') (
        update_requested-HasKey kind other key existing.id (abandoned db.now) db (λ row. refl) held)
]

module _ (provider : String → Option AdjustmentProvider) where
  act-HasKey :
      (kind : AdjustmentKind) (key : String) (action : AdjustmentAction) (db : AdjustmentDb)
      → HasKey kind key db
      → HasKey kind key (act provider action db)
  unfolding act settle
  act-HasKey kind key (claims other input clock) db held =
      elim (Result-cases (claim provider other input clock db)) [
        | inl (r, e) ↦ rw e (
            claim-keeps kind other key input db (claim-Claimed provider other input clock db e)
              held)
        | inr (x, e) ↦ rw e held
      ]
  act-HasKey kind key (settles other id result) db held =
      update_requested-HasKey kind other key id (answered result db.now) db (λ row. refl) held
  act-HasKey refund key (waits time) db held = held
  act-HasKey reversal key (waits time) db held = held

  run-HasKey :
      (kind : AdjustmentKind) (key : String) (actions : List AdjustmentAction) (db : AdjustmentDb)
      → HasKey kind key db
      → HasKey kind key (run provider actions db)
  unfolding run
  run-HasKey kind key [] db held = held
  run-HasKey kind key (action ∷ actions) db held =
      run-HasKey kind key actions (act provider action db) (act-HasKey kind key action db held)

-- A claim that succeeds has left its key in the table.
added-HasKey_own :
    (kind : AdjustmentKind) (new : AdjustmentRow) (db : AdjustmentDb)
    → HasKey kind new.idempotency_key (set_table kind (new ∷ table kind db) db)
added-HasKey_own refund new db = ground (arith, ==_refl new.idempotency_key)
added-HasKey_own reversal new db = ground (arith, ==_refl new.idempotency_key)

Claimed-HasKey :
    (kind : AdjustmentKind) (input : AdjustmentInput) (db : AdjustmentDb) {claimed : Claim}
    {db' : AdjustmentDb}
    → Claimed kind input db claimed db'
    → HasKey kind input.idempotency_key db'
Claimed-HasKey kind input db c = elim c [
  | claim_inserted payment chosen known fits new free e e' ↦
      subst (HasKey kind input.idempotency_key) (sym e')
        (added-HasKey_own kind (new_row kind input chosen db.now) db)
  | claim_found existing there e e' ↦
      subst (HasKey kind input.idempotency_key) (sym e')
        (any_of_find (has_key input.idempotency_key) (table kind db) {x = existing} there)
  | claim_abandoned existing there e e' ↦ subst (HasKey kind input.idempotency_key) (sym e') (
      update_requested-HasKey kind kind input.idempotency_key existing.id (abandoned db.now) db
        (λ row. refl)
        (any_of_find (has_key input.idempotency_key) (table kind db) {x = existing} there))
]

-- With a key that is stored, a claim is not the owner's.
known-Claimed :
    (kind : AdjustmentKind) (input : AdjustmentInput) (db : AdjustmentDb) {claimed : Claim}
    {db' : AdjustmentDb}
    → HasKey kind input.idempotency_key db
    → Claimed kind input db claimed db'
    → claimed.0 ≡ false
known-Claimed kind input db held c = elim c [
  | claim_inserted payment chosen known fits new free e e' ↦
      absurd
        (ground (arith, held, any_of_find-none (has_key input.idempotency_key) (table kind db) new))
  | claim_found existing there e e' ↦ e
  | claim_abandoned existing there e e' ↦ e
]

-- Once a claim with an idempotency key has succeeded, a later claim of the same kind with that key that
-- succeeds, after whatever claims and answers in between, is not the owner's: only an owner asks the
-- provider.
pub claim_once :
    (provider : String → Option AdjustmentProvider) (kind : AdjustmentKind)
    (input again : AdjustmentInput) (clock clock' : ℕ) (db : AdjustmentDb)
    (actions : List AdjustmentAction) {first second : Claim} {db' db'' : AdjustmentDb}
    → claim provider kind input clock db ≡ ok (first, db')
    → again.idempotency_key ≡ input.idempotency_key
    → claim provider kind again clock' (run provider actions db') ≡ ok (second, db'')
    → second.0 ≡ false
claim_once provider kind input again clock clock' db actions {db' = db'} h same h' =
    let held =
      run-HasKey provider kind input.idempotency_key actions db'
        (Claimed-HasKey kind input db (claim-Claimed provider kind input clock db h)) in
    known-Claimed kind again (run provider actions db') (rw same held)
      (claim-Claimed provider kind again clock' (run provider actions db') h')
