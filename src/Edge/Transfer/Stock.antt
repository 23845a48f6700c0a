-- ===== src/Edge/Transfer/Stock.antt =====
-- inventory-transfer.service.ts, `dispatch`: the stock that a transfer may take from its source.
use mathlib.Core.Path.{subst}
use eventcommerce_os.Base.{
  ◌≡◌, refl, ap, ◌∙◌, String, some, false, List, [], ◌∷◌, map, string_eq, nat_eq, option_eq, ==_iff,
  find, ok, arith, All,
}
use eventcommerce_os.Base.Int.{ℤ, ltb_ℤ, int_eq}
use eventcommerce_os.Base.Maps.{map_get, map_from}
use eventcommerce_os.Base.Sorting.{sort_by}
use eventcommerce_os.Domain.Transitions.{in_transit, require_transfer_transition}
use eventcommerce_os.Edge.Rows.{TransferDbRow, transfer_manage}
use eventcommerce_os.Edge.Db.{Db, Tx, each, lift, ◌>>◌}
use eventcommerce_os.Edge.Ledger.Insert.{authorize-same}
use eventcommerce_os.Edge.Db.Inversion.{>>=-eq_ok, each-eq_ok, each_inv}
use eventcommerce_os.Edge.Ledger.{authorize, lock_stock, sum_at}
use eventcommerce_os.Edge.Transfer.{
  TransferDispatchInput, TransferRow, sku_of, has_id, transfer, lines_in, lock_stocks,
}
use eventcommerce_os.Edge.Transfer.States.{transfer-eq_ok, lift-eq_ok, transition_cases}
use eventcommerce_os.Edge.Transfer.Dispatch.{
  check_dispatch, requested_entry, dispatch_all, dispatch, writes,
}

-- the quantities that a transfer asks for, in the order in which they are worked off
abbrev pub requested_of : String → Db → List (String × ℤ)
requested_of id db =
    sort_by db.locale_le sku_of (map_from [] (map requested_entry (lines_in id db)))

-- The dispatch names the requested quantity of the SKU, and the source has it in stock.
abbrev pub Covered : TransferDbRow → List (String × ℤ) → Db → String × ℤ → Type 0
Covered row supplied db (sku, quantity) =
    (map_get sku supplied ≡ some quantity)
    × (ltb_ℤ (sum_at row.event_id row.source_location_id sku db.ledger) quantity ≡ false)

check_dispatch-Covered :
    (row : TransferDbRow) (supplied : List (String × ℤ)) (entry : String × ℤ) (db db' : Db)
    → check_dispatch row supplied entry db ≡ ok (tt, db')
    → Covered row supplied db entry × (db' ≡ db)
unfolding check_dispatch
check_dispatch-Covered row supplied (sku, quantity) db db' h =
    ground (arith, ==_iff (map_get sku supplied) (some quantity))

each-Covered :
    (row : TransferDbRow) (supplied wanted : List (String × ℤ)) (db : Db) {r : Unit {0} × Db}
    → each wanted (check_dispatch row supplied) db ≡ ok r
    → All (Covered row supplied db) wanted × (r.1 ≡ db)
each-Covered row supplied [] db h = (tt, ground arith)
each-Covered row supplied (entry ∷ wanted) db h =
    let (db', first, rest) = each-eq_ok entry wanted (check_dispatch row supplied) db h in
    let (covered, same) = check_dispatch-Covered row supplied entry db db' first in
    let (others, same') = each-Covered row supplied wanted db' rest in
    ((covered, subst (λ d. All (Covered row supplied d) wanted) same others), same' ∙ same)

-- `lock_stocks` only takes locks.
pub lock_stocks-same :
    (event location : String) (skus : List String) (db : Db) {r : Unit {0} × Db}
    → lock_stocks event location skus db ≡ ok r
    → (r.1.ledger ≡ db.ledger) × (r.1.receipts ≡ db.receipts)
unfolding lock_stocks lock_stock
lock_stocks-same event location skus db h =
    each_inv (λ d. (d.ledger ≡ db.ledger) × (d.receipts ≡ db.receipts)) skus
      (lock_stock event location) db (λ x s t first kept. ground arith) h (refl, refl)

-- A test that only reads the ledger has the same answer where the ledger is the same.
Covered-ledger :
    (row : TransferDbRow) (supplied wanted : List (String × ℤ)) (db db' : Db)
    → db'.ledger ≡ db.ledger
    → All (Covered row supplied db') wanted
    → All (Covered row supplied db) wanted
Covered-ledger row supplied [] db db' same covered = tt
Covered-ledger row supplied ((sku, quantity) ∷ wanted) db db' same ((exact, stocked), covered) =
    let here : ltb_ℤ (sum_at row.event_id row.source_location_id sku db.ledger) quantity ≡ false =
      subst (λ l. ltb_ℤ (sum_at row.event_id row.source_location_id sku l) quantity ≡ false) same
        stocked in
    ((exact, here), Covered-ledger row supplied wanted db db' same covered)

-- `dispatch` after its locks
abbrev after_locks :
    TransferDbRow → TransferDispatchInput → List (String × ℤ) → List (String × ℤ) → Tx TransferRow
after_locks row input supplied wanted =
    each wanted (check_dispatch row supplied) >> writes row input wanted

dispatch_all-Covered :
    (row : TransferDbRow) (input : TransferDispatchInput) (supplied wanted : List (String × ℤ))
    (db : Db) {x : TransferRow × Db}
    → dispatch_all row input supplied wanted db ≡ ok x
    → All (Covered row supplied db) wanted
unfolding dispatch_all
dispatch_all-Covered row input supplied wanted db h =
    let (_, db₁, locked, h₁) =
      >>=-eq_ok (lock_stocks row.event_id row.source_location_id (map sku_of wanted))
        (λ _. after_locks row input supplied wanted) db h in
    let (_, db₂, checked, h₂) =
      >>=-eq_ok (each wanted (check_dispatch row supplied)) (λ _. writes row input wanted) db₁ h₁ in
    let same =
      (lock_stocks-same row.event_id row.source_location_id (map sku_of wanted) db locked).0 in
    Covered-ledger row supplied wanted db db₁ same (each-Covered row supplied wanted db₁ checked).0

-- An accepted dispatch was allowed by the state of the transfer, and at that time the source had
-- every requested quantity in stock and the dispatch named it exactly.
pub dispatch-Covered :
    (id : String) (input : TransferDispatchInput) (db : Db) {x : TransferRow × Db}
    → dispatch id input db ≡ ok x
    → (row : TransferDbRow) × (find (has_id id) db.transfers ≡ some row)
      × (require_transfer_transition row.state in_transit ≡ ok in_transit)
      × All (Covered row (map_from [] input.quantities) db) (requested_of id db)
unfolding dispatch
dispatch-Covered id input db {x} h =
    let (row, db₁, read, h₁) = >>=-eq_ok (transfer id) _ db h in
    let (found, e₁, same) = transfer-eq_ok id db read in
    let (_, db₂, auth, h₂) =
      >>=-eq_ok (authorize row.event_id input.actor_id transfer_manage) _ db₁ h₁ in
    let (s, db₃, lifted, h₃) =
      >>=-eq_ok (lift (require_transfer_transition row.state in_transit)) _ db₂ h₂ in
    let (allowed, e₃) = lift-eq_ok (require_transfer_transition row.state in_transit) db₂ lifted in
    let e : db₃ ≡ db =
      e₃ ∙ authorize-same row.event_id input.actor_id transfer_manage db₁ auth ∙ e₁ in
    let run : dispatch_all row input (map_from [] input.quantities) (requested_of id db₃) db₃
        ≡ ok x =
      ground arith in
    let covered =
      dispatch_all-Covered row input (map_from [] input.quantities) (requested_of id db₃) db₃ run in
    (
      row,
      found,
      allowed ∙ ap ok (transition_cases row.state in_transit allowed),
      subst (λ d. All (Covered row (map_from [] input.quantities) d) (requested_of id d)) e covered,
    )
