-- ===== src/Edge/Ledger/OnHand.antt =====
-- inventory-ledger.service.ts: the stock on hand, which is the sum of the ledger, under `insert`.
use eventcommerce_os.Base.{
  ◌≡◌, refl, String, ◌∷◌, ok, ◌⊎◌, inl, inr, if◌then◌else◌, string_eq, ◌==◌, ◌&&◌,
}
use eventcommerce_os.Base.Int.{ℤ, ◌+ℤ◌}
use eventcommerce_os.Edge.Rows.{LedgerInput, LedgerRow}
use eventcommerce_os.Edge.Db.{Db}
use eventcommerce_os.Edge.Ledger.{insert, sum_at}
use eventcommerce_os.Edge.Ledger.Posting.{
  Posted, inserted, replayed, insert-eq_ok, insert_with-Posted,
}

-- the effect of a posted movement on the stock at a place
abbrev pub effect : LedgerInput → String → String → String → ℤ → ℤ
effect input event location sku stock =
    if input.event_id == event && input.inventory_location_id == location && input.sku_id == sku
    then input.quantity_delta_base +ℤ stock
    else stock

Posted-sum :
    (input : LedgerInput) (id : String) (db : Db) {row : LedgerRow} {db' : Db}
    (event location sku : String)
    → Posted input id db row db'
    → ((db'.ledger ≡ db.ledger)
        × (sum_at event location sku db'.ledger ≡ sum_at event location sku db.ledger))
      ⊎ ((db'.ledger ≡ row ∷ db.ledger)
          × (sum_at event location sku db'.ledger
              ≡ effect input event location sku (sum_at event location sku db.ledger)))
unfolding sum_at
Posted-sum input id db event location sku (inserted r f c e) = rw (e, r) (inr (refl, refl))
Posted-sum input id db event location sku (replayed x m e) = rw e (inl (refl, refl))

-- At every place, a movement that is written changes the stock by its quantity if it is of that
-- event, location and SKU, and not at all otherwise; a replay writes nothing and changes no stock.
pub insert-sum_at :
    (input : LedgerInput) (db : Db) {row : LedgerRow} {db' : Db} (event location sku : String)
    → insert input db ≡ ok (row, db')
    → ((db'.ledger ≡ db.ledger)
        × (sum_at event location sku db'.ledger ≡ sum_at event location sku db.ledger))
      ⊎ ((db'.ledger ≡ row ∷ db.ledger)
          × (sum_at event location sku db'.ledger
              ≡ effect input event location sku (sum_at event location sku db.ledger)))
insert-sum_at input db event location sku h =
    let (id, drawn, _, _, run) = insert-eq_ok input db h in
    Posted-sum input id _ event location sku (insert_with-Posted input id _ run)
