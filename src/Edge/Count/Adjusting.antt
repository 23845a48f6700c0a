-- ===== src/Edge/Count/Adjusting.antt =====
-- inventory-count.service.ts, `close`: what one line of a count does to the ledger.
use mathlib.Core.Path.{subst}
use eventcommerce_os.Base.{
  ◌≡◌, refl, ◌∙◌, String, Option, none, some, Bool, true, false, ◌&&◌, List, [], ◌∷◌, ◌==◌, ◌!=◌,
  string_eq, ==_iff, any, ok, arith, Bool-cases, Option-cases, find, ◌⊎◌, inl, inr,
}
use eventcommerce_os.Base.Int.{ℤ, pos, ◌-ℤ◌, int_eq}
use eventcommerce_os.Edge.Rows.{LedgerRow, CountRow, CountLineRow}
use eventcommerce_os.Edge.Db.{Db, pure, branch, ◌>>=◌}
use eventcommerce_os.Edge.Db.Inversion.{>>=-eq_ok}
use eventcommerce_os.Edge.Ledger.{insert, sum_at, row_of, existing_row, same_movement}
use eventcommerce_os.Edge.Ledger.Posting.{
  Posted, inserted, replayed, insert-eq_ok, insert_with-Posted,
}
use eventcommerce_os.Edge.Count.{CloseStockCountInput, adjustment, adjust, update_line, close_line}

-- a movement of a count for a SKU
abbrev pub is_adjustment : String → String → LedgerRow → Bool
is_adjustment count_id sku row =
    row.source_type == "STOCK_COUNT" && row.source_id == count_id && row.sku_id == sku

-- no movement of the count for the SKU is in the ledger
abbrev pub Unadjusted : String → List LedgerRow → String → Type 0
Unadjusted count_id rows sku = any (is_adjustment count_id sku) rows ≡ false

abbrev pub stock_of : CountRow → String → List LedgerRow → ℤ
stock_of row sku rows = sum_at row.event_id row.inventory_location_id sku rows

any-find :
    (p q : LedgerRow → Bool) (rows : List LedgerRow) {row : LedgerRow}
    → any p rows ≡ false
    → find q rows ≡ some row
    → p row ≡ false
any-find p q [] h k = cc
any-find p q (x ∷ rows) {row} h k = ground (arith, any-find p q rows {row = row})

Unadjusted-existing :
    (count_id sku key id : String) (rows : List LedgerRow) {row : LedgerRow}
    → Unadjusted count_id rows sku
    → existing_row key id rows ≡ some row
    → is_adjustment count_id sku row ≡ false
unfolding existing_row
Unadjusted-existing count_id sku key id rows {row} h k =
    elim (Option-cases (find (λ (r : LedgerRow). r.idempotency_key == key) rows)) [
      | inl e ↦
          any-find (is_adjustment count_id sku) (λ r. r.id == id) rows h (rw (e, existing_row) at k)
      | inr (x, e) ↦
          any-find (is_adjustment count_id sku) (λ r. r.idempotency_key == key) rows h
            (e ∙ (rw (e, existing_row) at k))
    ]

replay-adjustment :
    (row : CountRow) (input : CloseStockCountInput) (sku : String) (v : ℤ) (old : LedgerRow)
    → same_movement old (adjustment row input sku v) ≡ true
    → is_adjustment row.id sku old ≡ true
unfolding same_movement
replay-adjustment row input sku v old h = ground arith

-- What an adjustment has done: it was written, as the newest row.
insert-adjustment :
    (row : CountRow) (input : CloseStockCountInput) (sku : String) (v : ℤ) (db : Db) {m : LedgerRow}
    {db' : Db}
    → Unadjusted row.id db.ledger sku
    → insert (adjustment row input sku v) db ≡ ok (m, db')
    → (id : String) × (db'.ledger ≡ row_of id (adjustment row input sku v) ∷ db.ledger)
insert-adjustment row input sku v db {m} {db'} fresh h =
    let (id, drawn, _, _, run) = insert-eq_ok (adjustment row input sku v) db h in
    go id (insert_with-Posted (adjustment row input sku v) id _ run) refl
  where
    go :
        {db₁ : Db} (id : String)
        → Posted (adjustment row input sku v) id db₁ m db'
        → db₁.ledger ≡ db.ledger
        → (id : String) × (db'.ledger ≡ row_of id (adjustment row input sku v) ∷ db.ledger)
    go id (inserted e f c d) same = (id, ground arith)
    go id (replayed found match d) same = absurd (
        ground (
          arith,
          replay-adjustment row input sku v m match,
          Unadjusted-existing row.id sku (adjustment row input sku v).idempotency_key id db.ledger
              {row = m} fresh,
        ))

adjust-none :
    (row : CountRow) (input : CloseStockCountInput) (sku : String) (v : ℤ) (db : Db)
    {r : Option String × Db}
    → (v != pos 0) ≡ false
    → adjust row input sku v db ≡ ok r
    → r.1.ledger ≡ db.ledger
unfolding adjust
adjust-none row input sku v db even h = ground arith

adjust-some :
    (row : CountRow) (input : CloseStockCountInput) (sku : String) (v : ℤ) (db : Db)
    {r : Option String × Db}
    → (v != pos 0) ≡ true
    → Unadjusted row.id db.ledger sku
    → adjust row input sku v db ≡ ok r
    → (id : String) × (r.1.ledger ≡ row_of id (adjustment row input sku v) ∷ db.ledger)
unfolding adjust
adjust-some row input sku v db {r} odd fresh h =
    let (m, db₁, posted, h₁) =
      >>=-eq_ok (insert (adjustment row input sku v)) (λ (m : LedgerRow). pure (some m.id)) db
        (subst
          (λ b.
            branch b
              (insert (adjustment row input sku v) >>= λ (movement : LedgerRow).
                pure (some movement.id))
              (pure none) db
            ≡ ok r)
          odd h) in
    let (id, e) = insert-adjustment row input sku v db fresh posted in (id, ground arith)

-- What a round of `close` does to the ledger, where `variance` is the count less the stock.
pub close_line-ledger :
    (row : CountRow) (input : CloseStockCountInput) (line : CountLineRow) (db : Db) {db' : Db}
    → Unadjusted row.id db.ledger line.sku_id
    → close_line row input line db ≡ ok (tt, db')
    → ((line.counted_quantity -ℤ stock_of row line.sku_id db.ledger ≡ pos 0)
        × (db'.ledger ≡ db.ledger))
      ⊎ ((id : String) × (db'.ledger
            ≡ row_of id (
                adjustment row input line.sku_id
                  (line.counted_quantity -ℤ stock_of row line.sku_id db.ledger))
              ∷ db.ledger))
unfolding close_line update_line
close_line-ledger row input line db {db'} fresh h =
    let v = line.counted_quantity -ℤ stock_of row line.sku_id db.ledger in
    let (ledger_id, db₁, adjusted, h₁) =
      >>=-eq_ok (adjust row input line.sku_id v)
        (λ ledger_id. update_line row.id line.sku_id (stock_of row line.sku_id db.ledger) ledger_id)
        db h in
    let kept : db'.ledger ≡ db₁.ledger = ground arith in
    elim (Bool-cases (v != pos 0)) [
      | inl odd ↦
          let (id, e) = adjust-some row input line.sku_id v db odd fresh adjusted in
          inr (id, kept ∙ e)
      | inr even ↦ inl (
        ground (arith, ==_iff v (pos 0)),
        kept ∙ adjust-none row input line.sku_id v db even adjusted,
      )
    ]
