-- ===== src/Edge/Count/Closing.antt =====
-- inventory-count.service.ts, `close`: the ledger after a count is closed.
use mathlib.Core.Path.{subst, subst₂}
use eventcommerce_os.Base.{
  ◌≡◌, ◌≢◌, refl, sym, ap, ◌∙◌, String, some, false, List, [], ◌∷◌, map, ◌==◌, string_eq, ==_iff,
  ==_refl, any, All, includes, has_repeat, ok, arith, Option-cases, find, inl, inr,
}
use eventcommerce_os.Base.Int.{ℤ, pos, ◌+ℤ◌, ◌-ℤ◌, int_eq, int_laws}
use eventcommerce_os.Edge.Rows.{count_manage, LedgerRow, CountRow, CountLineRow}
use eventcommerce_os.Edge.Db.{Db, each, branch, ◌>>=◌, ◌>>◌}
use eventcommerce_os.Edge.Db.Inversion.{>>=-eq_ok, each-eq_ok, each_inv}
use eventcommerce_os.Edge.Ledger.{authorize, enqueue, lock_stock, sum_at, row_of}
use eventcommerce_os.Edge.Ledger.Insert.{authorize-same}
use eventcommerce_os.Edge.Count.{
  CloseStockCountInput, adjustment, close_line, StockCountResult, finish, mark_closed, count,
  queue_cloud, result, closed_counts, close_open, lines_in, lines, close,
}
use eventcommerce_os.Edge.Count.Adjusting.{is_adjustment, Unadjusted, stock_of, close_line-ledger}

variance-restores : (counted stock : ℤ) → (counted -ℤ stock) +ℤ stock ≡ counted
variance-restores counted stock = grind int_laws

even-counted : (counted stock : ℤ) → counted -ℤ stock ≡ pos 0 → stock ≡ counted
even-counted counted stock h = grind int_laws

module _ (row : CountRow) (input : CloseStockCountInput) (id : String) (v : ℤ)
    (rows : List LedgerRow) where
  adjusted-stock :
      (sku : String)
      → stock_of row sku (row_of id (adjustment row input sku v) ∷ rows)
        ≡ v +ℤ stock_of row sku rows
  unfolding sum_at
  adjusted-stock sku =
      ground (arith, ==_refl row.event_id, ==_refl row.inventory_location_id, ==_refl sku)

  adjusted-other :
      (sku other : String)
      → other ≢ sku
      → (stock_of row other (row_of id (adjustment row input sku v) ∷ rows)
          ≡ stock_of row other rows)
        × (any (is_adjustment row.id other) (row_of id (adjustment row input sku v) ∷ rows)
            ≡ any (is_adjustment row.id other) rows)
  unfolding sum_at
  adjusted-other sku other ne = ground (arith, ==_iff sku other)

-- What a round of `close` promises for the line's SKU, and for the others.
record Counted (row : CountRow) (line : CountLineRow) (db db' : Db) : Type 0 where
  agrees : stock_of row line.sku_id db'.ledger ≡ line.counted_quantity
  others :
      (other : String)
      → other ≢ line.sku_id
      → (stock_of row other db'.ledger ≡ stock_of row other db.ledger)
        × (any (is_adjustment row.id other) db'.ledger ≡ any (is_adjustment row.id other) db.ledger)

close_line-Counted :
    (row : CountRow) (input : CloseStockCountInput) (line : CountLineRow) (db : Db) {db' : Db}
    → Unadjusted row.id db.ledger line.sku_id
    → close_line row input line db ≡ ok (tt, db')
    → Counted row line db db'
close_line-Counted row input line db {db'} fresh h =
    let stock = stock_of row line.sku_id db.ledger in
    elim (close_line-ledger row input line db fresh h) [
      | inl (even, same) ↦ record {
        agrees = ap (stock_of row line.sku_id) same ∙ even-counted line.counted_quantity stock even;
        others =
            λ other ne. (ap (stock_of row other) same, ap (any (is_adjustment row.id other)) same);
      }
      | inr (id, e) ↦ record {
        agrees =
            ap (stock_of row line.sku_id) e
            ∙ adjusted-stock row input id (line.counted_quantity -ℤ stock) db.ledger line.sku_id
            ∙ variance-restores line.counted_quantity stock;
        others = λ other ne.
            let (s, u) =
              adjusted-other row input id (line.counted_quantity -ℤ stock) db.ledger line.sku_id
                other ne in
            (ap (stock_of row other) e ∙ s, ap (any (is_adjustment row.id other)) e ∙ u);
      }
    ]

abbrev pub sku_id_of : CountLineRow → String
sku_id_of line = line.sku_id

-- A SKU that a list does not have is none of its lines'.
includes-other :
    (sku : String) (line : CountLineRow) (rest : List CountLineRow)
    → includes sku (map sku_id_of (line ∷ rest)) ≡ false
    → (line.sku_id ≢ sku) × (includes sku (map sku_id_of rest) ≡ false)
includes-other sku line rest h = ground (arith, ==_iff line.sku_id sku)

-- what is left to be closed stays unadjusted
rest-Unadjusted :
    (row : CountRow) (line : CountLineRow) (rest : List CountLineRow) (db db' : Db)
    → Counted row line db db'
    → includes line.sku_id (map sku_id_of rest) ≡ false
    → All (λ (l : CountLineRow). Unadjusted row.id db.ledger l.sku_id) rest
    → All (λ (l : CountLineRow). Unadjusted row.id db'.ledger l.sku_id) rest
rest-Unadjusted row line [] db db' c h fresh = tt
rest-Unadjusted row line (l ∷ rest) db db' c h (here, fresh) =
    let (ne, h') = includes-other line.sku_id l rest h in
    ((c.others l.sku_id ne).1 ∙ here, rest-Unadjusted row line rest db db' c h' fresh)

each-Counted :
    (row : CountRow) (input : CloseStockCountInput) (its_lines : List CountLineRow) (db : Db)
    {r : Unit {0} × Db}
    → has_repeat (map sku_id_of its_lines) ≡ false
    → All (λ (l : CountLineRow). Unadjusted row.id db.ledger l.sku_id) its_lines
    → each its_lines (close_line row input) db ≡ ok r
    → All (λ (l : CountLineRow). stock_of row l.sku_id r.1.ledger ≡ l.counted_quantity) its_lines
      × ((other : String)
          → includes other (map sku_id_of its_lines) ≡ false
          → stock_of row other r.1.ledger ≡ stock_of row other db.ledger)
each-Counted row input [] db {r} distinct fresh h = (tt, λ other _. ground arith)
each-Counted row input (line ∷ rest) db {r} distinct (here, fresh) h =
    let (db₁, first, later) = each-eq_ok line rest (close_line row input) db h in
    let c = close_line-Counted row input line db here first in
    let (apart, distinct') : (includes line.sku_id (map sku_id_of rest) ≡ false)
        × (has_repeat (map sku_id_of rest) ≡ false) =
      ground arith in
    let (counted, frame) =
      each-Counted row input rest db₁ distinct' (rest-Unadjusted row line rest db db₁ c apart fresh)
        later in
    (
      (frame line.sku_id apart ∙ c.agrees, counted),
      λ other absent.
          let (ne, absent') = includes-other other line rest absent in
          frame other absent' ∙ (c.others other (λ e. ne (sym e))).0,
    )

finish-ledger :
    (row : CountRow) (input : CloseStockCountInput) (db : Db) {r : StockCountResult} {db' : Db}
    → finish row input db ≡ ok (r, db')
    → db'.ledger ≡ db.ledger
unfolding finish mark_closed count queue_cloud enqueue result
finish-ledger row input db h =
    elim (Option-cases (find (λ (c : CountRow). c.id == row.id) (closed_counts row input db))) [
      | inl e ↦ absurd (ground arith)
      | inr (closed, e) ↦ ground arith
    ]

close_open-Counted :
    (row : CountRow) (input : CloseStockCountInput) (its_lines : List CountLineRow) (db : Db)
    {r : StockCountResult} {db' : Db}
    → has_repeat (map sku_id_of its_lines) ≡ false
    → All (λ (l : CountLineRow). Unadjusted row.id db.ledger l.sku_id) its_lines
    → close_open row input its_lines db ≡ ok (r, db')
    → All (λ (l : CountLineRow). stock_of row l.sku_id db'.ledger ≡ l.counted_quantity) its_lines
unfolding close_open lock_stock
close_open-Counted row input its_lines db distinct fresh h =
    let (_, db₁, locked, h₁) =
      >>=-eq_ok
        (each its_lines (λ line. lock_stock row.event_id row.inventory_location_id line.sku_id))
        (λ _. each its_lines (close_line row input) >> finish row input) db h in
    let (_, db₂, adjusted, h₂) =
      >>=-eq_ok (each its_lines (close_line row input)) (λ _. finish row input) db₁ h₁ in
    let same : db₁.ledger ≡ db.ledger =
      each_inv (λ d. d.ledger ≡ db.ledger) its_lines
        (λ line. lock_stock row.event_id row.inventory_location_id line.sku_id) db
        (λ x s t step e. ground arith) locked refl in
    let (counted, _) =
      each-Counted row input its_lines db₁ distinct
        (subst (λ rows. All (λ (l : CountLineRow). Unadjusted row.id rows l.sku_id) its_lines)
          (sym same) fresh)
        adjusted in
    subst
      (λ rows.
        All (λ (l : CountLineRow). stock_of row l.sku_id rows ≡ l.counted_quantity) its_lines)
      (sym (finish-ledger row input db₂ h₂)) counted

count-eq_ok :
    (id : String) (db : Db) {row : CountRow} {db' : Db}
    → count id db ≡ ok (row, db')
    → (find (λ (c : CountRow). c.id == id) db.counts ≡ some row) × (db' ≡ db)
unfolding count
count-eq_ok id db {row} h = elim (Option-cases (find (λ (c : CountRow). c.id == id) db.counts)) [
  | inl missing ↦ absurd (ground arith)
  | inr (found, e) ↦ ground arith
]

-- When an open count is closed, the stock of every SKU that was counted is what was counted, at the
-- place of the count, whatever the ledger held before. It is assumed that the count has one line for
-- a SKU, as its table's primary key has it, and that the ledger has no movement of this count yet.
pub close-Counted :
    (id : String) (input : CloseStockCountInput) (db : Db) (row : CountRow) {r : StockCountResult}
    {db' : Db}
    → find (λ (c : CountRow). c.id == id) db.counts ≡ some row
    → row.closed ≡ false
    → has_repeat (map sku_id_of (lines_in row.id db)) ≡ false
    → All (λ (l : CountLineRow). Unadjusted row.id db.ledger l.sku_id) (lines_in row.id db)
    → close id input db ≡ ok (r, db')
    → All
        (λ (l : CountLineRow). stock_of row l.sku_id db'.ledger ≡ l.counted_quantity)
        (lines_in row.id db)
unfolding close
close-Counted id input db row {r} {db'} found open_count distinct fresh h =
    let (row', db₁, read, h₁) = >>=-eq_ok (count id) _ db h in
    let (found', e₁) = count-eq_ok id db read in
    let (_, db₂, auth, h₂) =
      >>=-eq_ok (authorize row'.event_id input.actor_id count_manage) _ db₁ h₁ in
    let e : db₂ ≡ db = authorize-same row'.event_id input.actor_id count_manage db₁ auth ∙ e₁ in
    let same_row : row' ≡ row = ground arith in
    let run : close_open row input (lines_in row.id db) db ≡ ok (r, db') =
      subst₂
        (λ (c : CountRow) d.
          branch c.closed (result c) (lines c.id >>= close_open c input) d ≡ ok (r, db')
          → close_open row input (lines_in row.id db) db ≡ ok (r, db'))
        (sym same_row) (sym e) (λ k. rw open_count at k) h₂ in
    close_open-Counted row input (lines_in row.id db) db distinct fresh run
