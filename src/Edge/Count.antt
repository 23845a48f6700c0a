-- ===== src/Edge/Count.antt =====
-- apps/event-edge/src/inventory/inventory-count.service.ts: a stock count, from its lines to the
-- movements that make the ledger agree with them. Of the foreign keys, that of an adjustment's id is
-- left out: the id is of a row that `insert` has just returned.
pub mod Adjusting
pub mod Closing
mod Tests
use eventcommerce_os.Base.{
  String, Option, none, some, Bool, true, false, ◌&&◌, ◌||◌, not, List, [], ◌∷◌, map, ◌==◌, ◌!=◌,
  string_eq, nat_eq, option_eq, any, find, select, update_where, has_repeat, conflict, database,
  not_found, template,
}
use eventcommerce_os.Base.Int.{ℤ, pos, ◌-ℤ◌, ltb_ℤ, int_eq, fits_bigint}
use eventcommerce_os.Base.Sorting.{sort_by}
use eventcommerce_os.Domain.Movement.{count_adjustment}
use eventcommerce_os.Edge.Rows.{
  Instant, count_manage, LedgerInput, LedgerRow, CountRow, CountLineRow, count_closed, text,
}
use eventcommerce_os.Edge.Db.{
  Db, Tx, pure, gets, or_throw, throw_when, modify, branch, each, lock, random_uuid, ◌>>=◌, ◌>>◌,
}
use eventcommerce_os.Edge.Ledger.{authorize, lock_stock, on_hand, insert, enqueue}

pub record CreateStockCountInput : Type 0 where
  pub id : String
  pub event_id : String
  pub inventory_location_id : String
  pub actor_id : String
  pub reason : String
  pub opened_at : Instant
  -- the SKU and the counted quantity of each line
  pub lines : List (String × ℤ)

pub record CloseStockCountInput : Type 0 where
  pub actor_id : String
  pub reason : String
  pub closed_at : Instant

pub record StockCountLine : Type 0 where
  pub sku_id : String
  pub counted_quantity_base : ℤ
  pub expected_quantity_base : Option ℤ
  pub variance_base : Option ℤ

pub record StockCountResult : Type 0 where
  pub id : String
  pub event_id : String
  pub inventory_location_id : String
  pub closed : Bool
  pub lines : List StockCountLine

abbrev pub sku_of : String × ℤ → String
sku_of (sku, quantity) = sku

unfoldable pub count : String → Tx CountRow
count id = do
  found ← gets (λ db. find (λ (c : CountRow). c.id == id) db.counts)
  or_throw found (not_found "stock count not found")

abbrev pub lines_in : String → Db → List CountLineRow
lines_in count_id db =
    sort_by db.sql_le (λ (l : CountLineRow). l.sku_id)
      (select (λ (l : CountLineRow). l.count_id == count_id) db.count_lines)

unfoldable pub lines : String → Tx (List CountLineRow)
lines count_id = gets (lines_in count_id)

abbrev pub variance_of : ℤ → Option ℤ → Option ℤ
variance_of counted none = none
variance_of counted (some expected) = some (counted -ℤ expected)

abbrev pub result_line : CountLineRow → StockCountLine
result_line line = record {
  sku_id = line.sku_id;
  counted_quantity_base = line.counted_quantity;
  expected_quantity_base = line.expected_quantity_at_close;
  variance_base = variance_of line.counted_quantity line.expected_quantity_at_close;
}

unfoldable pub result : CountRow → Tx StockCountResult
unfolding lines
result row = do
  its_lines ← lines row.id
  pure (record {
    id = row.id;
    event_id = row.event_id;
    inventory_location_id = row.inventory_location_id;
    closed = row.closed;
    lines = map result_line its_lines;
  })

unfoldable pub queue_cloud : CountRow → Tx (Unit {0})
unfolding lines random_uuid enqueue
queue_cloud row = do
  its_lines ← lines row.id
  id ← random_uuid
  enqueue id row.id (count_closed row its_lines)

-- `stored.every((line, index) => …)`, with the lengths compared first
unfoldable pub same_lines : List CountLineRow → List (String × ℤ) → Bool
same_lines [] [] = true
same_lines (line ∷ stored) ((sku, quantity) ∷ wanted) =
    line.sku_id == sku && line.counted_quantity == quantity && same_lines stored wanted
same_lines _ _ = false

unfoldable pub same_create : CountRow → CreateStockCountInput → Tx Bool
unfolding lines same_lines
same_create existing input = do
  branch
      (existing.event_id != input.event_id
        || existing.inventory_location_id != input.inventory_location_id
        || existing.opened_by_actor_id != input.actor_id
        || existing.opened_at != input.opened_at
        || existing.reason != some input.reason)
      (pure false)
      (do
        stored ← lines existing.id
        wanted ← gets (λ db. sort_by db.locale_le sku_of input.lines)
        pure (same_lines stored wanted))

abbrev pub new_count : CreateStockCountInput → CountRow
new_count input = record {
  id = input.id;
  event_id = input.event_id;
  inventory_location_id = input.inventory_location_id;
  closed = false;
  opened_by_actor_id = input.actor_id;
  opened_at = input.opened_at;
  closed_by_actor_id = none;
  closed_at = none;
  reason = some input.reason;
}

-- the row of `INSERT INTO edge_stock_counts`: its id has been looked up under the lock
unfoldable pub insert_count : CreateStockCountInput → Tx (Unit {0})
insert_count input = do
  linked ← gets (λ db.
      any (λ l. l.event_id == input.event_id && l.id == input.inventory_location_id) db.locations)
  throw_when (not linked) (database "foreign key violation in edge_stock_counts")
  modify (λ db. record db { counts = new_count input ∷ db.counts })

abbrev pub is_line : String → String → CountLineRow → Bool
is_line count_id sku line = line.count_id == count_id && line.sku_id == sku

unfoldable pub insert_line : String → String × ℤ → Tx (Unit {0})
insert_line count_id (sku, quantity) = do
  throw_when (not (fits_bigint quantity)) (database "bigint out of range")
  throw_when (ltb_ℤ quantity (pos 0)) (database "check violation in edge_stock_count_lines")
  taken ← gets (λ db. any (is_line count_id sku) db.count_lines)
  throw_when taken (database "duplicate key in edge_stock_count_lines")
  modify (λ db. record db {
    count_lines =
        record {
          count_id = count_id;
          sku_id = sku;
          counted_quantity = quantity;
          expected_quantity_at_close = none;
          adjustment_ledger_id = none;
        }
        ∷ db.count_lines;
  })

-- what follows when the id was looked up
unfoldable pub create_or_replay : CreateStockCountInput → Option CountRow → Tx StockCountResult
unfolding same_create result insert_count insert_line count
create_or_replay input (some row) = do
  same ← same_create row input
  throw_when (not same) (conflict "stock count ID was reused with different content")
  result row
create_or_replay input none = do
  insert_count input
  ordered ← gets (λ db. sort_by db.locale_le sku_of input.lines)
  each ordered (insert_line input.id)
  row ← count input.id
  result row

-- `create`, the body of its transaction
unfoldable pub create : CreateStockCountInput → Tx StockCountResult
unfolding authorize lock create_or_replay
create input = do
  authorize input.event_id input.actor_id count_manage
  throw_when (has_repeat (map sku_of input.lines))
      (conflict "stock count lines must not repeat a SKU")
  lock (text (template ("stock-count-id:" ∷ input.id ∷ [])))
  existing ← gets (λ db. find (λ (c : CountRow). c.id == input.id) db.counts)
  create_or_replay input existing

abbrev pub adjustment : CountRow → CloseStockCountInput → String → ℤ → LedgerInput
adjustment row input sku variance = record {
  id = none;
  event_id = row.event_id;
  inventory_location_id = row.inventory_location_id;
  sku_id = sku;
  movement_type = count_adjustment;
  quantity_delta_base = variance;
  source_type = "STOCK_COUNT";
  source_id = row.id;
  source_event_instance_id = none;
  actor_id = some input.actor_id;
  device_id = none;
  reason = some input.reason;
  occurred_at = input.closed_at;
  idempotency_key = template ("stock-count:" ∷ row.id ∷ ":" ∷ sku ∷ []);
  reversal_of_ledger_id = none;
}

-- the movement of a line whose count differs from the ledger, and its id
unfoldable pub adjust : CountRow → CloseStockCountInput → String → ℤ → Tx (Option String)
adjust row input sku variance =
    branch (variance != pos 0)
      (insert (adjustment row input sku variance) >>= λ (movement : LedgerRow).
        pure (some movement.id))
      (pure none)

-- SET expected_quantity_at_close = …, adjustment_ledger_id = …
unfoldable pub update_line : String → String → ℤ → Option String → Tx (Unit {0})
update_line count_id sku expected ledger_id = do
  throw_when (not (fits_bigint expected)) (database "bigint out of range")
  modify (λ db. record db {
    count_lines =
        update_where (is_line count_id sku)
          (λ line. record line {
            expected_quantity_at_close = some expected;
            adjustment_ledger_id = ledger_id;
          })
          db.count_lines;
  })

-- one round of the second loop of `close`
unfoldable pub close_line : CountRow → CloseStockCountInput → CountLineRow → Tx (Unit {0})
unfolding on_hand adjust update_line
close_line row input line = do
  expected ← on_hand row.event_id row.inventory_location_id line.sku_id
  ledger_id ← adjust row input line.sku_id (line.counted_quantity -ℤ expected)
  update_line row.id line.sku_id expected ledger_id

-- UPDATE edge_stock_counts SET state = 'CLOSED', …
abbrev pub closed_counts : CountRow → CloseStockCountInput → Db → List CountRow
closed_counts row input db =
    update_where (λ (c : CountRow). c.id == row.id)
      (λ c. record c {
        closed = true;
        closed_by_actor_id = some input.actor_id;
        closed_at = some input.closed_at;
        reason = some input.reason;
      })
      db.counts

unfoldable pub mark_closed : CountRow → CloseStockCountInput → Tx (Unit {0})
mark_closed row input = modify (λ db. record db { counts = closed_counts row input db })

-- the end of `close`
unfoldable pub finish : CountRow → CloseStockCountInput → Tx StockCountResult
unfolding mark_closed count queue_cloud result
finish row input = do
  mark_closed row input
  closed ← count row.id
  queue_cloud closed
  result closed

-- `close` on a count that is open
unfoldable pub close_open :
    CountRow → CloseStockCountInput → List CountLineRow → Tx StockCountResult
unfolding lock_stock close_line finish
close_open row input its_lines = do
  each its_lines (λ line. lock_stock row.event_id row.inventory_location_id line.sku_id)
  each its_lines (close_line row input)
  finish row input

-- `close`, the body of its transaction
unfoldable pub close : String → CloseStockCountInput → Tx StockCountResult
unfolding count authorize result lines close_open
close count_id input = do
  row ← count count_id
  authorize row.event_id input.actor_id count_manage
  branch row.closed (result row) (lines row.id >>= close_open row input)
