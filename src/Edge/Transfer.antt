-- ===== src/Edge/Transfer.antt =====
-- apps/event-edge/src/inventory/inventory-transfer.service.ts: a transfer of stock between two
-- locations, from its request to its last receipt. The CHECK constraints on a line's quantities are
-- left out of the UPDATEs: the tests in the code come before them.
pub mod Create
pub mod Advance
pub mod Dispatch
pub mod Receive
pub mod Stock
pub mod States
pub mod Receipts
pub mod Once
mod Tests
use eventcommerce_os.Base.{
  ◌+◌, String, Option, none, some, Bool, true, false, ◌&&◌, ◌||◌, not, List, [], ◌∷◌, map, ◌==◌,
  ◌!=◌, string_eq, option_eq, nat_eq, any, all, find, select, update_where, length, has_repeat,
  Failure, error, conflict, database, not_found, template, Eq,
}
use eventcommerce_os.Base.Int.{ℤ, pos, ◌+ℤ◌, ◌-ℤ◌, neg, ltb_ℤ, int_eq, fits_bigint}
use eventcommerce_os.Base.Maps.{map_get, map_from}
use eventcommerce_os.Base.Sorting.{sort_by}
use eventcommerce_os.Domain.Movement.{transfer_out, transfer_in}
use eventcommerce_os.Domain.Transitions.{
  StockTransferState, requested, assigned, picking, in_transit, received, cancelled,
  transfer_state_eq, require_transfer_transition,
}
use eventcommerce_os.Edge.Rows.{
  Instant, transfer_manage, LedgerInput, TransferDbRow, TransferLineRow, HistoryRow, ReceiptRow,
  transfer_upserted, text,
}
use eventcommerce_os.Edge.Db.{
  Db, Tx, pure, lift, gets, throw, throw_when, or_throw, modify, branch, each, ◌>>=◌, ◌>>◌, lock,
  random_uuid,
}
use eventcommerce_os.Edge.Ledger.{authorize, lock_stock, on_hand, insert, enqueue, truthy}

pub record CreateTransferInput : Type 0 where
  pub id : String
  pub event_id : String
  pub source_location_id : String
  pub destination_location_id : String
  pub actor_id : String
  pub reason : String
  pub requested_at : Instant
  pub idempotency_key : String
  -- the SKU and the requested quantity of each line
  pub lines : List (String × ℤ)

pub record TransferTransitionInput : Type 0 where
  pub actor_id : String
  pub reason : Option String
  pub assigned_actor_id : Option String
  pub occurred_at : Instant

pub record TransferDispatchInput : Type 0 where
  pub actor_id : String
  pub reason : Option String
  pub occurred_at : Instant
  pub quantities : List (String × ℤ)

pub record TransferReceiptInput : Type 0 where
  pub actor_id : String
  pub reason : Option String
  pub received_at : Instant
  pub idempotency_key : String
  pub quantities : List (String × ℤ)

pub record TransferRow : Type 0 where
  pub id : String
  pub event_id : String
  pub source_location_id : String
  pub destination_location_id : String
  pub state : StockTransferState
  pub requested_by_actor_id : String
  pub assigned_actor_id : Option String
  pub updated_at : Instant

abbrev pub map_row : TransferDbRow → TransferRow
map_row row = record {
  id = row.id;
  event_id = row.event_id;
  source_location_id = row.source_location_id;
  destination_location_id = row.destination_location_id;
  state = row.state;
  requested_by_actor_id = row.requested_by_actor_id;
  assigned_actor_id = row.assigned_actor_id;
  updated_at = row.updated_at;
}

abbrev pub sku_of : String × ℤ → String
sku_of (sku, quantity) = sku

abbrev pub has_id : String → TransferDbRow → Bool
has_id id row = row.id == id

unfoldable pub transfer : String → Tx TransferDbRow
transfer id = do
  found ← gets (λ db. find (has_id id) db.transfers)
  or_throw found (not_found "stock transfer not found")

abbrev pub is_of : String → TransferLineRow → Bool
is_of transfer_id line = line.transfer_id == transfer_id

abbrev pub lines_in : String → Db → List TransferLineRow
lines_in transfer_id db =
    sort_by db.sql_le (λ (l : TransferLineRow). l.sku_id)
      (select (is_of transfer_id) db.transfer_lines)

unfoldable pub lines : String → Tx (List TransferLineRow)
lines transfer_id = gets (lines_in transfer_id)

unfoldable pub write_history :
    String
    → Option StockTransferState
    → StockTransferState
    → String
    → Option String
    → Instant
    → Tx (Unit {0})
unfolding random_uuid
write_history transfer_id from to actor_id reason occurred_at = do
  id ← random_uuid
  taken ← gets (λ db. any (λ h. h.id == id) db.history)
  throw_when taken (database "duplicate key in edge_stock_transfer_history")
  modify (λ db. record db {
    history =
        record {
          id = id;
          transfer_id = transfer_id;
          from_state = from;
          to_state = to;
          actor_id = actor_id;
          reason = reason;
          occurred_at = occurred_at;
        }
        ∷ db.history;
  })

unfoldable pub queue_cloud : TransferDbRow → Tx (Unit {0})
unfolding random_uuid enqueue lines
queue_cloud row = do
  its_lines ← lines row.id
  id ← random_uuid
  enqueue id row.id (transfer_upserted row its_lines)

-- the last steps of every operation: read the row back, queue it for the cloud and return it
unfoldable pub finish : String → Tx TransferRow
unfolding transfer queue_cloud
finish id = do row ← transfer id; queue_cloud row; pure (map_row row)

-- `for (const key of keys) await lock(key)` over stocks
unfoldable pub lock_stocks : String → String → List String → Tx (Unit {0})
unfolding lock_stock
lock_stocks event_id location_id skus = each skus (lock_stock event_id location_id)
