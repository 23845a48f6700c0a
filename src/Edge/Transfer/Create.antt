-- ===== src/Edge/Transfer/Create.antt =====
-- inventory-transfer.service.ts, `create` and `sameCreate`.
use eventcommerce_os.Base.{
  String, Option, none, some, Bool, true, false, ◌&&◌, ◌||◌, not, List, [], ◌∷◌, map, ◌==◌, ◌!=◌,
  string_eq, option_eq, nat_eq, any, find, has_repeat, conflict, database, template,
}
use eventcommerce_os.Base.Int.{ℤ, pos, ltb_ℤ, int_eq, fits_bigint}
use eventcommerce_os.Base.Sorting.{sort_by}
use eventcommerce_os.Domain.Transitions.{requested}
use eventcommerce_os.Edge.Rows.{transfer_manage, TransferDbRow, TransferLineRow, text}
use eventcommerce_os.Edge.Db.{
  Db, Tx, pure, gets, throw_when, modify, branch, each, ◌>>=◌, ◌>>◌, lock,
}
use eventcommerce_os.Edge.Ledger.{authorize}
use eventcommerce_os.Edge.Transfer.{
  CreateTransferInput, TransferRow, map_row, sku_of, has_id, lines, write_history, finish,
}

-- `stored.every((line, index) => …)`, with the lengths compared first
unfoldable pub same_lines : List TransferLineRow → List (String × ℤ) → Bool
same_lines [] [] = true
same_lines (line ∷ stored) ((sku, quantity) ∷ wanted) =
    line.sku_id == sku && line.requested_quantity == quantity && same_lines stored wanted
same_lines _ _ = false

unfoldable pub same_create : TransferDbRow → CreateTransferInput → Tx Bool
unfolding lines same_lines
same_create existing input = do
  branch
      (existing.id != input.id
        || existing.event_id != input.event_id
        || existing.source_location_id != input.source_location_id
        || existing.destination_location_id != input.destination_location_id
        || existing.requested_by_actor_id != input.actor_id
        || existing.request_reason != input.reason
        || existing.requested_at != input.requested_at)
      (pure false)
      (do
        stored ← lines existing.id
        wanted ← gets (λ db. sort_by db.locale_le sku_of input.lines)
        pure (same_lines stored wanted))

-- the row of `INSERT INTO edge_stock_transfers`
abbrev pub new_transfer : CreateTransferInput → Db → TransferDbRow
new_transfer input db = record {
  id = input.id;
  event_id = input.event_id;
  source_location_id = input.source_location_id;
  destination_location_id = input.destination_location_id;
  state = requested;
  requested_by_actor_id = input.actor_id;
  assigned_actor_id = none;
  request_reason = input.reason;
  requested_at = input.requested_at;
  assigned_at = none;
  picking_at = none;
  in_transit_at = none;
  received_at = none;
  cancelled_at = none;
  updated_at = db.now;
  idempotency_key = some input.idempotency_key;
}

-- The unique indexes of the table have been looked at under the locks, so of its constraints the
-- CHECK that the locations differ and the foreign keys are left.
unfoldable pub insert_transfer : CreateTransferInput → Tx (Unit {0})
insert_transfer input = do
  throw_when (input.source_location_id == input.destination_location_id)
      (database "check violation in edge_stock_transfers")
  linked ← gets (λ db.
      any (λ l. l.event_id == input.event_id && l.id == input.source_location_id) db.locations
      && any (λ l. l.event_id == input.event_id && l.id == input.destination_location_id)
          db.locations)
  throw_when (not linked) (database "foreign key violation in edge_stock_transfers")
  modify (λ db. record db { transfers = new_transfer input db ∷ db.transfers })

abbrev pub is_line : String → String → TransferLineRow → Bool
is_line transfer_id sku line = line.transfer_id == transfer_id && line.sku_id == sku

unfoldable pub insert_line : String → String × ℤ → Tx (Unit {0})
insert_line transfer_id (sku, quantity) = do
  throw_when (not (fits_bigint quantity)) (database "bigint out of range")
  throw_when (not (ltb_ℤ (pos 0) quantity))
      (database "check violation in edge_stock_transfer_lines")
  taken ← gets (λ db. any (is_line transfer_id sku) db.transfer_lines)
  throw_when taken (database "duplicate key in edge_stock_transfer_lines")
  modify (λ db. record db {
    transfer_lines =
        record {
          transfer_id = transfer_id;
          sku_id = sku;
          requested_quantity = quantity;
          dispatched_quantity = pos 0;
          received_quantity = pos 0;
        }
        ∷ db.transfer_lines;
  })

-- what follows when the idempotency key was looked up
unfoldable pub create_new : CreateTransferInput → Tx TransferRow
unfolding insert_transfer insert_line write_history finish
create_new input = do
  reused ← gets (λ db. any (has_id input.id) db.transfers)
  throw_when reused (conflict "transfer ID was reused with different content")
  insert_transfer input
  ordered ← gets (λ db. sort_by db.locale_le sku_of input.lines)
  each ordered (insert_line input.id)
  write_history input.id none requested input.actor_id (some input.reason) input.requested_at
  finish input.id

unfoldable pub create_or_replay : CreateTransferInput → Option TransferDbRow → Tx TransferRow
unfolding create_new same_create
create_or_replay input none = create_new input
create_or_replay input (some existing) = do
  same ← same_create existing input
  throw_when (not same) (conflict "transfer idempotency key was reused with different content")
  pure (map_row existing)

-- `create`, the body of its transaction. Of the two lock keys the one for the id sorts first.
unfoldable pub create : CreateTransferInput → Tx TransferRow
unfolding authorize create_or_replay lock
create input = do
  authorize input.event_id input.actor_id transfer_manage
  throw_when (has_repeat (map sku_of input.lines)) (conflict "transfer lines must not repeat a SKU")
  lock (text (template ("stock-transfer-id:" ∷ input.id ∷ [])))
  lock (text (template ("stock-transfer-idempotency:" ∷ input.idempotency_key ∷ [])))
  duplicate ← gets (λ db.
      find (λ (t : TransferDbRow). t.idempotency_key == some input.idempotency_key) db.transfers)
  create_or_replay input duplicate
