-- ===== src/Edge/Transfer/Receive.antt =====
-- inventory-transfer.service.ts, `receive`.
use eventcommerce_os.Base.{
  String, Option, none, some, Bool, not, ◌||◌, List, [], ◌∷◌, map, ◌==◌, ◌!=◌, string_eq, nat_eq,
  all, find, update_where, has_repeat, error, conflict, template, Eq,
}
use eventcommerce_os.Base.Int.{ℤ, ◌+ℤ◌, ◌-ℤ◌, ltb_ℤ, int_eq}
use eventcommerce_os.Base.Sorting.{sort_by}
use eventcommerce_os.Domain.Movement.{transfer_in}
use eventcommerce_os.Domain.Transitions.{in_transit, received, transfer_state_eq}
use eventcommerce_os.Edge.Rows.{
  transfer_manage, LedgerInput, TransferDbRow, TransferLineRow, ReceiptRow, text,
}
use eventcommerce_os.Edge.Db.{
  Tx, pure, gets, throw, throw_when, modify, branch, each, lock, ◌>>=◌, ◌>>◌,
}
use eventcommerce_os.Edge.Ledger.{authorize, insert}
use eventcommerce_os.Edge.Transfer.{
  TransferReceiptInput, TransferRow, map_row, sku_of, has_id, transfer, lines, lock_stocks,
  write_history, finish,
}
use eventcommerce_os.Edge.Transfer.Create.{is_line}
use eventcommerce_os.Edge.Transfer.Advance.{update_state}
use eventcommerce_os.Edge.Transfer.Dispatch.{or_text}

abbrev pub has_sku : String → TransferLineRow → Bool
has_sku sku line = line.sku_id == sku

-- one receipt against the line of its SKU
unfoldable pub check_outstanding : String → ℤ → Option TransferLineRow → Tx (Unit {0})
check_outstanding sku quantity none =
    throw (error (template ("SKU " ∷ sku ∷ " is not part of this transfer" ∷ [])))
check_outstanding sku quantity (some line) =
    throw_when (ltb_ℤ (line.dispatched_quantity -ℤ line.received_quantity) quantity)
      (conflict (template ("receipt exceeds outstanding quantity for SKU " ∷ sku ∷ [])))

-- `bySku.get(skuId)`: a SKU has one line, by the table's primary key
unfoldable pub check_receipt : List TransferLineRow → String × ℤ → Tx (Unit {0})
unfolding check_outstanding
check_receipt its_lines (sku, quantity) =
    check_outstanding sku quantity (find (has_sku sku) its_lines)

abbrev pub receipt_movement : TransferDbRow → TransferReceiptInput → String → ℤ → LedgerInput
receipt_movement row input sku quantity = record {
  id = none;
  event_id = row.event_id;
  inventory_location_id = row.destination_location_id;
  sku_id = sku;
  movement_type = transfer_in;
  quantity_delta_base = quantity;
  source_type = "TRANSFER";
  source_id = row.id;
  source_event_instance_id = none;
  actor_id = some input.actor_id;
  device_id = none;
  reason = some (or_text input.reason "transfer receipt");
  occurred_at = input.received_at;
  idempotency_key =
      template ("transfer:" ∷ row.id ∷ ":receipt:" ∷ input.idempotency_key ∷ ":" ∷ sku ∷ []);
  reversal_of_ledger_id = none;
}

-- SET received_quantity = received_quantity + quantity
unfoldable pub add_received : String → String → ℤ → Tx (Unit {0})
add_received transfer_id sku quantity = modify (λ db. record db {
  transfer_lines =
      update_where (is_line transfer_id sku)
        (λ line. record line { received_quantity = line.received_quantity +ℤ quantity })
        db.transfer_lines;
})

unfoldable pub receive_line : TransferDbRow → TransferReceiptInput → String × ℤ → Tx (Unit {0})
unfolding add_received
receive_line row input (sku, quantity) = do
  insert (receipt_movement row input sku quantity)
  add_received row.id sku quantity

unfoldable pub Quantities-discrete : Discrete (List (String × ℤ))
Quantities-discrete = hlevel (string_eq.dec_eq, int_eq.dec_eq)

instance abbrev pub quantities_eq : Eq (List (String × ℤ))
quantities_eq = record { dec_eq = Quantities-discrete }

-- whether a stored receipt is the one that is given again
unfoldable pub same_receipt :
    ReceiptRow → TransferDbRow → TransferReceiptInput → List (String × ℤ) → Bool
same_receipt previous row input ordered = not (
    previous.payload != ordered
    || previous.transfer_id != row.id
    || previous.actor_id != input.actor_id
    || previous.received_at != input.received_at)

abbrev pub receipt_of : TransferDbRow → TransferReceiptInput → List (String × ℤ) → ReceiptRow
receipt_of row input ordered = record {
  idempotency_key = input.idempotency_key;
  transfer_id = row.id;
  actor_id = input.actor_id;
  payload = ordered;
  received_at = input.received_at;
}

-- `INSERT INTO edge_stock_transfer_receipts`; its key has been looked up under the lock
unfoldable pub insert_receipt :
    TransferDbRow → TransferReceiptInput → List (String × ℤ) → Tx (Unit {0})
insert_receipt row input ordered =
    modify (λ db. record db { receipts = receipt_of row input ordered ∷ db.receipts })

abbrev pub is_complete : TransferLineRow → Bool
is_complete line = line.received_quantity == line.dispatched_quantity

-- the transfer is RECEIVED when every line is complete
unfoldable pub update_transfer :
    TransferDbRow → TransferReceiptInput → List TransferLineRow → Tx (Unit {0})
unfolding update_state write_history
update_transfer row input after =
    branch (all is_complete after)
      (update_state row.id received (λ r. record r { received_at = some input.received_at })
        >> write_history row.id (some in_transit) received input.actor_id input.reason
            input.received_at)
      (modify (λ db. record db {
        transfers =
            update_where (has_id row.id) (λ r. record r { updated_at = db.now }) db.transfers;
      }))

-- the end of `receive`
unfoldable pub settle : TransferDbRow → TransferReceiptInput → Tx TransferRow
unfolding lines update_transfer finish
settle row input = do after ← lines row.id; update_transfer row input after; finish row.id

-- what follows when the receipt's key was looked up
unfoldable pub receive_new :
    TransferDbRow → TransferReceiptInput → List (String × ℤ) → Tx TransferRow
unfolding lines check_receipt lock_stocks insert_receipt receive_line settle
receive_new row input ordered = do
  its_lines ← lines row.id
  each ordered (check_receipt its_lines)
  lock_stocks row.event_id row.destination_location_id (map sku_of ordered)
  insert_receipt row input ordered
  each ordered (receive_line row input)
  settle row input

unfoldable pub receive_or_replay :
    TransferDbRow → TransferReceiptInput → List (String × ℤ) → Option ReceiptRow → Tx TransferRow
unfolding receive_new
receive_or_replay row input ordered none = receive_new row input ordered
receive_or_replay row input ordered (some previous) = do
  throw_when (not (same_receipt previous row input ordered))
      (conflict "transfer receipt idempotency key was reused with different content")
  pure (map_row row)

-- `receive` once the transfer is read and the actor is known
unfoldable pub receive_known : TransferDbRow → TransferReceiptInput → Tx TransferRow
unfolding lock receive_or_replay
receive_known row input = do
  throw_when (row.state != in_transit)
      (error "stock can only be received from an in-transit transfer")
  ordered ← gets (λ db. sort_by db.locale_le sku_of input.quantities)
  throw_when (has_repeat (map sku_of ordered)) (conflict "receipt quantities must not repeat a SKU")
  lock (text (template ("stock-transfer-receipt-idempotency:" ∷ input.idempotency_key ∷ [])))
  previous ←
      gets (λ db. find (λ (r : ReceiptRow). r.idempotency_key == input.idempotency_key) db.receipts)
  receive_or_replay row input ordered previous

unfoldable pub receive : String → TransferReceiptInput → Tx TransferRow
unfolding transfer authorize receive_known
receive transfer_id input = do
  row ← transfer transfer_id
  authorize row.event_id input.actor_id transfer_manage
  receive_known row input
