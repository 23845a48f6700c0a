-- ===== src/Edge/Transfer/Dispatch.antt =====
-- inventory-transfer.service.ts, `dispatch`.
use eventcommerce_os.Base.{
  String, Option, none, some, List, [], ◌∷◌, map, ◌!=◌, string_eq, option_eq, nat_eq, update_where,
  length, error, conflict, template,
}
use eventcommerce_os.Base.Int.{ℤ, neg, ltb_ℤ, int_eq}
use eventcommerce_os.Base.Maps.{map_get, map_from}
use eventcommerce_os.Base.Sorting.{sort_by}
use eventcommerce_os.Domain.Movement.{transfer_out}
use eventcommerce_os.Domain.Transitions.{in_transit, require_transfer_transition}
use eventcommerce_os.Edge.Rows.{transfer_manage, LedgerInput, TransferDbRow, TransferLineRow}
use eventcommerce_os.Edge.Db.{Tx, lift, gets, throw_when, modify, each, ◌>>=◌, ◌>>◌}
use eventcommerce_os.Edge.Ledger.{authorize, on_hand, insert}
use eventcommerce_os.Edge.Transfer.{
  TransferDispatchInput, TransferRow, sku_of, transfer, lines, lock_stocks, write_history, finish,
}
use eventcommerce_os.Edge.Transfer.Create.{is_line}
use eventcommerce_os.Edge.Transfer.Advance.{update_state}

-- `reason ?? text`
abbrev pub or_text : Option String → String → String
or_text none text = text
or_text (some reason) text = reason

-- the first loop's tests on one SKU
unfoldable pub check_dispatch : TransferDbRow → List (String × ℤ) → String × ℤ → Tx (Unit {0})
unfolding on_hand
check_dispatch row supplied (sku, quantity) = do
  throw_when (map_get sku supplied != some quantity)
      (error "MVP dispatch quantity must exactly match the requested transfer quantity")
  hand ← on_hand row.event_id row.source_location_id sku
  throw_when (ltb_ℤ hand quantity)
      (conflict (template ("insufficient source stock to dispatch SKU " ∷ sku ∷ [])))

abbrev pub dispatch_movement : TransferDbRow → TransferDispatchInput → String → ℤ → LedgerInput
dispatch_movement row input sku quantity = record {
  id = none;
  event_id = row.event_id;
  inventory_location_id = row.source_location_id;
  sku_id = sku;
  movement_type = transfer_out;
  quantity_delta_base = neg quantity;
  source_type = "TRANSFER";
  source_id = row.id;
  source_event_instance_id = none;
  actor_id = some input.actor_id;
  device_id = none;
  reason = some (or_text input.reason "transfer dispatch");
  occurred_at = input.occurred_at;
  idempotency_key = template ("transfer:" ∷ row.id ∷ ":dispatch:" ∷ sku ∷ []);
  reversal_of_ledger_id = none;
}

-- SET dispatched_quantity = requested_quantity
unfoldable pub mark_dispatched : String → String → Tx (Unit {0})
mark_dispatched transfer_id sku = modify (λ db. record db {
  transfer_lines =
      update_where (is_line transfer_id sku)
        (λ line. record line { dispatched_quantity = line.requested_quantity }) db.transfer_lines;
})

-- the second loop's writes for one SKU
unfoldable pub dispatch_line : TransferDbRow → TransferDispatchInput → String × ℤ → Tx (Unit {0})
unfolding mark_dispatched
dispatch_line row input (sku, quantity) = do
  insert (dispatch_movement row input sku quantity)
  mark_dispatched row.id sku

abbrev pub requested_entry : TransferLineRow → String × ℤ
requested_entry line = (line.sku_id, line.requested_quantity)

-- what `dispatch` writes
unfoldable pub writes : TransferDbRow → TransferDispatchInput → List (String × ℤ) → Tx TransferRow
unfolding dispatch_line update_state write_history finish
writes row input ordered = do
  each ordered (dispatch_line row input)
  update_state row.id in_transit (λ r. record r { in_transit_at = some input.occurred_at })
  write_history row.id (some row.state) in_transit input.actor_id input.reason input.occurred_at
  finish row.id

-- `dispatch` once the quantities are known to be complete, on the SKUs in their order
unfoldable pub dispatch_all :
    TransferDbRow → TransferDispatchInput → List (String × ℤ) → List (String × ℤ) → Tx TransferRow
unfolding lock_stocks check_dispatch writes
dispatch_all row input supplied ordered = do
  lock_stocks row.event_id row.source_location_id (map sku_of ordered)
  each ordered (check_dispatch row supplied)
  writes row input ordered

unfoldable pub dispatch : String → TransferDispatchInput → Tx TransferRow
unfolding transfer authorize lines dispatch_all
dispatch transfer_id input = do
  row ← transfer transfer_id
  authorize row.event_id input.actor_id transfer_manage
  lift (require_transfer_transition row.state in_transit)
  its_lines ← lines transfer_id
  let requested = map_from [] (map requested_entry its_lines)
  let supplied = map_from [] input.quantities
  throw_when (length supplied != length input.quantities)
      (conflict "dispatch quantities must not repeat a SKU")
  throw_when (length requested != length supplied)
      (error "dispatch must include every requested transfer line")
  ordered ← gets (λ db. sort_by db.locale_le sku_of requested)
  dispatch_all row input supplied ordered
