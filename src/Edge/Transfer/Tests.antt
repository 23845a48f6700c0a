-- ===== src/Edge/Transfer/Tests.antt =====
-- inventory-transfer.service.ts: the theorems at a transfer of six beers from the warehouse to the bar.
use eventcommerce_os.Base.{
  string_eq, err, ◌≡◌, Failure, refl, none, some, [], ◌∷◌, ok, find, All, String-discrete,
  Option-discrete,
}
use native.Mathlib.Decide.{ℕ_discrete}
use eventcommerce_os.Base.Int.{pos, ℤ, ℤ-discrete, fits_bigint, neg, ◌-ℤ◌, ◌+ℤ◌}
use eventcommerce_os.Base.Maps.{map_from}
use eventcommerce_os.Domain.Movement.{InventoryMovementType-discrete, require_inventory_delta}
use eventcommerce_os.Domain.Transitions.{
  StockTransferState, requested, assigned, picking, in_transit, received,
  require_transfer_transition, StockTransferState-discrete,
}
use eventcommerce_os.Edge.Rows.{TransferDbRow, InventoryPermission-discrete}
use eventcommerce_os.Edge.Db.{Db}
use eventcommerce_os.Edge.Fixture.{small_event, IsDone, done, done_lem}
use eventcommerce_os.Edge.Ledger.{insert, insert_with, collides, has_references, sum_at}
use eventcommerce_os.Edge.Transfer.{
  TransferTransitionInput, TransferDispatchInput, TransferReceiptInput, TransferRow, map_row,
  has_id,
}
use eventcommerce_os.Edge.Transfer.Advance.{simple_transition}
use eventcommerce_os.Edge.Transfer.Dispatch.{dispatch}
use eventcommerce_os.Edge.Transfer.Receive.{receive, same_receipt, Quantities-discrete}
use eventcommerce_os.Edge.Transfer.States.{Moved, SameTables, simple_transition-Moved}
use eventcommerce_os.Edge.Transfer.Stock.{Covered, requested_of, dispatch-Covered}
use eventcommerce_os.Edge.Transfer.Receipts.{receive-last, receipt_locked}
use eventcommerce_os.Edge.Transfer.Once.{receive_once}

abbrev beers : StockTransferState → TransferDbRow
beers state = record {
  id = "t1";
  event_id = "fest";
  source_location_id = "warehouse";
  destination_location_id = "bar";
  state = state;
  requested_by_actor_id = "ann";
  assigned_actor_id = none;
  request_reason = "bar is empty";
  requested_at = 1200;
  assigned_at = none;
  picking_at = none;
  in_transit_at = none;
  received_at = none;
  cancelled_at = none;
  updated_at = 1200;
  idempotency_key = some "t-key";
}

-- the small event with the transfer in a state, and the dispatched quantity of its line
abbrev event_with : StockTransferState → ℤ → Db
event_with state dispatched = record small_event {
  transfers = beers state ∷ [];
  transfer_lines =
      record {
        transfer_id = "t1";
        sku_id = "beer";
        requested_quantity = pos 6;
        dispatched_quantity = dispatched;
        received_quantity = pos 0;
      }
      ∷ [];
}

abbrev to_ann : TransferTransitionInput
to_ann = record {
  actor_id = "ann";
  reason = none;
  assigned_actor_id = some "ann";
  occurred_at = 1300;
}

assigning-IsDone : IsDone (simple_transition "t1" to_ann assigned (event_with requested (pos 0)))
unfolding simple_transition require_transfer_transition String-discrete Option-discrete ℕ_discrete
    InventoryPermission-discrete StockTransferState-discrete
assigning-IsDone = tt

simple_transition-Moved_example :
    (row : TransferDbRow) × (Moved "t1" assigned row
        (done
          (simple_transition "t1" to_ann assigned (event_with requested (pos 0)))
          assigning-IsDone).0
        (event_with requested (pos 0))
        (done
          (simple_transition "t1" to_ann assigned (event_with requested (pos 0)))
          assigning-IsDone).1
      × SameTables
          (event_with requested (pos 0))
          (done
            (simple_transition "t1" to_ann assigned (event_with requested (pos 0)))
            assigning-IsDone).1)
simple_transition-Moved_example =
    simple_transition-Moved "t1" to_ann assigned (event_with requested (pos 0)) (
      done_lem (simple_transition "t1" to_ann assigned (event_with requested (pos 0)))
        assigning-IsDone)

abbrev six_beers : TransferDispatchInput
six_beers = record {
  actor_id = "ann";
  reason = none;
  occurred_at = 1400;
  quantities = ("beer", pos 6) ∷ [];
}

abbrev picked : Db
picked = event_with picking (pos 0)

dispatching-IsDone : IsDone (dispatch "t1" six_beers picked)
unfolding dispatch insert insert_with collides has_references require_inventory_delta
    require_transfer_transition fits_bigint String-discrete Option-discrete ℤ-discrete ℕ_discrete
    InventoryMovementType-discrete InventoryPermission-discrete StockTransferState-discrete neg
    sum_at ◌+ℤ◌
dispatching-IsDone = tt

dispatch-Covered_example :
    (row : TransferDbRow) × (find (has_id "t1") picked.transfers ≡ some row)
    × (require_transfer_transition row.state in_transit ≡ ok in_transit)
    × All (Covered row (map_from [] (("beer", pos 6) ∷ [])) picked) (requested_of "t1" picked)
dispatch-Covered_example =
    dispatch-Covered "t1" six_beers picked
      (done_lem (dispatch "t1" six_beers picked) dispatching-IsDone)

-- a receipt of some of the beers
abbrev arrived : ℤ → TransferReceiptInput
arrived quantity = record {
  actor_id = "ann";
  reason = none;
  received_at = 1500;
  idempotency_key = "r-key";
  quantities = ("beer", quantity) ∷ [];
}

abbrev moving : Db
moving = event_with in_transit (pos 6)

all_beers-IsDone : IsDone (receive "t1" (arrived (pos 6)) moving)
unfolding receive insert insert_with collides has_references require_inventory_delta fits_bigint
    String-discrete Option-discrete ℤ-discrete ℕ_discrete InventoryMovementType-discrete
    InventoryPermission-discrete StockTransferState-discrete Quantities-discrete neg ◌-ℤ◌ ◌+ℤ◌
all_beers-IsDone = tt

abbrev all_beers : TransferRow × Db
all_beers = done (receive "t1" (arrived (pos 6)) moving) all_beers-IsDone

all_beers_state : all_beers.0.state ≡ received
unfolding receive insert insert_with collides has_references require_inventory_delta fits_bigint
    String-discrete Option-discrete ℤ-discrete ℕ_discrete InventoryMovementType-discrete
    InventoryPermission-discrete StockTransferState-discrete Quantities-discrete neg ◌-ℤ◌ ◌+ℤ◌
all_beers_state = refl

receive-last_example : (e : Failure) × (receive "t1" (arrived (pos 6)) all_beers.1 ≡ err e)
receive-last_example =
    receive-last "t1" (arrived (pos 6)) (arrived (pos 6)) moving
      (done_lem (receive "t1" (arrived (pos 6)) moving) all_beers-IsDone) all_beers_state

two_beers-IsDone : IsDone (receive "t1" (arrived (pos 2)) moving)
unfolding receive insert insert_with collides has_references require_inventory_delta fits_bigint
    String-discrete Option-discrete ℤ-discrete ℕ_discrete InventoryMovementType-discrete
    InventoryPermission-discrete StockTransferState-discrete Quantities-discrete neg ◌-ℤ◌ ◌+ℤ◌
two_beers-IsDone = tt

abbrev two_beers : TransferRow × Db
two_beers = done (receive "t1" (arrived (pos 2)) moving) two_beers-IsDone

two_beers_again-IsDone : IsDone (receive "t1" (arrived (pos 2)) two_beers.1)
unfolding receive insert insert_with collides has_references require_inventory_delta fits_bigint
    String-discrete Option-discrete ℤ-discrete ℕ_discrete InventoryMovementType-discrete
    InventoryPermission-discrete StockTransferState-discrete Quantities-discrete neg ◌-ℤ◌ ◌+ℤ◌
    same_receipt
two_beers_again-IsDone = tt

abbrev two_beers_again : TransferRow × Db
two_beers_again = done (receive "t1" (arrived (pos 2)) two_beers.1) two_beers_again-IsDone

receive_once_example :
    (row : TransferDbRow) × (find (has_id "t1") two_beers.1.transfers ≡ some row)
    × (two_beers_again.0 ≡ map_row row)
    × (two_beers_again.1 ≡ receipt_locked (arrived (pos 2)) two_beers.1)
receive_once_example =
    receive_once "t1" "t1" (arrived (pos 2)) (arrived (pos 2)) moving
      (done_lem (receive "t1" (arrived (pos 2)) moving) two_beers-IsDone) refl
      (done_lem (receive "t1" (arrived (pos 2)) two_beers.1) two_beers_again-IsDone)
