-- ===== src/Edge/Transfer/Advance.antt =====
-- inventory-transfer.service.ts, `assign`, `startPicking`, `cancel` and `simpleTransition`.
use eventcommerce_os.Base.{String, Option, none, some, string_eq, update_where, error, Result}
use eventcommerce_os.Domain.Transitions.{
  StockTransferState, assigned, picking, cancelled, require_transfer_transition,
}
use eventcommerce_os.Edge.Rows.{transfer_manage, TransferDbRow}
use eventcommerce_os.Edge.Db.{Tx, throw, lift, modify, ◌>>=◌, ◌>>◌}
use eventcommerce_os.Edge.Ledger.{authorize, truthy}
use eventcommerce_os.Edge.Transfer.{
  TransferTransitionInput, TransferRow, has_id, transfer, write_history, finish,
}

-- the columns that UPDATE sets beside the state: the assignment and the milestone
abbrev pub stamp : StockTransferState → TransferTransitionInput → TransferDbRow → TransferDbRow
stamp assigned input row = record row {
  assigned_actor_id = input.assigned_actor_id;
  assigned_at = some input.occurred_at;
}
stamp picking input row = record row { picking_at = some input.occurred_at }
stamp cancelled input row = record row { cancelled_at = some input.occurred_at }
stamp _ input row = row

unfoldable pub update_state :
    String → StockTransferState → (TransferDbRow → TransferDbRow) → Tx (Unit {0})
update_state id to also = modify (λ db. record db {
  transfers =
      update_where (has_id id) (λ row. also (record row { state = to; updated_at = db.now }))
        db.transfers;
})

unfoldable pub simple_transition :
    String → TransferTransitionInput → StockTransferState → Tx TransferRow
unfolding transfer authorize update_state write_history finish
simple_transition transfer_id input to_state = do
  row ← transfer transfer_id
  authorize row.event_id input.actor_id transfer_manage
  lift (require_transfer_transition row.state to_state)
  update_state row.id to_state (stamp to_state input)
  write_history row.id (some row.state) to_state input.actor_id input.reason input.occurred_at
  finish row.id

abbrev pub require_text : Option String → String → Tx (Unit {0})
require_text none message db = throw (error message) db
require_text (some s) message db = Result.ok (tt, db)

unfoldable pub assign : String → TransferTransitionInput → Tx TransferRow
unfolding simple_transition
assign transfer_id input =
    require_text (truthy input.assigned_actor_id)
      "assignedActorId is required when assigning a transfer"
    >> simple_transition transfer_id input assigned

unfoldable pub start_picking : String → TransferTransitionInput → Tx TransferRow
unfolding simple_transition
start_picking transfer_id input = simple_transition transfer_id input picking

unfoldable pub cancel : String → TransferTransitionInput → Tx TransferRow
unfolding simple_transition
cancel transfer_id input =
    require_text (truthy input.reason) "cancelling a transfer requires a reason"
    >> simple_transition transfer_id input cancelled
