-- ===== src/Edge/Ledger/Manual.antt =====
-- apps/event-edge/src/inventory/inventory-ledger.service.ts, `postManual`: the movements that an actor
-- posts by hand, and the reversals.
use eventcommerce_os.Base.{
  String, Option, none, some, Bool, true, false, ◌||◌, List, [], ◌∷◌, ◌==◌, ◌!=◌, string_eq,
  option_eq, nat_eq, find, includes, conflict,
}
use eventcommerce_os.Base.Int.{ℤ, neg, int_eq}
use eventcommerce_os.Domain.Movement.{
  InventoryMovementType, sale, recipe_consumption, transfer_out, transfer_in, count_adjustment,
  reversal, movement_type_eq,
}
use eventcommerce_os.Edge.Rows.{Instant, inventory_move, permission_eq, LedgerInput, LedgerRow}
use eventcommerce_os.Edge.Db.{Tx, pure, gets, throw, throw_when, or_throw, branch, ◌>>=◌, ◌>>◌}
use eventcommerce_os.Edge.Ledger.{authorize, lock_stock, same_movement, insert, truthy}

abbrev pub dedicated_workflow_movements : List InventoryMovementType
dedicated_workflow_movements =
    sale ∷ recipe_consumption ∷ transfer_out ∷ transfer_in ∷ count_adjustment ∷ []

pub record ManualMovementInput : Type 0 where
  pub id : String
  pub event_id : String
  pub inventory_location_id : String
  pub sku_id : String
  pub movement_type : InventoryMovementType
  pub quantity_delta_base : ℤ
  pub actor_id : String
  pub reason : String
  pub occurred_at : Instant
  pub idempotency_key : String
  pub reversal_of_ledger_id : Option String

abbrev pub manual_movement : ManualMovementInput → LedgerInput
manual_movement input = record {
  id = some input.id;
  event_id = input.event_id;
  inventory_location_id = input.inventory_location_id;
  sku_id = input.sku_id;
  movement_type = input.movement_type;
  quantity_delta_base = input.quantity_delta_base;
  source_type = "MANUAL";
  source_id = input.id;
  source_event_instance_id = none;
  actor_id = some input.actor_id;
  device_id = none;
  reason = some input.reason;
  occurred_at = input.occurred_at;
  idempotency_key = input.idempotency_key;
  reversal_of_ledger_id = input.reversal_of_ledger_id;
}

-- the checks on a reversal's target
unfoldable pub check_target : ManualMovementInput → LedgerRow → Tx (Unit {0})
check_target input target = do
  throw_when
      (target.event_id != input.event_id
        || target.inventory_location_id != input.inventory_location_id
        || target.sku_id != input.sku_id)
      (conflict "reversal target must match event, location and SKU")
  throw_when (target.movement_type == reversal)
      (conflict "a reversal cannot reverse another reversal")
  throw_when (input.quantity_delta_base != neg target.quantity_delta)
      (conflict "reversal must exactly negate the target movement")

-- what follows when the target was looked up for a reversal before
unfoldable pub after_previous : ManualMovementInput → Option LedgerRow → Tx LedgerRow
after_previous input none = insert (manual_movement input)
after_previous input (some existing) =
    branch (same_movement existing (manual_movement input)) (pure existing)
      (throw (conflict "reversal target was reused"))

-- what follows once the target is found
unfoldable pub reverse_target : ManualMovementInput → LedgerRow → Tx LedgerRow
unfolding check_target after_previous
reverse_target input target = do
  check_target input target
  previous ← gets (λ db. find (λ row. row.reversal_of_ledger_id == some target.id) db.ledger)
  after_previous input previous

unfoldable pub post_reversal : ManualMovementInput → Option String → Tx LedgerRow
unfolding lock_stock
post_reversal input none = throw (conflict "reversal requires a reversal target")
post_reversal input (some target_id) = do
  lock_stock input.event_id input.inventory_location_id input.sku_id
  found ← gets (λ db. find (λ row. row.id == target_id) db.ledger)
  target ← or_throw found (conflict "reversal target does not exist")
  reverse_target input target

abbrev is_some : Option String → Bool
is_some none = false
is_some (some s) = true

-- `postManual`, the body of its transaction
unfoldable pub post_manual : ManualMovementInput → Tx LedgerRow
unfolding authorize post_reversal reverse_target
post_manual input = do
  authorize input.event_id input.actor_id inventory_move
  throw_when (includes input.movement_type dedicated_workflow_movements)
      (conflict "movement type requires a dedicated inventory workflow")
  branch (input.movement_type == reversal)
      (post_reversal input (truthy input.reversal_of_ledger_id))
      (throw_when (is_some (truthy input.reversal_of_ledger_id))
          (conflict "only a REVERSAL movement may reference a reversal target")
        >> insert (manual_movement input))
