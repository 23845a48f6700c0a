-- ===== src/Edge/Ledger.antt =====
-- apps/event-edge/src/inventory/inventory-ledger.service.ts and inventory-authorization.service.ts:
-- the append-only stock ledger. The table's newest row is at the head of the list.
pub mod Manual
pub mod Posting
pub mod Insert
pub mod OnHand
pub mod Reversal
mod Tests
use eventcommerce_os.Base.{
  String, Option, none, some, Bool, true, false, ◌&&◌, ◌||◌, not, List, [], ◌∷◌, ◌==◌, ◌!=◌,
  string_eq, option_eq, nat_eq, any, find, select, includes, if◌then◌else◌, Failure, conflict,
  forbidden, database, template,
}
use eventcommerce_os.Base.Int.{ℤ, pos, ◌+ℤ◌, neg, int_eq, fits_bigint}
use eventcommerce_os.Domain.Movement.{
  InventoryMovementType, sale, recipe_consumption, transfer_out, transfer_in, count_adjustment,
  reversal, movement_type_eq, require_inventory_delta,
}
use eventcommerce_os.Edge.Rows.{
  Instant, InventoryPermission, inventory_move, permission_eq, permission_name, LedgerInput,
  LedgerRow, OutboxPayload, ledger_posted, stock,
}
use eventcommerce_os.Edge.Db.{
  Db, Tx, pure, lift, gets, throw, throw_when, or_throw, modify, branch, ◌>>=◌, ◌>>◌, lock,
  random_uuid,
}

-- `InventoryAuthorizationService.require`
unfoldable pub authorize : String → String → InventoryPermission → Tx (Unit {0})
authorize event_id actor_id permission db =
    throw_when
      (not (
        any
          (λ row.
            row.event_id == event_id && row.actor_id == actor_id && row.permission == permission)
          db.permissions))
      (forbidden (template ("actor is not authorized for " ∷ permission_name permission ∷ []))) db

unfoldable pub lock_stock : String → String → String → Tx (Unit {0})
unfolding lock
lock_stock event_id inventory_location_id sku_id =
    lock (stock event_id inventory_location_id sku_id)

abbrev pub is_at : String → String → String → LedgerRow → Bool
is_at event_id inventory_location_id sku_id row =
    row.event_id == event_id
    && row.inventory_location_id == inventory_location_id
    && row.sku_id == sku_id

-- SUM(quantity_delta) over the rows at one place
unfoldable pub sum_at : String → String → String → List LedgerRow → ℤ
sum_at event_id location sku [] = pos 0
sum_at event_id location sku (row ∷ rows) =
    let rest = sum_at event_id location sku rows in
    if is_at event_id location sku row then row.quantity_delta +ℤ rest else rest

unfoldable pub on_hand : String → String → String → Tx ℤ
on_hand event_id inventory_location_id sku_id =
    gets (λ db. sum_at event_id inventory_location_id sku_id db.ledger)

-- `input.id === undefined || row.id === input.id`
abbrev pub same_id : Option String → String → Bool
same_id none id = true
same_id (some wanted) id = id == wanted

unfoldable pub same_movement : LedgerRow → LedgerInput → Bool
same_movement row input =
    same_id input.id row.id
    && row.event_id == input.event_id
    && row.inventory_location_id == input.inventory_location_id
    && row.sku_id == input.sku_id
    && row.movement_type == input.movement_type
    && row.quantity_delta == input.quantity_delta_base
    && row.source_type == input.source_type
    && row.source_id == input.source_id
    && row.source_event_instance_id == input.source_event_instance_id
    && row.actor_id == input.actor_id
    && row.device_id == input.device_id
    && row.reason == input.reason
    && row.occurred_at == input.occurred_at
    && row.reversal_of_ledger_id == input.reversal_of_ledger_id

-- INSERT INTO edge_inventory_cloud_outbox
unfoldable pub enqueue : String → String → OutboxPayload → Tx (Unit {0})
enqueue id aggregate_id payload = do
  taken ← gets (λ db. any (λ o. o.id == id) db.outbox)
  throw_when taken (database "duplicate key in edge_inventory_cloud_outbox")
  modify (λ db. record db {
    outbox = record { id = id; aggregate_id = aggregate_id; payload = payload } ∷ db.outbox;
  })

unfoldable pub queue_cloud : LedgerRow → Tx (Unit {0})
unfolding enqueue
queue_cloud row = enqueue (template ("ledger:" ∷ row.id ∷ [])) row.id (ledger_posted row)

-- the row that INSERT writes
abbrev pub row_of : String → LedgerInput → LedgerRow
row_of id input = record {
  id = id;
  event_id = input.event_id;
  inventory_location_id = input.inventory_location_id;
  sku_id = input.sku_id;
  movement_type = input.movement_type;
  quantity_delta = input.quantity_delta_base;
  source_type = input.source_type;
  source_id = input.source_id;
  source_event_instance_id = input.source_event_instance_id;
  actor_id = input.actor_id;
  device_id = input.device_id;
  reason = input.reason;
  occurred_at = input.occurred_at;
  idempotency_key = input.idempotency_key;
  reversal_of_ledger_id = input.reversal_of_ledger_id;
}

-- a reversal target that another row reverses already: the unique index of migration 0006
abbrev pub reverses : Option String → LedgerRow → Bool
reverses none row = false
reverses (some target) row = row.reversal_of_ledger_id == some target

-- whether a unique index of the table refuses the row
unfoldable pub collides : LedgerRow → List LedgerRow → Bool
collides row rows =
    any
      (λ old.
        old.id == row.id
        || old.idempotency_key == row.idempotency_key
        || reverses row.reversal_of_ledger_id old)
      rows

-- whether the row that a reversal refers to is there
abbrev has_target : Option String → List LedgerRow → Bool
has_target none rows = true
has_target (some target) rows = any (λ old. old.id == target) rows

-- whether the foreign keys of the row are there
unfoldable pub has_references : LedgerRow → Db → Bool
has_references row db =
    any (λ l. l.event_id == row.event_id && l.id == row.inventory_location_id) db.locations
    && any (λ s. s.event_id == row.event_id && s.sku_id == row.sku_id) db.skus
    && has_target row.reversal_of_ledger_id db.ledger

-- INSERT … ON CONFLICT DO NOTHING: whether the row was inserted
unfoldable pub insert_row : LedgerRow → Tx Bool
insert_row row = do
  throw_when (not (fits_bigint row.quantity_delta)) (database "bigint out of range")
  taken ← gets (λ db. collides row db.ledger)
  branch taken (pure false) (do
    linked ← gets (has_references row)
    throw_when (not linked) (database "foreign key violation in edge_inventory_ledger")
    modify (λ db. record db { ledger = row ∷ db.ledger })
    pure true)

-- SELECT … WHERE idempotency_key = $1 OR id = $2 ORDER BY (idempotency_key = $1) DESC LIMIT 1
unfoldable pub existing_row : String → String → List LedgerRow → Option LedgerRow
existing_row key id rows = elim (find (λ row. row.idempotency_key == key) rows) [
  | some row ↦ some row
  | none ↦ find (λ row. row.id == id) rows
]

-- `input.id ?? randomUUID()`
abbrev choose_id : Option String → Tx String
choose_id none = random_uuid
choose_id (some id) = pure id

-- what `insert` does when the database has kept its old rows
unfoldable pub replay_row : LedgerInput → Option LedgerRow → Tx LedgerRow
replay_row input none =
    throw (conflict "inventory idempotency key was reused with different movement content")
replay_row input (some row) =
    branch (same_movement row input) (pure row)
      (throw (conflict "inventory idempotency key was reused with different movement content"))

-- `insert` from the id on
unfoldable pub insert_with : LedgerInput → String → Tx LedgerRow
unfolding queue_cloud insert_row replay_row
insert_with input id = do
  let row = row_of id input
  inserted ← insert_row row
  branch inserted (queue_cloud row >> pure row)
      (gets (λ db. existing_row input.idempotency_key id db.ledger) >>= replay_row input)

unfoldable pub insert : LedgerInput → Tx LedgerRow
unfolding lock_stock random_uuid
insert input = do
  lift (require_inventory_delta input.movement_type input.quantity_delta_base)
  lock_stock input.event_id input.inventory_location_id input.sku_id
  id ← choose_id input.id
  insert_with input id

-- an optional text as a condition of `if`: the empty text counts as missing
abbrev pub truthy : Option String → Option String
truthy none = none
truthy (some s) = if s == "" then none else some s
