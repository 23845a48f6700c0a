-- ===== src/Edge/Ledger/Tests.antt =====
-- inventory-ledger.service.ts: the theorems at concrete movements.
use eventcommerce_os.Base.{
  ◌≡◌, refl, String, none, some, [], ◌∷◌, ok, arith, ◌⊎◌, find, String-discrete, Option-discrete,
  ◌==◌, string_eq,
}
use native.Mathlib.Decide.{ℕ_discrete}
use eventcommerce_os.Base.Int.{negsuc, fits_bigint, ℤ-discrete, neg}
use eventcommerce_os.Domain.Movement.{
  reversal, wastage, InventoryMovementType-discrete, require_inventory_delta, movement_type_eq,
}
use eventcommerce_os.Edge.Rows.{LedgerInput, LedgerRow, InventoryPermission-discrete}
use eventcommerce_os.Edge.Db.{Db}
use eventcommerce_os.Edge.Fixture.{small_event, beer_receipt}
use eventcommerce_os.Edge.Ledger.{
  insert, insert_with, collides, has_references, existing_row, sum_at, row_of, truthy,
}
use eventcommerce_os.Edge.Ledger.Manual.{ManualMovementInput, manual_movement, post_manual}
use eventcommerce_os.Edge.Ledger.Insert.{insert_replay, insert-IsLedger, IsLedger}
use eventcommerce_os.Edge.Ledger.OnHand.{insert-sum_at, effect}
use eventcommerce_os.Edge.Ledger.Reversal.{post_manual-Negates, Negates}

-- three beers are broken at the warehouse
abbrev broken : LedgerInput
broken = record {
  id = none;
  event_id = "fest";
  inventory_location_id = "warehouse";
  sku_id = "beer";
  movement_type = wastage;
  quantity_delta_base = negsuc 2;
  source_type = "MANUAL";
  source_id = "s";
  source_event_instance_id = none;
  actor_id = some "ann";
  device_id = none;
  reason = some "dropped";
  occurred_at = 1500;
  idempotency_key = "k2";
  reversal_of_ledger_id = none;
}

abbrev broken_row : LedgerRow
broken_row = row_of "uuid-" broken

abbrev after_broken : Db
after_broken = record small_event {
  ledger = broken_row ∷ beer_receipt ∷ [];
  outbox =
      record {
        id = "ledger:uuid-";
        aggregate_id = "uuid-";
        payload = eventcommerce_os.Edge.Rows.ledger_posted broken_row;
      }
      ∷ [];
  locks = eventcommerce_os.Edge.Rows.stock "fest" "warehouse" "beer" ∷ [];
  drawn = 1;
}

breaking_beer : insert broken small_event ≡ ok (broken_row, after_broken)
unfolding insert insert_with collides has_references existing_row require_inventory_delta
    fits_bigint String-discrete Option-discrete ℤ-discrete ℕ_discrete InventoryMovementType-discrete
breaking_beer = refl

insert_replay_example :
    (db'' : Db) × (insert broken after_broken ≡ ok (broken_row, db''))
    × (db''.ledger ≡ after_broken.ledger)
    × (db''.outbox ≡ after_broken.outbox)
insert_replay_example = insert_replay broken small_event breaking_beer refl

small_event-IsLedger : IsLedger small_event.ledger
unfolding collides fits_bigint
small_event-IsLedger = (refl, omega arith, refl, tt)

insert-IsLedger_example :
    IsLedger after_broken.ledger
    × ((after_broken.ledger ≡ small_event.ledger)
        ⊎ (after_broken.ledger ≡ broken_row ∷ small_event.ledger))
insert-IsLedger_example = insert-IsLedger broken small_event breaking_beer small_event-IsLedger

insert-sum_at_example :
    ((after_broken.ledger ≡ small_event.ledger)
      × (sum_at "fest" "warehouse" "beer" after_broken.ledger
          ≡ sum_at "fest" "warehouse" "beer" small_event.ledger))
    ⊎ ((after_broken.ledger ≡ broken_row ∷ small_event.ledger)
        × (sum_at "fest" "warehouse" "beer" after_broken.ledger
            ≡ effect broken "fest" "warehouse" "beer"
                (sum_at "fest" "warehouse" "beer" small_event.ledger)))
insert-sum_at_example = insert-sum_at broken small_event "fest" "warehouse" "beer" breaking_beer

-- the receipt is reversed
abbrev undo : ManualMovementInput
undo = record {
  id = "m2";
  event_id = "fest";
  inventory_location_id = "warehouse";
  sku_id = "beer";
  movement_type = reversal;
  quantity_delta_base = negsuc 39;
  actor_id = "ann";
  reason = "wrong delivery";
  occurred_at = 1600;
  idempotency_key = "k3";
  reversal_of_ledger_id = some "m1";
}

abbrev undo_row : LedgerRow
undo_row = row_of "m2" (manual_movement undo)

abbrev after_undo : Db
after_undo = record small_event {
  ledger = undo_row ∷ beer_receipt ∷ [];
  outbox =
      record {
        id = "ledger:m2";
        aggregate_id = "m2";
        payload = eventcommerce_os.Edge.Rows.ledger_posted undo_row;
      }
      ∷ [];
  locks =
      eventcommerce_os.Edge.Rows.stock "fest" "warehouse" "beer"
      ∷ eventcommerce_os.Edge.Rows.stock "fest" "warehouse" "beer"
      ∷ [];
}

post_undo : post_manual undo small_event ≡ ok (undo_row, after_undo)
unfolding post_manual insert insert_with collides has_references require_inventory_delta fits_bigint
    String-discrete Option-discrete ℤ-discrete ℕ_discrete InventoryMovementType-discrete
    InventoryPermission-discrete neg
post_undo = refl

post_manual-Negates_example :
    (id : String) × (target : LedgerRow) × (truthy (some "m1") ≡ some id)
    × (find (λ row. row.id == id) small_event.ledger ≡ some target)
    × Negates undo_row target
post_manual-Negates_example = post_manual-Negates undo small_event post_undo refl

undo-IsLedger : IsLedger after_undo.ledger
unfolding collides fits_bigint String-discrete Option-discrete
undo-IsLedger = (refl, (λ e. cc), refl, small_event-IsLedger)
