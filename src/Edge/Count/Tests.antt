-- ===== src/Edge/Count/Tests.antt =====
-- inventory-count.service.ts: the theorem at a count of the beers in the warehouse, where three of
-- the forty that the ledger has are missing.
use eventcommerce_os.Base.{
  ◌≡◌, refl, none, some, [], ◌∷◌, false, All, String-discrete, Option-discrete,
}
use native.Mathlib.Decide.{ℕ_discrete}
use eventcommerce_os.Base.Int.{pos, ℤ-discrete, fits_bigint, neg, ◌-ℤ◌, ◌+ℤ◌}
use eventcommerce_os.Domain.Movement.{InventoryMovementType-discrete, require_inventory_delta}
use eventcommerce_os.Edge.Rows.{CountRow, CountLineRow, InventoryPermission-discrete}
use eventcommerce_os.Edge.Db.{Db}
use eventcommerce_os.Edge.Fixture.{small_event, IsDone, done, done_lem}
use eventcommerce_os.Edge.Ledger.{insert, insert_with, collides, has_references, sum_at}
use eventcommerce_os.Edge.Count.{CloseStockCountInput, close, lines_in}
use eventcommerce_os.Edge.Count.Adjusting.{stock_of}
use eventcommerce_os.Edge.Count.Closing.{close-Counted}

abbrev morning : CountRow
morning = record {
  id = "c1";
  event_id = "fest";
  inventory_location_id = "warehouse";
  closed = false;
  opened_by_actor_id = "ann";
  opened_at = 1100;
  closed_by_actor_id = none;
  closed_at = none;
  reason = some "morning count";
}

abbrev counting : Db
counting = record small_event {
  counts = morning ∷ [];
  count_lines =
      record {
        count_id = "c1";
        sku_id = "beer";
        counted_quantity = pos 37;
        expected_quantity_at_close = none;
        adjustment_ledger_id = none;
      }
      ∷ [];
}

abbrev ending : CloseStockCountInput
ending = record { actor_id = "ann"; reason = "counted"; closed_at = 1300 }

closing-IsDone : IsDone (close "c1" ending counting)
unfolding close insert insert_with collides has_references require_inventory_delta fits_bigint
    sum_at String-discrete Option-discrete ℤ-discrete ℕ_discrete InventoryMovementType-discrete
    InventoryPermission-discrete neg ◌-ℤ◌ ◌+ℤ◌
closing-IsDone = tt

close-Counted_example :
    All
      (λ (l : CountLineRow).
        stock_of morning l.sku_id (done (close "c1" ending counting) closing-IsDone).1.ledger
        ≡ l.counted_quantity)
      (lines_in "c1" counting)
unfolding String-discrete
close-Counted_example =
    close-Counted "c1" ending counting morning refl refl refl (refl, tt)
      (done_lem (close "c1" ending counting) closing-IsDone)
