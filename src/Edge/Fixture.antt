-- ===== src/Edge/Fixture.antt =====
-- A small event for the tests of apps/event-edge: two locations, two SKUs and one actor.
use eventcommerce_os.Base.{
  ◌≡◌, refl, Result, ok, err, ℕ, String, true, [], ◌∷◌, some, none, template,
}
use eventcommerce_os.Base.Int.{pos}
use eventcommerce_os.Domain.Movement.{receipt}
use eventcommerce_os.Edge.Rows.{
  LedgerRow, InventoryPermission, inventory_move, transfer_manage, count_manage, PermissionRow,
  LocationRow, SkuRow,
}
use eventcommerce_os.Edge.Db.{Db}

abbrev grant : InventoryPermission → PermissionRow
grant p = record { event_id = "fest"; actor_id = "ann"; permission = p }

abbrev place : String → LocationRow
place id = record { event_id = "fest"; id = id }

abbrev sku : String → SkuRow
sku id = record { event_id = "fest"; sku_id = id }

-- forty beers were received at the warehouse
abbrev pub beer_receipt : LedgerRow
beer_receipt = record {
  id = "m1";
  event_id = "fest";
  inventory_location_id = "warehouse";
  sku_id = "beer";
  movement_type = receipt;
  quantity_delta = pos 40;
  source_type = "MANUAL";
  source_id = "m1";
  source_event_instance_id = none;
  actor_id = some "ann";
  device_id = none;
  reason = some "delivery";
  occurred_at = 1000;
  idempotency_key = "k1";
  reversal_of_ledger_id = none;
}

abbrev tally : ℕ → String
tally ℕ.zero = ""
tally (ℕ.suc n) = template ("I" ∷ tally n ∷ [])

abbrev pub small_event : Db
small_event = record {
  permissions = grant inventory_move ∷ grant transfer_manage ∷ grant count_manage ∷ [];
  locations = place "warehouse" ∷ place "bar" ∷ [];
  skus = sku "beer" ∷ sku "wine" ∷ [];
  ledger = beer_receipt ∷ [];
  transfers = [];
  transfer_lines = [];
  history = [];
  receipts = [];
  counts = [];
  count_lines = [];
  outbox = [];
  locks = [];
  uuids = λ n. template ("uuid-" ∷ tally n ∷ []);
  drawn = 0;
  now = 2000;
  locale_le = λ a b. true;
  sql_le = λ a b. true;
}

module _ {A : Type 0} where
  -- an action has succeeded; its result and its database
  abbrev pub IsDone : Result (A × Db) → Type 0
  IsDone (ok x) = Unit
  IsDone (err e) = ⊥

  abbrev pub done : (r : Result (A × Db)) → IsDone r → A × Db
  done (ok x) h = x
  done (err e) h = absurd h

  pub done_lem : (r : Result (A × Db)) → (h : IsDone r) → r ≡ ok (done r h)
  done_lem (ok x) h = refl
  done_lem (err e) h = absurd h
