-- ===== src/Edge/Sale/Tests.antt =====
-- inventory-sale-consumer.service.ts: the theorems at a sale of two beers and three spritzes.
use eventcommerce_os.Base.{
  ◌≡◌, refl, String, none, some, List, [], ◌∷◌, ok, All, String-discrete, Option-discrete, find,
  string_eq,
}
use native.Mathlib.Decide.{ℕ_discrete}
use eventcommerce_os.Base.Maps.{map_get}
use eventcommerce_os.Base.Int.{ℤ, pos, ◌+ℤ◌, ◌*ℤ◌, neg, ℤ-discrete, fits_bigint}
use eventcommerce_os.Base.Texts.{trim}
use eventcommerce_os.Contracts.{
  Json, text, integer, array, object, nil, item, empty, member, SyncEventEnvelope,
}
use eventcommerce_os.Domain.Movement.{
  sale, recipe_consumption, InventoryMovementType-discrete, consume_recipe, require_inventory_delta,
}
use eventcommerce_os.Edge.Fixture.{small_event}
use eventcommerce_os.Edge.Ledger.{insert, insert_with, collides, has_references}
use eventcommerce_os.Edge.Sale.Tables.{SaleDb, RecipeRow, MappingRow, SaleInboxRow}
use eventcommerce_os.Edge.Sale.Reading.{ParsedSale, parse}
use eventcommerce_os.Edge.Sale.Recipes.{SaleMovement, expanded, expand}
use eventcommerce_os.Edge.Sale.{consume_one, is_mapped, known_skus, sold_recipes, affected_event}
use eventcommerce_os.Edge.Sale.Demand.{expand-demand, quantity_of, demand}
use eventcommerce_os.Edge.Sale.Taken.{consume_one-IsTaken, IsTaken}
use eventcommerce_os.Edge.Sale.Exceptions.{consume_one-IsRefusal, IsRefusal, unmapped}

abbrev sold_line : String → ℤ → Json
sold_line sku n = object (member "skuId" (text sku) (member "quantity" (integer n) empty))

abbrev cash_order : String → SyncEventEnvelope
cash_order place = record {
  event_instance_id = "e1";
  event_id = "e1";
  event_type = "ORDER_CLOSED_CASH";
  aggregate_type = "ORDER";
  aggregate_id = "o1";
  event_version = 1;
  device_id = "till";
  sequence = 1;
  occurred_at = "2026-01-01T00:00:00.000Z";
  idempotency_key = "e1";
  payload =
      member "lines"
        (array (item (sold_line "beer" (pos 2)) (item (sold_line " spritz " (pos 3)) nil)))
        (member "eventId" (text "fest")
          (member "orderId" (text "o1") (member "salesLocationId" (text place) empty)));
}

abbrev part : String → ℤ → RecipeRow
part sku n = record {
  event_id = "fest";
  sold_sku_id = "spritz";
  component_sku_id = sku;
  quantity_per_sold_unit = n;
}

abbrev inbox_row : SaleInboxRow
inbox_row = record {
  source_event_instance_id = "e1";
  envelope = cash_order "counter";
  received_at = 1500;
  attempts = 0;
  next_attempt_at = 1500;
  processed_at = none;
  outcome = none;
  last_error = none;
}

abbrev counter : MappingRow
counter = record { event_id = "fest"; sales_location_id = "counter"; inventory_location_id = "bar" }

abbrev tables : SaleDb
tables = record {
  stock = small_event;
  mappings = counter ∷ [];
  recipes = part "wine" (pos 150) ∷ part "beer" (pos 1) ∷ [];
  inbox = inbox_row ∷ [];
  exceptions = [];
  milliseconds = λ t. 1400;
  clock = 1600;
}

abbrev sold_at : String → ParsedSale
sold_at place = record {
  event_id = "fest";
  sales_location_id = place;
  order_id = "o1";
  lines =
      record { sku_id = "beer"; quantity = pos 2 }
      ∷ record { sku_id = "spritz"; quantity = pos 3 }
      ∷ [];
}

abbrev sold : ParsedSale
sold = sold_at "counter"

abbrev moved : List (String × SaleMovement)
moved =
    ("SALE:beer", record { sku_id = "beer"; movement_type = sale; quantity = pos 2 })
    ∷ (
      "RECIPE_CONSUMPTION:wine",
      record { sku_id = "wine"; movement_type = recipe_consumption; quantity = pos 450 },
    )
    ∷ (
      "RECIPE_CONSUMPTION:beer",
      record { sku_id = "beer"; movement_type = recipe_consumption; quantity = pos 3 },
    )
    ∷ []

sold-expanded :
    expand (known_skus "fest" tables) (sold_recipes sold tables) sold.lines [] ≡ ok (expanded moved)
unfolding expand consume_recipe ◌*ℤ◌ ◌+ℤ◌ String-discrete
sold-expanded = refl

expand-demand_example :
    quantity_of (map_get "RECIPE_CONSUMPTION:wine" moved)
    ≡ demand "RECIPE_CONSUMPTION:wine" (sold_recipes sold tables) sold.lines
expand-demand_example =
    expand-demand "RECIPE_CONSUMPTION:wine" (known_skus "fest" tables) (sold_recipes sold tables)
      sold.lines sold-expanded

sold-parsed :
    (parse (cash_order "counter") ≡ some sold)
    × (parse (cash_order "stage") ≡ some (sold_at "stage"))
unfolding parse trim String-discrete ℕ_discrete
sold-parsed = (refl, refl)

counter-found : find (is_mapped sold) tables.mappings ≡ some counter
unfolding String-discrete
counter-found = refl

consume_run : (db' : SaleDb) × (consume_one (cash_order "counter") tables ≡ (ok (some "fest"), db'))
unfolding consume_one parse trim expand consume_recipe ◌*ℤ◌ ◌+ℤ◌ neg String-discrete insert
    insert_with collides has_references require_inventory_delta fits_bigint
    InventoryMovementType-discrete ℤ-discrete ℕ_discrete Option-discrete
consume_run = (_, refl)

consume_one-IsTaken_example :
    All (IsTaken (cash_order "counter") sold "bar" 1400 consume_run.0.stock.ledger) moved
consume_one-IsTaken_example =
    consume_one-IsTaken (cash_order "counter") tables sold counter sold-parsed.0 counter-found
      sold-expanded consume_run.1

consume_one-IsRefusal_example :
    (db' : SaleDb) × (consume_one (cash_order "stage") tables
      ≡ (ok (affected_event (parse (cash_order "stage"))), db'))
    × IsRefusal (cash_order "stage") tables db'
unfolding String-discrete
consume_one-IsRefusal_example =
    consume_one-IsRefusal (cash_order "stage") tables refl
      (unmapped (sold_at "stage") sold-parsed.1 refl)
