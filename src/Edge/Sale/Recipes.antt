-- ===== src/Edge/Sale/Recipes.antt =====
-- apps/event-edge/src/inventory/inventory-sale-consumer.service.ts, `addMovement` and the loop of
-- `consumeOne` over the lines: the movements of a sale by the recipes.
use eventcommerce_os.Base.{
  String, Option, none, some, true, false, List, [], ◌∷◌, ◌==◌, string_eq, Result, ok, err, select,
  includes, template,
}
use eventcommerce_os.Base.Maps.{map_get, map_set}
use eventcommerce_os.Base.Int.{ℤ, ◌+ℤ◌}
use eventcommerce_os.Domain.Movement.{
  InventoryMovementType, sale, recipe_consumption, movement_name, consume_recipe,
}
use eventcommerce_os.Edge.Sale.Tables.{RecipeRow}
use eventcommerce_os.Edge.Sale.Reading.{SaleLine}

pub record SaleMovement : Type 0 where
  pub sku_id : String
  pub movement_type : InventoryMovementType
  pub quantity : ℤ

-- `${type}:${skuId}`
abbrev pub movement_key : InventoryMovementType → String → String
movement_key type sku = template (movement_name type ∷ ":" ∷ sku ∷ [])

abbrev pub add_to : Option SaleMovement → SaleMovement → SaleMovement
add_to none new = new
add_to (some old) new = record old { quantity = old.quantity +ℤ new.quantity }

unfoldable pub add_movement :
    String → InventoryMovementType → ℤ → List (String × SaleMovement) → List (String × SaleMovement)
add_movement sku type quantity movements =
    map_set (movement_key type sku)
      (add_to (map_get (movement_key type sku) movements)
        (record { sku_id = sku; movement_type = type; quantity = quantity }))
      movements

-- what the loop over the lines ends with: the movements, or the SKU that is not configured
pub data Expansion : Type 0 where
  expanded : List (String × SaleMovement) → Expansion
  unknown_sku : String → Expansion
  unknown_component : (sold component : String) → Expansion

unfoldable pub add_components :
    List String → SaleLine → List RecipeRow → List (String × SaleMovement) → Result Expansion
unfolding add_movement
add_components known line [] movements = ok (expanded movements)
add_components known line (c ∷ components) movements = elim (includes c.component_sku_id known) [
  | false ↦ ok (unknown_component line.sku_id c.component_sku_id)
  | true ↦ elim (consume_recipe line.quantity c.quantity_per_sold_unit) [
    | err e ↦ err e
    | ok used ↦
        add_components known line components
          (add_movement c.component_sku_id recipe_consumption used movements)
  ]
]

-- the movements of one line, whose recipe is given: without one, the SKU is sold as it is
unfoldable pub expand_line :
    List String → SaleLine → List RecipeRow → List (String × SaleMovement) → Result Expansion
unfolding add_movement add_components
expand_line known line [] movements = elim (includes line.sku_id known) [
  | false ↦ ok (unknown_sku line.sku_id)
  | true ↦ ok (expanded (add_movement line.sku_id sale line.quantity movements))
]
expand_line known line (c ∷ components) movements =
    add_components known line (c ∷ components) movements

abbrev pub recipe_of : List RecipeRow → String → List RecipeRow
recipe_of recipes sku = select (λ r. r.sold_sku_id == sku) recipes

unfoldable pub expand :
    List String → List RecipeRow → List SaleLine → List (String × SaleMovement) → Result Expansion
unfolding expand_line
expand known recipes [] movements = ok (expanded movements)
expand known recipes (line ∷ lines) movements =
    elim (expand_line known line (recipe_of recipes line.sku_id) movements) [
      | ok (expanded more) ↦ expand known recipes lines more
      | ok (unknown_sku sku) ↦ ok (unknown_sku sku)
      | ok (unknown_component sold component) ↦ ok (unknown_component sold component)
      | err e ↦ err e
    ]
