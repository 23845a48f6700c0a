-- ===== src/Domain/Movement.antt =====
-- packages/domain/src/inventory.ts: the sign rule of a stock movement, and recipes.
pub mod Signs
use eventcommerce_os.Base.{
  Bool, true, false, ◌&&◌, List, [], ◌∷◌, Eq, ◌==◌, includes, Result, ok, err, throw_if, error,
  String, template,
}
use eventcommerce_os.Base.Int.{ℤ, pos, ◌*ℤ◌, ltb_ℤ, leb_ℤ, int_eq}
use eventcommerce_os.Base.Do.{◌>>◌}

pub data InventoryMovementType : Type 0 where
  receipt transfer_out transfer_in sale recipe_consumption wastage breakage comp count_adjustment
        return_to_warehouse supplier_return reversal :
      InventoryMovementType

unfoldable pub InventoryMovementType-discrete : Discrete InventoryMovementType
InventoryMovementType-discrete = hlevel

instance abbrev pub movement_type_eq : Eq InventoryMovementType
movement_type_eq = record { dec_eq = InventoryMovementType-discrete }

abbrev pub movement_name : InventoryMovementType → String
movement_name receipt = "RECEIPT"
movement_name transfer_out = "TRANSFER_OUT"
movement_name transfer_in = "TRANSFER_IN"
movement_name sale = "SALE"
movement_name recipe_consumption = "RECIPE_CONSUMPTION"
movement_name wastage = "WASTAGE"
movement_name breakage = "BREAKAGE"
movement_name comp = "COMP"
movement_name count_adjustment = "COUNT_ADJUSTMENT"
movement_name return_to_warehouse = "RETURN_TO_WAREHOUSE"
movement_name supplier_return = "SUPPLIER_RETURN"
movement_name reversal = "REVERSAL"

abbrev pub positive_movements : List InventoryMovementType
positive_movements = receipt ∷ transfer_in ∷ []

abbrev pub negative_movements : List InventoryMovementType
negative_movements =
    transfer_out ∷ sale ∷ recipe_consumption ∷ wastage ∷ breakage ∷ comp ∷ return_to_warehouse
    ∷ supplier_return ∷ []

unfoldable pub require_inventory_delta : InventoryMovementType → ℤ → Result ℤ
require_inventory_delta type quantity_delta_base = do
  throw_if (quantity_delta_base == pos 0) (error "inventory movement quantity must not be zero")
  throw_if (includes type positive_movements && ltb_ℤ quantity_delta_base (pos 0))
      (error (template (movement_name type ∷ " inventory movement must increase stock" ∷ [])))
  throw_if (includes type negative_movements && ltb_ℤ (pos 0) quantity_delta_base)
      (error (template (movement_name type ∷ " inventory movement must decrease stock" ∷ [])))
  ok quantity_delta_base

unfoldable pub consume_recipe : ℤ → ℤ → Result ℤ
consume_recipe sold_quantity component_quantity_per_unit = do
  throw_if (leb_ℤ sold_quantity (pos 0)) (error "sold quantity must be positive")
  throw_if (leb_ℤ component_quantity_per_unit (pos 0))
      (error "recipe component quantity per unit must be positive")
  ok (sold_quantity *ℤ component_quantity_per_unit)
