-- ===== src/Domain/Movement/Signs.antt =====
-- packages/domain/src/inventory.ts: which quantities a movement of each type accepts.
use eventcommerce_os.Base.{ℕ, ◌≡◌, ok, arith, ◌↔◌, ◌≢◌, ◌<◌, ◌*◌}
use eventcommerce_os.Base.Int.{ℤ, pos, negsuc, ◌<ℤ◌, ◌*ℤ◌, neg}
use eventcommerce_os.Domain.Movement.{
  InventoryMovementType, receipt, transfer_in, recipe_consumption, count_adjustment, reversal,
  InventoryMovementType-discrete, require_inventory_delta, consume_recipe,
}

-- The specification: an increase, a decrease, or any change but none.
abbrev pub HasRightSign : InventoryMovementType → ℤ → Type 0
HasRightSign receipt q = pos 0 <ℤ q
HasRightSign transfer_in q = pos 0 <ℤ q
HasRightSign count_adjustment q = q ≢ pos 0
HasRightSign reversal q = q ≢ pos 0
HasRightSign _ q = q <ℤ pos 0

-- A movement is accepted, and its quantity returned unchanged, exactly when its sign is right:
-- receipts and incoming transfers add stock, sales, losses and outgoing movements remove it, and
-- count adjustments and reversals may do either but never nothing.
pub require_inventory_delta_iff :
    (type : InventoryMovementType) (q : ℤ)
    → (require_inventory_delta type q ≡ ok q) ↔ HasRightSign type q
unfolding require_inventory_delta InventoryMovementType-discrete
require_inventory_delta_iff receipt q = (λ h. ground arith, λ h. ground arith)
require_inventory_delta_iff _ q = (λ h. ground arith, λ h. ground arith)

-- What is returned is always the quantity that was given.
pub require_inventory_delta_same :
    (type : InventoryMovementType) (q : ℤ) {r : ℤ} → require_inventory_delta type q ≡ ok r → r ≡ q
unfolding require_inventory_delta
require_inventory_delta_same type q h = ground arith

mul_pos : (a b : ℕ) → 0 < a → 0 < b → 0 < a * b
mul_pos a b h k = grind arith

-- Every recipe consumption that is computed is positive, so its negation passes the sign rule of a
-- RECIPE_CONSUMPTION movement.
pub consume_recipe_sign :
    (sold per : ℤ) {q : ℤ}
    → consume_recipe sold per ≡ ok q
    → HasRightSign recipe_consumption (neg q)
unfolding consume_recipe ◌*ℤ◌ neg
consume_recipe_sign (pos sold) (pos per) h = ground (arith, mul_pos sold per)
consume_recipe_sign (pos sold) (negsuc per) h = ground arith
consume_recipe_sign (negsuc sold) per h = ground arith
