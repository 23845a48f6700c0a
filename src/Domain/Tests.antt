-- ===== src/Domain/Tests.antt =====
-- packages/domain: the theorems at concrete inputs, and a model of numbers that meets the laws.
use eventcommerce_os.Base.{◌≡◌, refl, true, false, some, List, [], ◌∷◌, ok, arith}
use eventcommerce_os.Base.Int.{ℤ, pos, negsuc, ◌+ℤ◌, ◌-ℤ◌, ◌*ℤ◌, ltb_ℤ, leb_ℤ}
use eventcommerce_os.Domain.Transitions.{transfer_state_eq}
use eventcommerce_os.Domain.Movement.{require_inventory_delta, sale}
use eventcommerce_os.Domain.Movement.Signs.{HasRightSign, require_inventory_delta_iff}
use eventcommerce_os.Domain.Numbers.{Numbers}
use eventcommerce_os.Domain.Replenishment.{
  ReplenishmentInput, recommended_transfer_quantity, StockImbalanceInput, is_stock_imbalanced,
  imbalance_verdict, surplus,
}
use eventcommerce_os.Domain.Replenishment.SafetyStock.{
  IsSound, recommended_transfer_quantity-IsSound,
}
use eventcommerce_os.Domain.Velocity.{ConsumptionSample}

require_inventory_delta_example : HasRightSign sale (negsuc 2)
unfolding require_inventory_delta
require_inventory_delta_example = (require_inventory_delta_iff sale (negsuc 2)).0 (ground arith)

-- integers in place of floating-point numbers
le_of_not_lt_ℤ : (x y : ℤ) → true ≡ true → true ≡ true → ltb_ℤ y x ≡ false → leb_ℤ x y ≡ true
le_of_not_lt_ℤ x y p q h = ground arith

abbrev whole : Numbers
whole = record {
  Num = ℤ;
  num = λ i. i;
  is_finite = λ i. true;
  is_integer = λ i. true;
  is_safe_integer = λ i. true;
  add = ◌+ℤ◌;
  sub = ◌-ℤ◌;
  mul = ◌*ℤ◌;
  div = λ a b. a;
  lt = ltb_ℤ;
  le = leb_ℤ;
  tiny = pos 0;
  ceil_bigint = some;
  le_of_not_lt = le_of_not_lt_ℤ;
  finite_num = refl;
}

-- five sold each minute, cover for ten, twenty there: thirty are needed, and 25 can be spared
abbrev short_bar : ReplenishmentInput whole
short_bar = record {
  destination_available_base = pos 18;
  destination_inbound_base = pos 2;
  source_available_base = pos 40;
  source_safety_stock_base = pos 15;
  velocity_per_minute = pos 5;
  target_cover_minutes = pos 10;
}

short_bar_gets : recommended_transfer_quantity whole short_bar ≡ ok (pos 25)
unfolding recommended_transfer_quantity ◌*ℤ◌ ◌+ℤ◌ ◌-ℤ◌
short_bar_gets = refl

recommended_transfer_quantity-IsSound_example :
    (target : ℤ) × (ok (pos 5 *ℤ pos 10) ≡ ok target) × IsSound whole short_bar target (pos 25)
recommended_transfer_quantity-IsSound_example =
    recommended_transfer_quantity-IsSound whole short_bar short_bar_gets

abbrev lopsided : StockImbalanceInput whole
lopsided = record {
  destination_available_base = pos 4;
  destination_inbound_base = pos 1;
  source_available_base = pos 30;
  source_safety_stock_base = pos 10;
  minimum_ratio = pos 2;
}

lopsided_now : is_stock_imbalanced whole lopsided ≡ ok true
unfolding is_stock_imbalanced imbalance_verdict surplus ◌*ℤ◌ ◌+ℤ◌ ◌-ℤ◌
lopsided_now = refl

abbrev samples : List (ConsumptionSample whole)
samples =
    record { occurred_at_epoch_ms = pos 95; quantity_base = pos 3 }
    ∷ record { occurred_at_epoch_ms = pos 75; quantity_base = pos 4 }
    ∷ record { occurred_at_epoch_ms = pos 10; quantity_base = pos 5 }
    ∷ []
