-- ===== src/Domain/Replenishment/SafetyStock.antt =====
-- packages/domain/src/inventory.ts, inventory-imbalance.ts: what the recommendations guarantee.
use eventcommerce_os.Base.{◌≡◌, refl, true, some, ok, arith, ◌⊎◌, inl, inr, Option-cases}
use eventcommerce_os.Base.Int.{ℤ, pos, ◌+ℤ◌, ◌-ℤ◌, ◌*ℤ◌, ◌≤ℤ◌, int_laws}
use eventcommerce_os.Domain.Numbers.{Numbers}
use eventcommerce_os.Domain.Replenishment.{
  surplus, to_bigint, ReplenishmentInput, recommended_transfer_quantity, StockImbalanceInput,
  is_stock_imbalanced, imbalance_verdict, StockRiskInput, StockRiskResult, evaluate_stock_risk,
}

surplus_parts :
    (a b : ℤ)
    → (pos 0 ≤ℤ surplus a b)
      × ((surplus a b ≡ pos 0) ⊎ (surplus a b ≡ a -ℤ b))
      × (a -ℤ b ≤ℤ surplus a b)
unfolding surplus ◌-ℤ◌
surplus_parts a b = ground arith

surplus_mono : (a b s : ℤ) → a ≤ℤ b → surplus a s ≤ℤ surplus b s
unfolding surplus ◌-ℤ◌
surplus_mono a b s h = ground arith

scale_mono : (a b : ℤ) → a ≤ℤ b → a *ℤ pos 10000 ≤ℤ b *ℤ pos 10000
unfolding ◌*ℤ◌
scale_mono a b h = ground arith

module _ (n : Numbers) where
  -- What a recommended transfer of `r` promises, against the target of stock at the destination.
  pub record IsSound (input : ReplenishmentInput n) (target r : ℤ) : Type 0 where
    -- it is a quantity
    pub nonneg : pos 0 ≤ℤ r
    -- the source keeps its safety stock, unless nothing moves
    pub source_safe :
        (r ≡ pos 0) ⊎ (input.source_safety_stock_base ≤ℤ input.source_available_base -ℤ r)
    -- the destination is not filled beyond its target, unless nothing moves
    pub no_overshoot :
        (r ≡ pos 0)
        ⊎ (input.destination_available_base +ℤ input.destination_inbound_base +ℤ r ≤ℤ target)
    -- the destination reaches its target, or the source gives all that it can spare
    pub enough :
        (target ≤ℤ input.destination_available_base +ℤ input.destination_inbound_base +ℤ r)
        ⊎ (input.source_available_base -ℤ input.source_safety_stock_base ≤ℤ r)

  chosen-IsSound :
      (input : ReplenishmentInput n) (target effective needed spare r : ℤ)
      → effective ≡ input.destination_available_base +ℤ input.destination_inbound_base
      → needed ≡ surplus target effective
      → spare ≡ surplus input.source_available_base input.source_safety_stock_base
      → (r ≡ needed) × (needed ≤ℤ spare) ⊎ (r ≡ spare) × (spare ≤ℤ needed)
      → IsSound input target r
  chosen-IsSound input target effective needed spare r e f g h =
      let a = surplus_parts target effective in
      let b = surplus_parts input.source_available_base input.source_safety_stock_base in
      record {
        nonneg = grind int_laws;
        source_safe = grind int_laws;
        no_overshoot = grind int_laws;
        enough = grind int_laws;
      }

  -- When a transfer is recommended, its quantity is sound for the target that is computed as the
  -- rounded-up product of the sales velocity and the minutes to cover: it is not negative, leaves
  -- the source its safety stock, does not fill the destination beyond the target, and is the most
  -- that does so.
  pub recommended_transfer_quantity-IsSound :
      (input : ReplenishmentInput n) {r : ℤ}
      → recommended_transfer_quantity n input ≡ ok r
      → (target : ℤ) × (to_bigint n (n.mul input.velocity_per_minute input.target_cover_minutes)
          ≡ ok target)
        × IsSound input target r
  unfolding recommended_transfer_quantity
  recommended_transfer_quantity-IsSound input {r} h =
      elim (Option-cases
        (n.ceil_bigint (n.mul input.velocity_per_minute input.target_cover_minutes))) [
          | inl missing ↦ ground arith
          | inr (target, found) ↦ (
            target,
            ground arith,
            chosen-IsSound input target
                (input.destination_available_base +ℤ input.destination_inbound_base)
                (surplus target
                  (input.destination_available_base +ℤ input.destination_inbound_base))
                (surplus input.source_available_base input.source_safety_stock_base) r refl refl
                refl (ground arith),
          )
        ]

  verdict_mono :
      (spare spare' effective : ℤ) (ratio : n.Num)
      → spare ≤ℤ spare'
      → imbalance_verdict n spare effective ratio ≡ ok true
      → imbalance_verdict n spare' effective ratio ≡ ok true
  unfolding imbalance_verdict
  verdict_mono spare spare' effective ratio le h = ground (arith, scale_mono spare spare' le)

  -- More stock at the source never hides an imbalance: a location that is reported short against a
  -- source stays short when that source has more stock, all else unchanged.
  pub is_stock_imbalanced_mono :
      (input : StockImbalanceInput n) (available : ℤ)
      → is_stock_imbalanced n input ≡ ok true
      → input.source_available_base ≤ℤ available
      → is_stock_imbalanced n (record input { source_available_base = available }) ≡ ok true
  unfolding is_stock_imbalanced
  is_stock_imbalanced_mono input available h le = ground (
    arith,
    verdict_mono (surplus input.source_available_base input.source_safety_stock_base)
        (surplus available input.source_safety_stock_base)
        (input.destination_available_base +ℤ input.destination_inbound_base) input.minimum_ratio
        (surplus_mono input.source_available_base available input.source_safety_stock_base le),
  )

  -- A location with no stock is at every risk at once, whatever its velocity: it is below its
  -- minimum, below its cover threshold and projected to run out before the event ends.
  pub evaluate_stock_risk_empty :
      (input : StockRiskInput n) {r : StockRiskResult n}
      → evaluate_stock_risk n input ≡ ok r
      → input.available_base ≤ℤ pos 0
      → (r.below_absolute_minimum ≡ true)
        × (r.minutes_cover ≡ some (n.num (pos 0)))
        × (r.below_cover_threshold ≡ true)
        × (r.projected_stockout_before_event_end ≡ true)
  unfolding evaluate_stock_risk
  evaluate_stock_risk_empty input h e = ground (
    arith,
    n.le_of_not_lt (n.num (pos 0)) input.minutes_cover_threshold n.finite_num,
    n.le_of_not_lt (n.num (pos 0)) input.event_minutes_remaining n.finite_num,
  )
