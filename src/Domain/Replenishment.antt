-- ===== src/Domain/Replenishment.antt =====
-- packages/domain/src/inventory.ts and inventory-imbalance.ts: how much stock to move, whether a
-- location is short against another, and how long its stock will last.
pub mod SafetyStock
use eventcommerce_os.Base.{
  Bool, true, false, ◌&&◌, ◌||◌, not, Option, none, some, Result, ok, err, throw_if, error,
  if◌then◌else◌,
}
use eventcommerce_os.Base.Int.{ℤ, pos, ◌+ℤ◌, ◌-ℤ◌, ◌*ℤ◌, ltb_ℤ, leb_ℤ}
use eventcommerce_os.Base.Do.{◌>>=◌, ◌>>◌}
use eventcommerce_os.Domain.Numbers.{Numbers}

-- `a > b ? a - b : 0n`
unfoldable pub surplus : ℤ → ℤ → ℤ
surplus a b = if ltb_ℤ b a then a -ℤ b else pos 0

module _ (n : Numbers) where
  open n use {Num, num, is_finite, is_safe_integer, mul, div, lt, le, tiny, ceil_bigint}

  -- `BigInt(Math.ceil(x))`
  abbrev pub to_bigint : Num → Result ℤ
  to_bigint x = elim (ceil_bigint x) [ none ↦ err (error "RangeError") | some i ↦ ok i ]

  pub record ReplenishmentInput : Type 0 where
    pub destination_available_base : ℤ
    pub destination_inbound_base : ℤ
    pub source_available_base : ℤ
    pub source_safety_stock_base : ℤ
    pub velocity_per_minute : Num
    pub target_cover_minutes : Num

  unfoldable pub recommended_transfer_quantity : ReplenishmentInput → Result ℤ
  unfolding surplus
  recommended_transfer_quantity input = do
    throw_if (ltb_ℤ input.destination_inbound_base (pos 0))
        (error "destination inbound stock must not be negative")
    throw_if (ltb_ℤ input.source_safety_stock_base (pos 0))
        (error "source safety stock must not be negative")
    throw_if
        (not (is_finite input.velocity_per_minute) || lt input.velocity_per_minute (num (pos 0)))
        (error "velocity must be finite and non-negative")
    throw_if
        (not (is_finite input.target_cover_minutes) || lt input.target_cover_minutes (num (pos 0)))
        (error "target cover must be finite and non-negative")
    target_base ← to_bigint (mul input.velocity_per_minute input.target_cover_minutes)
    let destination_effective = input.destination_available_base +ℤ input.destination_inbound_base
    let needed = surplus target_base destination_effective
    let source_surplus = surplus input.source_available_base input.source_safety_stock_base
    ok (if ltb_ℤ needed source_surplus then needed else source_surplus)

  pub record StockImbalanceInput : Type 0 where
    pub destination_available_base : ℤ
    pub destination_inbound_base : ℤ
    pub source_available_base : ℤ
    pub source_safety_stock_base : ℤ
    pub minimum_ratio : Num

  -- the last lines of `isStockImbalanced`, behind its guards
  unfoldable pub imbalance_verdict : ℤ → ℤ → Num → Result Bool
  imbalance_verdict source_surplus destination_effective minimum_ratio =
      if leb_ℤ source_surplus (pos 0)
      then ok false
      else if leb_ℤ destination_effective (pos 0)
      then ok true
      else do
        ratio_basis_points ← to_bigint (mul minimum_ratio (num (pos 10000)))
        ok (leb_ℤ (destination_effective *ℤ ratio_basis_points) (source_surplus *ℤ pos 10000))

  unfoldable pub is_stock_imbalanced : StockImbalanceInput → Result Bool
  is_stock_imbalanced input = do
    throw_if (ltb_ℤ input.destination_inbound_base (pos 0))
        (error "destination inbound stock must not be negative")
    throw_if (ltb_ℤ input.source_safety_stock_base (pos 0))
        (error "source safety stock must not be negative")
    throw_if (not (is_finite input.minimum_ratio) || lt input.minimum_ratio (num (pos 1)))
        (error "imbalance ratio must be finite and at least 1")
    imbalance_verdict (surplus input.source_available_base input.source_safety_stock_base)
        (input.destination_available_base +ℤ input.destination_inbound_base) input.minimum_ratio

  unfoldable pub quantity_as_number : ℤ → Result Num
  quantity_as_number value = do
    let converted = num value
    throw_if (not (is_safe_integer converted))
        (error "inventory quantity exceeds safe calculation range")
    ok converted

  unfoldable pub minutes_of_cover : ℤ → Num → Result (Option Num)
  unfolding quantity_as_number
  minutes_of_cover available_base velocity_per_minute =
      if leb_ℤ available_base (pos 0) then ok (some (num (pos 0))) else do
        throw_if (not (is_finite velocity_per_minute) || lt velocity_per_minute (num (pos 0)))
            (error "velocity must be finite and non-negative")
        if le velocity_per_minute tiny then ok none else do
          quantity ← quantity_as_number available_base
          ok (some (div quantity velocity_per_minute))

  pub record StockRiskInput : Type 0 where
    pub available_base : ℤ
    pub absolute_minimum_base : ℤ
    pub velocity_per_minute : Num
    pub minutes_cover_threshold : Num
    pub event_minutes_remaining : Num

  pub record StockRiskResult : Type 0 where
    pub below_absolute_minimum : Bool
    pub minutes_cover : Option Num
    pub below_cover_threshold : Bool
    pub projected_stockout_before_event_end : Bool

  -- `cover !== null && cover <= limit`
  abbrev pub covers_at_most : Option Num → Num → Bool
  covers_at_most none limit = false
  covers_at_most (some cover) limit = le cover limit

  unfoldable pub evaluate_stock_risk : StockRiskInput → Result StockRiskResult
  unfolding minutes_of_cover
  evaluate_stock_risk input = do
    throw_if (ltb_ℤ input.absolute_minimum_base (pos 0))
        (error "absolute minimum must not be negative")
    throw_if
        (not (is_finite input.minutes_cover_threshold)
          || lt input.minutes_cover_threshold (num (pos 0)))
        (error "minutes cover threshold must be finite and non-negative")
    throw_if
        (not (is_finite input.event_minutes_remaining)
          || lt input.event_minutes_remaining (num (pos 0)))
        (error "event minutes remaining must be finite and non-negative")
    cover ← minutes_of_cover input.available_base input.velocity_per_minute
    ok (record {
      below_absolute_minimum = leb_ℤ input.available_base input.absolute_minimum_base;
      minutes_cover = cover;
      below_cover_threshold = covers_at_most cover input.minutes_cover_threshold;
      projected_stockout_before_event_end = covers_at_most cover input.event_minutes_remaining;
    })
