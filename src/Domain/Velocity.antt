-- ===== src/Domain/Velocity.antt =====
-- packages/domain/src/inventory.ts: the blended sales velocity over a short and a medium window.
pub mod Windows
use eventcommerce_os.Base.{
  Bool, ◌||◌, not, List, [], ◌∷◌, Result, ok, throw_if, error, String, template, if◌then◌else◌,
}
use eventcommerce_os.Base.Int.{ℤ, pos, ◌+ℤ◌, ltb_ℤ}
use eventcommerce_os.Base.Do.{◌>>=◌, ◌>>◌}
use eventcommerce_os.Domain.Numbers.{Numbers}
use eventcommerce_os.Domain.Replenishment.{quantity_as_number}

module _ (n : Numbers) where
  open n use {Num, num, is_finite, is_integer, add, sub, mul, div, lt, le}

  pub record ConsumptionSample : Type 0 where
    pub occurred_at_epoch_ms : Num
    pub quantity_base : ℤ

  -- the options with their defaults filled in (10, 30 and 6000)
  pub record VelocityOptions : Type 0 where
    pub short_window_minutes : Num
    pub medium_window_minutes : Num
    pub short_weight_basis_points : Num

  abbrev pub default_options : VelocityOptions
  default_options = record {
    short_window_minutes = num (pos 10);
    medium_window_minutes = num (pos 30);
    short_weight_basis_points = num (pos 6000);
  }

  unfoldable pub positive_window : Num → String → Result Num
  positive_window value name = do
    throw_if (not (is_finite value) || le value (num (pos 0)))
        (error (template (name ∷ " must be positive" ∷ [])))
    ok value

  -- `occurredAt > now || occurredAt <= mediumCutoff`
  abbrev pub is_outside : Num → Num → ConsumptionSample → Bool
  is_outside now medium_cutoff sample =
      lt now sample.occurred_at_epoch_ms || le sample.occurred_at_epoch_ms medium_cutoff

  -- the `for` loop: the quantities sold in the short and in the medium window
  unfoldable pub sum_windows : Num → Num → Num → ℤ → ℤ → List ConsumptionSample → Result (ℤ × ℤ)
  sum_windows now short_cutoff medium_cutoff short medium [] = ok (short, medium)
  sum_windows now short_cutoff medium_cutoff short medium (sample ∷ samples) =
      let in_medium = not (is_outside now medium_cutoff sample) in
      let in_short = lt short_cutoff sample.occurred_at_epoch_ms in
      let short' =
        if in_medium then (if in_short then short +ℤ sample.quantity_base else short) else short in
      let medium' = if in_medium then medium +ℤ sample.quantity_base else medium in
      do
        throw_if (not (is_finite sample.occurred_at_epoch_ms)) (error "sample time must be finite")
        throw_if (ltb_ℤ sample.quantity_base (pos 0))
            (error "consumption sample quantity must not be negative")
        sum_windows now short_cutoff medium_cutoff short' medium' samples

  unfoldable pub blended_velocity_per_minute :
      List ConsumptionSample → Num → VelocityOptions → Result Num
  unfolding positive_window
  blended_velocity_per_minute samples now options = do
    throw_if (not (is_finite now)) (error "nowEpochMs must be finite")
    short_minutes ← positive_window options.short_window_minutes "short window"
    medium_minutes ← positive_window options.medium_window_minutes "medium window"
    throw_if (lt medium_minutes short_minutes)
        (error "medium window must not be shorter than short window")
    let short_weight = options.short_weight_basis_points
    throw_if
        (not (is_integer short_weight)
          || lt short_weight (num (pos 0))
          || lt (num (pos 10000)) short_weight)
        (error "short weight must be between 0 and 10000 basis points")
    let short_cutoff = sub now (mul short_minutes (num (pos 60000)))
    let medium_cutoff = sub now (mul medium_minutes (num (pos 60000)))
    sums ← sum_windows now short_cutoff medium_cutoff (pos 0) (pos 0) samples
    short_quantity ← quantity_as_number n sums.0
    medium_quantity ← quantity_as_number n sums.1
    let short_rate = div short_quantity short_minutes
    let medium_rate = div medium_quantity medium_minutes
    let short_fraction = div short_weight (num (pos 10000))
    ok (add (mul short_rate short_fraction) (mul medium_rate (sub (num (pos 1)) short_fraction)))
