-- ===== src/Domain/Velocity/Windows.antt =====
-- packages/domain/src/inventory.ts: what the loop of `blendedVelocityPerMinute` adds up.
use eventcommerce_os.Base.{◌≡◌, Bool, ◌&&◌, not, List, [], ◌∷◌, ok, arith, if◌then◌else◌}
use eventcommerce_os.Base.Int.{ℤ, pos, ◌+ℤ◌, int_laws}
use eventcommerce_os.Domain.Numbers.{Numbers}
use eventcommerce_os.Domain.Velocity.{ConsumptionSample, sum_windows, is_outside}

module _ (n : Numbers) where
  -- the quantity sold in the samples at which a test holds
  abbrev pub sold_where : (ConsumptionSample n → Bool) → List (ConsumptionSample n) → ℤ
  sold_where p [] = pos 0
  sold_where p (s ∷ ss) =
      let rest = sold_where p ss in if p s then s.quantity_base +ℤ rest else rest

  abbrev pub in_medium : n.Num → n.Num → ConsumptionSample n → Bool
  in_medium now medium_cutoff s = not (is_outside n now medium_cutoff s)

  abbrev pub in_short : n.Num → n.Num → n.Num → ConsumptionSample n → Bool
  in_short now short_cutoff medium_cutoff s =
      in_medium now medium_cutoff s && n.lt short_cutoff s.occurred_at_epoch_ms

  -- The loop adds to its two totals exactly what was sold after the short cutoff and after the
  -- medium cutoff, up to now; samples outside the medium window count for neither.
  pub sum_windows_lem :
      (now short_cutoff medium_cutoff : n.Num) (short medium : ℤ)
      (samples : List (ConsumptionSample n)) {sums : ℤ × ℤ}
      → sum_windows n now short_cutoff medium_cutoff short medium samples ≡ ok sums
      → (sums.0 ≡ short +ℤ sold_where (in_short now short_cutoff medium_cutoff) samples)
        × (sums.1 ≡ medium +ℤ sold_where (in_medium now medium_cutoff) samples)
  unfolding sum_windows
  sum_windows_lem now sc mc short medium [] h = grind int_laws
  sum_windows_lem now sc mc short medium (s ∷ ss) {sums} h =
      let short' =
        if in_medium now mc s
        then (if n.lt sc s.occurred_at_epoch_ms then short +ℤ s.quantity_base else short)
        else short in
      let medium' = if in_medium now mc s then medium +ℤ s.quantity_base else medium in
      let ih = sum_windows_lem now sc mc short' medium' ss {sums = sums} (ground arith) in
      (grind int_laws, grind int_laws)
