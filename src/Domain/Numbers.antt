-- ===== src/Domain/Numbers.antt =====
-- JavaScript's `number`, as the domain package computes with it: the type and its operations are
-- an interface, since the checker has no floating point. The theorems use only the laws listed.
use eventcommerce_os.Base.{Bool, true, false, Option, ◌≡◌}
use eventcommerce_os.Base.Int.{ℤ, pos}

pub record Numbers : Type 1 where
  pub Num : Type 0
  -- a literal or `Number(bigint)`, rounded where it must be
  pub num : ℤ → Num
  pub is_finite : Num → Bool
  pub is_integer : Num → Bool
  pub is_safe_integer : Num → Bool
  pub add : Num → Num → Num
  pub sub : Num → Num → Num
  pub mul : Num → Num → Num
  pub div : Num → Num → Num
  pub lt : Num → Num → Bool
  pub le : Num → Num → Bool
  -- `1e-9`
  pub tiny : Num
  -- `BigInt(Math.ceil(x))`, which throws at NaN and at the infinities
  pub ceil_bigint : Num → Option ℤ
  -- among the finite numbers `<` is the negation of the converse `<=`
  pub le_of_not_lt :
      (x y : Num) → is_finite x ≡ true → is_finite y ≡ true → lt y x ≡ false → le x y ≡ true
  pub finite_num : is_finite (num (pos 0)) ≡ true
