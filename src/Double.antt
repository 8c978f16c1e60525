-- ===== src/Double.antt =====
-- The C++ type `double`, as the source uses it: conversions from and to integers, decimal literals,
-- arithmetic and comparison. It is a parameter of every definition that computes with it. `Signs`
-- holds what theorems rely on; `Double.Exact` is an instance that can be run.
pub mod Exact
use tri_ha_rd_higher_resilie.Base.{ℕ, Bool, true, ◌≡◌, if◌then◌else◌}
use tri_ha_rd_higher_resilie.Base.Int.{ℤ, pos, ◌≤ℤ◌}

pub record Double : Type 1 where
  pub Value : Type 0
  -- `(double)n` and `(long long)x`.
  pub of_ℤ : ℤ → Value
  pub trunc : Value → ℤ
  -- `literal m k` is the decimal m / 10 ^ k.
  pub literal : ℕ → ℕ → Value
  pub plus : Value → Value → Value
  pub minus : Value → Value → Value
  pub times : Value → Value → Value
  pub over : Value → Value → Value
  pub less : Value → Value → Bool
  pub less_eq : Value → Value → Bool

module _ (F : Double) where
  open F use {Value, of_ℤ, minus, less, less_eq, over, trunc}

  -- `fabs`, `std::max` and `std::min`.
  unfoldable pub fabs : Value → Value
  fabs x = if less x (of_ℤ (pos 0)) then minus (of_ℤ (pos 0)) x else x

  unfoldable pub max : Value → Value → Value
  max a b = if less a b then b else a

  unfoldable pub min : Value → Value → Value
  min a b = if less b a then b else a

  abbrev pub IsPositive : Value → Type 0
  IsPositive x = less (of_ℤ (pos 0)) x ≡ true

  abbrev pub IsNonnegative : Value → Type 0
  IsNonnegative x = less_eq (of_ℤ (pos 0)) x ≡ true

  -- The rules of signs that IEEE 754 gives for conversion, division and truncation.
  pub record Signs : Type 0 where
    pub of_ℤ_nonneg : (n : ℤ) → pos 0 ≤ℤ n → IsNonnegative (of_ℤ n)
    pub over_nonneg : (x y : Value) → IsNonnegative x → IsPositive y → IsNonnegative (over x y)
    pub trunc_nonneg : (x : Value) → IsNonnegative x → pos 0 ≤ℤ trunc x
