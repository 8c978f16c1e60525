-- ===== src/Double/Exact.antt =====
-- Fractions, which are never rounded, as an instance of `Double` that runs: every value that the
-- tests and examples meet is exact in a double too, or only compared.
use tri_ha_rd_higher_resilie.Base.{ℕ, suc, ◌*◌, ◌^◌, ◌/◌, Bool}
use tri_ha_rd_higher_resilie.Base.Int.{ℤ, pos, negsuc, neg_ℤ, ◌+ℤ◌, ◌-ℤ◌, ◌*ℤ◌, ltb_ℤ, leb_ℤ}
use tri_ha_rd_higher_resilie.Double.{Double}

-- The denominator is positive.
pub record Ratio : Type 0 where
  pub num : ℤ
  pub den : ℕ

abbrev pub ratio : ℤ → ℕ → Ratio
ratio n d = record { num = n; den = d }

unfoldable pub trunc : Ratio → ℤ
trunc x = elim x.num [ pos n ↦ pos (n / x.den) | negsuc n ↦ neg_ℤ (pos (suc n / x.den)) ]

unfoldable pub over : Ratio → Ratio → Ratio
over x y = elim y.num [
  | pos n ↦ ratio (x.num *ℤ pos y.den) (x.den * n)
  | negsuc n ↦ ratio (neg_ℤ x.num *ℤ pos y.den) (x.den * suc n)
]

unfoldable pub plus : Ratio → Ratio → Ratio
plus x y = ratio (x.num *ℤ pos y.den +ℤ y.num *ℤ pos x.den) (x.den * y.den)

unfoldable pub minus : Ratio → Ratio → Ratio
minus x y = ratio (x.num *ℤ pos y.den -ℤ y.num *ℤ pos x.den) (x.den * y.den)

unfoldable pub times : Ratio → Ratio → Ratio
times x y = ratio (x.num *ℤ y.num) (x.den * y.den)

unfoldable pub less : Ratio → Ratio → Bool
less x y = ltb_ℤ (x.num *ℤ pos y.den) (y.num *ℤ pos x.den)

unfoldable pub less_eq : Ratio → Ratio → Bool
less_eq x y = leb_ℤ (x.num *ℤ pos y.den) (y.num *ℤ pos x.den)

abbrev pub exact : Double
exact = record {
  Value = Ratio;
  of_ℤ = λ n. ratio n 1;
  trunc = trunc;
  literal = λ m k. ratio (pos m) (10 ^ k);
  plus = plus;
  minus = minus;
  times = times;
  over = over;
  less = less;
  less_eq = less_eq;
}
