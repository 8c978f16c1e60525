-- ===== src/Examples/Clocks.antt =====
-- Witnesses for the clock.
use tri_ha_rd_higher_resilie.Base.{◌↔◌, ℕ, refl, arith, List, [], ◌∷◌}
use tri_ha_rd_higher_resilie.Base.Int.{ℤ, pos, negsuc, ◌*ℤ◌, ◌≤ℤ◌, ◌<ℤ◌}
use tri_ha_rd_higher_resilie.Double.{Signs, IsPositive, IsNonnegative}
use tri_ha_rd_higher_resilie.Double.Exact.{exact, ratio, Ratio, trunc, over, less, less_eq}
use tri_ha_rd_higher_resilie.Node.{ENode}
use tri_ha_rd_higher_resilie.Node.Clock.{waits, await, get_timestamp, read_clock}
use tri_ha_rd_higher_resilie.Node.Clock.Serving.{IsServed, get_timestamp-IsServed}
use tri_ha_rd_higher_resilie.Examples.{steady, steady_tainted}

-- A call made at `tsc` 4000: the node is tainted in the first round and not in the second.
abbrev rounds : List (ENode exact)
rounds = steady_tainted ∷ (steady ∷ [])

get_timestamp-IsServed_example : IsServed (pos 4000) rounds (read_clock steady)
unfolding get_timestamp waits await
get_timestamp-IsServed_example = get_timestamp-IsServed (pos 4000) rounds (read_clock steady) refl

of_ℤ_nonneg : (n : ℤ) → pos 0 ≤ℤ n → IsNonnegative exact (ratio n 1)
unfolding less_eq ◌*ℤ◌
of_ℤ_nonneg n h = ground arith

nonneg_iff : (x : Ratio) → IsNonnegative exact x ↔ (pos 0 ≤ℤ x.num)
unfolding less_eq ◌*ℤ◌
nonneg_iff x = ground arith

positive_num : (x : Ratio) → IsPositive exact x → pos 0 <ℤ x.num
unfolding less ◌*ℤ◌
positive_num x h = ground arith

times_nonneg : (a : ℤ) (n : ℕ) → pos 0 ≤ℤ a → pos 0 ≤ℤ a *ℤ pos n
unfolding ◌*ℤ◌
times_nonneg (pos a) n h = ground arith
times_nonneg (negsuc a) n h = absurd (omega arith)

over_nonneg :
    (x y : Ratio) → IsNonnegative exact x → IsPositive exact y → IsNonnegative exact (over x y)
unfolding over
over_nonneg x y h k = by y.num (positive_num y k)
  where
    by : (n : ℤ) → pos 0 <ℤ n → IsNonnegative exact (over x (ratio n y.den))
    by (pos n) p = (nonneg_iff _).1 (times_nonneg x.num y.den ((nonneg_iff x).0 h))
    by (negsuc n) p = absurd (omega arith)

trunc_nonneg : (x : Ratio) → IsNonnegative exact x → pos 0 ≤ℤ trunc x
unfolding trunc
trunc_nonneg x h = by x.num ((nonneg_iff x).0 h)
  where
    by : (n : ℤ) → pos 0 ≤ℤ n → pos 0 ≤ℤ trunc (ratio n x.den)
    by (pos n) p = omega arith
    by (negsuc n) p = absurd (omega arith)

abbrev signs : Signs exact
signs = record { of_ℤ_nonneg = of_ℤ_nonneg; over_nonneg = over_nonneg; trunc_nonneg = trunc_nonneg }
