-- ===== src/Timespec/Order.antt =====
-- timespec.h: the comparisons, on values in nanoseconds.
use tri_ha_rd_higher_resilie.Base.{◌≡◌, ◌≢◌, ◌↔◌, true, arith}
use tri_ha_rd_higher_resilie.Base.Int.{◌≤ℤ◌, ◌<ℤ◌, eq_of_parts}
use tri_ha_rd_higher_resilie.Timespec.{Timespec, standardize, lt, gt, le, ge, eq, ne}
use tri_ha_rd_higher_resilie.Timespec.Nanos.{nanos, nanos_parts, standardize_lem, nanos_inj}

pub lt-nanos : (a b : Timespec) → (lt a b ≡ true) ↔ (nanos a <ℤ nanos b)
unfolding lt
lt-nanos a b = ground (
  arith,
  nanos_parts (standardize a),
  nanos_parts (standardize b),
  standardize_lem a,
  standardize_lem b,
)

-- Standard values are equal just when they stand for one number.
eq-nanos : (a b : Timespec) → (eq a b ≡ true) ↔ (nanos a ≡ nanos b)
unfolding eq
eq-nanos a b = ground (
  arith,
  nanos_inj (standardize a) (standardize b),
  nanos_parts (standardize a),
  nanos_parts (standardize b),
  eq_of_parts (standardize a).tv_sec (standardize b).tv_sec,
  eq_of_parts (standardize a).tv_nsec (standardize b).tv_nsec,
  standardize_lem a,
  standardize_lem b,
  eq_of_parts (nanos a) (nanos b),
)

-- For all field values, standard or not, each comparison holds exactly when the values in
-- nanoseconds compare so.
pub comparisons-nanos :
    (a b : Timespec)
    → ((lt a b ≡ true) ↔ (nanos a <ℤ nanos b))
      × ((gt a b ≡ true) ↔ (nanos b <ℤ nanos a))
      × ((le a b ≡ true) ↔ (nanos a ≤ℤ nanos b))
      × ((ge a b ≡ true) ↔ (nanos b ≤ℤ nanos a))
      × ((eq a b ≡ true) ↔ (nanos a ≡ nanos b))
      × ((ne a b ≡ true) ↔ (nanos a ≢ nanos b))
unfolding gt le ge eq
comparisons-nanos a b = ground (arith, lt-nanos a b, lt-nanos b a, eq-nanos a b)
