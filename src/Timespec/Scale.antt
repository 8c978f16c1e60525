-- ===== src/Timespec/Scale.antt =====
-- trihard/node/Enclave/timespec.h: the operators with a `double`.
use tri_ha_rd_higher_resilie.Base.Int.{pos}
use tri_ha_rd_higher_resilie.Double.{Double}
use tri_ha_rd_higher_resilie.Timespec.{Timespec, timespec, nsec_per_sec, standardize}

module _ (F : Double) where
  open F use {Value, of_ℤ, trunc, plus, minus, times, over}

  abbrev billion : Value
  billion = of_ℤ (pos nsec_per_sec)

  unfoldable pub to_double : Timespec → Value
  to_double ts = plus (of_ℤ ts.tv_sec) (over (of_ℤ ts.tv_nsec) billion)

  unfoldable pub add_double : Timespec → Value → Timespec
  add_double lhs rhs =
      let seconds = plus (of_ℤ lhs.tv_sec) rhs in
      let second_remainder = minus seconds (of_ℤ (trunc seconds)) in
      standardize (
        timespec (trunc seconds) (trunc (plus (times second_remainder billion) (of_ℤ lhs.tv_nsec))))

  unfoldable pub sub_double : Timespec → Value → Timespec
  sub_double lhs rhs =
      let seconds = minus (of_ℤ lhs.tv_sec) rhs in
      let second_remainder = minus seconds (of_ℤ (trunc seconds)) in
      standardize (
        timespec (trunc seconds) (trunc (plus (times second_remainder billion) (of_ℤ lhs.tv_nsec))))

  unfoldable pub mul : Timespec → Value → Timespec
  mul lhs rhs =
      let seconds = times (of_ℤ lhs.tv_sec) rhs in
      let second_remainder = minus seconds (of_ℤ (trunc seconds)) in
      standardize (
        timespec (trunc seconds)
          (trunc (plus (times second_remainder billion) (times (of_ℤ lhs.tv_nsec) rhs))))

  unfoldable pub div : Timespec → Value → Timespec
  div lhs rhs =
      let seconds = over (of_ℤ lhs.tv_sec) rhs in
      let sec_remainder = minus seconds (of_ℤ (trunc seconds)) in
      let nanoseconds = trunc (over (of_ℤ lhs.tv_nsec) rhs) in
      standardize
        (timespec (trunc seconds) (trunc (plus (times sec_remainder billion) (of_ℤ nanoseconds))))
