-- ===== src/Timespec.antt =====
-- trihard/node/Enclave/timespec.h: the operators that need no floating point. The compound
-- assignments (`+=`, `-=`) are the operators with the result stored, so callers use these.
pub mod Nanos
pub mod Scale
pub mod Order
mod Tests
use tri_ha_rd_higher_resilie.Base.{
  ℕ, zero, suc, ◌+◌, ◌/◌, Bool, true, false, not, ◌&&◌, ◌||◌, if◌then◌else◌,
}
use tri_ha_rd_higher_resilie.Base.Int.{
  ℤ, pos, pos_part, neg_part, neg_ℤ, ◌+ℤ◌, ◌-ℤ◌, ltb_ℤ, leb_ℤ, eqb_ℤ,
}

pub record Timespec : Type 0 where
  pub tv_sec : ℤ
  pub tv_nsec : ℤ

abbrev pub timespec : ℤ → ℤ → Timespec
timespec s n = record { tv_sec = s; tv_nsec = n }

abbrev pub nsec_per_sec : ℕ
nsec_per_sec = 1000000000

-- `while(result.tv_nsec < 0)`, on fuel.
borrow_loop : ℕ → Timespec → Timespec
borrow_loop zero ts = ts
borrow_loop (suc fuel) ts =
    let rest = borrow_loop fuel (timespec (ts.tv_sec -ℤ pos 1) (ts.tv_nsec +ℤ pos nsec_per_sec)) in
    if ltb_ℤ ts.tv_nsec (pos 0) then rest else ts

-- `while(result.tv_nsec >= 1000000000)`, on fuel.
carry_loop : ℕ → Timespec → Timespec
carry_loop zero ts = ts
carry_loop (suc fuel) ts =
    let rest = carry_loop fuel (timespec (ts.tv_sec +ℤ pos 1) (ts.tv_nsec -ℤ pos nsec_per_sec)) in
    if leb_ℤ (pos nsec_per_sec) ts.tv_nsec then rest else ts

-- Each loop gets one round more than the billions in `tv_nsec`.
unfoldable pub standardize : Timespec → Timespec
unfolding borrow_loop carry_loop
standardize ts =
    let borrowed = borrow_loop (neg_part ts.tv_nsec / nsec_per_sec + 1) ts in
    carry_loop (pos_part borrowed.tv_nsec / nsec_per_sec + 1) borrowed

unfoldable pub ne : Timespec → Timespec → Bool
ne lhs rhs =
    let temp_lhs = standardize lhs in
    let temp_rhs = standardize rhs in
    if not (eqb_ℤ temp_lhs.tv_sec temp_rhs.tv_sec) || not (eqb_ℤ temp_lhs.tv_nsec temp_rhs.tv_nsec)
    then true
    else false

unfoldable pub eq : Timespec → Timespec → Bool
unfolding ne
eq lhs rhs = not (ne lhs rhs)

unfoldable pub lt : Timespec → Timespec → Bool
lt lhs rhs =
    let temp_lhs = standardize lhs in
    let temp_rhs = standardize rhs in
    if ltb_ℤ temp_lhs.tv_sec temp_rhs.tv_sec
    then true
    else if eqb_ℤ temp_lhs.tv_sec temp_rhs.tv_sec && ltb_ℤ temp_lhs.tv_nsec temp_rhs.tv_nsec
    then true
    else false

unfoldable pub gt : Timespec → Timespec → Bool
unfolding lt
gt lhs rhs = lt rhs lhs

unfoldable pub le : Timespec → Timespec → Bool
unfolding lt
le lhs rhs = not (lt rhs lhs)

unfoldable pub ge : Timespec → Timespec → Bool
unfolding lt
ge lhs rhs = not (lt lhs rhs)

unfoldable pub add : Timespec → Timespec → Timespec
add lhs rhs = standardize (timespec (lhs.tv_sec +ℤ rhs.tv_sec) (lhs.tv_nsec +ℤ rhs.tv_nsec))

unfoldable pub add_nsec : Timespec → ℤ → Timespec
add_nsec lhs rhs = standardize (timespec lhs.tv_sec (lhs.tv_nsec +ℤ rhs))

unfoldable pub sub : Timespec → Timespec → Timespec
sub lhs rhs = standardize (timespec (lhs.tv_sec -ℤ rhs.tv_sec) (lhs.tv_nsec -ℤ rhs.tv_nsec))

unfoldable pub sub_nsec : Timespec → ℤ → Timespec
sub_nsec lhs rhs = standardize (timespec lhs.tv_sec (lhs.tv_nsec -ℤ rhs))

unfoldable pub neg : Timespec → Timespec
neg lhs = standardize (timespec (neg_ℤ lhs.tv_sec) (neg_ℤ lhs.tv_nsec))
