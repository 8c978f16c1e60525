-- ===== src/Timespec/Nanos.antt =====
-- timespec.h: values in nanoseconds, and the operators on them.
use tri_ha_rd_higher_resilie.Base.{
  ℕ, zero, suc, ◌+◌, ◌*◌, ◌/◌, ◌≤◌, ◌<◌, ◌≡◌, refl, ap, ap₂, ◌∙◌, arith, Bool-cases, inl, inr,
}
use tri_ha_rd_higher_resilie.Base.Int.{
  ℤ, pos, pos_part, neg_part, ◌+ℤ◌, ◌-ℤ◌, ◌*ℤ◌, ◌≤ℤ◌, ◌<ℤ◌, int_laws, -ℤ_parts, one_part, ltb_ℤ,
  ltb_ℤ→lt, not-ltb_ℤ→le,
}
use tri_ha_rd_higher_resilie.Timespec.{
  Timespec, timespec, nsec_per_sec, borrow_loop, carry_loop, standardize, add, add_nsec, sub,
  sub_nsec, neg,
}

-- The value in nanoseconds.
unfoldable pub nanos : Timespec → ℤ
nanos ts = ts.tv_sec *ℤ pos nsec_per_sec +ℤ ts.tv_nsec

pub nanos_parts :
    (ts : Timespec)
    → pos_part (nanos ts) + neg_part ts.tv_sec * nsec_per_sec + neg_part ts.tv_nsec
      ≡ neg_part (nanos ts) + pos_part ts.tv_sec * nsec_per_sec + pos_part ts.tv_nsec
unfolding nanos ◌+ℤ◌ ◌*ℤ◌
nanos_parts ts = ground arith

-- The nanosecond field is within one second.
abbrev pub IsStandard : Timespec → Type 0
IsStandard ts = (pos 0 ≤ℤ ts.tv_nsec) × (ts.tv_nsec <ℤ pos nsec_per_sec)

pub ruleset nanos_laws = (int_laws, nanos_parts)

-- A second borrowed or carried leaves the value.
borrow_nanos :
    (ts : Timespec)
    → nanos (timespec (ts.tv_sec -ℤ pos 1) (ts.tv_nsec +ℤ pos nsec_per_sec)) ≡ nanos ts
borrow_nanos ts = omega nanos_laws

carry_nanos :
    (ts : Timespec)
    → nanos (timespec (ts.tv_sec +ℤ pos 1) (ts.tv_nsec -ℤ pos nsec_per_sec)) ≡ nanos ts
carry_nanos ts = omega nanos_laws

borrow_loop-nanos : (fuel : ℕ) (ts : Timespec) → nanos (borrow_loop fuel ts) ≡ nanos ts
unfolding borrow_loop
borrow_loop-nanos zero ts = refl
borrow_loop-nanos (suc fuel) ts = ground (
  arith,
  borrow_nanos ts,
  borrow_loop-nanos fuel (timespec (ts.tv_sec -ℤ pos 1) (ts.tv_nsec +ℤ pos nsec_per_sec)),
)

carry_loop-nanos : (fuel : ℕ) (ts : Timespec) → nanos (carry_loop fuel ts) ≡ nanos ts
unfolding carry_loop
carry_loop-nanos zero ts = refl
carry_loop-nanos (suc fuel) ts = ground (
  arith,
  carry_nanos ts,
  carry_loop-nanos fuel (timespec (ts.tv_sec +ℤ pos 1) (ts.tv_nsec -ℤ pos nsec_per_sec)),
)

borrow_measure :
    (n : ℤ) (fuel : ℕ)
    → neg_part n ≤ suc fuel * nsec_per_sec
    → n <ℤ pos 0
    → neg_part (n +ℤ pos nsec_per_sec) ≤ fuel * nsec_per_sec
unfolding ◌+ℤ◌
borrow_measure n fuel h k = ground arith

-- With a round for each billion below zero, the first loop ends by its own test.
borrow_loop_done :
    (fuel : ℕ) (ts : Timespec)
    → neg_part ts.tv_nsec ≤ fuel * nsec_per_sec
    → pos 0 ≤ℤ (borrow_loop fuel ts).tv_nsec
unfolding borrow_loop
borrow_loop_done zero ts h = omega arith
borrow_loop_done (suc fuel) ts h = elim (Bool-cases (ltb_ℤ ts.tv_nsec (pos 0))) [
  | inl below ↦ rw below (
      borrow_loop_done fuel (timespec (ts.tv_sec -ℤ pos 1) (ts.tv_nsec +ℤ pos nsec_per_sec))
        (borrow_measure ts.tv_nsec fuel h (ltb_ℤ→lt ts.tv_nsec (pos 0) below)))
  | inr done ↦ rw done (not-ltb_ℤ→le ts.tv_nsec (pos 0) done)
]

carry_loop_done :
    (fuel : ℕ) (ts : Timespec)
    → pos 0 ≤ℤ ts.tv_nsec
    → pos_part ts.tv_nsec < fuel * nsec_per_sec
    → IsStandard (carry_loop fuel ts)
unfolding carry_loop
carry_loop_done zero ts h k = absurd (omega arith)
carry_loop_done (suc fuel) ts h k = ground (
  arith,
  -ℤ_parts ts.tv_nsec (pos nsec_per_sec),
  one_part (ts.tv_nsec -ℤ pos nsec_per_sec),
  carry_loop_done fuel (timespec (ts.tv_sec +ℤ pos 1) (ts.tv_nsec -ℤ pos nsec_per_sec)),
)

-- `standardize` ends both loops by their tests, keeps the value in nanoseconds, and leaves a
-- nanosecond field from 0 to 999999999.
pub standardize_lem :
    (ts : Timespec) → (nanos (standardize ts) ≡ nanos ts) × IsStandard (standardize ts)
unfolding standardize
standardize_lem ts =
    let rounds = neg_part ts.tv_nsec / nsec_per_sec + 1 in
    let borrowed = borrow_loop rounds ts in
    (
      carry_loop-nanos _ borrowed ∙ borrow_loop-nanos rounds ts,
      carry_loop_done (pos_part borrowed.tv_nsec / nsec_per_sec + 1) borrowed
          (borrow_loop_done rounds ts (omega arith)) (omega arith),
    )

pub nanos-standardize : (ts : Timespec) → nanos (standardize ts) ≡ nanos ts
nanos-standardize ts = (standardize_lem ts).0

-- Two standard values of the same number of nanoseconds have equal fields.
pub nanos_inj : (a b : Timespec) → IsStandard a → IsStandard b → nanos a ≡ nanos b → a ≡ b
nanos_inj a b ha hb e =
    let secs : a.tv_sec ≡ b.tv_sec = omega (nanos_laws, ap pos_part e, ap neg_part e) in
    let nsecs : a.tv_nsec ≡ b.tv_nsec = omega (nanos_laws, ap pos_part e, ap neg_part e) in
    ap₂ timespec secs nsecs

-- A standard value of `z` nanoseconds.
abbrev pub Holds : Timespec → ℤ → Type 0
Holds ts z = (nanos ts ≡ z) × IsStandard ts

standardize-Holds : (ts : Timespec) (z : ℤ) → nanos ts ≡ z → Holds (standardize ts) z
standardize-Holds ts z e = (nanos-standardize ts ∙ e, (standardize_lem ts).1)

-- For all field values, `+`, `-` and unary `-`, with a `timespec` or with a count of nanoseconds,
-- compute the sum, the difference and the opposite of the values in nanoseconds, and their results
-- are standard.
pub operators-Holds :
    (a b : Timespec) (n : ℤ)
    → Holds (add a b) (nanos a +ℤ nanos b)
      × Holds (sub a b) (nanos a -ℤ nanos b)
      × Holds (add_nsec a n) (nanos a +ℤ n)
      × Holds (sub_nsec a n) (nanos a -ℤ n)
      × Holds (neg a) (pos 0 -ℤ nanos a)
unfolding add sub add_nsec sub_nsec neg
operators-Holds a b n = (
  standardize-Holds _ _ (omega nanos_laws),
  standardize-Holds _ _ (omega nanos_laws),
  standardize-Holds _ _ (omega nanos_laws),
  standardize-Holds _ _ (omega nanos_laws),
  standardize-Holds _ _ (omega nanos_laws),
)
