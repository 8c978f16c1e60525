-- ===== src/TscOffsetter/Lead.antt =====
-- tsc_offsetter.cpp: what a run that can read and write does to the counters, and its limits.
use Prim.Native.String.{String}
use tri_ha_rd_higher_resilie.Base.{
  zero, suc, ◌∙◌, if◌then◌else◌, ℕ, ◌+◌, ◌%◌, ◌<◌, ◌≡◌, ◌≢◌, refl, ap, ◌⊎◌, inl, inr, true, false,
  ◌&&◌, [], ◌∷◌, Option, some, ◌==◌, arith,
}
use tri_ha_rd_higher_resilie.Base.Int.{ℤ, pos, negsuc, ◌*ℤ◌, neg_ℤ, ◌≤ℤ◌, ◌<ℤ◌, eqb_ℤ, eq_of_parts}
use tri_ha_rd_higher_resilie.Base.Text.{atoi}
use tri_ha_rd_higher_resilie.TscOffsetter.{
  Machine, returns, tsc_msr, freq, to_u64, read_msr, write_msr, advance, main,
}

eqb_ℤ_refl : (a : ℤ) → eqb_ℤ a a ≡ true
eqb_ℤ_refl a = ground arith

eqb_ℤ_other : (a b : ℤ) → a ≢ b → eqb_ℤ a b ≡ false
eqb_ℤ_other a b d = ground (arith, eq_of_parts a b)

-- What the program needs of the machine: both files open, and the counters are there.
pub record Works (m : Machine) (target read : ℤ) (value before : ℕ) : Type 0 where
  pub opens_read : m.opens_to_read read ≡ true
  pub opens_write : m.opens_to_write target ≡ true
  pub counts : m.register read tsc_msr ≡ some value
  pub counted : m.register target tsc_msr ≡ some before

-- What it does: the counter of the target is the one that was read, moved by the seconds; every other
-- register of every core is what it would be without the program.
pub record Moves (elapsed : ℕ) (m : Machine) (target : ℤ) (value : ℕ) (secs : ℤ) (after : Machine)
    : Type 0 where
  pub moved :
      after.register target tsc_msr ≡ some ((value + to_u64 (secs *ℤ freq)) % 18446744073709551616)
  pub others :
      (core : ℤ) (msr : ℕ)
      → (core ≢ target) ⊎ (msr ≢ tsc_msr)
      → after.register core msr ≡ (advance elapsed m).register core msr
  pub opens_read : (core : ℤ) → after.opens_to_read core ≡ m.opens_to_read core
  pub opens_write : (core : ℤ) → after.opens_to_write core ≡ m.opens_to_write core

at_register :
    (target core : ℤ) (msr : ℕ) (new old : Option ℕ)
    → (core ≢ target) ⊎ (msr ≢ tsc_msr)
    → (if eqb_ℤ core target && msr == tsc_msr then new else old) ≡ old
at_register target core msr new old (inl d) = rw (eqb_ℤ_other core target d) refl
at_register target core msr new old (inr d) = ground arith

-- With three arguments, and the files and counters that they name in order, the program returns, and sets
-- the counter of the target core to the value that it read of the other core, moved by that many
-- seconds of 3 * 10^9 ticks, modulo 2^64: the ticks that pass from the read to the write are lost. No
-- other register changes but as the counters advance.
pub main-Moves :
    (elapsed : ℕ) (m : Machine) (name target read secs : String) (value before : ℕ)
    → Works m (atoi target) (atoi read) value before
    → let (e, after) = main elapsed m (name ∷ target ∷ read ∷ secs ∷ []) in
      (e ≡ returns) × Moves elapsed m (atoi target) value (atoi secs) after
unfolding main read_msr write_msr advance
main-Moves elapsed m name target read secs value before w =
    rw (w.opens_read, w.counts, w.opens_write, w.counted)
      (
        refl,
        record {
          moved = rw (eqb_ℤ_refl (atoi target)) refl;
          others = λ core msr d. at_register (atoi target) core msr _ _ d;
          opens_read = λ core. refl;
          opens_write = λ core. refl;
        },
      )

to_u64_neg : (a : ℤ) → (to_u64 a + to_u64 (neg_ℤ a)) % 18446744073709551616 ≡ 0
unfolding to_u64 neg_ℤ
to_u64_neg (pos zero) = refl
to_u64_neg (pos (suc n)) = ground arith
to_u64_neg (negsuc n) = ground arith

neg-times : (a : ℤ) → neg_ℤ a *ℤ freq ≡ neg_ℤ (a *ℤ freq)
unfolding ◌*ℤ◌ neg_ℤ
neg-times (pos zero) = refl
neg-times (pos (suc n)) = ground arith
neg-times (negsuc n) = ground arith

-- The seconds are an `int`, so that their ticks fit a `long long`.
pub ticks_bound :
    (secs : ℤ)
    → neg_ℤ (pos 2147483648) ≤ℤ secs
    → secs <ℤ pos 2147483648
    → (neg_ℤ (pos 9223372036854775808) ≤ℤ secs *ℤ freq) × (secs *ℤ freq <ℤ pos 9223372036854775808)
unfolding ◌*ℤ◌ neg_ℤ
ticks_bound (pos n) low high = ground arith
ticks_bound (negsuc n) low high = ground arith

moved_back :
    (value : ℕ) (secs : ℤ)
    → value < 18446744073709551616
    → ((value + to_u64 (secs *ℤ freq)) % 18446744073709551616 + to_u64 (neg_ℤ secs *ℤ freq))
        % 18446744073709551616
      ≡ value
moved_back value secs h =
    let back : to_u64 (neg_ℤ secs *ℤ freq) ≡ to_u64 (neg_ℤ (secs *ℤ freq)) =
      ap to_u64 (neg-times secs) in
    omega (arith, to_u64_neg (secs *ℤ freq), back)

-- A run on a core that reads its own counter, and then a run back by the opposite seconds, leave the counter
-- at the value that the first run read, whatever ticks pass in the two runs.
pub run_back :
    (elapsed elapsed_back : ℕ) (m : Machine) (name core secs back : String) (value : ℕ)
    → atoi back ≡ neg_ℤ (atoi secs)
    → Works m (atoi core) (atoi core) value value
    → value < 18446744073709551616
    → let once = (main elapsed m (name ∷ core ∷ core ∷ secs ∷ [])).1 in
      let (e, twice) = main elapsed_back once (name ∷ core ∷ core ∷ back ∷ []) in
      (e ≡ returns) × (twice.register (atoi core) tsc_msr ≡ some value)
run_back elapsed elapsed_back m name core secs back value opposite w h =
    let once = (main elapsed m (name ∷ core ∷ core ∷ secs ∷ [])).1 in
    let first = (main-Moves elapsed m name core core secs value value w).1 in
    let moved = (value + to_u64 (atoi secs *ℤ freq)) % 18446744073709551616 in
    let again = main-Moves elapsed_back once name core core back moved moved record {
      opens_read = first.opens_read (atoi core) ∙ w.opens_read;
      opens_write = first.opens_write (atoi core) ∙ w.opens_write;
      counts = first.moved;
      counted = first.moved;
    } in
    (
      again.0,
      again.1.moved
          ∙ ap (λ n. some ((moved + to_u64 (n *ℤ freq)) % 18446744073709551616)) opposite
          ∙ ap some (moved_back value (atoi secs) h),
    )
