-- ===== src/Node/Clock.antt =====
-- trihard/node/Enclave/ENode.cpp: reading, shadowing, stepping and disciplining the clock.
pub mod Serving
use tri_ha_rd_higher_resilie.Base.{
  ℕ, ◌^◌, Bool, true, false, not, ◌&&◌, ◌||◌, List, [], ◌∷◌, Option, none, some, leb, if◌then◌else◌,
}
use tri_ha_rd_higher_resilie.Base.Int.{ℤ, pos, ◌+ℤ◌, ◌-ℤ◌, ltb_ℤ, eqb_ℤ}
use tri_ha_rd_higher_resilie.Double.{Double, max, min}
use tri_ha_rd_higher_resilie.Timespec.{Timespec, timespec, add, add_nsec, gt}
use tri_ha_rd_higher_resilie.Timespec.Scale.{to_double}
use tri_ha_rd_higher_resilie.Node.{
  ENode, ClockState, ta_consistent_state, ta_inconsistent_state, handler, tainted, print_state,
  allan_intercept,
}

abbrev pub is_ta_inconsistent : ClockState → Bool
is_ta_inconsistent ta_inconsistent_state = true
is_ta_inconsistent ta_consistent_state = false

module _ (F : Double) where
  open F use {Value, of_ℤ, trunc, over}

  -- `(long long)((double)cycles / freq)`.
  unfoldable pub cycles_to_nsec : ℤ → Value → ℤ
  cycles_to_nsec cycles freq = trunc (over (of_ℤ cycles) freq)

module _ {F : Double} where
  open F use {of_ℤ, trunc, literal, minus, times, over}

  -- `get_timestamp` past its wait, with one reading of `tsc`.
  unfoldable pub read_clock : ENode F → ENode F × Timespec
  unfolding cycles_to_nsec
  read_clock n =
      let total_nsec = cycles_to_nsec F (n.tsc +ℤ n.tsc_offset -ℤ n.tsc_ref) n.tsc_freq in
      let timestamp = add_nsec n.ts_ref total_nsec in
      (record n { tsc_ref = n.tsc +ℤ n.tsc_offset; ts_ref = timestamp }, timestamp)

  -- The test of the wait of `get_timestamp`, in the state that the round finds.
  unfoldable pub waits : Bool → ℤ → ENode F → Bool
  waits force mem_tsc n =
      (not force
        && (not n.calib_count
            || is_ta_inconsistent n.clock_state
            || n.tainted
            || eqb_ℤ mem_tsc n.tsc
            || ltb_ℤ n.tsc n.tsc_ref))
      && not n.stop

  -- The states that the rounds find, in order; `none` while all of them make it wait.
  unfoldable pub await : Bool → ℤ → List (ENode F) → Option (ENode F)
  unfolding waits
  await force mem_tsc [] = none
  await force mem_tsc (n ∷ later) =
      let rest = await force mem_tsc later in if waits force mem_tsc n then rest else some n

  abbrev read_found : Option (ENode F) → Option (ENode F × Timespec)
  read_found none = none
  read_found (some n) = some (read_clock n)

  -- `mem_tsc` is `tsc` as the call finds it.
  unfoldable pub get_timestamp : Bool → ℤ → List (ENode F) → Option (ENode F × Timespec)
  unfolding await read_clock
  get_timestamp force mem_tsc rounds = read_found (await force mem_tsc rounds)

  -- One round of the loop of `shadow_tsc_update`. `now` is what `ocall_timespec_get` returns.
  unfoldable pub shadow_round : Timespec → ENode F → ENode F
  unfolding print_state
  shadow_round now n =
      let real_diff = n.tsc -ℤ n.tsc_ref in
      let shadow_tsc = trunc (times (of_ℤ real_diff) (over n.tsc_freq n.shadow_tsc_freq)) in
      let updated = record n {
        tsc_offset = shadow_tsc -ℤ real_diff;
        ts_ref = now;
        tsc_ref = n.tsc;
        total_aex_count = n.total_aex_count +ℤ pos 1;
      } in
      let printed = print_state handler updated in
      print_state tainted (record printed { tainted = true })

  -- `N_TSC_UPDATES` is 1.
  unfoldable pub shadow_tsc_update : Timespec → ENode F → ENode F
  unfolding shadow_round
  shadow_tsc_update now n = if n.attacker then shadow_round now n else n

  unfoldable pub step_clock : ENode F → ENode F
  step_clock n = record n {
    ts_ref = add n.ts_ref n.clock_offset;
    clock_offset = timespec (pos 0) (pos 0);
    last_update_tsc = n.tsc;
  }

  unfoldable pub discipline_clock : ENode F → ENode F
  unfolding step_clock cycles_to_nsec to_double max min
  discipline_clock n =
      let two_to_poll = of_ℤ (pos (2 ^ n.poll_exponent)) in
      let mu = to_double F (
        add_nsec (timespec (pos 0) (pos 0))
          (cycles_to_nsec F (n.tsc -ℤ n.last_update_tsc) n.tsc_freq)) in
      let offset = to_double F n.clock_offset in
      let fll = over offset (times (max F two_to_poll mu) (literal 25 2)) in
      let freq = if leb allan_intercept n.poll_exponent then minus n.tsc_freq fll else n.tsc_freq in
      let dtemp = times (times (of_ℤ (pos 4)) (literal 5 1)) two_to_poll in
      let etemp = min F (of_ℤ (pos (2 ^ allan_intercept))) mu in
      let disciplined = record n {
        tsc_freq = minus freq (over (times offset etemp) (times dtemp dtemp));
      } in
      let stepped =
        if gt disciplined.clock_offset (timespec (pos 0) (pos 0))
        then step_clock disciplined
        else disciplined in
      record stepped { last_update_tsc = n.tsc }
