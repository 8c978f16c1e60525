-- ===== src/Node/Clock/Serving.antt =====
-- ENode.cpp, `get_timestamp`: when it returns, and what it reads.
use tri_ha_rd_higher_resilie.Base.{
  ◌≡◌, ◌≢◌, refl, ap, ◌⊎◌, inl, inr, true, false, arith, List, [], ◌∷◌, ◌++◌, some, Bool-cases,
  Option-cases,
}
use tri_ha_rd_higher_resilie.Base.Int.{ℤ, pos, ◌+ℤ◌, ◌-ℤ◌, ◌≤ℤ◌, int_laws, eq_of_parts}
use tri_ha_rd_higher_resilie.Double.{Double, Signs, IsPositive}
use tri_ha_rd_higher_resilie.Timespec.{Timespec}
use tri_ha_rd_higher_resilie.Timespec.Nanos.{nanos, IsStandard, operators-Holds}
use tri_ha_rd_higher_resilie.Node.{ENode, ta_consistent_state}
use tri_ha_rd_higher_resilie.Node.Clock.{cycles_to_nsec, read_clock, waits, await, get_timestamp}

module _ {F : Double} where
  -- The state may serve time: calibrated, consistent with the TA, not tainted, and `tsc` has moved
  -- on since the call and is not behind the reference.
  pub record IsReady (mem_tsc : ℤ) (n : ENode F) : Type 0 where
    pub calibrated : n.calib_count ≡ true
    pub consistent : n.clock_state ≡ ta_consistent_state
    pub untainted : n.tainted ≡ false
    pub moved : mem_tsc ≢ n.tsc
    pub ahead : n.tsc_ref ≤ℤ n.tsc

  waits-IsReady :
      (mem_tsc : ℤ) (n : ENode F)
      → waits false mem_tsc n ≡ false
      → (n.stop ≡ true) ⊎ IsReady mem_tsc n
  unfolding waits
  waits-IsReady mem_tsc n h = ground (arith, eq_of_parts mem_tsc n.tsc)

  -- The state that the wait leaves with, and the rounds before it.
  record LeavesAt (mem_tsc : ℤ) (rounds : List (ENode F)) (state : ENode F) : Type 0 where
    before : List (ENode F)
    after : List (ENode F)
    found : rounds ≡ before ++ (state ∷ after)
    free : waits false mem_tsc state ≡ false

  later_LeavesAt :
      (mem_tsc : ℤ) (n state : ENode F) (later : List (ENode F))
      → LeavesAt mem_tsc later state
      → LeavesAt mem_tsc (n ∷ later) state
  later_LeavesAt mem_tsc n state later l = record {
    before = n ∷ l.before;
    after = l.after;
    found = ap (◌∷◌ n) l.found;
    free = l.free;
  }

  await-LeavesAt :
      (mem_tsc : ℤ) (rounds : List (ENode F)) (state : ENode F)
      → await false mem_tsc rounds ≡ some state
      → LeavesAt mem_tsc rounds state
  unfolding await
  await-LeavesAt mem_tsc [] state h = cc
  await-LeavesAt mem_tsc (n ∷ later) state h = elim (Bool-cases (waits false mem_tsc n)) [
    | inl more ↦
        later_LeavesAt mem_tsc n state later
          (await-LeavesAt mem_tsc later state (ground (arith, h, more)))
    | inr done ↦
        let same : n ≡ state = ground (arith, h, done) in
        record {
          before = [];
          after = later;
          found = ap (λ s. s ∷ later) same;
          free = rw (← same) done;
        }
  ]

  -- What an unforced call returns: the clock as it stands in a state that its rounds find and that
  -- lets it go.
  pub record IsServed (mem_tsc : ℤ) (rounds : List (ENode F)) (r : ENode F × Timespec)
      : Type 0 where
    pub before : List (ENode F)
    pub state : ENode F
    pub after : List (ENode F)
    pub found : rounds ≡ before ++ (state ∷ after)
    pub read : r ≡ read_clock state
    pub free : (state.stop ≡ true) ⊎ IsReady mem_tsc state

  -- An unforced `get_timestamp` that returns has read the clock in one of the states that its rounds
  -- found, and that state is calibrated, consistent with the TA, untainted and not behind the
  -- reference, with `tsc` changed since the call, or else the node is stopping.
  pub get_timestamp-IsServed :
      (mem_tsc : ℤ) (rounds : List (ENode F)) (r : ENode F × Timespec)
      → get_timestamp false mem_tsc rounds ≡ some r
      → IsServed mem_tsc rounds r
  unfolding get_timestamp
  get_timestamp-IsServed mem_tsc rounds r h = elim (Option-cases (await false mem_tsc rounds)) [
    | inl none_yet ↦ absurd (ground (arith, h, none_yet))
    | inr (state, left) ↦
        let l = await-LeavesAt mem_tsc rounds state left in
        record {
          before = l.before;
          state = state;
          after = l.after;
          found = l.found;
          read = ground (arith, h, left);
          free = waits-IsReady mem_tsc state l.free;
        }
  ]

  -- With a positive frequency, a reading of `tsc` that with its offset is not behind the reference
  -- gives a standard timestamp that is not before the last one, and the next reference is this one.
  pub read_clock_mono :
      Signs F
      → (n : ENode F) → IsPositive F n.tsc_freq
      → n.tsc_ref ≤ℤ n.tsc +ℤ n.tsc_offset
      → let (after, timestamp) = read_clock n in
        (nanos n.ts_ref ≤ℤ nanos timestamp)
        × IsStandard timestamp
        × (after.ts_ref ≡ timestamp)
        × (after.tsc_ref ≡ n.tsc +ℤ n.tsc_offset)
  unfolding read_clock cycles_to_nsec
  read_clock_mono signs n positive ahead =
      let cycles = n.tsc +ℤ n.tsc_offset -ℤ n.tsc_ref in
      let elapsed : pos 0 ≤ℤ cycles_to_nsec F cycles n.tsc_freq =
        signs.trunc_nonneg _
          (signs.over_nonneg _ _ (signs.of_ℤ_nonneg cycles (omega int_laws)) positive) in
      let (sum, standard) =
        (operators-Holds n.ts_ref n.ts_ref (cycles_to_nsec F cycles n.tsc_freq)).2 in
      (rw sum (omega int_laws), standard, refl, refl)
