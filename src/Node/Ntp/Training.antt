-- ===== src/Node/Ntp/Training.antt =====
-- ENode.cpp: the drift message that starts a training steps the clock.
use tri_ha_rd_higher_resilie.Base.{ℕ, ◌≡◌, refl, true, false, List}
use tri_ha_rd_higher_resilie.Base.Int.{ℤ, ◌+ℤ◌}
use tri_ha_rd_higher_resilie.Double.{Double}
use tri_ha_rd_higher_resilie.Timespec.{Timespec, add}
use tri_ha_rd_higher_resilie.Wire.{read_timespec}
use tri_ha_rd_higher_resilie.Node.{ENode, freq_state, print_state}
use tri_ha_rd_higher_resilie.Node.Clock.{read_clock, shadow_tsc_update, step_clock}
use tri_ha_rd_higher_resilie.Node.Ntp.{
  half_offset, accept_drift, judge_offset, select_clock, select_freq,
}

module _ {F : Double} where
  -- The clock is set to `ts` at the counter value `at`.
  abbrev pub SetTo : ENode F → Timespec → ℤ → Type 0
  SetTo n ts at = (n.ts_ref ≡ ts) × (n.tsc_ref ≡ at)

  select_clock-training :
      (n : ENode F)
      → n.node_state ≡ freq_state
      → n.enter_freq ≡ true
      → SetTo (select_clock n) (add n.ts_ref n.clock_offset) n.tsc_ref
  unfolding select_clock select_freq step_clock
  select_clock-training n freq enters = rw (freq, enters) (refl, refl)

  judge_offset-training : (n : ENode F) → n.node_state ≡ freq_state → judge_offset n ≡ n
  unfolding judge_offset
  judge_offset-training n freq = rw freq refl

  selected-training :
      (n : ENode F)
      → n.node_state ≡ freq_state
      → n.enter_freq ≡ true
      → SetTo (select_clock (judge_offset n)) (add n.ts_ref n.clock_offset) n.tsc_ref
  selected-training n freq enters =
      rw (judge_offset-training n freq) (select_clock-training n freq enters)

  pub accept_drift-training :
      (now : Timespec) (buff : List ℕ) (n : ENode F)
      → n.attacker ≡ false
      → n.node_state ≡ freq_state
      → n.enter_freq ≡ true
      → let recv_ts = (read_clock n).1 in
        SetTo
          (accept_drift now buff n)
          (add recv_ts (
            half_offset F
              (read_timespec 17 buff)
              (read_timespec 33 buff)
              (read_timespec 49 buff)
              recv_ts))
          (n.tsc +ℤ n.tsc_offset)
  unfolding accept_drift shadow_tsc_update read_clock print_state
  accept_drift-training now buff n honest freq enters = rw honest (selected-training _ freq enters)
