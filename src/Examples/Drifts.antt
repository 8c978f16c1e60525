-- ===== src/Examples/Drifts.antt =====
-- Witnesses for the drift messages.
use tri_ha_rd_higher_resilie.Base.{ℕ, refl, arith, List, [], ◌∷◌, ◌≡◌}
use tri_ha_rd_higher_resilie.Base.Int.{pos, neg_ℤ, ◌+ℤ◌, ◌-ℤ◌, ◌*ℤ◌}
use tri_ha_rd_higher_resilie.Double.{fabs}
use tri_ha_rd_higher_resilie.Double.Exact.{exact, trunc, over, plus, minus, times, less, less_eq}
use tri_ha_rd_higher_resilie.Timespec.{Timespec, standardize, add, sub, add_nsec, le, gt, ge}
use tri_ha_rd_higher_resilie.Timespec.Scale.{div, to_double}
use tri_ha_rd_higher_resilie.Wire.{drift_message, read_timespec}
use tri_ha_rd_higher_resilie.Node.Clock.{
  read_clock, cycles_to_nsec, shadow_tsc_update, discipline_clock, step_clock,
}
use tri_ha_rd_higher_resilie.Node.Messages.{handle_message}
use tri_ha_rd_higher_resilie.Node.Steps.{receives}
use tri_ha_rd_higher_resilie.Node.Steps.Consistency.{AgreesBy, Step-AgreesBy}
use tri_ha_rd_higher_resilie.Node.{
  ENode, spik_state, sync_state, ta_consistent_state, ta_inconsistent_state, print_state,
}
use tri_ha_rd_higher_resilie.Node.Ntp.{
  accept_drift, half_offset, judge_offset, select_clock, select_sync,
}
use tri_ha_rd_higher_resilie.Node.Ntp.Phase.{Follows}
use tri_ha_rd_higher_resilie.Node.Ntp.Machine.{StaysIn, accept_drift-Follows, accept_drift_leaves}
use tri_ha_rd_higher_resilie.Examples.{noon, drift, steady, spiked}

accept_drift-Follows_example : Follows sync_state (accept_drift noon drift steady).node_state
accept_drift-Follows_example = accept_drift-Follows noon drift steady

-- Three messages for a node that asks every 64 rounds.
abbrev three : List (Timespec × List ℕ)
three = (noon, drift) ∷ ((noon, drift) ∷ ((noon, drift) ∷ []))

accept_drift_leaves_example : ¬ StaysIn spik_state three spiked
accept_drift_leaves_example =
    accept_drift_leaves spik_state three spiked (λ e. cc) refl (omega arith)

-- A node in SYNC whose clock is 4 us ahead of the readings of the TA, and not yet consistent.
abbrev doubted : ENode exact
doubted = record steady { clock_state = ta_inconsistent_state }

abbrev agreed : ENode exact
agreed =
    (handle_message (record { now = noon; xmt_tsc = pos 6000 }) "127.0.0.1" 12340 drift doubted).0

agreed_consistent : agreed.clock_state ≡ ta_consistent_state
unfolding handle_message accept_drift drift_message ◌+ℤ◌ ◌-ℤ◌ ◌*ℤ◌ neg_ℤ standardize add sub
    add_nsec read_clock cycles_to_nsec shadow_tsc_update half_offset div judge_offset trunc over
    plus minus times less less_eq fabs to_double select_clock select_sync discipline_clock
    step_clock le gt read_timespec print_state ge
agreed_consistent = refl

Step-AgreesBy_example : AgreesBy doubted agreed
Step-AgreesBy_example =
    Step-AgreesBy doubted agreed
      (receives (record { now = noon; xmt_tsc = pos 6000 }) "127.0.0.1" 12340 drift refl) refl
      agreed_consistent
