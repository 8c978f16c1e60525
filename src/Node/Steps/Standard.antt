-- ===== src/Node/Steps/Standard.antt =====
-- The reference time of a node stays standard.
use Prim.Native.String.{String}
use mathlib.Core.Option.{some-injective}
use tri_ha_rd_higher_resilie.Base.{
  ℕ, ◌≡◌, refl, sym, subst, inl, inr, Bool, arith, List, Option, none, some, Bool-cases, ◌==◌,
  if◌then◌else◌,
}
use tri_ha_rd_higher_resilie.Base.Int.{ℤ, pos}
use tri_ha_rd_higher_resilie.Double.{Double}
use tri_ha_rd_higher_resilie.Timespec.{Timespec, add, add_nsec}
use tri_ha_rd_higher_resilie.Timespec.Nanos.{IsStandard, standardize_lem}
use tri_ha_rd_higher_resilie.Node.{
  ENode, Datagram, Peer, peer, NodeState, sync_state, spik_state, freq_state, print_state, ta,
}
use tri_ha_rd_higher_resilie.Node.Clock.{
  read_clock, shadow_tsc_update, shadow_round, step_clock, discipline_clock,
}
use tri_ha_rd_higher_resilie.Node.Ntp.{
  select_sync, select_spik, select_freq, select_by, select_clock, judge_offset, accept_drift,
  end_training, send_recv_drift_message, ntp,
}
use tri_ha_rd_higher_resilie.Node.Ntp.Machine.{judged_at}
use tri_ha_rd_higher_resilie.Node.Peers.{find}
use tri_ha_rd_higher_resilie.Node.Taint.{
  send_tainted_messages, accept_tainted, answer_tainted, answer_found,
}
use tri_ha_rd_higher_resilie.Node.Monitor.{
  Run, end_monitor, calibrate, calibrate_drift, calibrate_count,
}
use tri_ha_rd_higher_resilie.Node.Tasks.{start_monitor}
use tri_ha_rd_higher_resilie.Node.Steps.Clocks.{SameTime}

add-IsStandard : (a b : Timespec) → IsStandard (add a b)
unfolding add
add-IsStandard a b = (standardize_lem _).1

add_nsec-IsStandard : (a : Timespec) (n : ℤ) → IsStandard (add_nsec a n)
unfolding add_nsec
add_nsec-IsStandard a n = (standardize_lem _).1

pub same_stays : (later before : Timespec) → later ≡ before → IsStandard before → IsStandard later
same_stays later before e h = subst IsStandard (sym e) h

module _ {F : Double} where
  -- The reference time, if it was standard, stays so.
  abbrev pub StaysStandard : ENode F → ENode F → Type 0
  StaysStandard n m = IsStandard n.ts_ref → IsStandard m.ts_ref

  pub read_clock-IsStandard : (n : ENode F) → IsStandard (read_clock n).0.ts_ref
  unfolding read_clock
  read_clock-IsStandard n = add_nsec-IsStandard n.ts_ref _

  pub shadow_tsc_update-StaysStandard :
      (now : Timespec) (n : ENode F) → IsStandard now → StaysStandard n (shadow_tsc_update now n)
  unfolding shadow_tsc_update shadow_round print_state
  shadow_tsc_update-StaysStandard now n os h = elim (Bool-cases n.attacker) [
    | inl attacked ↦ rw attacked os
    | inr plain ↦ rw plain h
  ]

  pub send_tainted_messages-IsStandard :
      (dummy_ts : Timespec) (n : ENode F) → IsStandard (send_tainted_messages dummy_ts n).0.ts_ref
  unfolding send_tainted_messages
  send_tainted_messages-IsStandard dummy_ts n = read_clock-IsStandard n

  send_recv_drift_message-IsStandard :
      (now dummy_ts : Timespec) (a b : ℤ) (n : ENode F)
      → IsStandard (send_recv_drift_message now dummy_ts a b n).0.ts_ref
  unfolding send_recv_drift_message
  send_recv_drift_message-IsStandard now dummy_ts a b n =
      read_clock-IsStandard (shadow_tsc_update now n)

  step_clock-IsStandard : (n : ENode F) → IsStandard (step_clock n).ts_ref
  unfolding step_clock
  step_clock-IsStandard n = add-IsStandard n.ts_ref n.clock_offset

  discipline_clock-StaysStandard : (n : ENode F) → StaysStandard n (discipline_clock n)
  unfolding discipline_clock step_clock
  discipline_clock-StaysStandard n h = ground (arith, add-IsStandard n.ts_ref n.clock_offset)

  select_by-StaysStandard : (state : NodeState) (n : ENode F) → StaysStandard n (select_by state n)
  unfolding select_sync select_spik select_freq end_training step_clock print_state
  select_by-StaysStandard sync_state n h = ground (arith, discipline_clock-StaysStandard n h)
  select_by-StaysStandard spik_state n h = ground (arith, add-IsStandard n.ts_ref n.clock_offset)
  select_by-StaysStandard freq_state n h = ground (arith, add-IsStandard n.ts_ref n.clock_offset)

  judge_offset-SameTime : (n : ENode F) → SameTime n (judge_offset n)
  unfolding judge_offset print_state
  judge_offset-SameTime n = ground arith

  pub accept_drift-IsStandard :
      (now : Timespec) (buff : List ℕ) (n : ENode F) → IsStandard (accept_drift now buff n).ts_ref
  unfolding accept_drift select_clock
  accept_drift-IsStandard now buff n =
      let at = judged_at now buff n in
      let judged = judge_offset at in
      select_by-StaysStandard judged.node_state judged (
        same_stays judged.ts_ref at.ts_ref (judge_offset-SameTime at)
          (read_clock-IsStandard (shadow_tsc_update now (print_state ta n))))

  answer_found-StaysStandard :
      (now : Timespec) (xmt_tsc : ℤ) (ip : String) (cport : ℕ) (buff : List ℕ) (o : Option Peer)
      (n : ENode F)
      → StaysStandard n (answer_found now xmt_tsc ip cport buff o n).0
  unfolding answer_tainted
  answer_found-StaysStandard now xmt_tsc ip cport buff none n h = h
  answer_found-StaysStandard now xmt_tsc ip cport buff (some q) n h =
      let updated = if q.port == 12346 then shadow_tsc_update now n else n in
      let received = record (read_clock updated).0 { tsc = xmt_tsc } in
      ground (arith, read_clock-IsStandard received)

  pub accept_tainted-StaysStandard :
      (now : Timespec) (xmt_tsc : ℤ) (ip : String) (cport : ℕ) (buff : List ℕ) (n : ENode F)
      → StaysStandard n (accept_tainted now xmt_tsc ip cport buff n).0
  unfolding accept_tainted
  accept_tainted-StaysStandard now xmt_tsc ip cport buff n =
      answer_found-StaysStandard now xmt_tsc ip cport buff (find (peer ip cport) n.siblings) n

  pub end_monitor-StaysStandard :
      (now dummy_ts : Timespec) (n : ENode F) → StaysStandard n (end_monitor now dummy_ts n).0
  unfolding end_monitor ntp
  end_monitor-StaysStandard now dummy_ts n h = ground (
    arith,
    send_recv_drift_message-IsStandard now dummy_ts (pos 0) n.sleep_attack_ms
        (record n { poll_count = 0 }),
  )

  calibrate_drift-IsStandard :
      (now dummy_ts : Timespec) (o : Option (ENode F × Bool)) (r : ENode F × Datagram)
      → calibrate_drift now dummy_ts o ≡ some r
      → IsStandard r.0.ts_ref
  calibrate_drift-IsStandard now dummy_ts none r e = cc
  calibrate_drift-IsStandard now dummy_ts (some (m, calibrated)) r e =
      subst (λ x. IsStandard x.0.ts_ref) (some-injective _ r e)
        (send_recv_drift_message-IsStandard now dummy_ts (pos 0) (pos 0)
          (record m { calib_count = calibrated }))

  pub calibrate-IsStandard :
      (now dummy_ts : Timespec) (runs : List Run) (n : ENode F) (r : ENode F × Datagram)
      → calibrate now dummy_ts runs n ≡ some r
      → IsStandard r.0.ts_ref
  unfolding calibrate
  calibrate-IsStandard now dummy_ts runs n r e =
      calibrate_drift-IsStandard now dummy_ts (calibrate_count runs n) r e

  pub start_monitor-time :
      (now : Timespec) (reading : ℤ) (n : ENode F) → (start_monitor now reading n).ts_ref ≡ now
  unfolding start_monitor print_state
  start_monitor-time now reading n = refl
