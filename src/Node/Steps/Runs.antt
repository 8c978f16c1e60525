-- ===== src/Node/Steps/Runs.antt =====
-- The loops of the monitoring thread keep the taint and the siblings.
use mathlib.Core.Option.{some-injective}
use tri_ha_rd_higher_resilie.Base.{◌≡◌, refl, subst, Bool, arith, List, Option, none, some}
use tri_ha_rd_higher_resilie.Base.Int.{ℤ, pos}
use tri_ha_rd_higher_resilie.Double.{Double}
use tri_ha_rd_higher_resilie.Timespec.{Timespec}
use tri_ha_rd_higher_resilie.Node.{ENode, Datagram, print_state}
use tri_ha_rd_higher_resilie.Node.Ntp.{ntp}
use tri_ha_rd_higher_resilie.Node.Monitor.{
  Run, self_taint, end_delta, monitor_polling, end_monitor, calibrate_runs, calibrate_count,
  calibrate, calibrate_drift,
}
use tri_ha_rd_higher_resilie.Node.Monitor.Polling.{monitor_polling-induction}
use tri_ha_rd_higher_resilie.Node.Steps.Rounds.{
  calibrate_runs-relates, parts-RelatesRuns, Any, AllMeet-Any,
}
use tri_ha_rd_higher_resilie.Node.Steps.Keeps.{
  parts-Keeps, Keeps, Keeps-trans, send_recv_drift_message-Keeps,
}

module _ {F : Double} where
  end_delta-Keeps : (threshold delta : ℤ) (n : ENode F) → Keeps n (end_delta threshold delta n)
  unfolding end_delta self_taint print_state
  end_delta-Keeps threshold delta n = ground arith

  pub monitor_polling-Keeps :
      (threshold start : ℤ) (readings : List ℤ) (n m : ENode F)
      → monitor_polling threshold start readings n ≡ some m
      → Keeps n m
  monitor_polling-Keeps threshold start readings n m e =
      monitor_polling-induction Keeps Keeps-trans
        (λ k t. record { taint = λ h. h; siblings = refl; clock = refl }) end_delta-Keeps threshold
        start readings n m e

  pub end_monitor-Keeps :
      (now dummy_ts : Timespec) (n : ENode F) → Keeps n (end_monitor now dummy_ts n).0
  unfolding end_monitor ntp
  end_monitor-Keeps now dummy_ts n = ground (
    arith,
    send_recv_drift_message-Keeps now dummy_ts (pos 0) n.sleep_attack_ms
        (record n { poll_count = 0 }),
  )

  calibrate_drift-Keeps :
      (now dummy_ts : Timespec) (n : ENode F) (o : Option (ENode F × Bool)) (r : ENode F × Datagram)
      → ((p : ENode F × Bool) → o ≡ some p → Keeps n p.0)
      → calibrate_drift now dummy_ts o ≡ some r
      → Keeps n r.0
  calibrate_drift-Keeps now dummy_ts n none r h e = cc
  calibrate_drift-Keeps now dummy_ts n (some (m, calibrated)) r h e =
      let counted = record m { calib_count = calibrated } in
      let k = h (m, calibrated) refl in
      subst (λ x. Keeps n x.0) (some-injective _ r e)
        (Keeps-trans n counted _
          (record { taint = k.taint; siblings = k.siblings; clock = k.clock })
          (send_recv_drift_message-Keeps now dummy_ts (pos 0) (pos 0) counted))

  pub calibrate-Keeps :
      (now dummy_ts : Timespec) (runs : List Run) (n : ENode F) (r : ENode F × Datagram)
      → calibrate now dummy_ts runs n ≡ some r
      → Keeps n r.0
  unfolding calibrate calibrate_count
  calibrate-Keeps now dummy_ts runs n r e =
      calibrate_drift-Keeps now dummy_ts n (calibrate_runs 10 1 (pos 0) runs n) r
        (λ p f.
          calibrate_runs-relates Any Keeps
            (parts-RelatesRuns Keeps parts-Keeps
              (λ t n. record { taint = λ h. h; siblings = refl; clock = refl }) end_delta-Keeps)
            10 1 (pos 0) runs n p (AllMeet-Any runs) f)
        e
