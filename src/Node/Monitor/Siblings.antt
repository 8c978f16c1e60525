-- ===== src/Node/Monitor/Siblings.antt =====
-- ENode.cpp: the monitoring, the calibration and the exits do not depend on the siblings.
use tri_ha_rd_higher_resilie.Base.{
  ℕ, zero, suc, ◌≡◌, refl, ap, ◌∙◌, inl, inr, ◌||◌, Bool, true, false, List, [], ◌∷◌, Option, none,
  some, Bool-cases, arith, if◌then◌else◌,
}
use tri_ha_rd_higher_resilie.Base.Int.{ℤ, pos, ◌+ℤ◌, ◌-ℤ◌, ltb_ℤ, tdiv}
use tri_ha_rd_higher_resilie.Double.{Double}
use tri_ha_rd_higher_resilie.Timespec.{Timespec}
use tri_ha_rd_higher_resilie.Node.{ENode, Peer, Datagram, print_state}
use tri_ha_rd_higher_resilie.Node.Clock.{read_clock, shadow_tsc_update, shadow_round}
use tri_ha_rd_higher_resilie.Node.Ntp.{send_recv_drift_message, ntp}
use tri_ha_rd_higher_resilie.Node.Ntp.Siblings.{with_siblings, Ignores}
use tri_ha_rd_higher_resilie.Node.Taint.{aex_handler}
use tri_ha_rd_higher_resilie.Node.Monitor.{
  Tick, reads, interrupted, Run, stop_after, count_loop, count_round, self_taint, check_count,
  end_round, monitor_rdtsc, end_delta, poll_loop, monitor_polling, calibrate_runs, continue_with,
  Meets, with_aex_notify, without_aex_notify, monitor_in, calibrate_count, calibrate_drift,
  calibrate, end_monitor,
}

module _ {F : Double} (qs : List Peer) where
  abbrev pub if_done : Option (ENode F) → Option (ENode F)
  if_done none = none
  if_done (some n) = some (with_siblings qs n)

  -- The same for an operation that may not end.
  abbrev pub IgnoresIf : (ENode F → Option (ENode F)) → Type 0
  IgnoresIf g = (n : ENode F) → g (with_siblings qs n) ≡ if_done (g n)

  if_done-if :
      (b : Bool) (x y x' y' : Option (ENode F))
      → x' ≡ if_done x
      → y' ≡ if_done y
      → (if b then x' else y') ≡ if_done (if b then x else y)
  if_done-if true x y x' y' p q = p
  if_done-if false x y x' y' p q = q

  pub aex_handler-Ignores : (t : ℤ) → Ignores {F = F} qs (aex_handler t)
  unfolding aex_handler print_state
  aex_handler-Ignores t n = ground arith

  count_round-Ignores : (mem : ℤ) → Ignores {F = F} qs (count_round mem)
  unfolding count_round
  count_round-Ignores mem n = ground arith

  self_taint-Ignores : Ignores {F = F} qs self_taint
  unfolding self_taint print_state
  self_taint-Ignores n = ground arith

  check_count-Ignores : (mem : ℤ) → Ignores {F = F} qs (check_count mem)
  unfolding check_count print_state
  check_count-Ignores mem n = ground arith

  end_round-Ignores :
      (mem : ℤ) (o : Option (ENode F)) → end_round mem (if_done o) ≡ if_done (end_round mem o)
  end_round-Ignores mem none = refl
  end_round-Ignores mem (some n) = ap some (
      ap (λ m. check_count mem (self_taint m)) (count_round-Ignores mem n)
      ∙ ap (check_count mem) (self_taint-Ignores (count_round mem n))
      ∙ check_count-Ignores mem (self_taint (count_round mem n)))

  count_loop-Ignores :
      (stop_tsc : ℤ) (ticks : List Tick) (count : ℤ) → IgnoresIf (count_loop stop_tsc ticks count)
  unfolding count_loop
  count_loop-Ignores stop_tsc [] count n = refl
  count_loop-Ignores stop_tsc (interrupted t ∷ ticks) count n =
      ap (count_loop stop_tsc ticks count) (aex_handler-Ignores t n)
      ∙ count_loop-Ignores stop_tsc ticks count (aex_handler t n)
  count_loop-Ignores stop_tsc (reads t ∷ ticks) count n = elim (Bool-cases (ltb_ℤ t stop_tsc)) [
    | inl more ↦ rw more (count_loop-Ignores stop_tsc ticks (count +ℤ pos 1) _)
    | inr done ↦ rw done refl
  ]

  pub monitor_rdtsc-Ignores :
      (start_tsc : ℤ) (ticks : List Tick) → IgnoresIf (monitor_rdtsc start_tsc ticks)
  unfolding monitor_rdtsc stop_after
  monitor_rdtsc-Ignores start_tsc ticks n =
      ap (end_round n.total_aex_count) (count_loop-Ignores (stop_after start_tsc n) ticks (pos 0) n)
      ∙ end_round-Ignores n.total_aex_count _

  end_delta-Ignores : (threshold delta : ℤ) → Ignores {F = F} qs (end_delta threshold delta)
  unfolding end_delta self_taint print_state
  end_delta-Ignores threshold delta n = ground arith

  poll_loop-Ignores :
      (threshold stop_tsc : ℤ) (readings : List ℤ) (a : Option ℤ)
      → IgnoresIf (poll_loop threshold stop_tsc a readings)
  unfolding poll_loop
  poll_loop-Ignores threshold stop_tsc [] a n = refl
  poll_loop-Ignores threshold stop_tsc (t ∷ readings) none n =
      poll_loop-Ignores threshold stop_tsc readings (some t) n
  poll_loop-Ignores threshold stop_tsc (t ∷ readings) (some a) n =
      let read = record n { tsc = t } in
      let delta = t -ℤ a in
      let ended = end_delta-Ignores threshold delta read in
      let inner = poll_loop-Ignores threshold stop_tsc readings (some t) read in
      let outer =
        ap (poll_loop threshold stop_tsc none readings) ended
        ∙ poll_loop-Ignores threshold stop_tsc readings none (end_delta threshold delta read) in
      if_done-if _ _ _ _ _ inner
        (if_done-if _ _ _ _ _ (ap some ended) (if_done-if _ _ _ _ _ outer (ap some ended)))

  pub monitor_polling-Ignores :
      (threshold start_tsc : ℤ) (readings : List ℤ)
      → IgnoresIf (monitor_polling threshold start_tsc readings)
  unfolding monitor_polling stop_after
  monitor_polling-Ignores threshold start_tsc readings n =
      poll_loop-Ignores threshold (stop_after start_tsc n) readings none n

  monitor_in-Ignores : (start_tsc : ℤ) (meets : Meets) → IgnoresIf (monitor_in start_tsc meets)
  monitor_in-Ignores start_tsc (with_aex_notify ticks) n = monitor_rdtsc-Ignores start_tsc ticks n
  monitor_in-Ignores start_tsc (without_aex_notify threshold readings) n =
      monitor_polling-Ignores threshold start_tsc readings n

  abbrev if_calibrated : Option (ENode F × Bool) → Option (ENode F × Bool)
  if_calibrated none = none
  if_calibrated (some (n, b)) = some (with_siblings qs n, b)

  if_calibrated-if :
      (b : Bool) (x y x' y' : Option (ENode F × Bool))
      → x' ≡ if_calibrated x
      → y' ≡ if_calibrated y
      → (if b then x' else y') ≡ if_calibrated (if b then x else y)
  if_calibrated-if true x y x' y' p q = p
  if_calibrated-if false x y x' y' p q = q

  continue_with-Ignores :
      (k : ENode F → Option (ENode F × Bool))
      → ((m : ENode F) → k (with_siblings qs m) ≡ if_calibrated (k m))
      → (o : Option (ENode F)) → continue_with (if_done o) k ≡ if_calibrated (continue_with o k)
  continue_with-Ignores k h none = refl
  continue_with-Ignores k h (some m) = h m

  calibrate_runs-Ignores :
      (left i : ℕ) (sum : ℤ) (runs : List Run) (n : ENode F)
      → calibrate_runs left i sum runs (with_siblings qs n)
        ≡ if_calibrated (calibrate_runs left i sum runs n)
  unfolding calibrate_runs
  calibrate_runs-Ignores zero i sum runs n = refl
  calibrate_runs-Ignores (suc left) i sum [] n = refl
  calibrate_runs-Ignores (suc left) i sum (r ∷ runs) n =
      let found = record n { stop = n.stop || r.stopping } in
      let next = λ (m : ENode F).
        if ltb_ℤ (sum +ℤ m.add_count) sum
        then some (m, false)
        else calibrate_runs left (suc i) (sum +ℤ m.add_count) runs
            (record m { add_count_ref = tdiv (sum +ℤ m.add_count) i }) in
      if_calibrated-if (n.stop || r.stopping) _ _ _ _ refl (
        ap (λ o. continue_with o next) (monitor_in-Ignores r.start_tsc r.meets found)
        ∙ continue_with-Ignores next
            (λ m. if_calibrated-if (ltb_ℤ (sum +ℤ m.add_count) sum) _ _ _ _ refl (
              calibrate_runs-Ignores left (suc i) (sum +ℤ m.add_count) runs
                (record m { add_count_ref = tdiv (sum +ℤ m.add_count) i })))
            (monitor_in r.start_tsc r.meets found))

  pub send_recv_drift_message-Ignores :
      (now dummy_ts : Timespec) (sleep_time_ms sleep_ms : ℤ) (n : ENode F)
      → send_recv_drift_message now dummy_ts sleep_time_ms sleep_ms (with_siblings qs n) ≡ (
        with_siblings qs (send_recv_drift_message now dummy_ts sleep_time_ms sleep_ms n).0,
        (send_recv_drift_message now dummy_ts sleep_time_ms sleep_ms n).1,
      )
  unfolding send_recv_drift_message shadow_tsc_update shadow_round read_clock print_state
  send_recv_drift_message-Ignores now dummy_ts sleep_time_ms sleep_ms n =
      elim (Bool-cases n.attacker) [ inl attacks ↦ rw attacks refl | inr honest ↦ rw honest refl ]

  pub end_monitor-Ignores :
      (now dummy_ts : Timespec) → Ignores {F = F} qs (λ n. (end_monitor now dummy_ts n).0)
  unfolding end_monitor ntp send_recv_drift_message shadow_tsc_update shadow_round read_clock
      print_state
  end_monitor-Ignores now dummy_ts n = ground arith

  abbrev pub if_sent : Option (ENode F × Datagram) → Option (ENode F × Datagram)
  if_sent none = none
  if_sent (some (n, d)) = some (with_siblings qs n, d)

  calibrate_drift-Ignores :
      (now dummy_ts : Timespec) (o : Option (ENode F × Bool))
      → calibrate_drift now dummy_ts (if_calibrated o) ≡ if_sent (calibrate_drift now dummy_ts o)
  calibrate_drift-Ignores now dummy_ts none = refl
  calibrate_drift-Ignores now dummy_ts (some (n, b)) =
      ap some (
        send_recv_drift_message-Ignores now dummy_ts (pos 0) (pos 0) (record n { calib_count = b }))

  pub calibrate-Ignores :
      (now dummy_ts : Timespec) (runs : List Run) (n : ENode F)
      → calibrate now dummy_ts runs (with_siblings qs n) ≡ if_sent (calibrate now dummy_ts runs n)
  unfolding calibrate calibrate_count
  calibrate-Ignores now dummy_ts runs n =
      ap (calibrate_drift now dummy_ts) (calibrate_runs-Ignores 10 1 (pos 0) runs n)
      ∙ calibrate_drift-Ignores now dummy_ts (calibrate_count runs n)
