-- ===== src/Node/Monitor.antt =====
-- trihard/node/Enclave/ENode.cpp: the monitoring thread. The counter readings and the exits that a
-- round meets are its argument; `none` means that they end before the round does.
pub mod Polling
pub mod Counts
pub mod Rounds
pub mod Siblings
use tri_ha_rd_higher_resilie.Base.{
  ℕ, zero, suc, ◌+◌, ◌*◌, ◌/◌, ◌%◌, Bool, true, false, not, ◌&&◌, ◌||◌, List, [], ◌∷◌, Option, none,
  some, ◌==◌, if◌then◌else◌,
}
use tri_ha_rd_higher_resilie.Base.Int.{
  ℤ, tdiv, pos, negsuc, neg_ℤ, ◌+ℤ◌, ◌-ℤ◌, ◌*ℤ◌, ltb_ℤ, leb_ℤ, eqb_ℤ,
}
use tri_ha_rd_higher_resilie.Double.{Double}
use tri_ha_rd_higher_resilie.Timespec.{Timespec}
use tri_ha_rd_higher_resilie.Node.{
  ENode, Datagram, freq_state, handler, tainted, freq, full_calib, print_state,
}
use tri_ha_rd_higher_resilie.Node.Ntp.{ntp, send_recv_drift_message}
use tri_ha_rd_higher_resilie.Node.Taint.{aex_handler}

-- What the counting loop meets: a reading of the counter, or an AEX after which its handler reads
-- the counter.
pub data Tick : Type 0 where
  reads interrupted : ℤ → Tick

-- `monitor_time`, in milliseconds.
abbrev pub monitor_time : ℕ
monitor_time = 500

module _ {F : Double} where
  open F use {of_ℤ, trunc, literal, plus, minus, times, less}

  -- `((long long int)(tsc_freq*1000000))*monitor_time+start_tsc`.
  unfoldable pub stop_after : ℤ → ENode F → ℤ
  stop_after start_tsc n =
      trunc (times n.tsc_freq (of_ℤ (pos 1000000))) *ℤ pos monitor_time +ℤ start_tsc

  -- The assembly loop, with the count in `r10`.
  unfoldable pub count_loop : ℤ → List Tick → ℤ → ENode F → Option (ENode F)
  count_loop stop_tsc [] count n = none
  count_loop stop_tsc (interrupted t ∷ ticks) count n =
      count_loop stop_tsc ticks count (aex_handler t n)
  count_loop stop_tsc (reads t ∷ ticks) count n =
      let counted = record n { tsc = t; add_count = count +ℤ pos 1 } in
      let rest = count_loop stop_tsc ticks (count +ℤ pos 1) counted in
      if ltb_ℤ t stop_tsc then rest else some counted

  -- `nb_uninterr_rounds++` or `= 0`.
  unfoldable pub count_round : ℤ → ENode F → ENode F
  count_round mem_total_aex_count n =
      if eqb_ℤ n.total_aex_count mem_total_aex_count
      then record n { nb_uninterr_rounds = n.nb_uninterr_rounds +ℤ pos 1 }
      else record n { nb_uninterr_rounds = pos 0 }

  -- Self-tainting, after too many uninterrupted rounds.
  unfoldable pub self_taint : ENode F → ENode F
  self_taint n =
      let counted = record n {
        nb_uninterr_rounds = pos 0;
        total_aex_count = n.total_aex_count +ℤ pos 1;
      } in
      let printed = print_state handler counted in
      if ltb_ℤ n.selftainting_rounds n.nb_uninterr_rounds
      then print_state tainted (record printed { tainted = true })
      else n

  -- The check of the count of an uninterrupted round against the calibrated one.
  unfoldable pub check_count : ℤ → ENode F → ENode F
  check_count mem_total_aex_count n =
      let one = of_ℤ (pos 1) in
      let accuracy = literal 5 2 in
      let count = of_ℤ n.add_count in
      let high = times (of_ℤ n.add_count_ref) (plus one accuracy) in
      let low = times (of_ℤ n.add_count_ref) (minus one accuracy) in
      let discalibrated = record n { calib_count = false; node_state = freq_state } in
      if eqb_ℤ n.total_aex_count mem_total_aex_count && (less high count || less count low)
      then print_state full_calib (print_state freq discalibrated)
      else n

  abbrev pub end_round : ℤ → Option (ENode F) → Option (ENode F)
  end_round mem none = none
  end_round mem (some n) = some (check_count mem (self_taint (count_round mem n)))

  -- `monitor_rdtsc` in the build with AEX-Notify and SGX2.
  unfoldable pub monitor_rdtsc : ℤ → List Tick → ENode F → Option (ENode F)
  monitor_rdtsc start_tsc ticks n =
      end_round n.total_aex_count (count_loop (stop_after start_tsc n) ticks (pos 0) n)

  -- What the build without AEX-Notify does when the inner loop ends with `delta`.
  unfoldable pub end_delta : ℤ → ℤ → ENode F → ENode F
  end_delta threshold delta n =
      let exited = print_state handler (record n {
        total_aex_count = n.total_aex_count +ℤ pos 1;
        nb_uninterr_rounds = pos 0;
        tainted = true;
      }) in
      if leb_ℤ threshold delta
      then (if exited.calib_count then print_state tainted exited else exited)
      else if ltb_ℤ delta (pos 0)
      then print_state full_calib (record n { nb_uninterr_rounds = pos 0; calib_count = false })
      else self_taint (record n { nb_uninterr_rounds = n.nb_uninterr_rounds +ℤ pos 1 })

  -- The two loops of that build over the readings of the counter; the reading of the outer loop is
  -- the last one, or not made yet.
  unfoldable pub poll_loop : ℤ → ℤ → Option ℤ → List ℤ → ENode F → Option (ENode F)
  poll_loop threshold stop_tsc a [] n = none
  poll_loop threshold stop_tsc none (t ∷ readings) n =
      poll_loop threshold stop_tsc (some t) readings n
  poll_loop threshold stop_tsc (some a) (t ∷ readings) n =
      let read = record n { tsc = t } in
      let delta = t -ℤ a in
      let ended = end_delta threshold delta read in
      let inner = poll_loop threshold stop_tsc (some t) readings read in
      let outer = poll_loop threshold stop_tsc none readings ended in
      if ltb_ℤ t stop_tsc && ltb_ℤ delta threshold && ltb_ℤ (pos 0) delta
      then inner
      else if ltb_ℤ delta (pos 0)
      then some ended
      else if ltb_ℤ t stop_tsc
      then outer
      else some ended

  -- `monitor_rdtsc` in that build: `threshold` is 30000 with SGX2 and 60000 without.
  unfoldable pub monitor_polling : ℤ → ℤ → List ℤ → ENode F → Option (ENode F)
  monitor_polling threshold start_tsc readings n =
      poll_loop threshold (stop_after start_tsc n) none readings n

-- What a round meets: with AEX-Notify and SGX2, or without, by the threshold of the build.
pub data Meets : Type 0 where
  with_aex_notify : List Tick → Meets
  without_aex_notify : ℤ → List ℤ → Meets

-- A run of the calibration: whether the node is found stopping, and what the round meets.
pub record Run : Type 0 where
  pub stopping : Bool
  pub start_tsc : ℤ
  pub meets : Meets

module _ {F : Double} where
  abbrev pub continue_with : {A : Type 0} → Option (ENode F) → (ENode F → Option A) → Option A
  continue_with none k = none
  continue_with (some n) k = k n

  -- `monitor_rdtsc` of either build.
  abbrev pub monitor_in : ℤ → Meets → ENode F → Option (ENode F)
  monitor_in start_tsc (with_aex_notify ticks) n = monitor_rdtsc start_tsc ticks n
  monitor_in start_tsc (without_aex_notify threshold readings) n =
      monitor_polling threshold start_tsc readings n

  -- The loop of `calibrate_count`: the runs left, and `i` and `add_count_sum`.
  unfoldable pub calibrate_runs : ℕ → ℕ → ℤ → List Run → ENode F → Option (ENode F × Bool)
  calibrate_runs zero i sum runs n = some (n, true)
  calibrate_runs (suc left) i sum [] n = none
  calibrate_runs (suc left) i sum (r ∷ runs) n =
      let found = record n { stop = n.stop || r.stopping } in
      let next = λ (m : ENode F).
        let sum' = sum +ℤ m.add_count in
        let more =
          calibrate_runs left (suc i) sum' runs (record m { add_count_ref = tdiv sum' i }) in
        if ltb_ℤ sum' sum then some (m, false) else more in
      if found.stop
      then some (found, true)
      else continue_with (monitor_in r.start_tsc r.meets found) next

  unfoldable pub calibrate_count : List Run → ENode F → Option (ENode F × Bool)
  unfolding calibrate_runs
  calibrate_count runs n = calibrate_runs 10 1 (pos 0) runs n

  abbrev pub calibrate_drift :
      Timespec → Timespec → Option (ENode F × Bool) → Option (ENode F × Datagram)
  calibrate_drift now dummy_ts none = none
  calibrate_drift now dummy_ts (some (n, calibrated)) =
      some (
        send_recv_drift_message now dummy_ts (pos 0) (pos 0)
          (record n { calib_count = calibrated }))

  -- `calibrate`, with the drift message of `calibrate_drift`.
  unfoldable pub calibrate : Timespec → Timespec → List Run → ENode F → Option (ENode F × Datagram)
  calibrate now dummy_ts runs n = calibrate_drift now dummy_ts (calibrate_count runs n)

  abbrev one_sent : Option (ENode F × Datagram) → Option (ENode F × List Datagram)
  one_sent none = none
  one_sent (some (n, d)) = some (n, d ∷ [])

  abbrev step_ntp : ENode F × List Datagram → ENode F × List Datagram
  step_ntp (n, sent) = (record n { ntp_step = n.ntp_step + 1 }, sent)

  -- The end of a round of `monitor`: `ntp` in every second one.
  unfoldable pub end_monitor : Timespec → Timespec → ENode F → ENode F × List Datagram
  end_monitor now dummy_ts n =
      let (asked, sent) = ntp now dummy_ts n in
      if n.ntp_step % (1000 / monitor_time) == 0
      then step_ntp (record asked { ntp_step = 0 }, sent)
      else step_ntp (n, [])

  -- One round of the loop of `monitor`, past the test of `should_stop`.
  unfoldable pub monitor_round :
      Timespec → Timespec → ℤ → Meets → List Run → ENode F → Option (ENode F × List Datagram)
  monitor_round now dummy_ts start_tsc meets runs n =
      if n.calib_count
      then continue_with (monitor_in start_tsc meets n) (λ m. some (end_monitor now dummy_ts m))
      else one_sent (calibrate now dummy_ts runs n)
