-- ===== src/Node/Ntp.antt =====
-- trihard/node/Enclave/ENode.cpp: the NTP state machine and the exchange with the time authority.
pub mod Offset
pub mod Phase
pub mod Machine
pub mod Siblings
pub mod Training
use tri_ha_rd_higher_resilie.Base.{
  ℕ, ◌+◌, ◌^◌, Bool, true, false, not, List, [], ◌∷◌, leb, ◌==◌, ◌&&◌, if◌then◌else◌,
}
use tri_ha_rd_higher_resilie.Base.Int.{ℤ, pos, ◌+ℤ◌, ◌-ℤ◌}
use tri_ha_rd_higher_resilie.Double.{Double, fabs}
use tri_ha_rd_higher_resilie.Timespec.{Timespec, timespec, add, sub, le, ge}
use tri_ha_rd_higher_resilie.Timespec.Scale.{to_double, div}
use tri_ha_rd_higher_resilie.Wire.{drift_message, d_msg_expected_len, read_i64, read_timespec}
use tri_ha_rd_higher_resilie.Node.{
  ENode, Datagram, NodeState, sync_state, spik_state, freq_state, ta_consistent_state,
  ta_inconsistent_state, ta, ta_consistent, ta_inconsistent, spik, sync, print_state,
  step_out_threshold_s, step_threshold_ns, clock_floor_ns, min_poll_exponent, ta_ip, ta_port,
}
use tri_ha_rd_higher_resilie.Node.Clock.{
  read_clock, shadow_tsc_update, step_clock, discipline_clock,
}

abbrev pub is_freq : NodeState → Bool
is_freq freq_state = true
is_freq _ = false

abbrev pub is_sync : NodeState → Bool
is_sync sync_state = true
is_sync _ = false

-- `(rec_ts-org_ts+xmt_ts-recv_ts)/2`.
unfoldable pub half_offset : Double → Timespec → Timespec → Timespec → Timespec → Timespec
half_offset F org_ts rec_ts xmt_ts recv_ts =
    div F (sub (add (sub rec_ts org_ts) xmt_ts) recv_ts) (F.of_ℤ (pos 2))

module _ {F : Double} where
  open F use {of_ℤ, literal, plus, times, over, less_eq}

  -- `case node_state::SYNC_STATE` of `select_clock`.
  unfoldable pub select_sync : ENode F → ENode F
  unfolding discipline_clock
  select_sync n =
      let disciplined = discipline_clock n in
      let counted = record disciplined { startup_count = disciplined.startup_count -ℤ pos 1 } in
      if le counted.clock_offset (timespec (pos 0) clock_floor_ns)
      then record counted { startup_count = pos 0 }
      else counted

  -- `case node_state::SPIK_STATE`.
  unfoldable pub select_spik : ENode F → ENode F
  unfolding step_clock print_state
  select_spik n =
      let passed = record n { pass_count = n.pass_count + 2 ^ n.poll_exponent } in
      let stepped = step_clock passed in
      if le n.clock_offset (timespec (pos 0) clock_floor_ns)
      then print_state sync (record passed { pass_count = 0; node_state = sync_state })
      else if leb step_out_threshold_s passed.pass_count
      then print_state sync (record stepped { pass_count = 0; node_state = sync_state })
      else passed

  -- The end of the training: the frequency is set from the offset that built up meanwhile.
  unfoldable pub end_training : ENode F → ENode F
  unfolding step_clock to_double print_state
  end_training n =
      let train_duration = to_double F (sub n.ts_ref n.train_start_ts) in
      let ratio = over train_duration (plus train_duration (to_double F n.clock_offset)) in
      let stepped =
        step_clock (record n { train_stop_ts = n.ts_ref; tsc_freq = times n.tsc_freq ratio }) in
      print_state sync (record stepped {
        calib_count = false;
        pass_count = 0;
        node_state = sync_state;
        poll_exponent = min_poll_exponent;
        enter_freq = true;
      })

  -- `case node_state::FREQ_STATE`.
  unfoldable pub select_freq : ENode F → ENode F
  unfolding step_clock end_training
  select_freq n =
      let passed = record n { pass_count = n.pass_count + 2 ^ n.poll_exponent } in
      let stepped = step_clock passed in
      if passed.enter_freq
      then record stepped { train_start_ts = stepped.ts_ref; enter_freq = false }
      else if leb step_out_threshold_s passed.pass_count
      then end_training passed
      else passed

  abbrev pub select_by : NodeState → ENode F → ENode F
  select_by sync_state n = select_sync n
  select_by spik_state n = select_spik n
  select_by freq_state n = select_freq n

  unfoldable pub select_clock : ENode F → ENode F
  unfolding select_sync select_spik select_freq
  select_clock n = select_by n.node_state n

  -- `case 'D'`, between the new offset and `select_clock`: a spike, and the consistency with the TA.
  unfoldable pub judge_offset : ENode F → ENode F
  unfolding print_state to_double fabs
  judge_offset n =
      let spiked =
        if is_sync n.node_state && ge n.clock_offset (timespec (pos 0) step_threshold_ns)
        then print_state spik (record n { node_state = spik_state })
        else n in
      let consistent =
        less_eq (fabs F (to_double F spiked.clock_offset))
          (times (literal 15 6) (of_ℤ (pos (2 ^ spiked.poll_exponent)))) in
      if is_freq spiked.node_state
      then spiked
      else if consistent
      then print_state ta_consistent (record spiked { clock_state = ta_consistent_state })
      else print_state ta_inconsistent (record spiked { clock_state = ta_inconsistent_state })

  -- `case 'D'` of `handle_message`, for a message of the expected length.
  unfoldable pub accept_drift : Timespec → List ℕ → ENode F → ENode F
  accept_drift now buff n =
      let recvd_calib_msg_count = read_i64 5 buff in
      let org_ts = read_timespec 17 buff in
      let rec_ts = read_timespec 33 buff in
      let xmt_ts = read_timespec 49 buff in
      let (read, recv_ts) = read_clock (shadow_tsc_update now (print_state ta n)) in
      let judged =
        judge_offset (record read { clock_offset = half_offset F org_ts rec_ts xmt_ts recv_ts }) in
      let selected = select_clock judged in
      record selected {
        calib_recvd = record {
          msg_id = recvd_calib_msg_count;
          total_aex_count = selected.total_aex_count;
          tsc = selected.tsc;
        };
      }

  -- `send_recv_drift_message`: the new state and the datagram for the time authority. `dummy_ts` is
  -- the content of the local that is never written.
  unfoldable pub send_recv_drift_message :
      Timespec → Timespec → ℤ → ℤ → ENode F → ENode F × Datagram
  unfolding shadow_tsc_update read_clock
  send_recv_drift_message now dummy_ts sleep_time_ms sleep_ms n =
      let (read, org_ts) = read_clock (shadow_tsc_update now n) in
      (
        record read {
          calib_sent = record {
            msg_id = read.calib_msg_count;
            total_aex_count = read.total_aex_count;
            tsc = read.tsc;
          };
          calib_msg_count = read.calib_msg_count +ℤ pos 1;
        },
        record {
          payload = drift_message read.calib_msg_count (sleep_time_ms +ℤ sleep_ms) org_ts dummy_ts;
          ip = ta_ip;
          port = ta_port;
        },
      )

  abbrev sent_one : ENode F × Datagram → ENode F × List Datagram
  sent_one (n, d) = (n, d ∷ [])

  -- `ntp`: every 2 ^ poll_exponent calls a drift message is sent.
  unfoldable pub ntp : Timespec → Timespec → ENode F → ENode F × List Datagram
  unfolding send_recv_drift_message
  ntp now dummy_ts n =
      let counted = record n { poll_count = n.poll_count + 1 } in
      if counted.poll_count == 2 ^ counted.poll_exponent
      then sent_one (
          send_recv_drift_message now dummy_ts (pos 0) n.sleep_attack_ms
            (record counted { poll_count = 0 }))
      else (counted, [])
