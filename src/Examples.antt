-- ===== src/Examples.antt =====
-- Concrete nodes and messages for the witnesses of the theorems and for the tests.
pub mod AexTests
pub mod Users
pub mod Networks
pub mod Tools
pub mod Addresses
pub mod Servers
pub mod Values
pub mod Clocks
pub mod Taints
pub mod Drifts
pub mod Rounds
pub mod Sockets
pub mod Steps
pub mod Processes
pub mod Offsets
pub mod Authorities
use tri_ha_rd_higher_resilie.Base.{ℕ, false, true, List, [], ◌∷◌}
use tri_ha_rd_higher_resilie.Base.Int.{pos}
use tri_ha_rd_higher_resilie.Double.Exact.{exact, ratio}
use tri_ha_rd_higher_resilie.Timespec.{Timespec, timespec}
use tri_ha_rd_higher_resilie.Wire.{drift_message}
use tri_ha_rd_higher_resilie.Node.{
  ENode, Peer, peer, freq_state, ta_inconsistent_state, ta_consistent_state, sync_state, spik_state,
}

abbrev pub epoch : Timespec
epoch = timespec (pos 0) (pos 0)

abbrev pub noon : Timespec
noon = timespec (pos 1700000000) (pos 999999000)

-- A new node with a counter of one cycle per nanosecond.
abbrev pub fresh : ENode exact
fresh = record {
  port = 12345;
  stop = false;
  add_count = pos 0;
  total_aex_count = pos 0;
  nb_uninterr_rounds = pos 0;
  selftainting_rounds = pos 100;
  node_state = freq_state;
  clock_state = ta_inconsistent_state;
  clock_offset = epoch;
  poll_exponent = 2;
  calib_count = false;
  tainted = false;
  mem_add_count = pos 0;
  sleep_attack_ms = pos 0;
  tsc = pos 5000;
  tsc_freq = ratio (pos 1) 1;
  shadow_tsc_freq = ratio (pos 1) 1;
  attacker = false;
  tsc_offset = pos 0;
  tsc_ref = pos 1000;
  last_update_tsc = pos 1000;
  ts_ref = noon;
  calib_msg_count = pos 0;
  calib_sent = record { msg_id = pos 0; total_aex_count = pos 0; tsc = pos 0 };
  calib_recvd = record { msg_id = pos 0; total_aex_count = pos 0; tsc = pos 0 };
  add_count_ref = pos 0;
  siblings = [];
  monitor_stopped = false;
  refresh_stopped = false;
  trigger_stopped = false;
  readfrom_stopped = false;
  tainted_msg_count = pos 0;
  ntp_step = 0;
  poll_count = 0;
  pass_count = 0;
  startup_count = pos 100;
  enter_freq = true;
  train_start_ts = epoch;
  train_stop_ts = epoch;
  trace = [];
}

abbrev pub sibling : Peer
sibling = peer "127.0.0.1" 12346

-- A calibrated node that is consistent with the TA and has one sibling.
abbrev pub steady : ENode exact
steady = record fresh {
  node_state = sync_state;
  clock_state = ta_consistent_state;
  calib_count = true;
  siblings = sibling ∷ [];
}

abbrev pub steady_tainted : ENode exact
steady_tainted = record steady { tainted = true }

abbrev pub spiked : ENode exact
spiked = record steady { node_state = spik_state; poll_exponent = 6 }

abbrev pub drift : List ℕ
drift = drift_message (pos 3) (pos 0) noon noon
