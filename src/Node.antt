-- ===== src/Node.antt =====
-- trihard/node/Enclave/ENode.h: the state of a node. A function of the node returns the new state.
-- The function-local `static` variables of ENode.cpp are fields too, named by their function.
-- Each handler is one atomic step: what other threads write reaches it through its arguments.
pub mod Steps
pub mod Tasks
pub mod Cipher
pub mod Socket
pub mod Receive
pub mod Clock
pub mod Ntp
pub mod Peers
pub mod Join
pub mod Taint
pub mod Messages
pub mod Monitor
use tri_ha_rd_higher_resilie.Base.{ℕ, ◌+◌, ◌-◌, Bool, true, false, ◌&&◌, List, [], ◌∷◌, ◌==◌}
use tri_ha_rd_higher_resilie.Base.Int.{ℤ, pos, negsuc}
use tri_ha_rd_higher_resilie.Double.{Double}
use tri_ha_rd_higher_resilie.Timespec.{Timespec, timespec}
use Prim.Native.String.{String}
use text.Mathlib.Text.{◌==◌ as str_eq}

pub data Status : Type 0 where
  success socket_already_exists socket_creation_error socket_binding_error reading_error : Status
  decryption_failed sending_error socket_inexistent : Status

abbrev pub status_code : Status → ℤ
status_code success = pos 0
status_code socket_already_exists = negsuc 0
status_code socket_creation_error = negsuc 1
status_code socket_binding_error = negsuc 2
status_code reading_error = negsuc 3
status_code decryption_failed = negsuc 4
status_code sending_error = negsuc 5
status_code socket_inexistent = negsuc 6

pub data NodeState : Type 0 where
  sync_state spik_state freq_state : NodeState

pub data ClockState : Type 0 where
  ta_consistent_state ta_inconsistent_state : ClockState

pub data Caller : Type 0 where
  handler enode ta ok tainted ref_calib full_calib ta_inconsistent ta_consistent : Caller
  freq spik sync info enode_ts ref_ts : Caller

pub record CalibMsg : Type 0 where
  pub msg_id : ℤ
  pub total_aex_count : ℤ
  pub tsc : ℤ

pub record Peer : Type 0 where
  pub hostname : String
  pub port : ℕ
  pub last_ts_is_consistent : ℤ × Bool
  pub views_as_consistent : Bool

-- The constructor of `Peer`.
abbrev pub peer : String → ℕ → Peer
peer hostname port = record {
  hostname = hostname;
  port = port;
  last_ts_is_consistent = (pos 0, false);
  views_as_consistent = false;
}

-- `operator==(const Peer&, const Peer&)`.
unfoldable pub peer_eq : Peer → Peer → Bool
peer_eq lhs rhs = str_eq lhs.hostname rhs.hostname && lhs.port == rhs.port

-- The constants of the class.
abbrev pub max_uninterrupted_rounds : ℤ
max_uninterrupted_rounds = pos 100

abbrev pub peer_consistency_drift_threshold : Timespec
peer_consistency_drift_threshold = timespec (pos 0) (pos 500000)

abbrev pub aex_panic_threshold : ℤ
aex_panic_threshold = pos 100000

abbrev pub step_out_threshold_s : ℕ
step_out_threshold_s = 100

abbrev pub step_threshold_ns : ℤ
step_threshold_ns = pos 128000000

abbrev pub clock_floor_ns : ℤ
clock_floor_ns = pos 500000

abbrev pub min_poll_exponent : ℕ
min_poll_exponent = 6

abbrev pub allan_intercept : ℕ
allan_intercept = 11

-- `print_state(caller)`, the log that the analysis reads. Other output is left out.
pub data Event : Type 0 where
  switched : Caller → Event

-- What `sendMessage` is called with: the plaintext and its address.
pub record Datagram : Type 0 where
  pub payload : List ℕ
  pub ip : String
  pub port : ℕ

-- trihard/node/Enclave/ta.h, in the build for one host.
abbrev pub ta_ip : String
ta_ip = "127.0.0.1"

abbrev pub ta_port : ℕ
ta_port = 12340

pub record ENode (F : Double) : Type 0 where
  pub port : ℕ
  pub stop : Bool
  pub add_count : ℤ
  pub total_aex_count : ℤ
  pub nb_uninterr_rounds : ℤ
  pub selftainting_rounds : ℤ
  pub node_state : NodeState
  pub clock_state : ClockState
  pub clock_offset : Timespec
  pub poll_exponent : ℕ
  pub calib_count : Bool
  pub tainted : Bool
  pub mem_add_count : ℤ
  pub sleep_attack_ms : ℤ
  pub tsc : ℤ
  pub tsc_freq : F.Value
  pub shadow_tsc_freq : F.Value
  pub attacker : Bool
  pub tsc_offset : ℤ
  pub tsc_ref : ℤ
  pub last_update_tsc : ℤ
  pub ts_ref : Timespec
  pub calib_msg_count : ℤ
  pub calib_sent : CalibMsg
  pub calib_recvd : CalibMsg
  pub add_count_ref : ℤ
  pub siblings : List Peer
  pub monitor_stopped : Bool
  pub refresh_stopped : Bool
  pub trigger_stopped : Bool
  pub readfrom_stopped : Bool
  -- `sendTaintedMessages`
  pub tainted_msg_count : ℤ
  -- `monitor` and `ntp`
  pub ntp_step : ℕ
  pub poll_count : ℕ
  -- `select_clock`
  pub pass_count : ℕ
  pub startup_count : ℤ
  pub enter_freq : Bool
  pub train_start_ts : Timespec
  pub train_stop_ts : Timespec
  -- What `print_state` has printed, newest first.
  pub trace : List Event

module _ {F : Double} where
  unfoldable pub print_state : Caller → ENode F → ENode F
  print_state caller n = record n { trace = switched caller ∷ n.trace }
