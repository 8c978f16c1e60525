-- ===== src/Node/Steps.antt =====
-- trihard/node/Enclave: the steps of a node, in any order. Each is one operation of ENode.cpp, as the
-- threads of trihard/node/App/Node.cpp and the exits of the enclave run them.
pub mod Consistency
pub mod Siblings
pub mod Replays
pub mod Untainting
pub mod Rounds
pub mod Spares
pub mod SelfTainting
pub mod Climbs
pub mod Recovered
pub mod Order
pub mod Simulation
pub mod Timekeeping
pub mod Standard
pub mod Clocks
pub mod Runs
pub mod Keeps
use Prim.Native.String.{String}
use tri_ha_rd_higher_resilie.Base.{ℕ, ◌≡◌, Bool, true, List, some}
use tri_ha_rd_higher_resilie.Base.Int.{ℤ}
use tri_ha_rd_higher_resilie.Double.{Double}
use tri_ha_rd_higher_resilie.Timespec.{Timespec}
use tri_ha_rd_higher_resilie.Node.{ENode, Datagram}
use tri_ha_rd_higher_resilie.Node.Clock.{read_clock, shadow_tsc_update}
use tri_ha_rd_higher_resilie.Node.Peers.{add_sibling}
use tri_ha_rd_higher_resilie.Node.Taint.{aex_handler, send_tainted_messages}
use tri_ha_rd_higher_resilie.Node.Messages.{Inputs, handle_message}
use tri_ha_rd_higher_resilie.Node.Monitor.{
  Tick, Run, monitor_rdtsc, monitor_polling, calibrate, end_monitor,
}
use tri_ha_rd_higher_resilie.Node.Tasks.{construct, start_monitor}

module _ {F : Double} where
  pub data Step (n m : ENode F) : Type 0 where
    exits : (t : ℤ) → m ≡ aex_handler t n → Step n m
    starts : (now : Timespec) (reading : ℤ) → m ≡ start_monitor now reading n → Step n m
    monitors : (start : ℤ) (ticks : List Tick) → monitor_rdtsc start ticks n ≡ some m → Step n m
    polls :
        (threshold start : ℤ) (readings : List ℤ)
        → monitor_polling threshold start readings n ≡ some m
        → Step n m
    calibrates :
        (now dummy_ts : Timespec) (runs : List Run) (d : Datagram)
        → calibrate now dummy_ts runs n ≡ some (m, d)
        → Step n m
    asks_authority : (now dummy_ts : Timespec) → m ≡ (end_monitor now dummy_ts n).0 → Step n m
    receives :
        (i : Inputs) (ip : String) (cport : ℕ) (buff : List ℕ)
        → m ≡ (handle_message i ip cport buff n).0
        → Step n m
    adds :
        (failed : Bool) (hostname : String) (port : ℕ)
        → m ≡ (add_sibling failed hostname port n).0
        → Step n m
    serves : m ≡ (read_clock n).0 → Step n m
    shadows : (now : Timespec) → m ≡ shadow_tsc_update now n → Step n m
    asks_siblings : (dummy_ts : Timespec) → m ≡ (send_tainted_messages dummy_ts n).0 → Step n m
    stops : m ≡ record n { stop = true } → Step n m

  -- The states that follow the constructor.
  pub data Reachable : ENode F → Type 0 where
    created :
        (n memory : ENode F) (port : ℕ) (tsc_freq shadow_tsc_freq : F.Value) (sleep_attack_ms : ℤ)
        → n ≡ construct memory port tsc_freq shadow_tsc_freq sleep_attack_ms
        → Reachable n
    follows : (before n : ENode F) → Reachable before → Step before n → Reachable n
