-- ===== src/Launcher.antt =====
-- trihard/node/App/Node.cpp: the nodes of a process, outside their enclaves. What a call does to the
-- system is the list of its actions; `created` is the enclave that SGX makes, if it does.
pub mod Lifetime
pub mod Polling
use Prim.Native.String.{String}
use tri_ha_rd_higher_resilie.Base.{
  ℕ, Bool, true, false, List, [], ◌∷◌, ◌++◌, Option, none, some, map, ◌==◌, if◌then◌else◌,
}
use tri_ha_rd_higher_resilie.Base.Int.{ℤ}
use tri_ha_rd_higher_resilie.Manager.{lookup, erase, update}

pub data Thread : Type 0 where
  loop_recvfrom loop_untaint_trigger loop_refresh : Thread
  monitor : ℤ → Thread
  encl_poll_timestamp : ℤ → ℤ → Thread
  poll_timestamp : ℤ → ℤ → Thread
  bench_timestamp bench_lat_timestamp : Thread

pub data Action : Type 0 where
  creates_enclave destroys_enclave : ℕ → Action
  inits stops destroys : Action
  starts joins : Thread → Action

pub record Node : Type 0 where
  pub stop : Bool
  pub port : ℕ
  pub core_rd_tsc : ℤ
  pub sleep_attack_ms : ℤ
  pub enclave_id : ℕ
  pub threads : List Thread

-- `initialize_enclave`: on an error the identifier is 0.
abbrev initialize_enclave : Option ℕ → ℕ × List Action
initialize_enclave none = (0, [])
initialize_enclave (some id) = (id, creates_enclave id ∷ [])

-- `threads.emplace_back`.
unfoldable pub start : Thread → Node → Node × List Action
start t n = (record n { threads = n.threads ++ (t ∷ []) }, starts t ∷ [])

-- The constructor. A failure of SGX is printed, and the threads are started all the same.
unfoldable pub construct : Option ℕ → ℕ → ℤ → ℤ → Node × List Action
construct created port core_rd_tsc sleep_attack_ms =
    let (id, creates) = initialize_enclave created in
    let threads =
      loop_recvfrom ∷ (loop_untaint_trigger ∷ (loop_refresh ∷ (monitor core_rd_tsc ∷ []))) in
    (
      record {
        stop = false;
        port = port;
        core_rd_tsc = core_rd_tsc;
        sleep_attack_ms = sleep_attack_ms;
        enclave_id = id;
        threads = threads;
      },
      creates ++ (inits ∷ map starts threads),
    )

abbrev pub destroy_enclave : ℕ → List Action
destroy_enclave id = if id == 0 then [] else destroys_enclave id ∷ []

-- The destructor.
unfoldable pub destruct : Node → List Action
destruct n = stops ∷ (map joins n.threads ++ (destroys ∷ destroy_enclave n.enclave_id))

abbrev pub constructed : ℕ → List (ℕ × Node) → Node × List Action → List (ℕ × Node) × List Action
constructed port nodes (n, actions) = ((port, n) ∷ nodes, actions)

abbrev instance_found :
    Option ℕ → ℕ → ℤ → ℤ → List (ℕ × Node) → Option Node → List (ℕ × Node) × List Action
instance_found created port core sleep nodes none =
    constructed port nodes (construct created port core sleep)
instance_found created port core sleep nodes (some n) = (nodes, [])

unfoldable pub get_instance : Option ℕ → ℕ → ℤ → ℤ → List (ℕ × Node) → List (ℕ × Node) × List Action
unfolding construct lookup
get_instance created port core_rd_tsc sleep_attack_ms nodes =
    instance_found created port core_rd_tsc sleep_attack_ms nodes (lookup port nodes)

abbrev destroy_found : ℕ → List (ℕ × Node) → Option Node → List (ℕ × Node) × List Action
destroy_found port nodes none = (nodes, [])
destroy_found port nodes (some n) = (erase port nodes, destruct n)

unfoldable pub destroy_instance : ℕ → List (ℕ × Node) → List (ℕ × Node) × List Action
unfolding destruct lookup erase
destroy_instance port nodes = destroy_found port nodes (lookup port nodes)

abbrev started : ℕ → List (ℕ × Node) → Node × List Action → List (ℕ × Node) × List Action
started port nodes (n, actions) = (update port n nodes, actions)

abbrev start_found : ℕ → Thread → List (ℕ × Node) → Option Node → List (ℕ × Node) × List Action
start_found port t nodes none = (nodes, [])
start_found port t nodes (some n) = started port nodes (start t n)

-- `encl_poll_timestamp`, `poll_timestamp` with a thread, `bench_timestamp` and `bench_lat_timestamp` on
-- the node of a port each start one thread.
unfoldable pub start_on : ℕ → Thread → List (ℕ × Node) → List (ℕ × Node) × List Action
unfolding start lookup update
start_on port t nodes = start_found port t nodes (lookup port nodes)

-- A run of a process with one node: it is created, starts threads, and is destroyed.
unfoldable pub start_all : ℕ → List Thread → List (ℕ × Node) → List (ℕ × Node) × List Action
start_all port [] nodes = (nodes, [])
start_all port (t ∷ ts) nodes =
    let (next, actions) = start_on port t nodes in
    let (last, more) = start_all port ts next in (last, actions ++ more)
