-- ===== src/Examples/Steps.antt =====
-- Witnesses for the steps of a node, its threads, and the end of its tasks.
use mathlib.Core.List.{Permᴰ}
use Prim.Native.String.{String}
use tri_ha_rd_higher_resilie.Base.{
  ℕ, Has, inl, ◌≡◌, ◌≢◌, ◌↔◌, refl, true, false, arith, List, [], ◌∷◌, some, none,
}
use tri_ha_rd_higher_resilie.Base.Int.{pos, ◌≤ℤ◌, ◌+ℤ◌, ◌*ℤ◌, ◌-ℤ◌, neg_ℤ}
use tri_ha_rd_higher_resilie.Double.Exact.{exact, ratio, trunc, plus, times, minus, over}
use tri_ha_rd_higher_resilie.Wire.{
  tainted_message, untainting_message, read_i64, read_bool, read_timespec,
}
use tri_ha_rd_higher_resilie.Timespec.{lt, standardize, sub, add, add_nsec}
use tri_ha_rd_higher_resilie.Timespec.Scale.{div}
use tri_ha_rd_higher_resilie.Node.{ENode, Datagram, peer, peer_eq, print_state}
use tri_ha_rd_higher_resilie.Node.Clock.{read_clock, waits}
use tri_ha_rd_higher_resilie.Node.Peers.{find, replace, add_sibling}
use tri_ha_rd_higher_resilie.Node.Peers.Distinct.{Distinct}
use tri_ha_rd_higher_resilie.Node.Messages.{Inputs, handle_message}
use tri_ha_rd_higher_resilie.Node.Taint.{
  to_sibling, send_tainted_messages, aex_handler, accept_untainting, untaint_by, record_answer,
  has_quorum, max_tainted_msg_count, consistent_count, peer_consistent_count,
}
use tri_ha_rd_higher_resilie.Node.Taint.Untaint.{single_sibling_untaints}
use tri_ha_rd_higher_resilie.Node.Taint.FirstRound.{first_round_keeps_tainted}
use tri_ha_rd_higher_resilie.Node.Tasks.{start_monitor, construct, stop_tasks}
use tri_ha_rd_higher_resilie.Node.Tasks.Stopping.{
  SomeState, OneReceiverStopped, OneRefresherStopped, IsClosed, stop_tasks_lem,
}
use tri_ha_rd_higher_resilie.Node.Receive.{Host}
use tri_ha_rd_higher_resilie.Node.Steps.{serves, exits, receives, adds, created, follows}
use tri_ha_rd_higher_resilie.Node.Steps.Untainting.{UntaintedBy, Step-UntaintedBy}
use tri_ha_rd_higher_resilie.Node.Steps.Recovered.{Recovered, Steps-Recovered}
use tri_ha_rd_higher_resilie.Timespec.Nanos.{IsStandard}
use tri_ha_rd_higher_resilie.Node.Steps.Timekeeping.{Steps-IsStandard}
use tri_ha_rd_higher_resilie.Node.Steps.Replays.{Steps, here, next, Steps-Rejects}
use tri_ha_rd_higher_resilie.Node.Steps.Simulation.{Steps-order}
use tri_ha_rd_higher_resilie.Node.Taint.Order.{Reordered}
use tri_ha_rd_higher_resilie.Node.Steps.Siblings.{Reachable-Distinct}
use tri_ha_rd_higher_resilie.Examples.{noon, fresh, sibling, steady, steady_tainted}
use tri_ha_rd_higher_resilie.Examples.Sockets.{net}

abbrev host : String
host = "127.0.0.1"

abbrev answer : List ℕ
answer = untainting_message (pos 4) true noon noon noon

abbrev inputs : Inputs
inputs = record { now = noon; xmt_tsc = pos 6000 }

abbrev answered : ENode exact
answered = (handle_message inputs host 12346 answer steady_tainted).0

known : find sibling steady.siblings ≡ some sibling
unfolding find peer_eq
known = refl

answered_untainted : answered.tainted ≡ false
unfolding handle_message untainting_message
answered_untainted =
    single_sibling_untaints host 12346 answer steady_tainted sibling refl known refl

Step-UntaintedBy_example : UntaintedBy steady_tainted answered
Step-UntaintedBy_example =
    Step-UntaintedBy steady_tainted answered (receives inputs host 12346 answer refl) refl
      answered_untainted

answered_serves : (waits false (pos 0) answered ≡ false) × (answered.stop ≡ false)
unfolding waits handle_message untainting_message accept_untainting untaint_by record_answer
    print_state find peer_eq replace has_quorum max_tainted_msg_count consistent_count
    peer_consistent_count read_i64 read_bool read_timespec lt standardize div sub add add_nsec trunc
    plus times minus over ◌+ℤ◌ ◌*ℤ◌ ◌-ℤ◌ neg_ℤ
answered_serves = (refl, refl)

Steps-Recovered_example : Recovered steady_tainted answered
Steps-Recovered_example =
    Steps-Recovered (pos 0) steady_tainted answered
      (next here (receives inputs host 12346 answer refl)) refl answered_serves.0 answered_serves.1

abbrev new_node : ENode exact
new_node = construct fresh 12345 (ratio (pos 1) 1) (ratio (pos 1) 1) (pos 0)

abbrev with_sibling : ENode exact
with_sibling = (add_sibling false host 12346 new_node).0

Reachable-Distinct_example : Distinct with_sibling.siblings
Reachable-Distinct_example = Reachable-Distinct with_sibling (
    follows new_node with_sibling
      (created new_node fresh 12345 (ratio (pos 1) 1) (ratio (pos 1) 1) (pos 0) refl)
      (adds false host 12346 refl))

abbrev pair_tainted : ENode exact
pair_tainted = record steady_tainted { siblings = sibling ∷ (peer "10.0.0.2" 12345 ∷ []) }

abbrev first_answer : List ℕ
first_answer = untainting_message (pos 0) true noon noon noon

abbrev pair_asks : ENode exact
pair_asks = record new_node { siblings = pair_tainted.siblings }

abbrev first_request : Datagram
first_request = to_sibling (tainted_message (pos 0) (read_clock pair_asks).1 noon) sibling

first_sent : Has first_request (send_tainted_messages noon pair_asks).1
unfolding send_tainted_messages read_clock construct
first_sent = inl refl

first_count : read_i64 7 first_answer ≡ read_i64 7 first_request.payload
unfolding read_i64 untainting_message tainted_message
first_count = refl

start_count : pair_asks.tainted_msg_count ≡ new_node.tainted_msg_count
unfolding construct
start_count = refl

first_round_keeps_tainted_example :
    (accept_untainting host 12346 first_answer pair_tainted).tainted ≢ false
first_round_keeps_tainted_example =
    first_round_keeps_tainted fresh pair_asks pair_tainted 12345 (ratio (pos 1) 1) (ratio (pos 1) 1)
      (pos 0) noon first_request host 12346 first_answer start_count first_sent first_count refl
      (omega arith) ((refl, refl, (refl, refl, tt)))

abbrev monitored : ENode exact
monitored = record steady { stop = true; monitor_stopped = true }

abbrev refreshed : ENode exact
refreshed = record monitored { refresh_stopped = true }

stop_tasks_lem_example :
    ((stop_tasks (steady ∷ (monitored ∷ [])) (refreshed ∷ []) net ≢ none) ↔ (
      SomeState OneReceiverStopped (steady ∷ (monitored ∷ []))
      × SomeState OneRefresherStopped (refreshed ∷ [])))
    × ((h : Host exact)
        → stop_tasks (steady ∷ (monitored ∷ [])) (refreshed ∷ []) net ≡ some h
        → IsClosed net h)
stop_tasks_lem_example = stop_tasks_lem (steady ∷ (monitored ∷ [])) (refreshed ∷ []) net

abbrev met : ENode exact
met = record steady_tainted {
  siblings = record sibling { last_ts_is_consistent = (pos 4, true) } ∷ [];
}

met_known :
    find sibling met.siblings ≡ some (record sibling { last_ts_is_consistent = (pos 4, true) })
unfolding find peer_eq
met_known = refl

answer_round : read_i64 7 answer ≤ℤ pos 4
unfolding read_i64 untainting_message
answer_round = omega arith

Steps-Rejects_example :
    let exited = aex_handler (pos 9000) met in
    (accept_untainting host 12346 answer exited).siblings ≡ exited.siblings
Steps-Rejects_example =
    Steps-Rejects met (aex_handler (pos 9000) met) host 12346
      (record sibling { last_ts_is_consistent = (pos 4, true) }) answer
      (next here (exits (pos 9000) refl)) met_known answer_round

abbrev started_node : ENode exact
started_node = start_monitor noon (pos 4000) steady

Steps-IsStandard_example : IsStandard (read_clock (aex_handler (pos 9000) started_node)).0.ts_ref
Steps-IsStandard_example =
    Steps-IsStandard noon (pos 4000) steady (read_clock (aex_handler (pos 9000) started_node)).0
      (next (next here (exits (pos 9000) refl)) (serves refl)) (omega arith, omega arith)
      ((tt, tt), tt)

abbrev pair_swapped : ENode exact
pair_swapped = record steady_tainted { siblings = peer "10.0.0.2" 12345 ∷ (sibling ∷ []) }

pair-Distinct : Distinct pair_tainted.siblings
unfolding peer_eq
pair-Distinct = ((refl, tt), (tt, tt))

Steps-order_example :
    (k : ENode exact) × Steps pair_swapped k × Reordered (aex_handler (pos 9000) pair_tainted) k
Steps-order_example =
    Steps-order pair_tainted pair_swapped (aex_handler (pos 9000) pair_tainted)
      (record { order = Permᴰ.swap refl refl; same = refl }) pair-Distinct
      (next here (exits (pos 9000) refl))
