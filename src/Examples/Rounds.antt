-- ===== src/Examples/Rounds.antt =====
-- Witnesses for the monitoring rounds.
use tri_ha_rd_higher_resilie.Base.{◌≡◌, refl, arith, List, [], ◌∷◌, some, true, false}
use tri_ha_rd_higher_resilie.Base.Int.{ℤ, pos, ◌+ℤ◌, ◌-ℤ◌, ◌*ℤ◌, ◌≤ℤ◌, +ℤ_parts}
use tri_ha_rd_higher_resilie.Double.Exact.{exact, trunc, times, plus, minus, less}
use tri_ha_rd_higher_resilie.Node.{ENode, print_state, handler, switched, tainted}
use tri_ha_rd_higher_resilie.Node.Taint.{aex_handler}
use tri_ha_rd_higher_resilie.Node.Monitor.{
  Tick, reads, interrupted, count_loop, count_round, self_taint, check_count, monitor_rdtsc,
  stop_after, monitor_polling, poll_loop, end_delta,
}
use tri_ha_rd_higher_resilie.Node.Monitor.Counts.{Counts}
use tri_ha_rd_higher_resilie.Node.Monitor.Polling.{monitor_polling-Counts}
use tri_ha_rd_higher_resilie.Node.Monitor.Rounds.{monitor_rdtsc-Counts}
use tri_ha_rd_higher_resilie.Node.Peers.{add_sibling}
use tri_ha_rd_higher_resilie.Node.Steps.{adds}
use tri_ha_rd_higher_resilie.Node.Steps.SelfTainting.{
  Rounds, TaintedIn, begins, monitored, between, Rounds-TaintedIn,
}
use tri_ha_rd_higher_resilie.Examples.{steady}

methods : Unit {0}
unfolding ◌+ℤ◌ ◌-ℤ◌ ◌*ℤ◌ trunc times plus minus less count_loop count_round self_taint check_count
    monitor_rdtsc stop_after aex_handler
methods = tt

-- A round from 5000 to 500005000 with two readings of the counter, and an AEX between them.
abbrev broken : List Tick
broken = reads (pos 300000000) ∷ (interrupted (pos 400000000) ∷ (reads (pos 500005000) ∷ []))

abbrev quiet : List Tick
quiet = reads (pos 300000000) ∷ (reads (pos 500005000) ∷ [])

abbrev calibrated : ENode exact
calibrated = record steady { add_count_ref = pos 2 }

abbrev after_broken : ENode exact
after_broken = record calibrated {
  tsc = pos 500005000;
  add_count = pos 2;
  mem_add_count = pos 1;
  total_aex_count = pos 1;
  tainted = true;
  trace = switched tainted ∷ (switched handler ∷ []);
}

broken_runs : monitor_rdtsc (pos 5000) broken calibrated ≡ some after_broken
unfolding methods
broken_runs = refl

abbrev after_quiet : ENode exact
after_quiet = record calibrated {
  tsc = pos 500005000;
  add_count = pos 2;
  nb_uninterr_rounds = pos 1;
}

quiet_runs : monitor_rdtsc (pos 5000) quiet calibrated ≡ some after_quiet
unfolding methods
quiet_runs = refl

monitor_rdtsc-Counts_example :
    Counts calibrated after_broken
    × (pos 0 ≤ℤ calibrated.selftainting_rounds
        → after_broken.nb_uninterr_rounds ≤ℤ calibrated.selftainting_rounds)
monitor_rdtsc-Counts_example =
    monitor_rdtsc-Counts (pos 5000) broken calibrated after_broken broken_runs

-- Two quiet rounds with a limit of one, and between them a call of `add_sibling` for a sibling it has.
abbrev limited : ENode exact
limited = record calibrated { selftainting_rounds = pos 1 }

abbrev after_first : ENode exact
after_first = record limited { tsc = pos 500005000; add_count = pos 2; nb_uninterr_rounds = pos 1 }

first_runs : monitor_rdtsc (pos 5000) quiet limited ≡ some after_first
unfolding methods
first_runs = refl

found_again : after_first ≡ (add_sibling false "127.0.0.1" 12346 after_first).0
unfolding add_sibling
found_again = refl

abbrev after_second : ENode exact
after_second = record after_first {
  nb_uninterr_rounds = pos 0;
  total_aex_count = pos 1;
  tainted = true;
  trace = switched tainted ∷ (switched handler ∷ []);
}

second_runs : monitor_rdtsc (pos 5000) quiet after_first ≡ some after_second
unfolding methods
second_runs = refl

abbrev two_rounds : Rounds limited 2 after_second
two_rounds =
    monitored 1 after_first after_second (pos 5000) quiet
      (between 1 after_first after_first
        (monitored 0 limited after_first (pos 5000) quiet begins first_runs)
        (adds false "127.0.0.1" 12346 found_again) tt)
      second_runs

Rounds-TaintedIn_example : TaintedIn two_rounds
Rounds-TaintedIn_example =
    Rounds-TaintedIn limited after_second 2 two_rounds (omega arith) (omega arith)
      (omega (arith, +ℤ_parts (pos 0) (pos 2)))

-- Three readings of the counter, with a gap before the last one.
abbrev gap : List ℤ
gap = pos 300000000 ∷ (pos 300000100 ∷ (pos 500005000 ∷ []))

abbrev after_gap : ENode exact
after_gap = record calibrated {
  tsc = pos 500005000;
  total_aex_count = pos 1;
  tainted = true;
  trace = switched tainted ∷ (switched handler ∷ []);
}

gap_runs : monitor_polling (pos 30000) (pos 5000) gap calibrated ≡ some after_gap
unfolding methods monitor_polling poll_loop end_delta print_state
gap_runs = refl

monitor_polling-Counts_example :
    Counts calibrated after_gap
    × (pos 0 ≤ℤ calibrated.selftainting_rounds
        → calibrated.nb_uninterr_rounds ≤ℤ calibrated.selftainting_rounds
        → after_gap.nb_uninterr_rounds ≤ℤ after_gap.selftainting_rounds)
monitor_polling-Counts_example =
    monitor_polling-Counts (pos 30000) (pos 5000) gap calibrated after_gap gap_runs
