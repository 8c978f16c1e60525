-- ===== src/Examples/AexTests.antt =====
-- Witnesses and tests for the program that measures exits.
use tri_ha_rd_higher_resilie.Base.{◌≡◌, refl, arith, none, List, [], ◌∷◌}
use tri_ha_rd_higher_resilie.Base.Int.{ℤ, pos, ◌-ℤ◌, ◌*ℤ◌}
use tri_ha_rd_higher_resilie.AexTest.{
  syscall_sleep, self_monitor, Counters, adds, exits_counter, looks, finishes, waits, compares,
  State, run, step, report, log_count,
}
use tri_ha_rd_higher_resilie.AexTest.Log.{
  AexLog, row, count_header, total, log_aex, print_array, print_rows,
}
use tri_ha_rd_higher_resilie.AexTest.Halves.{readings, big_gaps, Halves, run-Halves}
use tri_ha_rd_higher_resilie.AexTest.App.{Settings}

abbrev empty : AexLog
empty = record { entries = λ i. pos 0; next_index = 0 }

abbrev counters : Counters
counters = record {
  add_count = pos 0;
  tsc = pos 0;
  count_aex = empty;
  monitor_aex = empty;
  printed = [];
}

abbrev values : List ℤ
values = pos 5 ∷ (pos 8 ∷ [])

-- Two gaps of 600 cycles or more, the second right after the first.
abbrev ticks : List ℤ
ticks = pos 1100 ∷ (pos 2000 ∷ (pos 3000 ∷ (pos 3100 ∷ [])))

abbrev monitoring : State
monitoring = record { phase = compares (pos 1000); reference = pos 1000; counters = counters }

run-Halves_example :
    Halves 0
      (run self_monitor (pos 1) (readings ticks) monitoring).counters.monitor_aex.next_index
      (big_gaps (pos 1000) ticks)
unfolding ◌-ℤ◌ ◌*ℤ◌
run-Halves_example =
    run-Halves (pos 1) ticks (pos 1000) monitoring refl
      (omega arith, refl, (omega arith, refl, (omega arith, refl, (omega arith, refl, tt))))
      (omega arith)

abbrev o_readtsc_settings : Settings
o_readtsc_settings = record {
  sgx_type = pos 1;
  sleep_time = pos 5;
  sleep_inside_enclave = pos 1;
  verbosity = pos 1;
  cores = none;
}

-- A run with a system call: the counting thread is interrupted once.
sleeping_runs :
    report (pos 1) (
      run syscall_sleep
        (pos 1)
        (looks ∷ (adds (pos 4) ∷ (looks ∷ (exits_counter ∷ (adds (pos 9) ∷ (finishes ∷ []))))))
        (record { phase = waits; reference = pos 0; counters = counters }))
    ≡ count_header ∷ (row 0 (pos 0) ∷ (total 1 (pos 5) ∷ []))
unfolding report run step log_count log_aex print_array print_rows ◌-ℤ◌
sleeping_runs = refl
