-- ===== src/AexTest.antt =====
-- trihard/AEXTest/Enclave/Enclave.cpp: the program that measures the exits of an enclave. One thread
-- counts, the main thread waits in one of eight ways, and the handlers of both log the exits. What the
-- threads meet, in its order, is a list of events.
pub mod App
pub mod Assembly
pub mod Halves
pub mod Log
pub mod Printing
use tri_ha_rd_higher_resilie.Base.{
  ℕ, zero, suc, ◌+◌, ◌≡◌, Bool, true, false, ◌&&◌, not, List, [], ◌∷◌, ◌++◌, ltb, leb,
  if◌then◌else◌,
}
use tri_ha_rd_higher_resilie.Base.Int.{ℤ, pos, ◌+ℤ◌, ◌-ℤ◌, ◌*ℤ◌, ltb_ℤ, leb_ℤ, eqb_ℤ}
use tri_ha_rd_higher_resilie.AexTest.Log.{
  AexLog, Line, tsc_error, count_header, monitor_header, totals_header, total, totals, log_aex,
  print_array,
}

-- `sleep_type_t`.
pub data SleepType : Type 0 where
  syscall_sleep o_readtsc_sleep e_readtsc_sleep c_adder_sleep asm_adder_sleep : SleepType
  self_monitor aex_self_monitor aex_asm_self_monitor : SleepType

pub record Counters : Type 0 where
  pub add_count : ℤ
  pub tsc : ℤ
  pub count_aex : AexLog
  pub monitor_aex : AexLog
  -- What was printed, in order.
  pub printed : List Line

-- The counting thread stores a value in `add_count`; a thread is interrupted; the main thread reads
-- `add_count`, or the counter of the processor; or what it waits for ends.
pub data Event : Type 0 where
  adds : ℤ → Event
  exits_counter exits_main : Event
  looks : Event
  reads : ℤ → Event
  finishes : Event

-- Where the main thread is.
pub data Phase : Type 0 where
  -- `reference` is 0 so far.
  waits : Phase
  -- It sleeps, or it burns time.
  sleeps : Phase
  takes_reference polls : Phase
  -- SELF_MONITOR: it reads `a` next, or it has read `a`.
  opens : Phase
  compares : ℤ → Phase
  -- AEX_SELF_MONITOR and its assembly version, with `stop_tsc` and the register of the latter.
  starts : Phase
  counts : ℤ → Phase
  counts_asm : ℤ → ℤ → Phase
  done : Phase

pub record State : Type 0 where
  pub phase : Phase
  pub reference : ℤ
  pub counters : Counters

abbrev pub threshold : ℤ
threshold = pos 600

-- `log_aex` on the two arrays.
unfoldable pub log_count : Counters → Counters
log_count c =
    let (log, lines) = log_aex c.add_count c.count_aex in
    record c { count_aex = log; printed = c.printed ++ lines }

unfoldable pub log_monitor : Counters → Counters
log_monitor c =
    let (log, lines) = log_aex c.add_count c.monitor_aex in
    record c { monitor_aex = log; printed = c.printed ++ lines }

-- The handler that the main thread registers, if it registers one.
unfoldable pub main_handler : SleepType → Counters → Counters
unfolding log_count log_monitor
main_handler self_monitor c = c
main_handler aex_self_monitor c = log_count c
main_handler aex_asm_self_monitor c = log_count c
main_handler _ c = log_monitor c

abbrev pub first_phase : SleepType → Phase
first_phase self_monitor = takes_reference
first_phase aex_self_monitor = starts
first_phase aex_asm_self_monitor = starts
first_phase _ = waits

module _ (mode : SleepType) (sleep_time : ℤ) where
  -- `3000000000*sleep_time` cycles since the reference.
  abbrev pub runs_on : ℤ → ℤ → Bool
  runs_on now reference = ltb_ℤ (now -ℤ reference) (pos 3000000000 *ℤ sleep_time)

  abbrev pub poll_test : State → State
  poll_test s = record s { phase = if runs_on s.counters.tsc s.reference then polls else done }

  abbrev pub after_wait : SleepType → Phase
  after_wait o_readtsc_sleep = takes_reference
  after_wait e_readtsc_sleep = takes_reference
  after_wait _ = sleeps

  abbrev pub look_at : Phase → State → State
  look_at waits s =
      let found = s.counters.add_count in
      record s { reference = found; phase = if eqb_ℤ found (pos 0) then waits else after_wait mode }
  look_at _ s = s

  abbrev pub referenced : SleepType → State → State
  referenced self_monitor s = record s { phase = opens }
  referenced _ s = poll_test s

  -- The reading `now` of SELF_MONITOR, after the reading `a`.
  unfoldable pub compare_readings : ℤ → ℤ → State → State
  unfolding log_monitor
  compare_readings a now s =
      let delta = now -ℤ a in
      let counted = record s.counters { add_count = now } in
      let seen = record s { counters = counted } in
      let goes_on = runs_on now s.reference in
      if goes_on && (ltb_ℤ delta threshold && ltb_ℤ (pos 0) delta)
      then record seen { phase = compares now }
      else if leb_ℤ threshold delta
      then record seen { counters = log_monitor counted; phase = if goes_on then opens else done }
      else if ltb_ℤ delta (pos 0)
      then record seen {
        counters = record counted { printed = counted.printed ++ (tsc_error delta ∷ []) };
        phase = done;
      }
      else record seen { phase = if goes_on then opens else done }

  abbrev pub started : SleepType → ℤ → Phase
  started aex_asm_self_monitor stop_tsc = counts_asm stop_tsc (pos 0)
  started _ stop_tsc = counts stop_tsc

  unfoldable pub read_at : ℤ → Phase → State → State
  unfolding compare_readings
  read_at now takes_reference s = referenced mode (record s { reference = now })
  read_at now polls s = poll_test (record s { counters = record s.counters { tsc = now } })
  read_at now opens s = record s { phase = compares now }
  read_at now (compares a) s = compare_readings a now s
  read_at now starts s = record s {
    reference = pos 0;
    phase = started mode (pos 3000000 *ℤ sleep_time +ℤ now);
  }
  read_at now (counts stop_tsc) s = record s {
    counters = record s.counters { add_count = s.counters.add_count +ℤ pos 1 };
    phase = if ltb_ℤ now stop_tsc then counts stop_tsc else done;
  }
  read_at now (counts_asm stop_tsc r) s = record s {
    counters = record s.counters { add_count = r +ℤ pos 1 };
    phase = if ltb_ℤ now stop_tsc then counts_asm stop_tsc (r +ℤ pos 1) else done;
  }
  read_at now _ s = s

  abbrev pub finish_at : Phase → State → State
  finish_at sleeps s = record s { phase = done }
  finish_at _ s = s

  unfoldable pub step : Event → State → State
  unfolding log_count main_handler read_at
  step (adds v) s = record s { counters = record s.counters { add_count = v } }
  step exits_counter s = record s { counters = log_count s.counters }
  step exits_main s = record s { counters = main_handler mode s.counters }
  step looks s = look_at s.phase s
  step (reads now) s = read_at now s.phase s
  step finishes s = finish_at s.phase s

  unfoldable pub run : List Event → State → State
  unfolding step
  run [] s = s
  run (e ∷ es) s = run es (step e s)

-- What `main_thread` prints at its end.
unfoldable pub report : ℤ → State → List Line
unfolding print_array
report verbosity s =
    let c = s.counters in
    let counted = c.add_count -ℤ s.reference in
    (if leb_ℤ (pos 1) verbosity then count_header ∷ print_array c.count_aex s.reference else [])
    ++ ((if leb_ℤ (pos 2) verbosity
          then monitor_header ∷ print_array c.monitor_aex s.reference
          else [])
        ++ ((if eqb_ℤ verbosity (pos 1) then total c.count_aex.next_index counted ∷ [] else [])
            ++ (if leb_ℤ (pos 2) verbosity
                then totals_header
                  ∷ (totals c.count_aex.next_index c.monitor_aex.next_index counted ∷ [])
                else [])))
