-- ===== src/AexTest/Halves.antt =====
-- Enclave.cpp, SELF_MONITOR: which gaps between readings of the counter are logged.
use tri_ha_rd_higher_resilie.Base.{
  ℕ, ◌+◌, ◌*◌, ◌≤◌, ◌<◌, ◌≡◌, refl, ◌∙◌, ap, inl, inr, Bool, true, false, List, [], ◌∷◌, length,
  if◌then◌else◌, Bool-cases, arith,
}
use tri_ha_rd_higher_resilie.Base.Int.{ℤ, pos, ◌-ℤ◌, ◌<ℤ◌, ltb_ℤ, leb_ℤ, -ℤ_parts}
use tri_ha_rd_higher_resilie.AexTest.{
  self_monitor, Counters, Event, reads, opens, compares, State, threshold, log_monitor, runs_on,
  compare_readings, read_at, step, run,
}
use tri_ha_rd_higher_resilie.AexTest.Log.{size, log_aex}

-- The gaps of at least `threshold` between a reading and the next one.
abbrev pub big_gaps : ℤ → List ℤ → ℕ
big_gaps a [] = 0
big_gaps a (now ∷ more) = (if leb_ℤ threshold (now -ℤ a) then 1 else 0) + big_gaps now more

one_at_most : (b : Bool) → (if b then 1 else 0) ≤ 1
one_at_most true = omega arith
one_at_most false = omega arith

-- The main thread reads the counter, and nothing else happens.
abbrev pub readings : List ℤ → List Event
readings [] = []
readings (now ∷ more) = reads now ∷ readings more

-- The entries of the log after a run, against the gaps that it has met.
abbrev pub Halves : ℕ → ℕ → ℕ → Type 0
Halves before after gaps = (after ≤ before + gaps) × (2 * before + gaps ≤ 2 * after)

module _ (sleep_time : ℤ) where
  -- The counter rises, and the time is not over.
  abbrev pub Rises : ℤ → ℤ → List ℤ → Type 0
  Rises reference a [] = Unit {0}
  Rises reference a (now ∷ more) =
      (a <ℤ now) × (runs_on self_monitor sleep_time now reference ≡ true) × Rises reference now more

  abbrev seen : ℤ → State → State
  seen now s = record s { counters = record s.counters { add_count = now } }

  rising-delta : (a now : ℤ) → a <ℤ now → ltb_ℤ (pos 0) (now -ℤ a) ≡ true
  rising-delta a now h = ground (arith, -ℤ_parts now a)

  small_gap :
      (a now : ℤ) (s : State)
      → a <ℤ now
      → runs_on self_monitor sleep_time now s.reference ≡ true
      → leb_ℤ threshold (now -ℤ a) ≡ false
      → compare_readings self_monitor sleep_time a now s
        ≡ record (seen now s) { phase = compares now }
  unfolding compare_readings
  small_gap a now s rises goes small =
      let below : ltb_ℤ (now -ℤ a) threshold ≡ true = ground arith in
      rw (goes, below, rising-delta a now rises) refl

  big_gap :
      (a now : ℤ) (s : State)
      → runs_on self_monitor sleep_time now s.reference ≡ true
      → leb_ℤ threshold (now -ℤ a) ≡ true
      → compare_readings self_monitor sleep_time a now s
        ≡ record (seen now s) { counters = log_monitor (seen now s).counters; phase = opens }
  unfolding compare_readings
  big_gap a now s goes big =
      let above : ltb_ℤ (now -ℤ a) threshold ≡ false = ground arith in rw (goes, above, big) refl

  logs_one :
      (c : Counters)
      → c.monitor_aex.next_index < size
      → (log_monitor c).monitor_aex.next_index ≡ c.monitor_aex.next_index + 1
  unfolding log_monitor log_aex
  logs_one c room = ground arith

  abbrev logged_at : ℤ → State → State
  logged_at now s = record (seen now s) {
    counters = log_monitor (seen now s).counters;
    phase = opens;
  }

  read_opens :
      (next : ℤ) (s : State)
      → s.phase ≡ opens
      → read_at self_monitor sleep_time next s.phase s ≡ record s { phase = compares next }
  unfolding read_at
  read_opens next s e = rw e refl

  read_small :
      (a now : ℤ) (s : State)
      → s.phase ≡ compares a
      → a <ℤ now
      → runs_on self_monitor sleep_time now s.reference ≡ true
      → leb_ℤ threshold (now -ℤ a) ≡ false
      → read_at self_monitor sleep_time now s.phase s ≡ record (seen now s) { phase = compares now }
  unfolding read_at
  read_small a now s e rises goes small = rw e (small_gap a now s rises goes small)

  read_big :
      (a now : ℤ) (s : State)
      → s.phase ≡ compares a
      → runs_on self_monitor sleep_time now s.reference ≡ true
      → leb_ℤ threshold (now -ℤ a) ≡ true
      → read_at self_monitor sleep_time now s.phase s
        ≡ record (seen now s) { counters = log_monitor (seen now s).counters; phase = opens }
  unfolding read_at
  read_big a now s e goes big = rw e (big_gap a now s goes big)

  run_cons :
      (now : ℤ) (more : List ℤ) (s : State)
      → run self_monitor sleep_time (readings (now ∷ more)) s
        ≡ run self_monitor sleep_time
            (readings more)
            (read_at self_monitor sleep_time now s.phase s)
  unfolding run step
  run_cons now more s = refl

  abbrev rest : List ℤ → State → State
  rest more s = run self_monitor sleep_time (readings more) s

  run_small :
      (a now : ℤ) (more : List ℤ) (s : State)
      → s.phase ≡ compares a
      → a <ℤ now
      → runs_on self_monitor sleep_time now s.reference ≡ true
      → leb_ℤ threshold (now -ℤ a) ≡ false
      → run self_monitor sleep_time (readings (now ∷ more)) s
        ≡ rest more (record (seen now s) { phase = compares now })
  run_small a now more s e rises goes small =
      run_cons now more s ∙ ap (rest more) (read_small a now s e rises goes small)

  run_big :
      (a now : ℤ) (more : List ℤ) (s : State)
      → s.phase ≡ compares a
      → runs_on self_monitor sleep_time now s.reference ≡ true
      → leb_ℤ threshold (now -ℤ a) ≡ true
      → run self_monitor sleep_time (readings (now ∷ more)) s ≡ rest more (logged_at now s)
  run_big a now more s e goes big =
      run_cons now more s ∙ ap (rest more) (read_big a now s e goes big)

  run_opens :
      (next : ℤ) (more : List ℤ) (s : State)
      → s.phase ≡ opens
      → rest (next ∷ more) s ≡ rest more (record s { phase = compares next })
  run_opens next more s e = run_cons next more s ∙ ap (rest more) (read_opens next s e)

  run_nil : (s : State) → rest [] s ≡ s
  unfolding run
  run_nil s = refl

  -- SELF_MONITOR on a counter that rises, until the time is over, with room in the log: it logs at
  -- most as many exits as there are gaps of 600 cycles between a reading and the next one, and at
  -- least half as many, since a gap right after a logged one is not seen.
  pub run-Halves :
      (vs : List ℤ) (a : ℤ) (s : State)
      → s.phase ≡ compares a
      → Rises s.reference a vs
      → s.counters.monitor_aex.next_index + length vs ≤ size
      → Halves s.counters.monitor_aex.next_index
          (run self_monitor sleep_time (readings vs) s).counters.monitor_aex.next_index
          (big_gaps a vs)
  run-Halves [] a s e h room = rw (run_nil s) (omega arith)
  run-Halves (now ∷ []) a s e h room = elim (Bool-cases (leb_ℤ threshold (now -ℤ a))) [
    | inr small ↦ rw (run_small a now [] s e h.0 h.1 small, run_nil, small) (omega arith)
    | inl big ↦
        rw (run_big a now [] s e h.1 big, run_nil, big)
          (omega (arith, logs_one (seen now s).counters (omega arith)))
  ]
  run-Halves (now ∷ (next ∷ more)) a s e h room = elim (Bool-cases (leb_ℤ threshold (now -ℤ a))) [
    | inr small ↦
        rw (run_small a now (next ∷ more) s e h.0 h.1 small, small)
          (omega (
            arith,
            run-Halves (next ∷ more) now (record (seen now s) { phase = compares now }) refl h.2
                (omega arith),
          ))
    | inl big ↦
        rw
          (run_big a now (next ∷ more) s e h.1 big, run_opens next more (logged_at now s) refl, big)
          (omega (
            arith,
            one_at_most (leb_ℤ threshold (next -ℤ now)),
            logs_one (seen now s).counters (omega arith),
            run-Halves more next (record (logged_at now s) { phase = compares next }) refl h.2.2
                (omega (arith, logs_one (seen now s).counters (omega arith))),
          ))
  ]
