-- ===== src/AexTest/Assembly.antt =====
-- Enclave.cpp: AEX_SELF_MONITOR and AEX_ASM_SELF_MONITOR, its version in assembly.
use tri_ha_rd_higher_resilie.Base.{
  ◌≡◌, refl, ◌∙◌, ap, inl, inr, List, [], ◌∷◌, Bool-cases, sym, subst,
}
use tri_ha_rd_higher_resilie.Base.Int.{ℤ, pos, ◌+ℤ◌, ◌*ℤ◌, ltb_ℤ}
use tri_ha_rd_higher_resilie.AexTest.{
  SleepType, aex_self_monitor, aex_asm_self_monitor, Counters, Event, adds, exits_counter,
  exits_main, looks, reads, finishes, Phase, starts, counts, counts_asm, done, State, log_count,
  main_handler, read_at, step, run, report,
}

-- No other thread stores into `add_count`: these modes are run without the counting thread.
abbrev pub NoAdds : List Event → Type 0
NoAdds [] = Unit {0}
NoAdds (adds v ∷ more) = ⊥
NoAdds (exits_counter ∷ more) = NoAdds more
NoAdds (exits_main ∷ more) = NoAdds more
NoAdds (looks ∷ more) = NoAdds more
NoAdds (reads now ∷ more) = NoAdds more
NoAdds (finishes ∷ more) = NoAdds more

-- The phase of the assembly, whose register holds what is in `add_count`.
abbrev asm_phase : Phase → ℤ → Phase
asm_phase (counts stop_tsc) n = counts_asm stop_tsc n
asm_phase p n = p

abbrev asm_of : State → State
asm_of s = record s { phase = asm_phase s.phase s.counters.add_count }

-- The phases of AEX_SELF_MONITOR.
abbrev IsTimed : Phase → ℤ → Type 0
IsTimed starts n = n ≡ pos 0
IsTimed (counts stop_tsc) n = Unit {0}
IsTimed done n = Unit {0}
IsTimed _ n = ⊥

abbrev Timed : State → Type 0
Timed s = IsTimed s.phase s.counters.add_count

asm_of_start : (s : State) → s.phase ≡ starts → asm_of s ≡ s
asm_of_start s p =
    ap (λ q. record s { phase = asm_phase q s.counters.add_count }) p
    ∙ ap (λ q. record s { phase = q }) (sym p)

report-asm_of : (verbosity : ℤ) (s : State) → report verbosity (asm_of s) ≡ report verbosity s
unfolding report
report-asm_of verbosity s = refl

module _ (sleep_time : ℤ) where
  abbrev c_step : Event → State → State
  c_step = step aex_self_monitor sleep_time

  abbrev asm_step : Event → State → State
  asm_step = step aex_asm_self_monitor sleep_time

  abbrev Agrees : Event → State → Type 0
  Agrees e s = (asm_step e (asm_of s) ≡ asm_of (c_step e s)) × Timed (c_step e s)

  read-Agrees :
      (now : ℤ) (p : Phase) (c : Counters) (reference : ℤ)
      → IsTimed p c.add_count
      → Agrees (reads now) (record { phase = p; reference = reference; counters = c })
  unfolding step read_at
  read-Agrees now starts c reference t = (
    ap
        (λ n. record {
          phase = counts_asm (pos 3000000 *ℤ sleep_time +ℤ now) n;
          reference = pos 0;
          counters = c;
        })
        (sym t),
    tt,
  )
  read-Agrees now (counts stop_tsc) c reference t = elim (Bool-cases (ltb_ℤ now stop_tsc)) [
    | inl more ↦ rw more (refl, tt)
    | inr over ↦ rw over (refl, tt)
  ]
  read-Agrees now done c reference t = (refl, tt)
  read-Agrees now _ c reference t = absurd t

  looks-Agrees :
      (p : Phase) (c : Counters) (reference : ℤ)
      → IsTimed p c.add_count
      → Agrees looks (record { phase = p; reference = reference; counters = c })
  unfolding step
  looks-Agrees starts c reference t = (refl, t)
  looks-Agrees (counts stop_tsc) c reference t = (refl, tt)
  looks-Agrees done c reference t = (refl, tt)
  looks-Agrees _ c reference t = absurd t

  finishes-Agrees :
      (p : Phase) (c : Counters) (reference : ℤ)
      → IsTimed p c.add_count
      → Agrees finishes (record { phase = p; reference = reference; counters = c })
  unfolding step
  finishes-Agrees starts c reference t = (refl, t)
  finishes-Agrees (counts stop_tsc) c reference t = (refl, tt)
  finishes-Agrees done c reference t = (refl, tt)
  finishes-Agrees _ c reference t = absurd t

  exits_counter-Agrees : (s : State) → Timed s → Agrees exits_counter s
  unfolding step log_count
  exits_counter-Agrees s t = (refl, t)

  exits_main-Agrees : (s : State) → Timed s → Agrees exits_main s
  unfolding step main_handler log_count
  exits_main-Agrees s t = (refl, t)

  step-Agrees :
      (e : Event) (more : List Event) (s : State) → NoAdds (e ∷ more) → Timed s → Agrees e s
  step-Agrees (adds v) more s n t = absurd n
  step-Agrees exits_counter more s n t = exits_counter-Agrees s t
  step-Agrees exits_main more s n t = exits_main-Agrees s t
  step-Agrees looks more s n t = looks-Agrees s.phase s.counters s.reference t
  step-Agrees (reads now) more s n t = read-Agrees now s.phase s.counters s.reference t
  step-Agrees finishes more s n t = finishes-Agrees s.phase s.counters s.reference t

  NoAdds-tail : (e : Event) (more : List Event) → NoAdds (e ∷ more) → NoAdds more
  NoAdds-tail (adds v) more n = absurd n
  NoAdds-tail exits_counter more n = n
  NoAdds-tail exits_main more n = n
  NoAdds-tail looks more n = n
  NoAdds-tail (reads now) more n = n
  NoAdds-tail finishes more n = n

  run_cons :
      (m : SleepType) (e : Event) (more : List Event) (s : State)
      → run m sleep_time (e ∷ more) s ≡ run m sleep_time more (step m sleep_time e s)
  unfolding run
  run_cons m e more s = refl

  run_nil : (m : SleepType) (s : State) → run m sleep_time [] s ≡ s
  unfolding run
  run_nil m s = refl

  run-Agrees :
      (events : List Event) (s : State)
      → NoAdds events
      → Timed s
      → run aex_asm_self_monitor sleep_time events (asm_of s)
        ≡ asm_of (run aex_self_monitor sleep_time events s)
  run-Agrees [] s n t =
      run_nil aex_asm_self_monitor (asm_of s) ∙ ap asm_of (sym (run_nil aex_self_monitor s))
  run-Agrees (e ∷ more) s n t =
      let (agrees, timed) = step-Agrees e more s n t in
      run_cons aex_asm_self_monitor e more (asm_of s)
      ∙ ap (run aex_asm_self_monitor sleep_time more) agrees
      ∙ run-Agrees more (c_step e s) (NoAdds-tail e more n) timed
      ∙ ap asm_of (sym (run_cons aex_self_monitor e more s))

  -- Without a counting thread, from an `add_count` of 0 and whatever else happens, the version in
  -- assembly leaves the same counters, logs and reference as the one in C, and prints the same.
  pub report-Assembly :
      (events : List Event) (s : State) (verbosity : ℤ)
      → NoAdds events
      → s.phase ≡ starts
      → s.counters.add_count ≡ pos 0
      → let c = run aex_self_monitor sleep_time events s in
        let asm = run aex_asm_self_monitor sleep_time events s in
        (asm.counters ≡ c.counters)
        × (asm.reference ≡ c.reference)
        × (report verbosity asm ≡ report verbosity c)
  report-Assembly events s verbosity n p z =
      let c = run aex_self_monitor sleep_time events s in
      let timed = subst (λ q. IsTimed q s.counters.add_count) (sym p) z in
      let same : run aex_asm_self_monitor sleep_time events s ≡ asm_of c =
        ap (run aex_asm_self_monitor sleep_time events) (sym (asm_of_start s p))
        ∙ run-Agrees events s n timed in
      (
        ap (λ t. t.counters) same,
        ap (λ t. t.reference) same,
        ap (report verbosity) same ∙ report-asm_of verbosity c,
      )
