-- ===== src/Node/Steps/Climbs.antt =====
-- ENode.cpp, the count of uninterrupted rounds over each step of a node.
use mathlib.Core.Option.{some-injective}
use tri_ha_rd_higher_resilie.Base.{
  ◌≡◌, refl, sym, subst, ◌∙◌, ap, ◌⊎◌, inl, inr, Bool, true, arith, List, Option, none, some,
}
use tri_ha_rd_higher_resilie.Base.Int.{ℤ, pos, pos_part, neg_part, ◌+ℤ◌, ◌≤ℤ◌, int_laws, +ℤ_parts}
use tri_ha_rd_higher_resilie.Double.{Double}
use tri_ha_rd_higher_resilie.Timespec.{Timespec}
use tri_ha_rd_higher_resilie.Node.{ENode, Datagram}
use tri_ha_rd_higher_resilie.Node.Monitor.{
  Tick, Meets, with_aex_notify, without_aex_notify, monitor_in, Run, monitor_rdtsc, calibrate,
  calibrate_count, calibrate_runs, calibrate_drift,
}
use tri_ha_rd_higher_resilie.Node.Monitor.Rounds.{monitor_rdtsc-Counts, monitor_rdtsc-nb}
use tri_ha_rd_higher_resilie.Node.Steps.{
  Step, exits, starts, monitors, polls, calibrates, asks_authority, receives, adds, serves, shadows,
  asks_siblings, stops,
}
use tri_ha_rd_higher_resilie.Node.Ntp.{send_recv_drift_message}
use tri_ha_rd_higher_resilie.Node.Steps.Rounds.{RelatesRuns, AllMeet, calibrate_runs-relates}
use tri_ha_rd_higher_resilie.Node.Steps.Keeps.{send_recv_drift_message-Keeps}
use tri_ha_rd_higher_resilie.Node.Steps.Spares.{
  Spares, aex_handler-Spares, start_monitor-Spares, end_monitor-Spares, handle_message-Spares,
  add_sibling-Spares, read_clock-Spares, shadow_tsc_update-Spares, send_tainted_messages-Spares,
  send_recv_drift_message-Spares,
}

-- A round of the build with AEX-Notify.
abbrev pub IsNotified : Meets → Type 0
IsNotified (with_aex_notify ticks) = Unit
IsNotified (without_aex_notify threshold readings) = ⊥

module _ {F : Double} where
  -- The steps other than the monitoring rounds, in the build with AEX-Notify.
  abbrev pub IsBetween : {n m : ENode F} → Step n m → Type 0
  IsBetween (monitors start ticks e) = ⊥
  IsBetween (polls threshold start readings e) = ⊥
  IsBetween (calibrates now dummy_ts runs d e) = AllMeet IsNotified runs
  IsBetween _ = Unit

  -- The rounds do not fall back and stay within the limit, unless the node is left tainted.
  pub record Climbs (n m : ENode F) : Type 0 where
    pub limit : m.selftainting_rounds ≡ n.selftainting_rounds
    pub bounded :
        pos 0 ≤ℤ n.selftainting_rounds
        → n.nb_uninterr_rounds ≤ℤ n.selftainting_rounds
        → m.nb_uninterr_rounds ≤ℤ n.selftainting_rounds
    pub climbs : (n.nb_uninterr_rounds ≤ℤ m.nb_uninterr_rounds) ⊎ (m.tainted ≡ true)

  Spares-Climbs : (n m : ENode F) → Spares n m → Climbs n m
  Spares-Climbs n m s = record {
    limit = s.limit;
    bounded = λ _ h. omega (int_laws, h, ap pos_part s.nb, ap neg_part s.nb);
    climbs = inl (omega (int_laws, ap pos_part s.nb, ap neg_part s.nb));
  }

  -- A round that does not leave the node tainted is one more.
  pub round_climbs :
      (start_tsc : ℤ) (ticks : List Tick) (n m : ENode F)
      → monitor_rdtsc start_tsc ticks n ≡ some m
      → (m.nb_uninterr_rounds ≡ n.nb_uninterr_rounds +ℤ pos 1) ⊎ (m.tainted ≡ true)
  round_climbs start_tsc ticks n m e = elim (monitor_rdtsc-Counts start_tsc ticks n m e).0.taints [
    | inl same ↦ inl (monitor_rdtsc-nb start_tsc ticks n m e same)
    | inr tainted ↦ inr tainted
  ]

  pub monitor_rdtsc-Climbs :
      (start_tsc : ℤ) (ticks : List Tick) (n m : ENode F)
      → monitor_rdtsc start_tsc ticks n ≡ some m
      → Climbs n m
  monitor_rdtsc-Climbs start_tsc ticks n m e =
      let (counts, bounded) = monitor_rdtsc-Counts start_tsc ticks n m e in
      record {
        limit = counts.rounds;
        bounded = λ h _. bounded h;
        climbs = elim (round_climbs start_tsc ticks n m e) [
          | inl more ↦ inl (
              omega (
                int_laws,
                +ℤ_parts n.nb_uninterr_rounds (pos 1),
                ap pos_part more,
                ap neg_part more,
              ))
          | inr tainted ↦ inr tainted
        ];
      }

  -- The same, for steps that also keep the taint.
  abbrev Holds : ENode F → ENode F → Type 0
  Holds n m = Climbs n m × (n.tainted ≡ true → m.tainted ≡ true)

  Holds-trans : (n m k : ENode F) → Holds n m → Holds m k → Holds n k
  Holds-trans n m k (p, keeps) (q, keeps') = (
    record {
      limit = q.limit ∙ p.limit;
      bounded = λ h b.
          subst (λ z. k.nb_uninterr_rounds ≤ℤ z) p.limit
            (q.bounded (subst (λ z. pos 0 ≤ℤ z) (sym p.limit) h)
              (subst (λ z. m.nb_uninterr_rounds ≤ℤ z) (sym p.limit) (p.bounded h b)));
      climbs = ground (arith, p.climbs, q.climbs, keeps');
    },
    λ h. keeps' (keeps h),
  )

  kept :
      (n m : ENode F)
      → m.selftainting_rounds ≡ n.selftainting_rounds
      → m.nb_uninterr_rounds ≡ n.nb_uninterr_rounds
      → m.tainted ≡ n.tainted
      → m.total_aex_count ≡ n.total_aex_count
      → Holds n m
  kept n m limit nb taint total =
      (Spares-Climbs n m (record { total = inl total; nb = nb; limit = limit }), λ h. taint ∙ h)

  notified :
      (start : ℤ) (meets : Meets) (n m : ENode F)
      → IsNotified meets
      → monitor_in start meets n ≡ some m
      → Holds n m
  notified start (with_aex_notify ticks) n m _ e =
      (monitor_rdtsc-Climbs start ticks n m e, (monitor_rdtsc-Counts start ticks n m e).0.keeps)
  notified start (without_aex_notify threshold readings) n m other e = absurd other

  Holds-RelatesRuns : RelatesRuns IsNotified Holds
  Holds-RelatesRuns = record {
    same = λ n. kept n n refl refl refl refl;
    then = Holds-trans;
    rounds = notified;
    stops = λ stop n. kept n (record n { stop = stop }) refl refl refl refl;
    averages = λ average n. kept n (record n { add_count_ref = average }) refl refl refl refl;
  }

  calibrate_drift-Climbs :
      (now dummy_ts : Timespec) (n : ENode F) (o : Option (ENode F × Bool)) (r : ENode F × Datagram)
      → ((p : ENode F × Bool) → o ≡ some p → Holds n p.0)
      → calibrate_drift now dummy_ts o ≡ some r
      → Climbs n r.0
  calibrate_drift-Climbs now dummy_ts n none r h e = cc
  calibrate_drift-Climbs now dummy_ts n (some (m, calibrated)) r h e =
      let counted = record m { calib_count = calibrated } in
      let sent = (send_recv_drift_message now dummy_ts (pos 0) (pos 0) counted).0 in
      subst (λ x. Climbs n x.0) (some-injective _ r e)
        (Holds-trans n counted sent
          (Holds-trans n m counted (h (m, calibrated) refl) (kept m counted refl refl refl refl))
          (
            Spares-Climbs counted sent
                (send_recv_drift_message-Spares now dummy_ts (pos 0) (pos 0) counted),
            (send_recv_drift_message-Keeps now dummy_ts (pos 0) (pos 0) counted).taint,
          )).0

  calibrate-Climbs :
      (now dummy_ts : Timespec) (runs : List Run) (n : ENode F) (r : ENode F × Datagram)
      → AllMeet IsNotified runs
      → calibrate now dummy_ts runs n ≡ some r
      → Climbs n r.0
  unfolding calibrate calibrate_count
  calibrate-Climbs now dummy_ts runs n r all e =
      calibrate_drift-Climbs now dummy_ts n (calibrate_runs 10 1 (pos 0) runs n) r
        (λ p f.
          calibrate_runs-relates IsNotified Holds Holds-RelatesRuns 10 1 (pos 0) runs n p all f)
        e

  pub Step-Climbs : (n m : ENode F) (s : Step n m) → IsBetween s → Climbs n m
  Step-Climbs n m s b = by s b
    where
      after : (k : ENode F) → m ≡ k → Spares n k → Climbs n m
      after k e p = subst (Climbs n) (sym e) (Spares-Climbs n k p)

      by : (s : Step n m) → IsBetween s → Climbs n m
      by (exits t e) b = after _ e (aex_handler-Spares t n)
      by (starts now reading e) b = after _ e (start_monitor-Spares now reading n)
      by (monitors start ticks e) b = absurd b
      by (polls threshold start readings e) b = absurd b
      by (calibrates now dummy_ts runs d e) b = calibrate-Climbs now dummy_ts runs n (m, d) b e
      by (asks_authority now dummy_ts e) b = after _ e (end_monitor-Spares now dummy_ts n)
      by (receives i ip cport buff e) b = after _ e (handle_message-Spares i ip cport buff n)
      by (adds failed hostname port e) b = after _ e (add_sibling-Spares failed hostname port n)
      by (serves e) b = after _ e (read_clock-Spares n)
      by (shadows now e) b = after _ e (shadow_tsc_update-Spares now n)
      by (asks_siblings dummy_ts e) b = after _ e (send_tainted_messages-Spares dummy_ts n)
      by (stops e) b = after _ e (record { total = inl refl; nb = refl; limit = refl })
