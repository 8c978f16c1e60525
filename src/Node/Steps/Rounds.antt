-- ===== src/Node/Steps/Rounds.antt =====
-- The rounds of the monitoring thread and the runs of the calibration: what each of their parts
-- preserves, they preserve.
use mathlib.Core.Option.{some-injective}
use tri_ha_rd_higher_resilie.Base.{
  ℕ, zero, suc, ◌≡◌, refl, sym, subst, ◌∙◌, inl, inr, Bool, ◌||◌, List, [], ◌∷◌, Option, none, some,
  Bool-cases, if_true, if_false,
}
use tri_ha_rd_higher_resilie.Base.Int.{ℤ, pos, tdiv, ◌+ℤ◌, ltb_ℤ}
use tri_ha_rd_higher_resilie.Double.{Double}
use tri_ha_rd_higher_resilie.Node.{ENode}
use tri_ha_rd_higher_resilie.Node.Taint.{aex_handler}
use tri_ha_rd_higher_resilie.Node.Monitor.{
  Tick, reads, interrupted, Meets, with_aex_notify, without_aex_notify, monitor_in, end_delta, Run,
  count_loop, count_round, self_taint, check_count, monitor_rdtsc, stop_after, end_round,
  calibrate_runs, continue_with,
}
use tri_ha_rd_higher_resilie.Node.Monitor.Polling.{monitor_polling-induction}

abbrev pub AllMeet : (Meets → Type 0) → List Run → Type 0
AllMeet Q [] = Unit
AllMeet Q (r ∷ runs) = Q r.meets × AllMeet Q runs

abbrev pub Any : Meets → Type 0
Any meets = Unit

pub AllMeet-Any : (runs : List Run) → AllMeet Any runs
AllMeet-Any [] = tt
AllMeet-Any (r ∷ runs) = (tt, AllMeet-Any runs)

module _ {F : Double} where
  -- A relation of a state to a later one that holds for each part of a round.
  pub record Relates (R : ENode F → ENode F → Type 0) : Type 0 where
    pub same : (n : ENode F) → R n n
    pub then : (n m k : ENode F) → R n m → R m k → R n k
    pub exits : (t : ℤ) (n : ENode F) → R n (aex_handler t n)
    pub counts : (t count : ℤ) (n : ENode F) → R n (record n { tsc = t; add_count = count })
    pub ends : (mem : ℤ) (n : ENode F) → R n (count_round mem n)
    pub taints : (n : ENode F) → R n (self_taint n)
    pub checks : (mem : ℤ) (n : ENode F) → R n (check_count mem n)
    pub stops : (stop : Bool) (n : ENode F) → R n (record n { stop = stop })
    pub averages : (average : ℤ) (n : ENode F) → R n (record n { add_count_ref = average })

  -- One that holds for the rounds of a calibration that meet what `Q` says, and for what it does
  -- between them.
  pub record RelatesRuns (Q : Meets → Type 0) (R : ENode F → ENode F → Type 0) : Type 0 where
    pub same : (n : ENode F) → R n n
    pub then : (n m k : ENode F) → R n m → R m k → R n k
    pub rounds :
        (start : ℤ) (meets : Meets) (n m : ENode F)
        → Q meets
        → monitor_in start meets n ≡ some m
        → R n m
    pub stops : (stop : Bool) (n : ENode F) → R n (record n { stop = stop })
    pub averages : (average : ℤ) (n : ENode F) → R n (record n { add_count_ref = average })

  module _ (R : ENode F → ENode F → Type 0) (parts : Relates R) where
    count_loop-relates :
        (stop_tsc : ℤ) (ticks : List Tick) (count : ℤ) (n m : ENode F)
        → count_loop stop_tsc ticks count n ≡ some m
        → R n m
    unfolding count_loop
    count_loop-relates stop_tsc [] count n m e = cc
    count_loop-relates stop_tsc (interrupted t ∷ ticks) count n m e =
        parts.then n (aex_handler t n) m (parts.exits t n)
          (count_loop-relates stop_tsc ticks count (aex_handler t n) m e)
    count_loop-relates stop_tsc (reads t ∷ ticks) count n m e =
        let counted = record n { tsc = t; add_count = count +ℤ pos 1 } in
        let start = parts.counts t (count +ℤ pos 1) n in
        elim (Bool-cases (ltb_ℤ t stop_tsc)) [
          | inl more ↦ parts.then n counted m start (
              count_loop-relates stop_tsc ticks (count +ℤ pos 1) counted m
                (sym (if_true _ _ _ more) ∙ e))
          | inr done ↦ subst (R n) (some-injective counted m (sym (if_false _ _ _ done) ∙ e)) start
        ]

    end_round-relates :
        (mem : ℤ) (n m : ENode F) (o : Option (ENode F))
        → ((k : ENode F) → o ≡ some k → R n k)
        → end_round mem o ≡ some m
        → R n m
    end_round-relates mem n m none h e = cc
    end_round-relates mem n m (some k) h e =
        let counted = count_round mem k in
        let tainted = self_taint counted in
        subst (R n) (some-injective _ m e) (
          parts.then n tainted (check_count mem tainted)
            (parts.then n counted tainted (parts.then n k counted (h k refl) (parts.ends mem k))
              (parts.taints counted))
            (parts.checks mem tainted))

    pub monitor_rdtsc-relates :
        (start : ℤ) (ticks : List Tick) (n m : ENode F)
        → monitor_rdtsc start ticks n ≡ some m
        → R n m
    unfolding monitor_rdtsc
    monitor_rdtsc-relates start ticks n m e =
        end_round-relates n.total_aex_count n m (count_loop (stop_after start n) ticks (pos 0) n)
          (λ k f. count_loop-relates (stop_after start n) ticks (pos 0) n k f) e

    -- The rounds of both builds.
    pub parts-RelatesRuns :
        ((t : ℤ) (n : ENode F) → R n (record n { tsc = t }))
        → ((threshold delta : ℤ) (n : ENode F) → R n (end_delta threshold delta n))
        → RelatesRuns Any R
    parts-RelatesRuns reads_tsc ends_delta = record {
      same = parts.same;
      then = parts.then;
      rounds = either;
      stops = parts.stops;
      averages = parts.averages;
    }
      where
        either :
            (start : ℤ) (meets : Meets) (n m : ENode F)
            → Any meets
            → monitor_in start meets n ≡ some m
            → R n m
        either start (with_aex_notify ticks) n m _ e = monitor_rdtsc-relates start ticks n m e
        either start (without_aex_notify threshold readings) n m _ e =
            monitor_polling-induction R parts.then (λ k t. reads_tsc t k) ends_delta threshold start
              readings n m e

  module _ (Q : Meets → Type 0) (R : ENode F → ENode F → Type 0) (parts : RelatesRuns Q R) where
    continue_with-some :
        {A : Type 0} (o : Option (ENode F)) (k : ENode F → Option A) (p : A)
        → continue_with o k ≡ some p
        → (m : ENode F) × (o ≡ some m) × (k m ≡ some p)
    continue_with-some none k p e = cc
    continue_with-some (some m) k p e = (m, refl, e)

    pub calibrate_runs-relates :
        (left i : ℕ) (sum : ℤ) (runs : List Run) (n : ENode F) (r : ENode F × Bool)
        → AllMeet Q runs
        → calibrate_runs left i sum runs n ≡ some r
        → R n r.0
    unfolding calibrate_runs
    calibrate_runs-relates zero i sum runs n r all e =
        subst (λ x. R n x.0) (some-injective _ r e) (parts.same n)
    calibrate_runs-relates (suc left) i sum [] n r all e = cc
    calibrate_runs-relates (suc left) i sum (run ∷ runs) n r all e =
        let found = record n { stop = n.stop || run.stopping } in
        let start = parts.stops (n.stop || run.stopping) n in
        elim (Bool-cases found.stop) [
          | inl stopped ↦
              subst (λ x. R n x.0) (some-injective _ r (sym (if_true _ _ _ stopped) ∙ e)) start
          | inr goes ↦
              let (m, monitored, rest) =
                continue_with-some (monitor_in run.start_tsc run.meets found) _ r
                  (sym (if_false _ _ _ goes) ∙ e) in
              let so_far : R n m =
                parts.then n found m start
                  (parts.rounds run.start_tsc run.meets found m all.0 monitored) in
              elim (Bool-cases (ltb_ℤ (sum +ℤ m.add_count) sum)) [
                | inl overflows ↦
                    subst (λ x. R n x.0) (some-injective _ r (sym (if_true _ _ _ overflows) ∙ rest))
                      so_far
                | inr fits ↦
                    let average = tdiv (sum +ℤ m.add_count) i in
                    let averaged = record m { add_count_ref = average } in
                    parts.then n averaged r.0
                      (parts.then n m averaged so_far (parts.averages average m))
                      (calibrate_runs-relates left (suc i) (sum +ℤ m.add_count) runs averaged r
                        all.1 (sym (if_false _ _ _ fits) ∙ rest))
              ]
        ]
