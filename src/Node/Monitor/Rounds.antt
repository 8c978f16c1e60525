-- ===== src/Node/Monitor/Rounds.antt =====
-- ENode.cpp, `monitor_rdtsc`: the exits, the taint and the uninterrupted rounds.
use tri_ha_rd_higher_resilie.Base.{
  ◌≡◌, refl, sym, subst, ◌∙◌, ap, inl, inr, arith, List, some, Option-cases,
}
use tri_ha_rd_higher_resilie.Base.Int.{ℤ, pos, pos_part, neg_part, ◌+ℤ◌, ◌≤ℤ◌, int_laws, +ℤ_parts}
use tri_ha_rd_higher_resilie.Double.{Double}
use tri_ha_rd_higher_resilie.Node.{ENode, print_state}
use tri_ha_rd_higher_resilie.Node.Monitor.Counts.{Counts, Counts-trans, Counted, count_loop-Counted}
use tri_ha_rd_higher_resilie.Node.Monitor.{
  Tick, count_loop, count_round, self_taint, check_count, monitor_rdtsc, stop_after, end_round,
}

module _ {F : Double} where
  -- The end of a round: the taint and the bound on the uninterrupted rounds.
  record Ended (mem : ℤ) (n m : ENode F) : Type 0 where
    counts : Counts n m
    bounded : pos 0 ≤ℤ n.selftainting_rounds → m.nb_uninterr_rounds ≤ℤ n.selftainting_rounds
    grows :
        n.total_aex_count ≡ mem
        → m.total_aex_count ≡ n.total_aex_count
        → m.nb_uninterr_rounds ≡ n.nb_uninterr_rounds +ℤ pos 1

  end_round-Ended :
      (mem : ℤ) (n : ENode F) → Ended mem n (check_count mem (self_taint (count_round mem n)))
  unfolding check_count self_taint count_round print_state
  end_round-Ended mem n = ground (arith, +ℤ_parts n.total_aex_count (pos 1))

  -- A finished round, by its two parts.
  record Finished (n m : ENode F) : Type 0 where
    looped : ENode F
    counted : Counted n looped
    ended : Ended n.total_aex_count looped m

  finish :
      (mem stop_tsc : ℤ) (ticks : List Tick) (n m : ENode F)
      → mem ≡ n.total_aex_count
      → end_round mem (count_loop stop_tsc ticks (pos 0) n) ≡ some m
      → Finished n m
  finish mem stop_tsc ticks n m e h = elim (Option-cases (count_loop stop_tsc ticks (pos 0) n)) [
    | inl ends ↦ absurd (ground (arith, h, ends))
    | inr (looped, found) ↦
        let same : check_count mem (self_taint (count_round mem looped)) ≡ m =
          ground (arith, h, found) in
        record {
          looped = looped;
          counted = count_loop-Counted stop_tsc ticks (pos 0) n looped found;
          ended = rw (← e, ← same) (end_round-Ended mem looped);
        }
  ]

  monitor_rdtsc-Finished :
      (start_tsc : ℤ) (ticks : List Tick) (n m : ENode F)
      → monitor_rdtsc start_tsc ticks n ≡ some m
      → Finished n m
  unfolding monitor_rdtsc
  monitor_rdtsc-Finished start_tsc ticks n m h =
      finish n.total_aex_count (stop_after start_tsc n) ticks n m refl h

  -- A monitoring round that ends never lowers the count of exits and never clears the taint; if the
  -- count has changed, by an AEX or by self-tainting, the node is tainted, and if not, the taint is as
  -- before. The uninterrupted rounds stay within the limit for self-tainting.
  pub monitor_rdtsc-Counts :
      (start_tsc : ℤ) (ticks : List Tick) (n m : ENode F)
      → monitor_rdtsc start_tsc ticks n ≡ some m
      → Counts n m
        × (pos 0 ≤ℤ n.selftainting_rounds → m.nb_uninterr_rounds ≤ℤ n.selftainting_rounds)
  monitor_rdtsc-Counts start_tsc ticks n m h =
      let f = monitor_rdtsc-Finished start_tsc ticks n m h in
      (
        Counts-trans n f.looped m f.counted.counts f.ended.counts,
        λ k.
            subst (λ z. m.nb_uninterr_rounds ≤ℤ z) f.counted.counts.rounds
              (f.ended.bounded (subst (λ z. pos 0 ≤ℤ z) (sym f.counted.counts.rounds) k)),
      )

  -- A round over which the count of exits stays is one uninterrupted round more.
  pub monitor_rdtsc-nb :
      (start_tsc : ℤ) (ticks : List Tick) (n m : ENode F)
      → monitor_rdtsc start_tsc ticks n ≡ some m
      → m.total_aex_count ≡ n.total_aex_count
      → m.nb_uninterr_rounds ≡ n.nb_uninterr_rounds +ℤ pos 1
  monitor_rdtsc-nb start_tsc ticks n m h same =
      let f = monitor_rdtsc-Finished start_tsc ticks n m h in
      let before : f.looped.total_aex_count ≡ n.total_aex_count =
        between n.total_aex_count f.looped.total_aex_count m.total_aex_count
          f.counted.counts.counted f.ended.counts.counted same in
      f.ended.grows before (same ∙ sym before) ∙ ap (λ z. z +ℤ pos 1) f.counted.nb
    where
      between : (a b c : ℤ) → a ≤ℤ b → b ≤ℤ c → c ≡ a → b ≡ a
      between a b c p q e = omega (int_laws, p, q, ap pos_part e, ap neg_part e)
