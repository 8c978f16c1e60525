-- ===== src/Node/Monitor/Counts.antt =====
-- ENode.cpp, the counting loop of `monitor_rdtsc`: the exits and the taint.
use tri_ha_rd_higher_resilie.Base.{
  ◌≡◌, refl, sym, subst, ◌∙◌, ap, ◌⊎◌, inl, inr, true, arith, List, [], ◌∷◌, some, Bool-cases,
}
use tri_ha_rd_higher_resilie.Base.Int.{
  ℤ, pos, pos_part, neg_part, ◌+ℤ◌, ◌≤ℤ◌, ltb_ℤ, int_laws, +ℤ_parts,
}
use tri_ha_rd_higher_resilie.Double.{Double}
use tri_ha_rd_higher_resilie.Node.{ENode, print_state}
use tri_ha_rd_higher_resilie.Node.Taint.{aex_handler}
use tri_ha_rd_higher_resilie.Node.Monitor.{Tick, reads, interrupted, count_loop}

module _ {F : Double} where
  -- Between two states the exits are counted, and each of them taints.
  pub record Counts (n m : ENode F) : Type 0 where
    pub counted : n.total_aex_count ≤ℤ m.total_aex_count
    pub taints : (m.total_aex_count ≡ n.total_aex_count) ⊎ (m.tainted ≡ true)
    pub keeps : n.tainted ≡ true → m.tainted ≡ true
    pub cleans : m.total_aex_count ≡ n.total_aex_count → m.tainted ≡ n.tainted
    pub rounds : m.selftainting_rounds ≡ n.selftainting_rounds

  pub Counts-same :
      (n m : ENode F)
      → m.total_aex_count ≡ n.total_aex_count
      → m.tainted ≡ n.tainted
      → m.selftainting_rounds ≡ n.selftainting_rounds
      → Counts n m
  Counts-same n m e f g = record {
    counted = omega (int_laws, ap pos_part e, ap neg_part e);
    taints = inl e;
    keeps = λ h. f ∙ h;
    cleans = λ _. f;
    rounds = g;
  }

  pub Counts-trans : (n m k : ENode F) → Counts n m → Counts m k → Counts n k
  Counts-trans n m k p q = record {
    counted = omega (arith, p.counted, q.counted);
    taints = either p.taints q.taints;
    keeps = λ h. q.keeps (p.keeps h);
    cleans = λ e. q.cleans (back e) ∙ p.cleans (there e);
    rounds = q.rounds ∙ p.rounds;
  }
    where
      there : k.total_aex_count ≡ n.total_aex_count → m.total_aex_count ≡ n.total_aex_count
      there e = omega (int_laws, p.counted, q.counted, ap pos_part e, ap neg_part e)

      back : k.total_aex_count ≡ n.total_aex_count → k.total_aex_count ≡ m.total_aex_count
      back e = e ∙ sym (there e)

      either :
          (m.total_aex_count ≡ n.total_aex_count) ⊎ (m.tainted ≡ true)
          → (k.total_aex_count ≡ m.total_aex_count) ⊎ (k.tainted ≡ true)
          → (k.total_aex_count ≡ n.total_aex_count) ⊎ (k.tainted ≡ true)
      either (inr h) _ = inr (q.keeps h)
      either (inl e) (inr h) = inr h
      either (inl e) (inl f) = inl (f ∙ e)

  aex_handler-Counts : (t : ℤ) (n : ENode F) → Counts n (aex_handler t n)
  unfolding aex_handler print_state
  aex_handler-Counts t n = ground (arith, +ℤ_parts n.total_aex_count (pos 1))

  aex_handler-nb :
      (t : ℤ) (n : ENode F) → (aex_handler t n).nb_uninterr_rounds ≡ n.nb_uninterr_rounds
  unfolding aex_handler print_state
  aex_handler-nb t n = ground arith

  -- What the counting loop leaves, if it ends.
  pub record Counted (n m : ENode F) : Type 0 where
    pub counts : Counts n m
    pub nb : m.nb_uninterr_rounds ≡ n.nb_uninterr_rounds

  pub count_loop-Counted :
      (stop_tsc : ℤ) (ticks : List Tick) (count : ℤ) (n m : ENode F)
      → count_loop stop_tsc ticks count n ≡ some m
      → Counted n m
  unfolding count_loop
  count_loop-Counted stop_tsc [] count n m e = cc
  count_loop-Counted stop_tsc (interrupted t ∷ ticks) count n m e =
      let later = count_loop-Counted stop_tsc ticks count (aex_handler t n) m e in
      record {
        counts = Counts-trans n (aex_handler t n) m (aex_handler-Counts t n) later.counts;
        nb = later.nb ∙ aex_handler-nb t n;
      }
  count_loop-Counted stop_tsc (reads t ∷ ticks) count n m e = elim (Bool-cases (ltb_ℤ t stop_tsc)) [
    | inl more ↦
        let n' = record n { tsc = t; add_count = count +ℤ pos 1 } in
        let later =
          count_loop-Counted stop_tsc ticks (count +ℤ pos 1) n' m (ground (arith, e, more)) in
        record {
          counts = Counts-trans n n' m (Counts-same n n' refl refl refl) later.counts;
          nb = later.nb;
        }
    | inr done ↦
        let same : record n { tsc = t; add_count = count +ℤ pos 1 } ≡ m = ground (arith, e, done) in
        subst (Counted n) same (record { counts = Counts-same n _ refl refl refl; nb = refl })
  ]
