-- ===== src/Node/Steps/SelfTainting.antt =====
-- ENode.cpp, self-tainting: the uninterrupted rounds of the monitoring thread, while the other threads
-- and the exits run.
use tri_ha_rd_higher_resilie.Base.{
  ℕ, suc, ◌≡◌, refl, sym, subst, ◌∙◌, ap, ◌⊎◌, inl, inr, true, arith, List, some,
}
use tri_ha_rd_higher_resilie.Base.Int.{
  ℤ, pos, pos_part, neg_part, ◌+ℤ◌, ◌≤ℤ◌, ◌<ℤ◌, int_laws, +ℤ_parts,
}
use tri_ha_rd_higher_resilie.Double.{Double}
use tri_ha_rd_higher_resilie.Node.{ENode}
use tri_ha_rd_higher_resilie.Node.Monitor.{Tick, monitor_rdtsc}
use tri_ha_rd_higher_resilie.Node.Steps.{Step}
use tri_ha_rd_higher_resilie.Node.Steps.Climbs.{
  IsBetween, round_climbs, monitor_rdtsc-Climbs, Step-Climbs,
}

module _ {F : Double} where
  -- A run of a node from a state, with so many monitoring rounds.
  pub data Rounds (n : ENode F) : ℕ → ENode F → Type 0 where
    begins : Rounds n 0 n
    monitored :
        (k : ℕ) (before m : ENode F) (start_tsc : ℤ) (ticks : List Tick)
        → Rounds n k before
        → monitor_rdtsc start_tsc ticks before ≡ some m
        → Rounds n (suc k) m
    between :
        (k : ℕ) (before m : ENode F)
        → Rounds n k before
        → (s : Step before m) → IsBetween s
        → Rounds n k m

  -- A round or another step of the run leaves the node tainted.
  abbrev pub TaintedIn : {n m : ENode F} {k : ℕ} → Rounds n k m → Type 0
  TaintedIn begins = ⊥
  TaintedIn (monitored k before m start_tsc ticks r e) = (m.tainted ≡ true) ⊎ TaintedIn r
  TaintedIn (between k before m r s b) = (m.tainted ≡ true) ⊎ TaintedIn r

  -- What the rounds of a run come to.
  record Reaches (n m : ENode F) (k : ℕ) (r : Rounds n k m) : Type 0 where
    limit : m.selftainting_rounds ≡ n.selftainting_rounds
    bounded : m.nb_uninterr_rounds ≤ℤ n.selftainting_rounds
    rounds : (n.nb_uninterr_rounds +ℤ pos k ≤ℤ m.nb_uninterr_rounds) ⊎ TaintedIn r

  Rounds-Reaches :
      (n m : ENode F) (k : ℕ) (r : Rounds n k m)
      → pos 0 ≤ℤ n.selftainting_rounds
      → n.nb_uninterr_rounds ≤ℤ n.selftainting_rounds
      → Reaches n m k r
  Rounds-Reaches n _ _ begins h b = record {
    limit = refl;
    bounded = b;
    rounds = inl (omega (arith, +ℤ_parts n.nb_uninterr_rounds (pos 0)));
  }
  Rounds-Reaches n m _ (monitored k before _ start_tsc ticks r e) h b =
      let earlier = Rounds-Reaches n before k r h b in
      let c = monitor_rdtsc-Climbs start_tsc ticks before m e in
      let bounded =
        c.bounded (subst (λ z. pos 0 ≤ℤ z) (sym earlier.limit) h)
          (subst (λ z. before.nb_uninterr_rounds ≤ℤ z) (sym earlier.limit) earlier.bounded) in
      record {
        limit = c.limit ∙ earlier.limit;
        bounded = subst (λ z. m.nb_uninterr_rounds ≤ℤ z) earlier.limit bounded;
        rounds = more earlier.rounds (round_climbs start_tsc ticks before m e);
      }
    where
      more :
          (n.nb_uninterr_rounds +ℤ pos k ≤ℤ before.nb_uninterr_rounds) ⊎ TaintedIn r
          → (m.nb_uninterr_rounds ≡ before.nb_uninterr_rounds +ℤ pos 1) ⊎ (m.tainted ≡ true)
          → (n.nb_uninterr_rounds +ℤ pos (suc k) ≤ℤ m.nb_uninterr_rounds)
            ⊎ ((m.tainted ≡ true) ⊎ TaintedIn r)
      more (inr t) _ = inr (inr t)
      more (inl p) (inr t) = inr (inl t)
      more (inl p) (inl q) = inl (
          omega (
            int_laws,
            +ℤ_parts n.nb_uninterr_rounds (pos k),
            +ℤ_parts n.nb_uninterr_rounds (pos (suc k)),
            +ℤ_parts before.nb_uninterr_rounds (pos 1),
            ap pos_part q,
            ap neg_part q,
            p,
          ))
  Rounds-Reaches n m k (between _ before _ r s i) h b =
      let earlier = Rounds-Reaches n before k r h b in
      let c = Step-Climbs before m s i in
      let bounded =
        c.bounded (subst (λ z. pos 0 ≤ℤ z) (sym earlier.limit) h)
          (subst (λ z. before.nb_uninterr_rounds ≤ℤ z) (sym earlier.limit) earlier.bounded) in
      record {
        limit = c.limit ∙ earlier.limit;
        bounded = subst (λ z. m.nb_uninterr_rounds ≤ℤ z) earlier.limit bounded;
        rounds = more earlier.rounds c.climbs;
      }
    where
      more :
          (n.nb_uninterr_rounds +ℤ pos k ≤ℤ before.nb_uninterr_rounds) ⊎ TaintedIn r
          → (before.nb_uninterr_rounds ≤ℤ m.nb_uninterr_rounds) ⊎ (m.tainted ≡ true)
          → (n.nb_uninterr_rounds +ℤ pos k ≤ℤ m.nb_uninterr_rounds)
            ⊎ ((m.tainted ≡ true) ⊎ TaintedIn r)
      more (inr t) _ = inr (inr t)
      more (inl p) (inr t) = inr (inl t)
      more (inl p) (inl q) = inl (omega (arith, p, q))

  -- A node is tainted in time: take any run of a node, in which the monitoring rounds of the build with
  -- AEX-Notify are steps of their own, and between them exits, messages, calibrations and all the other
  -- operations come in any order. If the run has more monitoring rounds than the limit for
  -- self-tainting leaves over the uninterrupted rounds counted at its start, then one of its steps
  -- leaves the node tainted. The limit is not negative, and not exceeded at the start.
  pub Rounds-TaintedIn :
      (n m : ENode F) (k : ℕ) (r : Rounds n k m)
      → pos 0 ≤ℤ n.selftainting_rounds
      → n.nb_uninterr_rounds ≤ℤ n.selftainting_rounds
      → n.selftainting_rounds <ℤ n.nb_uninterr_rounds +ℤ pos k
      → TaintedIn r
  Rounds-TaintedIn n m k r h b many =
      let reaches = Rounds-Reaches n m k r h b in
      elim reaches.rounds [
        | inl few ↦ absurd (omega (arith, few, reaches.bounded, many))
        | inr t ↦ t
      ]
