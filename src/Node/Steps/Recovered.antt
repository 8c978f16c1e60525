-- ===== src/Node/Steps/Recovered.antt =====
-- From a taint to the next timestamp that a node serves.
use mathlib.Core.Bool.{true≢false}
use tri_ha_rd_higher_resilie.Base.{◌≡◌, sym, ◌∙◌, inl, inr, true, false, Bool-cases, arith}
use tri_ha_rd_higher_resilie.Base.Int.{ℤ}
use tri_ha_rd_higher_resilie.Double.{Double}
use tri_ha_rd_higher_resilie.Node.{ENode}
use tri_ha_rd_higher_resilie.Node.Clock.{waits}
use tri_ha_rd_higher_resilie.Node.Steps.Replays.{Steps, here, next}
use tri_ha_rd_higher_resilie.Node.Steps.Untainting.{UntaintedBy, Step-UntaintedBy}

module _ {F : Double} where
  -- Among the steps is one that untaints by a quorum of the siblings.
  pub record Recovered (n m : ENode F) : Type 0 where
    pub tainted : ENode F
    pub untainted : ENode F
    pub before : Steps n tainted
    pub untaints : UntaintedBy tainted untainted
    pub later : Steps untainted m

  Steps-Untainted :
      (n m : ENode F) → Steps n m → n.tainted ≡ true → m.tainted ≡ false → Recovered n m
  Steps-Untainted n _ here h e = absurd (true≢false (sym h ∙ e))
  Steps-Untainted n k (next {m} steps s) h e = elim (Bool-cases m.tainted) [
    | inl still ↦ record {
      tainted = m;
      untainted = k;
      before = steps;
      untaints = Step-UntaintedBy m k s still e;
      later = here;
    }
    | inr already ↦
        let r = Steps-Untainted n m steps h already in
        record {
          tainted = r.tainted;
          untainted = r.untainted;
          before = r.before;
          untaints = r.untaints;
          later = next r.later s;
        }
  ]

  served_untainted :
      (mem_tsc : ℤ) (n : ENode F)
      → waits false mem_tsc n ≡ false
      → n.stop ≡ false
      → n.tainted ≡ false
  unfolding waits
  served_untainted mem_tsc n h e = ground arith

  -- If a node is tainted, and after any steps `get_timestamp` without force ends its wait in a state in
  -- which the node is not stopping, then one of the steps was an untainting message from a sibling by
  -- which the quorum was reached.
  pub Steps-Recovered :
      (mem_tsc : ℤ) (n m : ENode F)
      → Steps n m
      → n.tainted ≡ true
      → waits false mem_tsc m ≡ false
      → m.stop ≡ false
      → Recovered n m
  Steps-Recovered mem_tsc n m steps h served goes =
      Steps-Untainted n m steps h (served_untainted mem_tsc m served goes)
