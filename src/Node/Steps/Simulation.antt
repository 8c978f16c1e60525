-- ===== src/Node/Steps/Simulation.antt =====
-- Runs of a node, with its siblings in one order and in another.
use tri_ha_rd_higher_resilie.Base.{sym, subst}
use tri_ha_rd_higher_resilie.Double.{Double}
use tri_ha_rd_higher_resilie.Node.{ENode}
use tri_ha_rd_higher_resilie.Node.Peers.Distinct.{Distinct}
use tri_ha_rd_higher_resilie.Node.Taint.Order.{Reordered}
use tri_ha_rd_higher_resilie.Node.Steps.{Step}
use tri_ha_rd_higher_resilie.Node.Steps.Order.{Step-Follows}
use tri_ha_rd_higher_resilie.Node.Steps.Replays.{Steps, here, next}
use tri_ha_rd_higher_resilie.Node.Steps.Siblings.{Step-Distinct}

module _ {F : Double} where
  Step-order :
      (n k m : ENode F)
      → Reordered n k
      → Distinct n.siblings
      → Step n m
      → (k' : ENode F) × Step k k' × Reordered m k'
  Step-order n k m r d step =
      let f = Step-Follows n k.siblings r.order m d step in
      (f.state, subst (λ x. Step x f.state) (sym r.same) f.by_step, f.reordered)

  Steps-Distinct : (n m : ENode F) → Steps n m → Distinct n.siblings → Distinct m.siblings
  Steps-Distinct n _ here d = d
  Steps-Distinct n k (next {m} steps step) d = Step-Distinct m k step (Steps-Distinct n m steps d)

  -- Two nodes are the same but for the order of their siblings, whose addresses are pairwise different.
  -- Whatever steps the one takes, the other can take steps that lead to the same state, but for the order
  -- of the siblings: to the same taint and the same clock among others.
  pub Steps-order :
      (n k m : ENode F)
      → Reordered n k
      → Distinct n.siblings
      → Steps n m
      → (k' : ENode F) × Steps k k' × Reordered m k'
  Steps-order n k _ r d here = (k, here, r)
  Steps-order n k m' r d (next {m} steps step) =
      let (k1, steps_k, r1) = Steps-order n k m r d steps in
      let (k2, step_k, r2) = Step-order m k1 m' r1 (Steps-Distinct n m steps d) step in
      (k2, next steps_k step_k, r2)
