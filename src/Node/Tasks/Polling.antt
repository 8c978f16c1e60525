-- ===== src/Node/Tasks/Polling.antt =====
-- What `poll_timestamp` prints.
use mathlib.Core.Option.{some-injective}
use tri_ha_rd_higher_resilie.Base.{
  ◌≡◌, refl, sym, subst, ◌∙◌, inl, inr, false, not, ◌&&◌, ◌||◌, List, [], ◌∷◌, Option, none, some,
  Bool-cases, if_true, if_false,
}
use tri_ha_rd_higher_resilie.Base.Int.{ℤ, pos, ◌+ℤ◌, ltb_ℤ}
use tri_ha_rd_higher_resilie.Double.{Double}
use tri_ha_rd_higher_resilie.Timespec.{Timespec}
use tri_ha_rd_higher_resilie.Node.{ENode}
use tri_ha_rd_higher_resilie.Node.Clock.{get_timestamp}
use tri_ha_rd_higher_resilie.Node.Clock.Serving.{IsServed, get_timestamp-IsServed}
use tri_ha_rd_higher_resilie.Node.Tasks.{Poll, polled, poll_next, poll_timestamp}

module _ {F : Double} where
  -- Each timestamp was served in the round of its place.
  abbrev pub AllServed : List (Poll F) → List Timespec → Type 0
  AllServed ps [] = Unit {0}
  AllServed [] (ts ∷ later) = ⊥
  AllServed (p ∷ ps) (ts ∷ later) =
      ((r : ENode F × Timespec) × (r.1 ≡ ts) × IsServed p.mem_tsc p.found r) × AllServed ps later

  AllServed-none : (ps : List (Poll F)) → AllServed ps []
  AllServed-none [] = tt
  AllServed-none (p ∷ ps) = tt

  poll_next-AllServed :
      (p : Poll F) (ps : List (Poll F)) (more : ENode F → Option (List Timespec))
      (o : Option (ENode F × Timespec)) (printed : List Timespec)
      → ((n : ENode F) (later : List Timespec) → more n ≡ some later → AllServed ps later)
      → ((r : ENode F × Timespec) → o ≡ some r → IsServed p.mem_tsc p.found r)
      → poll_next more o ≡ some printed
      → AllServed (p ∷ ps) printed
  poll_next-AllServed p ps more none printed h s e = cc
  poll_next-AllServed p ps more (some (n, ts)) printed h s e = by (more n) (h n) e
    where
      by :
          (o : Option (List Timespec))
          → ((later : List Timespec) → o ≡ some later → AllServed ps later)
          → polled ts o ≡ some printed
          → AllServed (p ∷ ps) printed
      by none k f = cc
      by (some later) k f =
          subst (AllServed (p ∷ ps)) (some-injective _ _ f)
            (((n, ts), refl, s (n, ts) refl), k later refl)

  -- Every timestamp that `poll_timestamp` prints was read, in its round, in a state that is calibrated,
  -- consistent with the TA, untainted and not behind the reference, with `tsc` changed since the call of
  -- `get_timestamp`, or else the node was stopping.
  pub poll_timestamp-AllServed :
      (count i : ℤ) (ps : List (Poll F)) (printed : List Timespec)
      → poll_timestamp count i ps ≡ some printed
      → AllServed ps printed
  unfolding poll_timestamp
  poll_timestamp-AllServed count i [] printed e = cc
  poll_timestamp-AllServed count i (p ∷ ps) printed e =
      let rest = λ (n : ENode F). poll_timestamp count (i +ℤ pos 1) ps in
      elim (Bool-cases ((ltb_ℤ count (pos 0) || ltb_ℤ i count) && not p.stopping)) [
        | inl goes ↦
            poll_next-AllServed p ps rest (get_timestamp false p.mem_tsc p.found) printed
              (λ n later f. poll_timestamp-AllServed count (i +ℤ pos 1) ps later f)
              (λ r f. get_timestamp-IsServed p.mem_tsc p.found r f) (sym (if_true _ _ _ goes) ∙ e)
        | inr done ↦
            subst (AllServed (p ∷ ps)) (some-injective _ _ (sym (if_false _ _ _ done) ∙ e))
              (AllServed-none (p ∷ ps))
      ]
