-- ===== src/Node/Taint/Round.antt =====
-- ENode.cpp, `case 'U'`: the answers to one round, from one sibling after another.
use tri_ha_rd_higher_resilie.Base.{
  ℕ, suc, ◌+◌, ◌≤◌, ◌≡◌, ◌↔◌, ◌⊎◌, refl, sym, ap, subst, ◌∙◌, inl, inr, Bool, true, false, leb,
  List, [], ◌∷◌, some, length, Bool-cases, arith, if◌then◌else◌, ◌&&◌,
}
use mathlib.Core.Option.{some-injective}
use tri_ha_rd_higher_resilie.Base.Int.{ℤ, ◌<ℤ◌, ltb_ℤ}
use tri_ha_rd_higher_resilie.Double.{Double}
use tri_ha_rd_higher_resilie.Wire.{read_i64}
use tri_ha_rd_higher_resilie.Node.{ENode, Peer, peer, peer_eq}
use tri_ha_rd_higher_resilie.Node.Peers.{find, replace}
use tri_ha_rd_higher_resilie.Node.Peers.Distinct.{peer_eq_address}
use tri_ha_rd_higher_resilie.Node.Taint.{
  has_quorum, max_tainted_msg_count, consistent_count, peer_consistent_count, accept_untainting,
}
use tri_ha_rd_higher_resilie.Node.Taint.Echoes.{answered, IsGood, accept_untainting-Echoed}

-- Whether `k` answers of `size` siblings untaint.
abbrev enough : ℕ → ℕ → Bool
enough k size = leb 1 k && leb size (k + 1)

module _ (round : ℤ) where
  -- Every sibling's last answer is to an older round, or is a good one to this round.
  abbrev pub Split : List Peer → Type 0
  Split [] = Unit {0}
  Split (p ∷ ps) =
      ((p.last_ts_is_consistent.0 <ℤ round)
        ⊎ ((p.last_ts_is_consistent ≡ (round, true)) × (p.views_as_consistent ≡ true)))
      × Split ps

  abbrev pub AllOlder : List Peer → Type 0
  AllOlder [] = Unit {0}
  AllOlder (p ∷ ps) = (p.last_ts_is_consistent.0 <ℤ round) × AllOlder ps

  -- The siblings that have not answered this round.
  unfoldable pub left : List Peer → ℕ
  left [] = 0
  left (p ∷ ps) = (if ltb_ℤ p.last_ts_is_consistent.0 round then 1 else 0) + left ps

  max_tainted_msg_count-Split : (ps : List Peer) → Split ps → max_tainted_msg_count round ps ≡ round
  unfolding max_tainted_msg_count
  max_tainted_msg_count-Split [] s = refl
  max_tainted_msg_count-Split (p ∷ ps) (inl older, s) =
      ground (arith, max_tainted_msg_count-Split ps s)
  max_tainted_msg_count-Split (p ∷ ps) (inr now, s) =
      ground (arith, max_tainted_msg_count-Split ps s, ap (λ x. x.0) now.0)

  counts-Split :
      (ps : List Peer)
      → Split ps
      → (consistent_count round ps + left ps ≡ length ps)
        × (length ps ≤ peer_consistent_count ps + left ps)
  unfolding consistent_count peer_consistent_count left
  counts-Split [] s = (refl, omega arith)
  counts-Split (p ∷ ps) (inl older, s) = ground (arith, counts-Split ps s)
  counts-Split (p ∷ ps) (inr now, s) =
      ground (arith, counts-Split ps s, ap (λ x. x.0) now.0, ap (λ x. x.1) now.0)

  has_quorum-Split : (ps : List Peer) → Split ps → has_quorum round ps ≡ leb (left ps) 1
  unfolding has_quorum
  has_quorum-Split ps s = rw (max_tainted_msg_count-Split ps s) (ground (arith, counts-Split ps s))

  -- The entry of a sibling that has not answered yet is written over by a good answer.
  answered-Split :
      (p : Peer) (ps : List Peer)
      → find (peer p.hostname p.port) ps ≡ some p
      → p.last_ts_is_consistent.0 <ℤ round
      → Split ps
      → let qs = replace p (answered round p) ps in
        Split qs × (suc (left qs) ≡ left ps) × (length qs ≡ length ps)
  unfolding find replace left
  answered-Split p [] found newer s = cc
  answered-Split p (q ∷ qs) found newer s =
      let same : peer_eq q (peer p.hostname p.port) ≡ peer_eq q p =
        peer_eq_address (peer p.hostname p.port) p q (refl, refl) in
      elim (Bool-cases (peer_eq q p)) [
        | inl hit ↦
            let here : q ≡ p = some-injective q p (rw (same ∙ hit) at found) in
            rw hit (
              (inr (refl, refl), s.1),
              ground (arith, newer, ap (λ (x : Peer). x.last_ts_is_consistent.0) here),
              refl,
            )
        | inr miss ↦
            let rest = answered-Split p qs (rw (same ∙ miss) at found) newer s.1 in
            rw miss ((s.0, rest.0), omega (arith, rest.1), omega (arith, rest.2))
      ]

  AllOlder-Split : (ps : List Peer) → AllOlder ps → Split ps × (left ps ≡ length ps)
  unfolding left
  AllOlder-Split [] h = (tt, refl)
  AllOlder-Split (p ∷ ps) h =
      let rest = AllOlder-Split ps h.1 in ((inl h.0, rest.0), ground (arith, rest.1, h.0))

  module _ {F : Double} where
    -- `k` good answers to the round have arrived, each from a sibling that had not answered it. In between,
    -- other operations run that leave the taint and the siblings as they are.
    pub data Answers (n : ENode F) : ℕ → ENode F → Type 0 where
      asked : Answers n 0 n
      meanwhile :
          {k : ℕ} {m m' : ENode F}
          → Answers n k m
          → m'.tainted ≡ m.tainted
          → m'.siblings ≡ m.siblings
          → Answers n k m'
      answers :
          {k : ℕ} {m : ENode F} (p : Peer) (buff : List ℕ)
          → Answers n k m
          → find (peer p.hostname p.port) m.siblings ≡ some p
          → p.last_ts_is_consistent.0 <ℤ round
          → read_i64 7 buff ≡ round
          → IsGood buff m
          → Answers n (suc k) (accept_untainting p.hostname p.port buff m)

    pub record Progress (n m : ENode F) (k : ℕ) : Type 0 where
      pub split : Split m.siblings
      pub open_answers : left m.siblings + k ≡ length n.siblings
      pub taint : m.tainted ≡ (if enough k (length n.siblings) then false else n.tainted)

    answers-Progress :
        (n m : ENode F) (k : ℕ) (p : Peer) (buff : List ℕ)
        → Progress n m k
        → find (peer p.hostname p.port) m.siblings ≡ some p
        → p.last_ts_is_consistent.0 <ℤ round
        → read_i64 7 buff ≡ round
        → IsGood buff m
        → Progress n (accept_untainting p.hostname p.port buff m) (suc k)
    answers-Progress n m k p buff progress known newer now good =
        let qs = replace p (answered round p) m.siblings in
        let after = answered-Split p m.siblings known newer progress.split in
        let echoed =
          accept_untainting-Echoed buff p qs (leb (left qs) 1) m good (rw now newer) known
            (rw now refl) (rw now (has_quorum-Split qs after.0)) in
        record {
          split = subst Split (sym echoed.siblings) after.0;
          open_answers = rw echoed.siblings (omega (arith, after.1, progress.open_answers));
          taint = echoed.tainted ∙ ground (arith, after.1, progress.open_answers, progress.taint);
        }

    Answers-Progress :
        (n m : ENode F) (k : ℕ) → AllOlder n.siblings → Answers n k m → Progress n m k
    Answers-Progress n _ _ older asked =
        let start = AllOlder-Split n.siblings older in
        record { split = start.0; open_answers = omega (arith, start.1); taint = refl }
    Answers-Progress n m' k older (meanwhile {m} before tainted siblings) =
        let progress = Answers-Progress n m k older before in
        record {
          split = subst Split (sym siblings) progress.split;
          open_answers = rw siblings progress.open_answers;
          taint = tainted ∙ progress.taint;
        }
    Answers-Progress n _ (suc k) older (answers {m} p buff before known newer now good) =
        answers-Progress n m k p buff (Answers-Progress n m k older before) known newer now good

    -- A tainted node none of whose siblings has answered the round or a later one. When `k` good answers to
    -- it have arrived, each from another sibling, among operations that leave the taint and the siblings as
    -- they are, the node is untainted exactly if all siblings but at most one have answered, and at least
    -- one.
    pub Answers_untaint :
        (n m : ENode F) (k : ℕ)
        → n.tainted ≡ true
        → AllOlder n.siblings
        → Answers n k m
        → (m.tainted ≡ false) ↔ ((1 ≤ k) × (length n.siblings ≤ k + 1))
    Answers_untaint n m k h older run = ground (arith, h, (Answers-Progress n m k older run).taint)
