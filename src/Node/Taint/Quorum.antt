-- ===== src/Node/Taint/Quorum.antt =====
-- The quorum of `case 'U'`, as a statement on which siblings may be missing.
use tri_ha_rd_higher_resilie.Base.{
  ℕ, ◌+◌, ◌≤◌, ◌≡◌, ◌↔◌, refl, ◌⊎◌, true, arith, List, [], ◌∷◌, length, if◌then◌else◌,
}
use tri_ha_rd_higher_resilie.Base.Int.{ℤ, ◌≤ℤ◌}
use tri_ha_rd_higher_resilie.Node.{Peer}
use tri_ha_rd_higher_resilie.Node.Taint.{
  max_tainted_msg_count, consistent_count, peer_consistent_count, has_quorum, answers_round,
}

-- Every peer's last answer is to round `m` or an older one.
abbrev pub AllUpTo : ℤ → List Peer → Type 0
AllUpTo m [] = Unit {0}
AllUpTo m (p ∷ ps) = (p.last_ts_is_consistent.0 ≤ℤ m) × AllUpTo m ps

-- Some peer's last answer is to round `m`.
abbrev pub SomeAt : ℤ → List Peer → Type 0
SomeAt m [] = ⊥
SomeAt m (p ∷ ps) = (p.last_ts_is_consistent.0 ≡ m) ⊎ SomeAt m ps

AllUpTo-mono : (m k : ℤ) (ps : List Peer) → m ≤ℤ k → AllUpTo m ps → AllUpTo k ps
AllUpTo-mono m k [] h a = tt
AllUpTo-mono m k (p ∷ ps) h a = (omega arith, AllUpTo-mono m k ps h a.1)

max_ge : (m : ℤ) (ps : List Peer) → m ≤ℤ max_tainted_msg_count m ps
unfolding max_tainted_msg_count
max_ge m [] = omega arith
max_ge m (p ∷ ps) = ground (arith, max_ge m ps, max_ge p.last_ts_is_consistent.0 ps)

-- The loop finds the newest of the round of the message and the rounds of the siblings.
pub max_tainted_msg_count_lem :
    (m : ℤ) (ps : List Peer)
    → AllUpTo (max_tainted_msg_count m ps) ps
      × (m ≤ℤ max_tainted_msg_count m ps)
      × ((max_tainted_msg_count m ps ≡ m) ⊎ SomeAt (max_tainted_msg_count m ps) ps)
unfolding max_tainted_msg_count
max_tainted_msg_count_lem m [] = ground arith
max_tainted_msg_count_lem m (p ∷ ps) =
    ground (
      arith,
      max_tainted_msg_count_lem m ps,
      max_tainted_msg_count_lem p.last_ts_is_consistent.0 ps,
    )

-- Siblings whose last answer is to an older round than `m`, or found an inconsistent clock.
unfoldable pub missing : ℤ → List Peer → ℕ
missing m [] = 0
missing m (p ∷ ps) = (if answers_round m p then 0 else 1) + missing m ps

-- Siblings that in their last answer did not view this node as consistent.
unfoldable pub doubting : List Peer → ℕ
doubting [] = 0
doubting (p ∷ ps) = (if p.views_as_consistent then 0 else 1) + doubting ps

consistent_count-missing :
    (m : ℤ) (ps : List Peer) → consistent_count m ps + missing m ps ≡ length ps
unfolding consistent_count missing
consistent_count-missing m [] = refl
consistent_count-missing m (p ∷ ps) = ground (arith, consistent_count-missing m ps)

peer_consistent_count-doubting :
    (ps : List Peer) → peer_consistent_count ps + doubting ps ≡ length ps
unfolding peer_consistent_count doubting
peer_consistent_count-doubting [] = refl
peer_consistent_count-doubting (p ∷ ps) = ground (arith, peer_consistent_count-doubting ps)

-- The quorum holds exactly when at most one sibling lacks a consistent answer to the newest round,
-- and at most one did not view this node as consistent.
pub has_quorum_iff :
    (recvd : ℤ) (ps : List Peer)
    → (has_quorum recvd ps ≡ true)
      ↔ ((missing (max_tainted_msg_count recvd ps) ps ≤ 1) × (doubting ps ≤ 1))
unfolding has_quorum
has_quorum_iff recvd ps = ground (
  arith,
  consistent_count-missing (max_tainted_msg_count recvd ps) ps,
  peer_consistent_count-doubting ps,
)
