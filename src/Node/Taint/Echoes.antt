-- ===== src/Node/Taint/Echoes.antt =====
-- ENode.cpp, `case 'U'`: one answer that comes from the addresses of two siblings.
use Prim.Native.String.{String}
use tri_ha_rd_higher_resilie.Base.{
  ℕ, ◌≡◌, refl, sym, subst, ap, ◌∙◌, Bool, true, false, List, [], ◌∷◌, some, length, arith,
  if◌then◌else◌,
}
use tri_ha_rd_higher_resilie.Base.Int.{ℤ, ◌<ℤ◌}
use tri_ha_rd_higher_resilie.Double.{Double}
use tri_ha_rd_higher_resilie.Timespec.{lt}
use tri_ha_rd_higher_resilie.Wire.{read_i64, read_bool, u_msg_expected_len}
use tri_ha_rd_higher_resilie.Node.{
  ENode, Peer, peer, peer_eq, print_state, enode, ok, peer_consistency_drift_threshold,
}
use tri_ha_rd_higher_resilie.Node.Peers.{find, replace}
use tri_ha_rd_higher_resilie.Node.Peers.Distinct.{
  Distinct, SameAddress-peer_eq, peer_eq_comm, peer_eq_refl, peer_eq_address,
}
use tri_ha_rd_higher_resilie.Node.Taint.{
  has_quorum, max_tainted_msg_count, consistent_count, peer_consistent_count, peer_clock_offset,
  record_answer, untaint_by, accept_untainting,
}

-- The entry of a peer after an answer to round `m` that is consistent and views the node as consistent.
abbrev pub answered : ℤ → Peer → Peer
answered m p = record p { last_ts_is_consistent = (m, true); views_as_consistent = true }

one_of_three :
    (m : ℤ) (p q r : Peer)
    → q.last_ts_is_consistent.0 <ℤ m
    → r.last_ts_is_consistent.0 <ℤ m
    → has_quorum m (answered m p ∷ q ∷ r ∷ []) ≡ false
unfolding has_quorum max_tainted_msg_count consistent_count peer_consistent_count
one_of_three m p q r hq hr = ground arith

two_of_three :
    (m : ℤ) (p q r : Peer)
    → r.last_ts_is_consistent.0 <ℤ m
    → has_quorum m (answered m p ∷ answered m q ∷ r ∷ []) ≡ true
unfolding has_quorum max_tainted_msg_count consistent_count peer_consistent_count
two_of_three m p q r hr = ground arith

find_first : (p : Peer) (ps : List Peer) → find (peer p.hostname p.port) (p ∷ ps) ≡ some p
unfolding find
find_first p ps = rw (SameAddress-peer_eq p (peer p.hostname p.port) (refl, refl)) refl

replace_first : (p new : Peer) (ps : List Peer) → replace p new (p ∷ ps) ≡ new ∷ ps
unfolding replace
replace_first p new ps = rw (peer_eq_refl p) refl

answered_apart : (m : ℤ) (p q : Peer) → peer_eq q p ≡ false → peer_eq (answered m p) q ≡ false
answered_apart m p q apart =
    peer_eq_comm (answered m p) q ∙ peer_eq_address (answered m p) p q (refl, refl) ∙ apart

find_second :
    (m : ℤ) (p q : Peer) (ps : List Peer)
    → peer_eq q p ≡ false
    → find (peer q.hostname q.port) (answered m p ∷ q ∷ ps) ≡ some q
unfolding find
find_second m p q ps apart =
    let far =
      peer_eq_address (peer q.hostname q.port) q (answered m p) (refl, refl)
      ∙ answered_apart m p q apart in
    rw far (find_first q ps)

replace_second :
    (m : ℤ) (p q : Peer) (ps : List Peer)
    → peer_eq q p ≡ false
    → replace q (answered m q) (answered m p ∷ q ∷ ps) ≡ answered m p ∷ answered m q ∷ ps
unfolding replace
replace_second m p q ps apart = rw (answered_apart m p q apart, peer_eq_refl q) refl

module _ {F : Double} (buff : List ℕ) where
  -- The answer is consistent in its time, and says that the sender views the node as consistent.
  pub record IsGood (n : ENode F) : Type 0 where
    pub expected : length buff ≡ u_msg_expected_len
    pub near : lt (peer_clock_offset buff n) peer_consistency_drift_threshold ≡ true
    pub viewed : read_bool 15 buff ≡ true

  recorded_good :
      (p : Peer) (n : ENode F)
      → IsGood n
      → p.last_ts_is_consistent.0 <ℤ read_i64 7 buff
      → record_answer buff p n
        ≡ record n { siblings = replace p (answered (read_i64 7 buff) p) n.siblings }
  unfolding record_answer
  recorded_good p n good newer = ground (arith, good.near, good.viewed)

  accepted :
      (ip : String) (cport : ℕ) (p : Peer) (n : ENode F)
      → length buff ≡ u_msg_expected_len
      → find (peer ip cport) n.siblings ≡ some p
      → accept_untainting ip cport buff n ≡ untaint_by buff (some p) (print_state enode n)
  unfolding accept_untainting
  accepted ip cport p n expected known = ground (arith, expected, known)

  IsGood-frame :
      (m n : ENode F)
      → m.ts_ref ≡ n.ts_ref
      → m.tsc_ref ≡ n.tsc_ref
      → m.tsc_freq ≡ n.tsc_freq
      → m.tsc ≡ n.tsc
      → IsGood n
      → IsGood m
  unfolding peer_clock_offset
  IsGood-frame m n a b c d good = record {
    expected = good.expected;
    near = rw (a, b, c, d) good.near;
    viewed = good.viewed;
  }

  -- The state after an answer: printed and untainted if the quorum is reached.
  settled : Bool → ENode F → ENode F
  settled quorum n = if quorum then print_state ok (record n { tainted = false }) else n

  untaint_by-settled :
      (p : Peer) (n recorded : ENode F)
      → record_answer buff p n ≡ recorded
      → untaint_by buff (some p) n
        ≡ settled (has_quorum (read_i64 7 buff) recorded.siblings) recorded
  unfolding untaint_by settled
  untaint_by-settled p n recorded h =
      ap (λ (m : ENode F). settled (has_quorum (read_i64 7 buff) m.siblings) m) h

  -- What a state after an answer has kept of the state before it.
  pub record Echoed (n m : ENode F) (ps : List Peer) (quorum : Bool) : Type 0 where
    pub siblings : m.siblings ≡ ps
    pub tainted : m.tainted ≡ (if quorum then false else n.tainted)
    pub good : IsGood m

  settled-Echoed :
      (n : ENode F) (ps : List Peer) (quorum : Bool)
      → IsGood n
      → Echoed n (settled quorum (record (print_state enode n) { siblings = ps })) ps quorum
  unfolding settled print_state
  settled-Echoed n ps true good = record {
    siblings = refl;
    tainted = refl;
    good = IsGood-frame _ n refl refl refl refl good;
  }
  settled-Echoed n ps false good = record {
    siblings = refl;
    tainted = refl;
    good = IsGood-frame _ n refl refl refl refl good;
  }

  pub accept_untainting-Echoed :
      (p : Peer) (ps : List Peer) (quorum : Bool) (n : ENode F)
      → IsGood n
      → p.last_ts_is_consistent.0 <ℤ read_i64 7 buff
      → find (peer p.hostname p.port) n.siblings ≡ some p
      → replace p (answered (read_i64 7 buff) p) n.siblings ≡ ps
      → has_quorum (read_i64 7 buff) ps ≡ quorum
      → Echoed n (accept_untainting p.hostname p.port buff n) ps quorum
  unfolding print_state
  accept_untainting-Echoed p ps quorum n good newer known replaced counted =
      let printed = print_state enode n in
      let still = IsGood-frame printed n refl refl refl refl good in
      let recorded =
        recorded_good p printed still newer
        ∙ ap (λ (qs : List Peer). record printed { siblings = qs }) replaced in
      let result =
        accepted p.hostname p.port p n good.expected known
        ∙ untaint_by-settled p printed (record printed { siblings = ps }) recorded
        ∙ ap (λ (b : Bool). settled b (record printed { siblings = ps })) counted in
      subst (λ (m : ENode F). Echoed n m ps quorum) (sym result) (settled-Echoed n ps quorum good)

  -- A tainted node with three siblings at different addresses, none of which has answered this round or a
  -- later one. An answer of the expected length, with an offset below the threshold and from a sender
  -- that views the node as consistent, does not untaint it when it comes from one sibling; when the
  -- same bytes then come from the address of a second one, the node is untainted.
  pub echo_untaints :
      (p q r : Peer) (n : ENode F)
      → n.siblings ≡ p ∷ q ∷ r ∷ []
      → Distinct n.siblings
      → n.tainted ≡ true
      → IsGood n
      → p.last_ts_is_consistent.0 <ℤ read_i64 7 buff
      → q.last_ts_is_consistent.0 <ℤ read_i64 7 buff
      → r.last_ts_is_consistent.0 <ℤ read_i64 7 buff
      → let first = accept_untainting p.hostname p.port buff n in
        (first.tainted ≡ true) × ((accept_untainting q.hostname q.port buff first).tainted ≡ false)
  echo_untaints p q r n known distinct h good hp hq hr =
      let m = read_i64 7 buff in
      let apart : peer_eq q p ≡ false = (subst Distinct known distinct).0.0 in
      let first =
        accept_untainting-Echoed p (answered m p ∷ q ∷ r ∷ []) false n good hp
          (ap (find (peer p.hostname p.port)) known ∙ find_first p (q ∷ r ∷ []))
          (ap (replace p (answered m p)) known ∙ replace_first p (answered m p) (q ∷ r ∷ []))
          (one_of_three m p q r hq hr) in
      let second =
        accept_untainting-Echoed q (answered m p ∷ answered m q ∷ r ∷ []) true
          (accept_untainting p.hostname p.port buff n) first.good hq
          (ap (find (peer q.hostname q.port)) first.siblings ∙ find_second m p q (r ∷ []) apart)
          (ap (replace q (answered m q)) first.siblings ∙ replace_second m p q (r ∷ []) apart)
          (two_of_three m p q r hr) in
      (first.tainted ∙ h, second.tainted)
