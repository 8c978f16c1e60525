-- ===== src/Node/Taint/Untaint.antt =====
-- What an untainting message does to the state of the node.
use Prim.Native.String.{String}
use tri_ha_rd_higher_resilie.Base.{
  ℕ, ◌≤◌, ◌≡◌, ◌≢◌, ◌↔◌, refl, ap, inl, inr, Bool, true, false, arith, List, [], ◌∷◌, none, some,
  length, ◌==◌, ==_iff, Bool-cases, Option-cases,
}
use tri_ha_rd_higher_resilie.Base.Int.{ℤ, pos, ◌+ℤ◌, ◌*ℤ◌, ◌≤ℤ◌, ◌<ℤ◌}
use tri_ha_rd_higher_resilie.Double.{Double}
use tri_ha_rd_higher_resilie.Timespec.{lt}
use tri_ha_rd_higher_resilie.Timespec.Nanos.{nanos}
use tri_ha_rd_higher_resilie.Timespec.Order.{lt-nanos}
use tri_ha_rd_higher_resilie.Wire.{read_i64, read_bool, u_msg_expected_len}
use tri_ha_rd_higher_resilie.Node.{
  ENode, Peer, peer, print_state, enode, peer_consistency_drift_threshold,
}
use tri_ha_rd_higher_resilie.Node.Peers.{find, replace}
use tri_ha_rd_higher_resilie.Node.Taint.{
  has_quorum, peer_clock_offset, record_answer, untaint_by, accept_untainting,
  max_tainted_msg_count,
}
use tri_ha_rd_higher_resilie.Node.Taint.Quorum.{missing, doubting, has_quorum_iff}

length-replace : (p new : Peer) (ps : List Peer) → length (replace p new ps) ≡ length ps
unfolding replace
length-replace p new [] = refl
length-replace p new (q ∷ qs) = ground (arith, length-replace p new qs)

has_quorum_single : (recvd : ℤ) (ps : List Peer) → length ps ≤ 1 → has_quorum recvd ps ≡ true
unfolding has_quorum
has_quorum_single recvd ps h = ground arith

threshold_nanos : nanos peer_consistency_drift_threshold ≡ pos 500000
unfolding nanos ◌+ℤ◌ ◌*ℤ◌
threshold_nanos = refl

module _ {F : Double} where
  -- When a message untaints: expected length, known sender, and with its answer recorded at most one
  -- sibling without a consistent answer to the newest round and at most one that doubts this node.
  pub record Untaints (ip : String) (cport : ℕ) (buff : List ℕ) (n : ENode F) : Type 0 where
    pub expected : length buff ≡ u_msg_expected_len
    pub sibling : Peer
    pub known : find (peer ip cport) n.siblings ≡ some sibling
    pub answered :
        let siblings = (record_answer buff sibling n).siblings in
        missing (max_tainted_msg_count (read_i64 7 buff) siblings) siblings ≤ 1
    pub viewed : doubting (record_answer buff sibling n).siblings ≤ 1

  module _ (ip : String) (cport : ℕ) (buff : List ℕ) (n : ENode F) where
    record_answer-tainted : (q : Peer) → (record_answer buff q n).tainted ≡ n.tainted
    unfolding record_answer
    record_answer-tainted q = ground arith

    untaints_by :
        (q : Peer)
        → n.tainted ≡ true
        → ((untaint_by buff (some q) (print_state enode n)).tainted ≡ false)
          ↔ (has_quorum (read_i64 7 buff) (record_answer buff q n).siblings ≡ true)
    unfolding untaint_by print_state record_answer peer_clock_offset
    untaints_by q h = ground arith

    kept_tainted :
        find (peer ip cport) n.siblings ≡ none
        → n.tainted ≡ true
        → (accept_untainting ip cport buff n).tainted ≢ false
    unfolding accept_untainting untaint_by print_state
    kept_tainted unknown h e = ground arith

    Untaints-known :
        (q : Peer)
        → find (peer ip cport) n.siblings ≡ some q
        → n.tainted ≡ true
        → (accept_untainting ip cport buff n).tainted ≡ false
        → Untaints ip cport buff n
    unfolding accept_untainting
    Untaints-known q known h e = elim (Bool-cases (length buff == u_msg_expected_len)) [
      | inl expected ↦
          let quorum : has_quorum (read_i64 7 buff) (record_answer buff q n).siblings ≡ true =
            (untaints_by q h).0 (rw (expected, known) at e) in
          let counts =
            (has_quorum_iff (read_i64 7 buff) (record_answer buff q n).siblings).0 quorum in
          record {
            expected = (==_iff (length buff) u_msg_expected_len).0 expected;
            sibling = q;
            known = known;
            answered = counts.0;
            viewed = counts.1;
          }
      | inr other ↦ absurd (ground (arith, h, e, other))
    ]

    -- A tainted node is untainted by an untainting message exactly when the message has the expected
    -- length and comes from a sibling, and, with its answer recorded, at most one sibling lacks a
    -- consistent answer to the newest round and at most one did not view this node as consistent.
    pub accept_untainting-Untaints :
        n.tainted ≡ true
        → ((accept_untainting ip cport buff n).tainted ≡ false) ↔ Untaints ip cport buff n
    unfolding accept_untainting
    accept_untainting-Untaints h = (to, from)
      where
        to : (accept_untainting ip cport buff n).tainted ≡ false → Untaints ip cport buff n
        to e = elim (Option-cases (find (peer ip cport) n.siblings)) [
          | inl unknown ↦ absurd (kept_tainted unknown h e)
          | inr (q, known) ↦ Untaints-known q known h e
        ]

        from : Untaints ip cport buff n → (accept_untainting ip cport buff n).tainted ≡ false
        from u =
            rw ((==_iff (length buff) u_msg_expected_len).1 u.expected, u.known)
              ((untaints_by u.sibling h).1 (
                (has_quorum_iff (read_i64 7 buff) (record_answer buff u.sibling n).siblings).1
                  (u.answered, u.viewed)))

    -- An untainting message, whatever its bytes and sender, never taints the node, and leaves its
    -- clock, its frequency and its NTP and calibration state as they are.
    pub accept_untainting_frame :
        let m = accept_untainting ip cport buff n in
        ((n.tainted ≡ false) → (m.tainted ≡ false))
        × (m.ts_ref ≡ n.ts_ref)
        × (m.tsc_ref ≡ n.tsc_ref)
        × (m.tsc_freq ≡ n.tsc_freq)
        × (m.clock_offset ≡ n.clock_offset)
        × (m.node_state ≡ n.node_state)
        × (m.clock_state ≡ n.clock_state)
        × (m.calib_count ≡ n.calib_count)
        × (m.total_aex_count ≡ n.total_aex_count)
    unfolding accept_untainting untaint_by record_answer print_state
    accept_untainting_frame = ground arith

    -- An answer to a round that is not newer than the last recorded answer of its sender changes no
    -- sibling.
    pub accept_untainting_replay :
        (q : Peer)
        → find (peer ip cport) n.siblings ≡ some q
        → read_i64 7 buff ≤ℤ q.last_ts_is_consistent.0
        → (accept_untainting ip cport buff n).siblings ≡ n.siblings
    unfolding accept_untainting untaint_by record_answer print_state
    accept_untainting_replay q known old = ground arith

    length-record_answer : (q : Peer) → length (record_answer buff q n).siblings ≡ length n.siblings
    unfolding record_answer
    length-record_answer q = ground (
      arith,
      length-replace q
          (record q {
            last_ts_is_consistent =
                (read_i64 7 buff, lt (peer_clock_offset buff n) peer_consistency_drift_threshold);
            views_as_consistent = read_bool 15 buff;
          })
          n.siblings,
    )

    -- With a single sibling the quorum is empty: a message of the expected length from that sibling
    -- untaints the node, whatever it holds.
    pub single_sibling_untaints :
        (q : Peer)
        → n.siblings ≡ q ∷ []
        → find (peer ip cport) n.siblings ≡ some q
        → length buff ≡ u_msg_expected_len
        → (accept_untainting ip cport buff n).tainted ≡ false
    unfolding accept_untainting untaint_by print_state record_answer peer_clock_offset
    single_sibling_untaints q single known expected = ground (
      arith,
      known,
      expected,
      has_quorum_single (read_i64 7 buff) (record_answer buff q n).siblings
          (omega (arith, length-record_answer q, ap length single)),
    )

    -- An answer that is newer than the last one of its sender is recorded as consistent exactly when
    -- the offset of the peer's clock is below half a millisecond: a peer that is behind counts as
    -- consistent, by however much.
    pub record_answer_behind :
        (q : Peer)
        → q.last_ts_is_consistent.0 <ℤ read_i64 7 buff
        → let recorded = λ (consistent : Bool).
          replace q
            (record q {
              last_ts_is_consistent = (read_i64 7 buff, consistent);
              views_as_consistent = read_bool 15 buff;
            })
            n.siblings in
          (nanos (peer_clock_offset buff n) <ℤ pos 500000
            → (record_answer buff q n).siblings ≡ recorded true)
          × (pos 500000 ≤ℤ nanos (peer_clock_offset buff n)
              → (record_answer buff q n).siblings ≡ recorded false)
    unfolding record_answer
    record_answer_behind q newer = ground (
      arith,
      lt-nanos (peer_clock_offset buff n) peer_consistency_drift_threshold,
      threshold_nanos,
    )
