-- ===== src/Node/Taint/Order.antt =====
-- ENode.cpp: the messages of siblings that are kept in another order.
use mathlib.Core.List.{Permᴰ}
use mathlib.Core.Path.{fun_ext}
use Prim.Native.String.{String}
use tri_ha_rd_higher_resilie.Base.{
  ℕ, suc, Permᴰ-ap, ◌≡◌, refl, ap, inl, inr, Bool, true, false, List, Option, none, some, length,
  Bool-cases, arith, ◌==◌, if◌then◌else◌,
}
use tri_ha_rd_higher_resilie.Base.Int.{ℤ, ltb_ℤ}
use tri_ha_rd_higher_resilie.Double.{Double}
use tri_ha_rd_higher_resilie.Timespec.{Timespec}
use tri_ha_rd_higher_resilie.Wire.{read_i64, t_msg_expected_len, u_msg_expected_len}
use tri_ha_rd_higher_resilie.Node.{ENode, Datagram, Peer, peer, print_state, enode, ok}
use tri_ha_rd_higher_resilie.Node.Clock.{
  shadow_tsc_update, shadow_round, read_clock, is_ta_inconsistent,
}
use tri_ha_rd_higher_resilie.Node.Peers.{find}
use tri_ha_rd_higher_resilie.Node.Peers.Distinct.{Distinct}
use tri_ha_rd_higher_resilie.Node.Peers.Order.{find-order, replace-order}
use tri_ha_rd_higher_resilie.Node.Taint.{
  has_quorum, max_tainted_msg_count, consistent_count, peer_consistent_count, peer_clock_offset,
  record_answer, untaint_by, accept_untainting, accept_tainted, answer_tainted, answer_found,
}

length-order : (ps qs : List Peer) → Permᴰ ps qs → length ps ≡ length qs
length-order = Permᴰ-ap length (λ x l k e. ap suc e) (λ x y l. refl)

newer : ℤ → Peer → ℤ
newer m p = if ltb_ℤ m p.last_ts_is_consistent.0 then p.last_ts_is_consistent.0 else m

newest_of : List Peer → ℤ → ℤ
newest_of ps m = max_tainted_msg_count m ps

newest_of-order : (ps qs : List Peer) → Permᴰ ps qs → newest_of ps ≡ newest_of qs
unfolding newest_of newer max_tainted_msg_count
newest_of-order =
    Permᴰ-ap newest_of (λ x l k e. fun_ext (λ m. ap (λ g. g (newer m x)) e))
      (λ x y l. fun_ext (λ m. ap (λ z. max_tainted_msg_count z l) (ground arith)))

consistent_count-order :
    (m : ℤ) (ps qs : List Peer) → Permᴰ ps qs → consistent_count m ps ≡ consistent_count m qs
unfolding consistent_count
consistent_count-order m =
    Permᴰ-ap (consistent_count m) (λ x l k e. omega (arith, e)) (λ x y l. omega arith)

peer_consistent_count-order :
    (ps qs : List Peer) → Permᴰ ps qs → peer_consistent_count ps ≡ peer_consistent_count qs
unfolding peer_consistent_count
peer_consistent_count-order =
    Permᴰ-ap peer_consistent_count (λ x l k e. omega (arith, e)) (λ x y l. omega arith)

has_quorum-order : (m : ℤ) (ps qs : List Peer) → Permᴰ ps qs → has_quorum m ps ≡ has_quorum m qs
unfolding has_quorum newest_of
has_quorum-order m ps qs s =
    rw
      (
        length-order ps qs s,
        ap (λ g. g m) (newest_of-order ps qs s),
        consistent_count-order (max_tainted_msg_count m qs) ps qs s,
        peer_consistent_count-order ps qs s,
      )
      refl

module _ {F : Double} where
  -- Two states are the same but for the order of the siblings.
  pub record Reordered (n m : ENode F) : Type 0 where
    pub order : Permᴰ n.siblings m.siblings
    pub same : m ≡ record n { siblings = m.siblings }

  record_answer-Reordered :
      (buff : List ℕ) (p : Peer) (n : ENode F) (qs : List Peer)
      → Permᴰ n.siblings qs
      → Distinct n.siblings
      → Reordered (record_answer buff p n) (record_answer buff p (record n { siblings = qs }))
  unfolding record_answer peer_clock_offset
  record_answer-Reordered buff p n qs s d =
      elim (Bool-cases (ltb_ℤ p.last_ts_is_consistent.0 (read_i64 7 buff))) [
        | inl newer ↦ rw newer (record { order = replace-order p _ n.siblings qs s d; same = refl })
        | inr old ↦ rw old (record { order = s; same = refl })
      ]

  settled-Reordered :
      (b c : Bool) (n m : ENode F)
      → b ≡ c
      → Reordered n m
      → Reordered
          (if b then print_state ok (record n { tainted = false }) else n)
          (if c then print_state ok (record m { tainted = false }) else m)
  unfolding print_state
  settled-Reordered true true n m e r = record {
    order = r.order;
    same = ap (λ k. print_state ok (record k { tainted = false })) r.same;
  }
  settled-Reordered true false n m e r = cc
  settled-Reordered false true n m e r = cc
  settled-Reordered false false n m e r = r

  abbrev pub Unordered : ENode F × List Datagram → ENode F × List Datagram → Type 0
  Unordered x y = Reordered x.0 y.0 × (x.1 ≡ y.1)

  module _ (buff : List ℕ) (n : ENode F) (qs : List Peer) (s : Permᴰ n.siblings qs)
      (d : Distinct n.siblings) where
    untaint_by-Reordered :
        (found : Option Peer)
        → Reordered (untaint_by buff found n) (untaint_by buff found (record n { siblings = qs }))
    unfolding untaint_by
    untaint_by-Reordered none = record { order = s; same = refl }
    untaint_by-Reordered (some p) =
        let r = record_answer-Reordered buff p n qs s d in
        settled-Reordered _ _ _ _ (has_quorum-order (read_i64 7 buff) _ _ r.order) r

  module _ (ip : String) (cport : ℕ) (buff : List ℕ) (n : ENode F) (qs : List Peer)
      (s : Permᴰ n.siblings qs) (d : Distinct n.siblings) where
    pub accept_untainting-Reordered :
        Reordered
          (accept_untainting ip cport buff n)
          (accept_untainting ip cport buff (record n { siblings = qs }))
    unfolding accept_untainting print_state
    accept_untainting-Reordered = elim (Bool-cases (length buff == u_msg_expected_len)) [
      | inl expected ↦
          rw (expected, find-order (peer ip cport) n.siblings qs s d)
            (untaint_by-Reordered buff (print_state enode n) qs s d (find (peer ip cport) qs))
      | inr other ↦ rw other (record { order = s; same = refl })
    ]

    answer_tainted-Unordered :
        (now : Timespec) (xmt_tsc : ℤ) (p : Peer)
        → Unordered
            (answer_tainted now xmt_tsc ip cport buff p n)
            (answer_tainted now xmt_tsc ip cport buff p (record n { siblings = qs }))
    unfolding answer_tainted shadow_tsc_update shadow_round read_clock print_state
    answer_tainted-Unordered now xmt_tsc p = elim (Bool-cases (p.port == 12346)) [
      | inl last ↦ elim (Bool-cases n.attacker) [
        | inl attacks ↦ rw (last, attacks) (record { order = s; same = refl }, refl)
        | inr honest ↦ rw (last, honest) (record { order = s; same = refl }, refl)
      ]
      | inr other ↦ rw other (record { order = s; same = refl }, refl)
    ]

    answer_found-Unordered :
        (now : Timespec) (xmt_tsc : ℤ) (found : Option Peer)
        → Unordered
            (answer_found now xmt_tsc ip cport buff found n)
            (answer_found now xmt_tsc ip cport buff found (record n { siblings = qs }))
    answer_found-Unordered now xmt_tsc none = (record { order = s; same = refl }, refl)
    answer_found-Unordered now xmt_tsc (some p) =
        elim (Bool-cases (length buff == t_msg_expected_len)) [
          | inl expected ↦ elim (Bool-cases (is_ta_inconsistent n.clock_state)) [
            | inl unsure ↦ rw (expected, unsure) (record { order = s; same = refl }, refl)
            | inr sure ↦ rw (expected, sure) (answer_tainted-Unordered now xmt_tsc p)
          ]
          | inr other ↦ rw other (record { order = s; same = refl }, refl)
        ]

    pub accept_tainted-Unordered :
        (now : Timespec) (xmt_tsc : ℤ)
        → Unordered
            (accept_tainted now xmt_tsc ip cport buff n)
            (accept_tainted now xmt_tsc ip cport buff (record n { siblings = qs }))
    unfolding accept_tainted
    accept_tainted-Unordered now xmt_tsc =
        rw (find-order (peer ip cport) n.siblings qs s d)
          (answer_found-Unordered now xmt_tsc (find (peer ip cport) qs))
