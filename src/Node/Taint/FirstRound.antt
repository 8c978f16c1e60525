-- ===== src/Node/Taint/FirstRound.antt =====
-- The answers to the first tainted message of a node.
use Prim.Native.String.{String}
use tri_ha_rd_higher_resilie.Base.{
  ℕ, ◌≤◌, ◌≡◌, ◌≢◌, refl, subst, ap, true, false, arith, List, [], ◌∷◌, some, length, map, ◌∙◌, inl,
  inr, Has,
}
use tri_ha_rd_higher_resilie.Base.Int.{ℤ, pos, ◌≤ℤ◌}
use tri_ha_rd_higher_resilie.Double.{Double}
use tri_ha_rd_higher_resilie.Timespec.{Timespec}
use tri_ha_rd_higher_resilie.Wire.{read_i64, tainted_message}
use tri_ha_rd_higher_resilie.Wire.Codec.{IsI64, read_i64-put_i64}
use tri_ha_rd_higher_resilie.Node.{ENode, Datagram, Peer, peer}
use tri_ha_rd_higher_resilie.Node.Clock.{read_clock}
use tri_ha_rd_higher_resilie.Node.Tasks.{construct}
use tri_ha_rd_higher_resilie.Node.Peers.{find}
use tri_ha_rd_higher_resilie.Node.Taint.{
  to_sibling, send_tainted_messages, record_answer, accept_untainting,
}
use tri_ha_rd_higher_resilie.Node.Taint.Quorum.{doubting}
use tri_ha_rd_higher_resilie.Node.Taint.Untaint.{accept_untainting-Untaints}

-- No sibling's answer has been recorded yet: each is as its constructor leaves it.
abbrev pub AllNew : List Peer → Type 0
AllNew [] = Unit {0}
AllNew (p ∷ ps) =
    (p.last_ts_is_consistent ≡ (pos 0, false)) × (p.views_as_consistent ≡ false) × AllNew ps

find-AllNew :
    (p q : Peer) (ps : List Peer)
    → AllNew ps
    → find p ps ≡ some q
    → q.last_ts_is_consistent ≡ (pos 0, false)
unfolding find
find-AllNew p q [] h e = cc
find-AllNew p q (r ∷ rs) h e = ground (arith, find-AllNew p q rs h.2)

doubting-AllNew : (ps : List Peer) → AllNew ps → doubting ps ≡ length ps
unfolding doubting
doubting-AllNew [] h = refl
doubting-AllNew (p ∷ ps) h = ground (arith, doubting-AllNew ps h.2)

count_of_tainted_message :
    (count : ℤ) (org_ts dummy_ts : Timespec)
    → IsI64 count
    → read_i64 7 (tainted_message count org_ts dummy_ts) ≡ count
unfolding tainted_message
count_of_tainted_message count org_ts dummy_ts h =
    read_i64-put_i64 7 (tainted_message count org_ts dummy_ts) count h refl

count_of_requests :
    (count : ℤ) (payload : List ℕ) (request : Datagram) (siblings : List Peer)
    → read_i64 7 payload ≡ count
    → Has request (map (to_sibling payload) siblings)
    → read_i64 7 request.payload ≡ count
count_of_requests count payload request [] e h = absurd h
count_of_requests count payload request (p ∷ ps) e (inl same) =
    ap (λ (d : Datagram). read_i64 7 d.payload) same ∙ e
count_of_requests count payload request (p ∷ ps) e (inr h) =
    count_of_requests count payload request ps e h

module _ {F : Double} where
  record_answer_old :
      (buff : List ℕ) (q : Peer) (n : ENode F)
      → read_i64 7 buff ≤ℤ pos 0
      → q.last_ts_is_consistent ≡ (pos 0, false)
      → (record_answer buff q n).siblings ≡ n.siblings
  unfolding record_answer
  record_answer_old buff q n old new = ground (arith, ap (λ r. r.0) new)

  old_round_keeps_tainted :
      (ip : String) (cport : ℕ) (buff : List ℕ) (n : ENode F)
      → n.tainted ≡ true
      → 2 ≤ length n.siblings
      → AllNew n.siblings
      → read_i64 7 buff ≤ℤ pos 0
      → (accept_untainting ip cport buff n).tainted ≢ false
  old_round_keeps_tainted ip cport buff n h many new old e =
      let u = (accept_untainting-Untaints ip cport buff n h).0 e in
      let same =
        record_answer_old buff u.sibling n old
          (find-AllNew (peer ip cport) u.sibling n.siblings new u.known) in
      omega (arith, subst (λ ps. doubting ps ≤ 1) same u.viewed, doubting-AllNew n.siblings new)

  first_count :
      (memory n : ENode F) (port : ℕ) (tsc_freq shadow_tsc_freq : F.Value) (sleep_attack_ms : ℤ)
      (dummy_ts : Timespec) (request : Datagram)
      → n.tainted_msg_count
        ≡ (construct memory port tsc_freq shadow_tsc_freq sleep_attack_ms).tainted_msg_count
      → Has request (send_tainted_messages dummy_ts n).1
      → read_i64 7 request.payload ≡ pos 0
  unfolding construct send_tainted_messages
  first_count memory n port tsc_freq shadow_tsc_freq sleep_attack_ms dummy_ts request start sent =
      count_of_requests (pos 0) _ request _
        (ap (λ z. read_i64 7 (tainted_message z (read_clock n).1 dummy_ts)) start
          ∙ count_of_tainted_message (pos 0) (read_clock n).1 dummy_ts (omega arith, omega arith))
        sent

  -- A node sends its first tainted messages, with the count of them as the load of the enclave and its
  -- constructor have left it. If it has at least two siblings then, none of whose answers is recorded yet,
  -- no answer with the count of these messages untaints it, whoever sends it and whatever else it holds:
  -- the count is the one that new siblings start with, so the answer is dropped as a replay.
  pub first_round_keeps_tainted :
      (memory n m : ENode F) (port : ℕ) (tsc_freq shadow_tsc_freq : F.Value) (sleep_attack_ms : ℤ)
      (dummy_ts : Timespec) (request : Datagram) (ip : String) (cport : ℕ) (buff : List ℕ)
      → n.tainted_msg_count
        ≡ (construct memory port tsc_freq shadow_tsc_freq sleep_attack_ms).tainted_msg_count
      → Has request (send_tainted_messages dummy_ts n).1
      → read_i64 7 buff ≡ read_i64 7 request.payload
      → m.tainted ≡ true
      → 2 ≤ length m.siblings
      → AllNew m.siblings
      → (accept_untainting ip cport buff m).tainted ≢ false
  first_round_keeps_tainted memory n m port tsc_freq shadow_tsc_freq sleep_attack_ms dummy_ts
        request ip cport buff start sent answers h many new =
      let count =
        answers
        ∙ first_count memory n port tsc_freq shadow_tsc_freq sleep_attack_ms dummy_ts request start
            sent in
      old_round_keeps_tainted ip cport buff m h many new (rw count (omega arith))
