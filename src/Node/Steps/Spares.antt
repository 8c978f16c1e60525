-- ===== src/Node/Steps/Spares.antt =====
-- ENode.cpp, self-tainting: the uninterrupted rounds of the monitoring thread, while the other threads
-- and the exits run.
use Prim.Native.String.{String}
use tri_ha_rd_higher_resilie.Base.{
  ℕ, ◌≡◌, refl, ◌⊎◌, inl, ◌∙◌, Bool, true, arith, List, Option, none, some,
}
use tri_ha_rd_higher_resilie.Base.Int.{ℤ, pos}
use tri_ha_rd_higher_resilie.Double.{Double}
use tri_ha_rd_higher_resilie.Timespec.{Timespec}
use tri_ha_rd_higher_resilie.Node.{
  ENode, Peer, peer, NodeState, sync_state, spik_state, freq_state, print_state, ta, enode,
}
use tri_ha_rd_higher_resilie.Node.Clock.{
  read_clock, shadow_tsc_update, shadow_round, discipline_clock,
}
use tri_ha_rd_higher_resilie.Node.Ntp.{
  select_sync, select_spik, select_freq, select_by, select_clock, judge_offset, accept_drift,
  send_recv_drift_message, ntp,
}
use tri_ha_rd_higher_resilie.Node.Ntp.Machine.{judged_at}
use tri_ha_rd_higher_resilie.Node.Peers.{find, add_sibling, accept_sibling}
use tri_ha_rd_higher_resilie.Node.Taint.{
  aex_handler, send_tainted_messages, accept_tainted, answer_tainted, answer_found,
  accept_untainting, untaint_by, record_answer,
}
use tri_ha_rd_higher_resilie.Node.Messages.{Inputs, handle_message}
use tri_ha_rd_higher_resilie.Node.Messages.Cases.{handle_message-cases}
use tri_ha_rd_higher_resilie.Node.Monitor.{end_monitor}
use tri_ha_rd_higher_resilie.Node.Tasks.{start_monitor}
use tri_ha_rd_higher_resilie.Node.Steps.Keeps.{
  read_clock-Keeps, shadow_tsc_update-Keeps, judge_offset-KeepsBoth, select_by-Keeps,
}

module _ {F : Double} where
  -- The rounds and the limit of self-tainting stay, and an exit is counted only if the node is left
  -- tainted.
  pub record Spares (n m : ENode F) : Type 0 where
    pub total : (m.total_aex_count ≡ n.total_aex_count) ⊎ (m.tainted ≡ true)
    pub nb : m.nb_uninterr_rounds ≡ n.nb_uninterr_rounds
    pub limit : m.selftainting_rounds ≡ n.selftainting_rounds

  Spares-refl : (n : ENode F) → Spares n n
  Spares-refl n = record { total = inl refl; nb = refl; limit = refl }

  Spares-trans :
      (n m k : ENode F)
      → (m.tainted ≡ true → k.tainted ≡ true)
      → Spares n m
      → Spares m k
      → Spares n k
  Spares-trans n m k keeps p q = record {
    total = ground (arith, p.total, q.total, keeps);
    nb = q.nb ∙ p.nb;
    limit = q.limit ∙ p.limit;
  }

  pub read_clock-Spares : (n : ENode F) → Spares n (read_clock n).0
  unfolding read_clock
  read_clock-Spares n = record { total = inl refl; nb = refl; limit = refl }

  pub shadow_tsc_update-Spares : (now : Timespec) (n : ENode F) → Spares n (shadow_tsc_update now n)
  unfolding shadow_tsc_update shadow_round print_state
  shadow_tsc_update-Spares now n = ground arith

  pub send_tainted_messages-Spares :
      (dummy_ts : Timespec) (n : ENode F) → Spares n (send_tainted_messages dummy_ts n).0
  unfolding send_tainted_messages read_clock
  send_tainted_messages-Spares dummy_ts n = ground arith

  pub send_recv_drift_message-Spares :
      (now dummy_ts : Timespec) (a b : ℤ) (n : ENode F)
      → Spares n (send_recv_drift_message now dummy_ts a b n).0
  unfolding send_recv_drift_message read_clock
  send_recv_drift_message-Spares now dummy_ts a b n = ground (arith, shadow_tsc_update-Spares now n)

  pub end_monitor-Spares :
      (now dummy_ts : Timespec) (n : ENode F) → Spares n (end_monitor now dummy_ts n).0
  unfolding end_monitor ntp
  end_monitor-Spares now dummy_ts n = ground (
    arith,
    send_recv_drift_message-Spares now dummy_ts (pos 0) n.sleep_attack_ms
        (record n { poll_count = 0 }),
  )

  pub start_monitor-Spares :
      (now : Timespec) (reading : ℤ) (n : ENode F) → Spares n (start_monitor now reading n)
  unfolding start_monitor print_state
  start_monitor-Spares now reading n = record { total = inl refl; nb = refl; limit = refl }

  pub add_sibling-Spares :
      (failed : Bool) (hostname : String) (port : ℕ) (n : ENode F)
      → Spares n (add_sibling failed hostname port n).0
  unfolding add_sibling
  add_sibling-Spares failed hostname port n = ground arith

  accept_sibling-Spares :
      (ip : String) (cport : ℕ) (n : ENode F) → Spares n (accept_sibling ip cport n)
  unfolding accept_sibling
  accept_sibling-Spares ip cport n = record { total = inl refl; nb = refl; limit = refl }

  answer_found-Spares :
      (now : Timespec) (xmt_tsc : ℤ) (ip : String) (cport : ℕ) (buff : List ℕ) (o : Option Peer)
      (n : ENode F)
      → Spares n (answer_found now xmt_tsc ip cport buff o n).0
  unfolding answer_tainted read_clock
  answer_found-Spares now xmt_tsc ip cport buff none n = Spares-refl n
  answer_found-Spares now xmt_tsc ip cport buff (some q) n =
      ground (arith, shadow_tsc_update-Spares now n)

  pub accept_tainted-Spares :
      (now : Timespec) (xmt_tsc : ℤ) (ip : String) (cport : ℕ) (buff : List ℕ) (n : ENode F)
      → Spares n (accept_tainted now xmt_tsc ip cport buff n).0
  unfolding accept_tainted
  accept_tainted-Spares now xmt_tsc ip cport buff n =
      answer_found-Spares now xmt_tsc ip cport buff (find (peer ip cport) n.siblings) n

  record_answer-Spares :
      (buff : List ℕ) (q : Peer) (n : ENode F) → Spares n (record_answer buff q n)
  unfolding record_answer
  record_answer-Spares buff q n = ground arith

  untaint_by-Spares :
      (buff : List ℕ) (o : Option Peer) (n : ENode F) → Spares n (untaint_by buff o n)
  unfolding untaint_by print_state
  untaint_by-Spares buff none n = Spares-refl n
  untaint_by-Spares buff (some q) n = ground (arith, record_answer-Spares buff q n)

  accept_untainting-Spares :
      (ip : String) (cport : ℕ) (buff : List ℕ) (n : ENode F)
      → Spares n (accept_untainting ip cport buff n)
  unfolding accept_untainting print_state
  accept_untainting-Spares ip cport buff n =
      ground (arith, untaint_by-Spares buff (find (peer ip cport) n.siblings) (print_state enode n))

  pub aex_handler-Spares : (t : ℤ) (n : ENode F) → Spares n (aex_handler t n)
  unfolding aex_handler print_state
  aex_handler-Spares t n = ground arith

  judge_offset-Spares : (n : ENode F) → Spares n (judge_offset n)
  unfolding judge_offset print_state
  judge_offset-Spares n = ground arith

  select_by-Spares : (state : NodeState) (n : ENode F) → Spares n (select_by state n)
  unfolding select_sync select_spik select_freq discipline_clock
  select_by-Spares sync_state n = ground arith
  select_by-Spares spik_state n = ground arith
  select_by-Spares freq_state n = ground arith

  judged_at-Spares :
      (now : Timespec) (buff : List ℕ) (n : ENode F) → Spares n (judged_at now buff n)
  unfolding print_state
  judged_at-Spares now buff n =
      let printed = print_state ta n in
      let shadowed = shadow_tsc_update now printed in
      let read = (read_clock shadowed).0 in
      let s =
        Spares-trans n shadowed read (read_clock-Keeps shadowed).taint
          (Spares-trans n printed shadowed (shadow_tsc_update-Keeps now printed).taint
            (record { total = inl refl; nb = refl; limit = refl })
            (shadow_tsc_update-Spares now printed))
          (read_clock-Spares shadowed) in
      record { total = s.total; nb = s.nb; limit = s.limit }

  accept_drift-Spares :
      (now : Timespec) (buff : List ℕ) (n : ENode F) → Spares n (accept_drift now buff n)
  unfolding accept_drift select_clock
  accept_drift-Spares now buff n =
      let at = judged_at now buff n in
      let judged = judge_offset at in
      let all =
        Spares-trans n judged (select_by judged.node_state judged)
          (select_by-Keeps judged.node_state judged).taint
          (Spares-trans n at judged (judge_offset-KeepsBoth at).taint (judged_at-Spares now buff n)
            (judge_offset-Spares at))
          (select_by-Spares judged.node_state judged) in
      record { total = all.total; nb = all.nb; limit = all.limit }

  pub handle_message-Spares :
      (i : Inputs) (ip : String) (cport : ℕ) (buff : List ℕ) (n : ENode F)
      → Spares n (handle_message i ip cport buff n).0
  handle_message-Spares i ip cport buff n =
      handle_message-cases (Spares n) i ip cport buff n (Spares-refl n)
        (accept_sibling-Spares ip cport n) (accept_tainted-Spares i.now i.xmt_tsc ip cport buff n)
        (accept_untainting-Spares ip cport buff n) (λ fits. accept_drift-Spares i.now buff n)
