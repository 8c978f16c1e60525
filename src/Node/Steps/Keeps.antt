-- ===== src/Node/Steps/Keeps.antt =====
-- The operations that keep the taint and the siblings.
use tri_ha_rd_higher_resilie.Base.{ℕ, ◌≡◌, refl, ◌∙◌, true, arith, List, Option, none, some}
use tri_ha_rd_higher_resilie.Base.Int.{ℤ}
use tri_ha_rd_higher_resilie.Double.{Double}
use tri_ha_rd_higher_resilie.Timespec.{Timespec}
use tri_ha_rd_higher_resilie.Node.Peers.{find}
use Prim.Native.String.{String}
use tri_ha_rd_higher_resilie.Node.{
  ENode, Peer, peer, NodeState, sync_state, spik_state, freq_state, ta, print_state,
}
use tri_ha_rd_higher_resilie.Node.Clock.{read_clock, shadow_tsc_update, discipline_clock}
use tri_ha_rd_higher_resilie.Node.Ntp.{
  select_sync, select_spik, select_freq, select_by, select_clock, judge_offset, accept_drift,
  send_recv_drift_message,
}
use tri_ha_rd_higher_resilie.Node.Ntp.Machine.{judged_at}
use tri_ha_rd_higher_resilie.Node.Taint.{
  aex_handler, send_tainted_messages, accept_tainted, answer_tainted, answer_found,
}
use tri_ha_rd_higher_resilie.Node.Steps.Rounds.{Relates, monitor_rdtsc-relates}
use tri_ha_rd_higher_resilie.Node.Monitor.{
  Tick, count_round, self_taint, check_count, monitor_rdtsc,
}

module _ {F : Double} where
  pub record Keeps (n m : ENode F) : Type 0 where
    pub taint : n.tainted ≡ true → m.tainted ≡ true
    pub siblings : m.siblings ≡ n.siblings
    pub clock : m.clock_state ≡ n.clock_state

  -- The same, but for the state of the clock.
  pub record KeepsBoth (n m : ENode F) : Type 0 where
    pub taint : n.tainted ≡ true → m.tainted ≡ true
    pub siblings : m.siblings ≡ n.siblings

  both : (n m : ENode F) → Keeps n m → KeepsBoth n m
  both n m p = record { taint = p.taint; siblings = p.siblings }

  KeepsBoth-trans : (n m k : ENode F) → KeepsBoth n m → KeepsBoth m k → KeepsBoth n k
  KeepsBoth-trans n m k p q = record {
    taint = λ h. q.taint (p.taint h);
    siblings = q.siblings ∙ p.siblings;
  }

  pub Keeps-refl : (n : ENode F) → Keeps n n
  Keeps-refl n = record { taint = λ h. h; siblings = refl; clock = refl }

  pub Keeps-trans : (n m k : ENode F) → Keeps n m → Keeps m k → Keeps n k
  Keeps-trans n m k p q = record {
    taint = λ h. q.taint (p.taint h);
    siblings = q.siblings ∙ p.siblings;
    clock = q.clock ∙ p.clock;
  }

  pub aex_handler-Keeps : (t : ℤ) (n : ENode F) → Keeps n (aex_handler t n)
  unfolding aex_handler print_state
  aex_handler-Keeps t n = ground arith

  pub read_clock-Keeps : (n : ENode F) → Keeps n (read_clock n).0
  unfolding read_clock
  read_clock-Keeps n = ground arith

  pub shadow_tsc_update-Keeps : (now : Timespec) (n : ENode F) → Keeps n (shadow_tsc_update now n)
  unfolding shadow_tsc_update print_state
  shadow_tsc_update-Keeps now n = ground arith

  pub send_tainted_messages-Keeps :
      (dummy_ts : Timespec) (n : ENode F) → Keeps n (send_tainted_messages dummy_ts n).0
  unfolding send_tainted_messages read_clock
  send_tainted_messages-Keeps dummy_ts n = ground arith

  pub send_recv_drift_message-Keeps :
      (now dummy_ts : Timespec) (a b : ℤ) (n : ENode F)
      → Keeps n (send_recv_drift_message now dummy_ts a b n).0
  unfolding send_recv_drift_message read_clock
  send_recv_drift_message-Keeps now dummy_ts a b n = ground (arith, shadow_tsc_update-Keeps now n)

  discipline_clock-Keeps : (n : ENode F) → Keeps n (discipline_clock n)
  unfolding discipline_clock
  discipline_clock-Keeps n = ground arith

  pub judge_offset-KeepsBoth : (n : ENode F) → KeepsBoth n (judge_offset n)
  unfolding judge_offset print_state
  judge_offset-KeepsBoth n = ground arith

  pub select_by-Keeps : (state : NodeState) (n : ENode F) → Keeps n (select_by state n)
  unfolding select_sync select_spik select_freq
  select_by-Keeps sync_state n = ground (arith, discipline_clock-Keeps n)
  select_by-Keeps spik_state n = ground arith
  select_by-Keeps freq_state n = ground arith

  pub judged_at-Keeps :
      (now : Timespec) (buff : List ℕ) (n : ENode F) → Keeps n (judged_at now buff n)
  unfolding print_state
  judged_at-Keeps now buff n =
      let printed = print_state ta n in
      let shadowed = shadow_tsc_update now printed in
      let read = (read_clock shadowed).0 in
      let k =
        Keeps-trans n shadowed read
          (Keeps-trans n printed shadowed (record { taint = λ h. h; siblings = refl; clock = refl })
            (shadow_tsc_update-Keeps now printed))
          (read_clock-Keeps shadowed) in
      record { taint = k.taint; siblings = k.siblings; clock = k.clock }

  pub accept_drift-KeepsBoth :
      (now : Timespec) (buff : List ℕ) (n : ENode F) → KeepsBoth n (accept_drift now buff n)
  unfolding accept_drift select_clock
  accept_drift-KeepsBoth now buff n =
      let at = judged_at now buff n in
      let judged = judge_offset at in
      let all =
        KeepsBoth-trans n judged (select_by judged.node_state judged)
          (KeepsBoth-trans n at judged (both n at (judged_at-Keeps now buff n))
            (judge_offset-KeepsBoth at))
          (both judged _ (select_by-Keeps judged.node_state judged)) in
      record { taint = all.taint; siblings = all.siblings }

  -- After the offset is judged, the state of the clock stays.
  pub accept_drift_clock :
      (now : Timespec) (buff : List ℕ) (n : ENode F)
      → (accept_drift now buff n).clock_state ≡ (judge_offset (judged_at now buff n)).clock_state
  unfolding accept_drift select_clock
  accept_drift_clock now buff n =
      let judged = judge_offset (judged_at now buff n) in
      (select_by-Keeps judged.node_state judged).clock

  answer_tainted-Keeps :
      (now : Timespec) (xmt_tsc : ℤ) (ip : String) (cport : ℕ) (buff : List ℕ) (q : Peer)
      (n : ENode F)
      → Keeps n (answer_tainted now xmt_tsc ip cport buff q n).0
  unfolding answer_tainted read_clock
  answer_tainted-Keeps now xmt_tsc ip cport buff q n = ground (arith, shadow_tsc_update-Keeps now n)

  pub accept_tainted-Keeps :
      (now : Timespec) (xmt_tsc : ℤ) (ip : String) (cport : ℕ) (buff : List ℕ) (n : ENode F)
      → Keeps n (accept_tainted now xmt_tsc ip cport buff n).0
  unfolding accept_tainted
  accept_tainted-Keeps now xmt_tsc ip cport buff n = by (find (peer ip cport) n.siblings)
    where
      by : (o : Option Peer) → Keeps n (answer_found now xmt_tsc ip cport buff o n).0
      by none = Keeps-refl n
      by (some q) = ground (arith, answer_tainted-Keeps now xmt_tsc ip cport buff q n)

  -- Monitoring.
  check_count-Keeps : (mem : ℤ) (n : ENode F) → Keeps n (check_count mem n)
  unfolding check_count print_state
  check_count-Keeps mem n = ground arith

  self_taint-Keeps : (n : ENode F) → Keeps n (self_taint n)
  unfolding self_taint print_state
  self_taint-Keeps n = ground arith

  count_round-Keeps : (mem : ℤ) (n : ENode F) → Keeps n (count_round mem n)
  unfolding count_round
  count_round-Keeps mem n = ground arith

  pub parts-Keeps : Relates Keeps
  parts-Keeps = record {
    same = Keeps-refl;
    then = Keeps-trans;
    exits = aex_handler-Keeps;
    counts = λ t count n. record { taint = λ h. h; siblings = refl; clock = refl };
    ends = count_round-Keeps;
    taints = self_taint-Keeps;
    checks = check_count-Keeps;
    stops = λ stop n. record { taint = λ h. h; siblings = refl; clock = refl };
    averages = λ average n. record { taint = λ h. h; siblings = refl; clock = refl };
  }

  pub monitor_rdtsc-Keeps :
      (start : ℤ) (ticks : List Tick) (n m : ENode F)
      → monitor_rdtsc start ticks n ≡ some m
      → Keeps n m
  monitor_rdtsc-Keeps = monitor_rdtsc-relates Keeps parts-Keeps
