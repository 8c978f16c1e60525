-- ===== src/Node/Steps/Siblings.antt =====
-- The addresses of the siblings of a reachable node.
use Prim.Native.String.{String}
use tri_ha_rd_higher_resilie.Base.{
  ℕ, ◌≡◌, refl, sym, subst, ◌∙◌, ap, Bool, true, false, arith, List, [], Option, none, some, ◌==◌,
  length, not, if◌then◌else◌,
}
use tri_ha_rd_higher_resilie.Base.Int.{ℤ}
use tri_ha_rd_higher_resilie.Double.{Double}
use tri_ha_rd_higher_resilie.Timespec.{Timespec, lt}
use tri_ha_rd_higher_resilie.Wire.{read_i64, read_bool, u_msg_expected_len}
use tri_ha_rd_higher_resilie.Node.{
  ENode, Peer, peer, enode, print_state, peer_consistency_drift_threshold,
}
use tri_ha_rd_higher_resilie.Node.Peers.{find, add_sibling}
use tri_ha_rd_higher_resilie.Node.Peers.Distinct.{Distinct, replace-Distinct, siblings-Distinct}
use tri_ha_rd_higher_resilie.Node.Taint.{
  accept_untainting, untaint_by, record_answer, peer_clock_offset,
}
use tri_ha_rd_higher_resilie.Node.Messages.{Inputs, handle_message}
use tri_ha_rd_higher_resilie.Node.Messages.Cases.{handle_message-cases}
use tri_ha_rd_higher_resilie.Node.Tasks.{construct, start_monitor}
use tri_ha_rd_higher_resilie.Node.Steps.{
  Step, exits, starts, monitors, polls, calibrates, asks_authority, receives, adds, serves, shadows,
  asks_siblings, stops, Reachable, created, follows,
}
use tri_ha_rd_higher_resilie.Node.Steps.Keeps.{
  Keeps, aex_handler-Keeps, read_clock-Keeps, shadow_tsc_update-Keeps, send_tainted_messages-Keeps,
  accept_drift-KeepsBoth, accept_tainted-Keeps, monitor_rdtsc-Keeps,
}
use tri_ha_rd_higher_resilie.Node.Steps.Runs.{
  monitor_polling-Keeps, end_monitor-Keeps, calibrate-Keeps,
}

module _ {F : Double} where
  record_answer-Distinct :
      (buff : List ℕ) (q : Peer) (n : ENode F)
      → Distinct n.siblings
      → Distinct (record_answer buff q n).siblings
  unfolding record_answer
  record_answer-Distinct buff q n d =
      let consistent = lt (peer_clock_offset buff n) peer_consistency_drift_threshold in
      let answered = record q {
        last_ts_is_consistent = (read_i64 7 buff, consistent);
        views_as_consistent = read_bool 15 buff;
      } in
      ground (arith, replace-Distinct q answered n.siblings (refl, refl) d)

  pub untaint_by-siblings :
      (buff : List ℕ) (q : Peer) (n : ENode F)
      → (untaint_by buff (some q) n).siblings ≡ (record_answer buff q n).siblings
  unfolding untaint_by print_state
  untaint_by-siblings buff q n = ground arith

  untaint_by-none-Distinct :
      (buff : List ℕ) (n : ENode F)
      → Distinct n.siblings
      → Distinct (untaint_by buff none n).siblings
  unfolding untaint_by
  untaint_by-none-Distinct buff n d = d

  if_Distinct :
      (b : Bool) (x y : ENode F)
      → Distinct x.siblings
      → Distinct y.siblings
      → Distinct (if not b then x else y).siblings
  if_Distinct true x y p q = q
  if_Distinct false x y p q = p

  accept_untainting-Distinct :
      (ip : String) (cport : ℕ) (buff : List ℕ) (n : ENode F)
      → Distinct n.siblings
      → Distinct (accept_untainting ip cport buff n).siblings
  unfolding accept_untainting print_state
  accept_untainting-Distinct ip cport buff n d =
      if_Distinct (length buff == u_msg_expected_len) n _ d (by (find (peer ip cport) n.siblings))
    where
      by : (o : Option Peer) → Distinct (untaint_by buff o (print_state enode n)).siblings
      by none = untaint_by-none-Distinct buff (print_state enode n) d
      by (some q) =
          subst Distinct (sym (untaint_by-siblings buff q (print_state enode n)))
            (record_answer-Distinct buff q (print_state enode n) d)

  handle_message-Distinct :
      (i : Inputs) (ip : String) (cport : ℕ) (buff : List ℕ) (n : ENode F)
      → Distinct n.siblings
      → Distinct (handle_message i ip cport buff n).0.siblings
  handle_message-Distinct i ip cport buff n d =
      handle_message-cases (λ m. Distinct m.siblings) i ip cport buff n d
        (siblings-Distinct false ip cport n d).1
        (by_siblings (accept_tainted-Keeps i.now i.xmt_tsc ip cport buff n))
        (accept_untainting-Distinct ip cport buff n d)
        (λ fits. subst Distinct (sym (accept_drift-KeepsBoth i.now buff n).siblings) d)
    where
      by_siblings : {m : ENode F} → Keeps n m → Distinct m.siblings
      by_siblings k = subst Distinct (sym k.siblings) d

  add_sibling-Distinct :
      (failed : Bool) (hostname : String) (port : ℕ) (n : ENode F)
      → Distinct n.siblings
      → Distinct (add_sibling failed hostname port n).0.siblings
  add_sibling-Distinct failed hostname port n d = (siblings-Distinct failed hostname port n d).0

  pub start_monitor-siblings :
      (now : Timespec) (reading : ℤ) (n : ENode F)
      → (start_monitor now reading n).siblings ≡ n.siblings
  unfolding start_monitor print_state
  start_monitor-siblings now reading n = refl

  pub Step-Distinct : (n m : ENode F) → Step n m → Distinct n.siblings → Distinct m.siblings
  Step-Distinct n m s d = by s
    where
      kept : m.siblings ≡ n.siblings → Distinct m.siblings
      kept e = subst Distinct (sym e) d

      after : (k : ENode F) → m ≡ k → Keeps n k → Distinct m.siblings
      after k e p = kept (ap (λ x. x.siblings) e ∙ p.siblings)

      to : (k : ENode F) → m ≡ k → Distinct k.siblings → Distinct m.siblings
      to k e p = subst (λ x. Distinct x.siblings) (sym e) p

      by : Step n m → Distinct m.siblings
      by (exits t e) = after _ e (aex_handler-Keeps t n)
      by (starts now reading e) =
          kept (ap (λ x. x.siblings) e ∙ start_monitor-siblings now reading n)
      by (monitors start ticks e) = kept (monitor_rdtsc-Keeps start ticks n m e).siblings
      by (polls threshold start readings e) =
          kept (monitor_polling-Keeps threshold start readings n m e).siblings
      by (calibrates now dummy_ts runs d e) =
          kept (calibrate-Keeps now dummy_ts runs n (m, d) e).siblings
      by (asks_authority now dummy_ts e) = after _ e (end_monitor-Keeps now dummy_ts n)
      by (receives i ip cport buff e) = to _ e (handle_message-Distinct i ip cport buff n d)
      by (adds failed hostname port e) = to _ e (add_sibling-Distinct failed hostname port n d)
      by (serves e) = after _ e (read_clock-Keeps n)
      by (shadows now e) = after _ e (shadow_tsc_update-Keeps now n)
      by (asks_siblings dummy_ts e) = after _ e (send_tainted_messages-Keeps dummy_ts n)
      by (stops e) = kept (ap (λ x. x.siblings) e)

  construct-siblings :
      (memory : ENode F) (port : ℕ) (tsc_freq shadow_tsc_freq : F.Value) (sleep_attack_ms : ℤ)
      → (construct memory port tsc_freq shadow_tsc_freq sleep_attack_ms).siblings ≡ []
  unfolding construct
  construct-siblings memory port tsc_freq shadow_tsc_freq sleep_attack_ms = refl

  -- In whatever order its threads, its exits and its messages act on a new node, the addresses of its
  -- siblings stay pairwise different.
  pub Reachable-Distinct : (n : ENode F) → Reachable n → Distinct n.siblings
  Reachable-Distinct n (created _ memory port tsc_freq shadow_tsc_freq sleep_attack_ms e) =
      subst Distinct
        (sym (
          ap (λ x. x.siblings) e
          ∙ construct-siblings memory port tsc_freq shadow_tsc_freq sleep_attack_ms))
        tt
  Reachable-Distinct n (follows before _ r s) =
      Step-Distinct before n s (Reachable-Distinct before r)
