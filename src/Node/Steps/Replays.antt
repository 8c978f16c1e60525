-- ===== src/Node/Steps/Replays.antt =====
-- The rounds that the siblings of a node have answered, over its steps.
use Prim.Native.String.{String}
use tri_ha_rd_higher_resilie.Base.{
  ℕ, ◌≡◌, refl, sym, subst, ◌∙◌, ap, inl, inr, Bool, arith, List, Option, none, some, ◌==◌, length,
  Bool-cases,
}
use tri_ha_rd_higher_resilie.Base.Int.{◌≤ℤ◌, ◌<ℤ◌, ltb_ℤ, ltb_ℤ→lt}
use tri_ha_rd_higher_resilie.Double.{Double}
use tri_ha_rd_higher_resilie.Wire.{read_i64, u_msg_expected_len}
use tri_ha_rd_higher_resilie.Node.{ENode, Peer, peer, enode, print_state}
use tri_ha_rd_higher_resilie.Node.Peers.{find, add_sibling, accept_sibling}
use tri_ha_rd_higher_resilie.Node.Peers.Advancing.{
  Advances, Advances-refl, Advances-trans, Advances-emplace, Advances-replace, find-Advances,
}
use tri_ha_rd_higher_resilie.Node.Taint.{accept_untainting, untaint_by, record_answer}
use tri_ha_rd_higher_resilie.Node.Taint.Untaint.{accept_untainting_replay}
use tri_ha_rd_higher_resilie.Node.Messages.{Inputs, handle_message}
use tri_ha_rd_higher_resilie.Node.Messages.Cases.{handle_message-cases}
use tri_ha_rd_higher_resilie.Node.Steps.{
  Step, exits, starts, monitors, polls, calibrates, asks_authority, receives, adds, serves, shadows,
  asks_siblings, stops,
}
use tri_ha_rd_higher_resilie.Node.Steps.Keeps.{
  Keeps, aex_handler-Keeps, read_clock-Keeps, shadow_tsc_update-Keeps, send_tainted_messages-Keeps,
  accept_drift-KeepsBoth, accept_tainted-Keeps, monitor_rdtsc-Keeps,
}
use tri_ha_rd_higher_resilie.Node.Steps.Runs.{
  monitor_polling-Keeps, end_monitor-Keeps, calibrate-Keeps,
}
use tri_ha_rd_higher_resilie.Node.Steps.Siblings.{start_monitor-siblings, untaint_by-siblings}

kept_list : (l kept : List Peer) → l ≡ kept → Advances kept l
kept_list l kept e = subst (Advances kept) (sym e) (Advances-refl kept)

module _ {F : Double} where
  -- Any number of steps.
  pub data Steps (n : ENode F) : ENode F → Type 0 where
    here : Steps n n
    next : {m k : ENode F} → Steps n m → Step m k → Steps n k

  record_answer-Advances :
      (p q : Peer) (buff : List ℕ) (n : ENode F)
      → find p n.siblings ≡ some q
      → Advances n.siblings (record_answer buff q n).siblings
  unfolding record_answer
  record_answer-Advances p q buff n found =
      elim (Bool-cases (ltb_ℤ q.last_ts_is_consistent.0 (read_i64 7 buff))) [
        | inr old ↦ rw old (Advances-refl n.siblings)
        | inl new ↦
            let later : q.last_ts_is_consistent.0 <ℤ read_i64 7 buff =
              ltb_ℤ→lt q.last_ts_is_consistent.0 (read_i64 7 buff) new in
            rw new (Advances-replace p q _ n.siblings found (refl, refl) (omega arith))
      ]

  untaint_by-none : (buff : List ℕ) (n : ENode F) → untaint_by buff none n ≡ n
  unfolding untaint_by
  untaint_by-none buff n = refl

  met_sibling :
      (ip : String) (cport : ℕ) (n : ENode F)
      → Advances n.siblings (accept_sibling ip cport n).siblings
  unfolding accept_sibling
  met_sibling ip cport n = Advances-emplace (peer ip cport) n.siblings

  added_sibling :
      (failed : Bool) (hostname : String) (port : ℕ) (n : ENode F)
      → Advances n.siblings (add_sibling failed hostname port n).0.siblings
  unfolding add_sibling
  added_sibling failed hostname port n =
      ground (arith, Advances-emplace (peer hostname port) n.siblings, Advances-refl n.siblings)

  untainting_known :
      (p : Peer) (o : Option Peer) (buff : List ℕ) (n : ENode F)
      → find p n.siblings ≡ o
      → Advances n.siblings (untaint_by buff o n).siblings
  untainting_known p none buff n found =
      subst (λ m. Advances n.siblings m.siblings) (sym (untaint_by-none buff n))
        (Advances-refl n.siblings)
  untainting_known p (some q) buff n found =
      subst (Advances n.siblings) (sym (untaint_by-siblings buff q n))
        (record_answer-Advances p q buff n found)

  accept_untainting-Advances :
      (ip : String) (cport : ℕ) (buff : List ℕ) (n : ENode F)
      → Advances n.siblings (accept_untainting ip cport buff n).siblings
  unfolding accept_untainting print_state
  accept_untainting-Advances ip cport buff n =
      elim (Bool-cases (length buff == u_msg_expected_len)) [
        | inr other ↦ rw other (Advances-refl n.siblings)
        | inl fits ↦ rw fits (untainting_known (peer ip cport) _ buff (print_state enode n) refl)
      ]

  handle_message-Advances :
      (i : Inputs) (ip : String) (cport : ℕ) (buff : List ℕ) (n : ENode F)
      → Advances n.siblings (handle_message i ip cport buff n).0.siblings
  handle_message-Advances i ip cport buff n =
      handle_message-cases (λ m. Advances n.siblings m.siblings) i ip cport buff n
        (Advances-refl n.siblings) (met_sibling ip cport n)
        (kept_list _ n.siblings (accept_tainted-Keeps i.now i.xmt_tsc ip cport buff n).siblings)
        (accept_untainting-Advances ip cport buff n)
        (λ fits. kept_list _ n.siblings (accept_drift-KeepsBoth i.now buff n).siblings)

  Step-Advances : (n m : ENode F) → Step n m → Advances n.siblings m.siblings
  Step-Advances n m s = by s
    where
      kept : m.siblings ≡ n.siblings → Advances n.siblings m.siblings
      kept e = kept_list m.siblings n.siblings e

      after : (k : ENode F) → m ≡ k → Keeps n k → Advances n.siblings m.siblings
      after k e p = kept (ap (λ x. x.siblings) e ∙ p.siblings)

      to : (k : ENode F) → m ≡ k → Advances n.siblings k.siblings → Advances n.siblings m.siblings
      to k e p = subst (λ x. Advances n.siblings x.siblings) (sym e) p

      by : Step n m → Advances n.siblings m.siblings
      by (exits t e) = after _ e (aex_handler-Keeps t n)
      by (starts now reading e) =
          kept (ap (λ x. x.siblings) e ∙ start_monitor-siblings now reading n)
      by (monitors start ticks e) = kept (monitor_rdtsc-Keeps start ticks n m e).siblings
      by (polls threshold start readings e) =
          kept (monitor_polling-Keeps threshold start readings n m e).siblings
      by (calibrates now dummy_ts runs d e) =
          kept (calibrate-Keeps now dummy_ts runs n (m, d) e).siblings
      by (asks_authority now dummy_ts e) = after _ e (end_monitor-Keeps now dummy_ts n)
      by (receives i ip cport buff e) = to _ e (handle_message-Advances i ip cport buff n)
      by (adds failed hostname port e) = to _ e (added_sibling failed hostname port n)
      by (serves e) = after _ e (read_clock-Keeps n)
      by (shadows now e) = after _ e (shadow_tsc_update-Keeps now n)
      by (asks_siblings dummy_ts e) = after _ e (send_tainted_messages-Keeps dummy_ts n)
      by (stops e) = kept (ap (λ x. x.siblings) e)

  -- Whatever steps a node takes, no sibling is removed from its list or moved in it, and the round of
  -- a sibling's last recorded answer never goes back.
  pub Steps-Advances : (n m : ENode F) → Steps n m → Advances n.siblings m.siblings
  Steps-Advances n _ here = Advances-refl n.siblings
  Steps-Advances n k (next {m} before s) =
      Advances-trans n.siblings m.siblings k.siblings (Steps-Advances n m before)
        (Step-Advances m k s)

  -- Once an answer of a sibling is recorded, then after any further steps an answer that it sends, or
  -- that is replayed in its name, to that round or an older one is not recorded.
  pub Steps-Rejects :
      (n m : ENode F) (ip : String) (cport : ℕ) (q : Peer) (buff : List ℕ)
      → Steps n m
      → find (peer ip cport) n.siblings ≡ some q
      → read_i64 7 buff ≤ℤ q.last_ts_is_consistent.0
      → (accept_untainting ip cport buff m).siblings ≡ m.siblings
  Steps-Rejects n m ip cport q buff steps found old =
      let (r, still, newer) =
        find-Advances (peer ip cport) q n.siblings m.siblings (Steps-Advances n m steps) found in
      accept_untainting_replay ip cport buff m r still (omega arith)
