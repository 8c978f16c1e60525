-- ===== src/Node/Ntp/Machine.antt =====
-- The NTP state machine: which states follow which, and how long a node can stay in one.
use tri_ha_rd_higher_resilie.Base.{
  ℕ, ◌+◌, ◌*◌, ◌^◌, ◌≤◌, ◌<◌, ◌≡◌, ◌≢◌, refl, sym, ◌∙◌, subst, ◌⊎◌, false, arith, List, [], ◌∷◌,
  length,
}
use tri_ha_rd_higher_resilie.Double.{Double}
use tri_ha_rd_higher_resilie.Timespec.{Timespec}
use tri_ha_rd_higher_resilie.Wire.{read_timespec}
use tri_ha_rd_higher_resilie.Node.{
  ENode, NodeState, sync_state, spik_state, freq_state, print_state, step_out_threshold_s, ta,
}
use tri_ha_rd_higher_resilie.Node.Clock.{read_clock, shadow_tsc_update, discipline_clock}
use tri_ha_rd_higher_resilie.Node.Ntp.{
  select_sync, select_spik, select_freq, select_by, select_clock, judge_offset, half_offset,
  accept_drift,
}
use tri_ha_rd_higher_resilie.Node.Ntp.Phase.{
  Follows, Phase, Judged, Selected, Lingers, Selected-Follows, Selected-Lingers, in_sync, in_spik,
  out_spik, enters, in_freq, out_freq,
}

module _ {F : Double} where
  abbrev pub phase : ENode F → Phase
  phase n = record {
    node_state = n.node_state;
    poll_exponent = n.poll_exponent;
    pass_count = n.pass_count;
    enter_freq = n.enter_freq;
  }

  read_clock-phase : (n : ENode F) → phase (read_clock n).0 ≡ phase n
  unfolding read_clock
  read_clock-phase n = refl

  shadow_tsc_update-phase :
      (now : Timespec) (n : ENode F) → phase (shadow_tsc_update now n) ≡ phase n
  unfolding shadow_tsc_update
  shadow_tsc_update-phase now n = ground arith

  discipline_clock-phase : (n : ENode F) → phase (discipline_clock n) ≡ phase n
  unfolding discipline_clock
  discipline_clock-phase n = ground arith

  judge_offset-Judged : (n : ENode F) → Judged (phase n) (phase (judge_offset n))
  unfolding judge_offset print_state
  judge_offset-Judged n = ground arith

  select_sync-phase : (n : ENode F) → phase (select_sync n) ≡ phase n
  unfolding select_sync
  select_sync-phase n = ground (arith, discipline_clock-phase n)

  select_spik-Selected :
      (n : ENode F) → n.node_state ≡ spik_state → Selected (phase n) (phase (select_spik n))
  unfolding select_spik
  select_spik-Selected n h = grind (arith, in_spik, out_spik)

  select_freq-Selected :
      (n : ENode F) → n.node_state ≡ freq_state → Selected (phase n) (phase (select_freq n))
  unfolding select_freq
  select_freq-Selected n h = grind (arith, enters, in_freq, out_freq)

  select_by-Selected :
      (s : NodeState) (n : ENode F) → n.node_state ≡ s → Selected (phase n) (phase (select_by s n))
  select_by-Selected sync_state n h = in_sync h (select_sync-phase n)
  select_by-Selected spik_state n h = select_spik-Selected n h
  select_by-Selected freq_state n h = select_freq-Selected n h

  -- The state in which `case 'D'` judges its offset.
  abbrev pub judged_at : Timespec → List ℕ → ENode F → ENode F
  judged_at now buff n =
      let (read, recv_ts) = read_clock (shadow_tsc_update now (print_state ta n)) in
      record read {
        clock_offset =
            half_offset F (read_timespec 17 buff) (read_timespec 33 buff) (read_timespec 49 buff)
              recv_ts;
      }

  judged_by : Timespec → List ℕ → ENode F → ENode F
  judged_by now buff n = judge_offset (judged_at now buff n)

  pub read_phase :
      (now : Timespec) (n : ENode F)
      → phase (read_clock (shadow_tsc_update now (print_state ta n))).0 ≡ phase n
  unfolding print_state
  read_phase now n =
      read_clock-phase (shadow_tsc_update now (print_state ta n))
      ∙ shadow_tsc_update-phase now (print_state ta n)

  accept_drift-phase :
      (now : Timespec) (buff : List ℕ) (n : ENode F)
      → Judged (phase n) (phase (judged_by now buff n))
        × Selected (phase (judged_by now buff n)) (phase (accept_drift now buff n))
  unfolding accept_drift judged_by select_clock
  accept_drift-phase now buff n = (
    subst (λ p. Judged p (phase (judged_by now buff n))) (read_phase now n) (judge_offset-Judged _),
    select_by-Selected _ (judged_by now buff n) refl,
  )

  -- A message of the TA keeps the state of the machine, or leads from SYNC to SPIK, from SPIK to SYNC
  -- or from FREQ to SYNC; none leads into FREQ.
  pub accept_drift-Follows :
      (now : Timespec) (buff : List ℕ) (n : ENode F)
      → Follows n.node_state (accept_drift now buff n).node_state
  accept_drift-Follows now buff n =
      let (judging, selecting) = accept_drift-phase now buff n in
      Selected-Follows (phase n) _ (phase (accept_drift now buff n)) judging selecting

  -- The node is in state `s` after each message of the list.
  abbrev pub StaysIn : NodeState → List (Timespec × List ℕ) → ENode F → Type 0
  StaysIn s [] n = Unit {0}
  StaysIn s ((now, buff) ∷ ms) n =
      ((accept_drift now buff n).node_state ≡ s) × StaysIn s ms (accept_drift now buff n)

  -- No training begins in state `s`.
  abbrev IsUnderWay : NodeState → ENode F → Type 0
  IsUnderWay s n = (s ≡ spik_state) ⊎ (n.enter_freq ≡ false)

  module _ (s : NodeState) (h : s ≢ sync_state) where
    message-Lingers :
        (now : Timespec) (buff : List ℕ) (n : ENode F)
        → n.node_state ≡ s
        → (accept_drift now buff n).node_state ≡ s
        → Lingers (phase n) (phase (accept_drift now buff n))
    message-Lingers now buff n e t =
        let (judging, selecting) = accept_drift-phase now buff n in
        Selected-Lingers (phase n) _ (phase (accept_drift now buff n)) (λ k. h (sym e ∙ k))
          (t ∙ sym e) judging selecting

    rounds_left :
        (ms : List (Timespec × List ℕ)) (n : ENode F)
        → n.node_state ≡ s
        → IsUnderWay s n
        → n.pass_count < step_out_threshold_s
        → StaysIn s ms n
        → n.pass_count + length ms * 2 ^ n.poll_exponent < step_out_threshold_s
    rounds_left [] n e u p t = omega arith
    rounds_left ((now, buff) ∷ ms) n e u p t =
        ground
          (arith, message-Lingers now buff n e t.0, rounds_left ms (accept_drift now buff n) t.0)

    rounds_under_way :
        (ms : List (Timespec × List ℕ)) (n : ENode F)
        → n.node_state ≡ s
        → IsUnderWay s n
        → StaysIn s ms n
        → length ms * 2 ^ n.poll_exponent < step_out_threshold_s
    rounds_under_way [] n e u t = omega arith
    rounds_under_way ((now, buff) ∷ ms) n e u t =
        ground
          (arith, message-Lingers now buff n e t.0, rounds_left ms (accept_drift now buff n) t.0)

    rounds_bound :
        (ms : List (Timespec × List ℕ)) (n : ENode F)
        → n.node_state ≡ s
        → StaysIn s ms n
        → length ms * 2 ^ n.poll_exponent < step_out_threshold_s + 2 ^ n.poll_exponent
    rounds_bound [] n e t = omega arith
    rounds_bound ((now, buff) ∷ ms) n e t = ground (
      arith,
      message-Lingers now buff n e t.0,
      rounds_left ms (accept_drift now buff n) t.0,
      rounds_under_way ms (accept_drift now buff n) t.0,
    )

  -- A node leaves SPIK and FREQ in time: it cannot be in one of them after each of so many messages
  -- of the TA that their number times 2 ^ poll_exponent reaches 100 + 2 ^ poll_exponent.
  pub accept_drift_leaves :
      (s : NodeState) (ms : List (Timespec × List ℕ)) (n : ENode F)
      → s ≢ sync_state
      → n.node_state ≡ s
      → step_out_threshold_s + 2 ^ n.poll_exponent ≤ length ms * 2 ^ n.poll_exponent
      → ¬ StaysIn s ms n
  accept_drift_leaves s ms n h e enough t = omega (arith, rounds_bound s h ms n e t)
