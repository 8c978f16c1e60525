-- ===== src/Node/Steps/Consistency.antt =====
-- The steps of a node and the agreement of its clock with the time authority.
use Prim.Native.String.{String}
use tri_ha_rd_higher_resilie.Base.{
  ℕ, ◌^◌, ◌≡◌, ◌≢◌, refl, sym, subst, ◌∙◌, ap, ◌⊎◌, inl, inr, Bool, true, arith, List, length,
}
use tri_ha_rd_higher_resilie.Base.Int.{ℤ, pos}
use tri_ha_rd_higher_resilie.Double.{Double, fabs}
use tri_ha_rd_higher_resilie.Timespec.{Timespec}
use tri_ha_rd_higher_resilie.Timespec.Scale.{to_double}
use tri_ha_rd_higher_resilie.Wire.{read_timespec, d_msg_expected_len}
use tri_ha_rd_higher_resilie.Node.{
  ENode, ta_consistent_state, ta_inconsistent_state, freq_state, ta, print_state,
}
use tri_ha_rd_higher_resilie.Node.Clock.{read_clock, shadow_tsc_update}
use tri_ha_rd_higher_resilie.Node.Ntp.{half_offset, judge_offset, accept_drift}
use tri_ha_rd_higher_resilie.Node.Ntp.Machine.{phase, read_phase, judged_at}
use tri_ha_rd_higher_resilie.Node.Peers.{add_sibling, accept_sibling}
use tri_ha_rd_higher_resilie.Node.Taint.Untaint.{accept_untainting_frame}
use tri_ha_rd_higher_resilie.Node.Messages.{Inputs, handle_message}
use tri_ha_rd_higher_resilie.Node.Messages.Cases.{handle_message-cases}
use tri_ha_rd_higher_resilie.Node.Tasks.{start_monitor}
use tri_ha_rd_higher_resilie.Node.Steps.{
  Step, exits, starts, monitors, polls, calibrates, asks_authority, receives, adds, serves, shadows,
  asks_siblings, stops,
}
use tri_ha_rd_higher_resilie.Node.Steps.Keeps.{
  aex_handler-Keeps, read_clock-Keeps, shadow_tsc_update-Keeps, send_tainted_messages-Keeps,
  accept_tainted-Keeps, monitor_rdtsc-Keeps, judged_at-Keeps, accept_drift_clock,
}
use tri_ha_rd_higher_resilie.Node.Steps.Runs.{
  monitor_polling-Keeps, end_monitor-Keeps, calibrate-Keeps,
}

module _ {F : Double} where
  open F use {literal, times, of_ℤ, less_eq}

  -- The offset of a drift message, by its timestamps and the time at which it is read.
  abbrev pub offset_of : Timespec → List ℕ → ENode F → Timespec
  offset_of now buff n =
      half_offset F (read_timespec 17 buff) (read_timespec 33 buff) (read_timespec 49 buff)
        (read_clock (shadow_tsc_update now (print_state ta n))).1

  -- A drift message whose offset is within the drift that the clock may have since the last one:
  -- 15 us for each second between two messages.
  pub record AgreesBy (n m : ENode F) : Type 0 where
    pub now : Timespec
    pub buff : List ℕ
    pub after : m ≡ accept_drift now buff n
    pub expected : length buff ≡ d_msg_expected_len
    pub trained : n.node_state ≢ freq_state
    pub small :
        less_eq
          (fabs F (to_double F (offset_of now buff n)))
          (times (literal 15 6) (of_ℤ (pos (2 ^ n.poll_exponent))))
        ≡ true

  judge_offset_consistent :
      (n : ENode F)
      → n.clock_state ≡ ta_inconsistent_state
      → (judge_offset n).clock_state ≡ ta_consistent_state
      → (n.node_state ≢ freq_state)
        × (less_eq
              (fabs F (to_double F n.clock_offset))
              (times (literal 15 6) (of_ℤ (pos (2 ^ n.poll_exponent))))
            ≡ true)
  unfolding judge_offset print_state
  judge_offset_consistent n h e = ground arith

  judged_at-offset :
      (now : Timespec) (buff : List ℕ) (n : ENode F)
      → (phase (judged_at now buff n) ≡ phase n)
        × ((judged_at now buff n).clock_offset ≡ offset_of now buff n)
  judged_at-offset now buff n = (read_phase now n, refl)

  accept_drift-AgreesBy :
      (now : Timespec) (buff : List ℕ) (n m : ENode F)
      → m ≡ accept_drift now buff n
      → length buff ≡ d_msg_expected_len
      → n.clock_state ≡ ta_inconsistent_state
      → m.clock_state ≡ ta_consistent_state
      → AgreesBy n m
  accept_drift-AgreesBy now buff n m same fits h e =
      let at = judged_at now buff n in
      let (trained, small) =
        judge_offset_consistent at ((judged_at-Keeps now buff n).clock ∙ h)
          (sym (accept_drift_clock now buff n) ∙ sym (ap (λ x. x.clock_state) same) ∙ e) in
      let (phases, offset) = judged_at-offset now buff n in
      record {
        now = now;
        buff = buff;
        after = same;
        expected = fits;
        trained = λ f. trained (ap (λ p. p.node_state) phases ∙ f);
        small =
            subst
              (λ k.
                less_eq (fabs F (to_double F (offset_of now buff n)))
                  (times (literal 15 6) (of_ℤ (pos (2 ^ k))))
                ≡ true)
              (ap (λ p. p.poll_exponent) phases) small;
      }

  -- The state of the clock is kept, or the step is a drift message.
  abbrev IsSameOr : ENode F → ENode F → Type 0
  IsSameOr n m =
      (m.clock_state ≡ n.clock_state)
      ⊎ ((now : Timespec) × (buff : List ℕ) × (length buff ≡ d_msg_expected_len)
          × (m ≡ accept_drift now buff n))

  handle_message-IsSameOr :
      (i : Inputs) (ip : String) (cport : ℕ) (buff : List ℕ) (n : ENode F)
      → IsSameOr n (handle_message i ip cport buff n).0
  unfolding accept_sibling
  handle_message-IsSameOr i ip cport buff n =
      handle_message-cases (IsSameOr n) i ip cport buff n (inl refl) (inl refl)
        (inl (accept_tainted-Keeps i.now i.xmt_tsc ip cport buff n).clock)
        (inl (accept_untainting_frame ip cport buff n).6) (λ fits. inr (i.now, buff, fits, refl))

  add_sibling-clock :
      (failed : Bool) (hostname : String) (port : ℕ) (n : ENode F)
      → (add_sibling failed hostname port n).0.clock_state ≡ n.clock_state
  unfolding add_sibling
  add_sibling-clock failed hostname port n = ground arith

  start_monitor-clock :
      (now : Timespec) (reading : ℤ) (n : ENode F)
      → (start_monitor now reading n).clock_state ≡ n.clock_state
  unfolding start_monitor print_state
  start_monitor-clock now reading n = refl

  Step-IsSameOr : (n m : ENode F) → Step n m → IsSameOr n m
  Step-IsSameOr n m s = by s
    where
      after : (k : ENode F) → m ≡ k → k.clock_state ≡ n.clock_state → IsSameOr n m
      after k e p = inl (ap (λ x. x.clock_state) e ∙ p)

      by : Step n m → IsSameOr n m
      by (exits t e) = after _ e (aex_handler-Keeps t n).clock
      by (starts now reading e) = after _ e (start_monitor-clock now reading n)
      by (monitors start ticks e) = inl (monitor_rdtsc-Keeps start ticks n m e).clock
      by (polls threshold start readings e) =
          inl (monitor_polling-Keeps threshold start readings n m e).clock
      by (calibrates now dummy_ts runs d e) =
          inl (calibrate-Keeps now dummy_ts runs n (m, d) e).clock
      by (asks_authority now dummy_ts e) = after _ e (end_monitor-Keeps now dummy_ts n).clock
      by (receives i ip cport buff e) =
          subst (IsSameOr n) (sym e) (handle_message-IsSameOr i ip cport buff n)
      by (adds failed hostname port e) = after _ e (add_sibling-clock failed hostname port n)
      by (serves e) = after _ e (read_clock-Keeps n).clock
      by (shadows now e) = after _ e (shadow_tsc_update-Keeps now n).clock
      by (asks_siblings dummy_ts e) = after _ e (send_tainted_messages-Keeps dummy_ts n).clock
      by (stops e) = after _ e refl

  -- Whatever step a node takes, if its clock is inconsistent with the TA before and consistent after,
  -- then the step is a drift message of the expected length, the node is not in FREQ, and the offset
  -- computed from the message is at most 15 us for each second of the polling interval.
  pub Step-AgreesBy :
      (n m : ENode F)
      → Step n m
      → n.clock_state ≡ ta_inconsistent_state
      → m.clock_state ≡ ta_consistent_state
      → AgreesBy n m
  Step-AgreesBy n m s h e = elim (Step-IsSameOr n m s) [
    | inl same ↦ absurd (ground (arith, same, h, e))
    | inr (now, buff, fits, after) ↦ accept_drift-AgreesBy now buff n m after fits h e
  ]
