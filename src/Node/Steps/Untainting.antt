-- ===== src/Node/Steps/Untainting.antt =====
-- The steps of a node and its taint.
use Prim.Native.String.{String}
use tri_ha_rd_higher_resilie.Base.{
  ℕ, ◌≡◌, refl, sym, subst, ◌∙◌, ap, ◌⊎◌, inl, inr, Bool, true, false, arith, List,
}
use mathlib.Core.Bool.{true≢false}
use tri_ha_rd_higher_resilie.Base.Int.{ℤ}
use tri_ha_rd_higher_resilie.Double.{Double}
use tri_ha_rd_higher_resilie.Timespec.{Timespec}
use tri_ha_rd_higher_resilie.Node.{ENode, print_state}
use tri_ha_rd_higher_resilie.Node.Peers.{add_sibling, accept_sibling}
use tri_ha_rd_higher_resilie.Node.Taint.{accept_untainting}
use tri_ha_rd_higher_resilie.Node.Taint.Untaint.{Untaints, accept_untainting-Untaints}
use tri_ha_rd_higher_resilie.Node.Messages.{Inputs, handle_message}
use tri_ha_rd_higher_resilie.Node.Messages.Cases.{handle_message-cases}
use tri_ha_rd_higher_resilie.Node.Tasks.{start_monitor}
use tri_ha_rd_higher_resilie.Node.Steps.{
  Step, exits, starts, monitors, polls, calibrates, asks_authority, receives, adds, serves, shadows,
  asks_siblings, stops,
}
use tri_ha_rd_higher_resilie.Node.Steps.Keeps.{
  Keeps, aex_handler-Keeps, read_clock-Keeps, shadow_tsc_update-Keeps, send_tainted_messages-Keeps,
  accept_drift-KeepsBoth, accept_tainted-Keeps, monitor_rdtsc-Keeps,
}
use tri_ha_rd_higher_resilie.Node.Steps.Runs.{
  monitor_polling-Keeps, end_monitor-Keeps, calibrate-Keeps,
}

module _ {F : Double} where
  -- An untainting message arrives that untaints.
  pub record UntaintedBy (n m : ENode F) : Type 0 where
    pub ip : String
    pub cport : ℕ
    pub buff : List ℕ
    pub after : m ≡ accept_untainting ip cport buff n
    pub untaints : Untaints ip cport buff n

  -- The taint is kept, or the step is an untainting message.
  abbrev IsKeptOr : ENode F → ENode F → Type 0
  IsKeptOr n m =
      (n.tainted ≡ true → m.tainted ≡ true)
      ⊎ ((ip : String) × (cport : ℕ) × (buff : List ℕ) × (m ≡ accept_untainting ip cport buff n))

  handle_message-IsKeptOr :
      (i : Inputs) (ip : String) (cport : ℕ) (buff : List ℕ) (n : ENode F)
      → IsKeptOr n (handle_message i ip cport buff n).0
  unfolding accept_sibling
  handle_message-IsKeptOr i ip cport buff n =
      handle_message-cases (IsKeptOr n) i ip cport buff n (inl (λ h. h)) (inl (λ h. h))
        (inl (accept_tainted-Keeps i.now i.xmt_tsc ip cport buff n).taint)
        (inr (ip, cport, buff, refl)) (λ fits. inl (accept_drift-KeepsBoth i.now buff n).taint)

  add_sibling-taint :
      (failed : Bool) (hostname : String) (port : ℕ) (n : ENode F)
      → (add_sibling failed hostname port n).0.tainted ≡ n.tainted
  unfolding add_sibling
  add_sibling-taint failed hostname port n = ground arith

  start_monitor-taint :
      (now : Timespec) (reading : ℤ) (n : ENode F)
      → (start_monitor now reading n).tainted ≡ n.tainted
  unfolding start_monitor print_state
  start_monitor-taint now reading n = refl

  -- A step that is not the receipt of a message keeps the taint.
  pub Step-cases :
      (n m : ENode F) (P : Step n m → Type 0)
      → ((s : Step n m) → (n.tainted ≡ true → m.tainted ≡ true) → P s)
      → ((i : Inputs) (ip : String) (cport : ℕ) (buff : List ℕ)
            (e : m ≡ (handle_message i ip cport buff n).0)
          → P (receives i ip cport buff e))
      → (s : Step n m) → P s
  Step-cases n m P k r s = by s
    where
      after : (k : ENode F) → m ≡ k → Keeps n k → n.tainted ≡ true → m.tainted ≡ true
      after k e p h = ap (λ x. x.tainted) e ∙ p.taint h

      by : (s : Step n m) → P s
      by (exits t e) = k _ (after _ e (aex_handler-Keeps t n))
      by (starts now reading e) =
          k _ (λ h. ap (λ x. x.tainted) e ∙ start_monitor-taint now reading n ∙ h)
      by (monitors start ticks e) = k _ (monitor_rdtsc-Keeps start ticks n m e).taint
      by (polls threshold start readings e) =
          k _ (monitor_polling-Keeps threshold start readings n m e).taint
      by (calibrates now dummy_ts runs d e) =
          k _ (calibrate-Keeps now dummy_ts runs n (m, d) e).taint
      by (asks_authority now dummy_ts e) = k _ (after _ e (end_monitor-Keeps now dummy_ts n))
      by (receives i ip cport buff e) = r i ip cport buff e
      by (adds failed hostname port e) =
          k _ (λ h. ap (λ x. x.tainted) e ∙ add_sibling-taint failed hostname port n ∙ h)
      by (serves e) = k _ (after _ e (read_clock-Keeps n))
      by (shadows now e) = k _ (after _ e (shadow_tsc_update-Keeps now n))
      by (asks_siblings dummy_ts e) = k _ (after _ e (send_tainted_messages-Keeps dummy_ts n))
      by (stops e) = k _ (λ h. ap (λ x. x.tainted) e ∙ h)

  Step-IsKeptOr : (n m : ENode F) → Step n m → IsKeptOr n m
  Step-IsKeptOr n m =
      Step-cases n m (λ s. IsKeptOr n m) (λ s kept. inl kept)
        (λ i ip cport buff e.
          subst (IsKeptOr n) (sym e) (handle_message-IsKeptOr i ip cport buff n))

  -- Whatever step a node takes, if it is tainted before and not after, then the step is an untainting
  -- message of the expected length from a sibling, and, with its answer recorded, at most one sibling
  -- lacks a consistent answer to the newest round and at most one did not view this node as
  -- consistent.
  pub Step-UntaintedBy :
      (n m : ENode F) → Step n m → n.tainted ≡ true → m.tainted ≡ false → UntaintedBy n m
  Step-UntaintedBy n m s h e = elim (Step-IsKeptOr n m s) [
    | inl kept ↦ absurd (true≢false (sym (kept h) ∙ e))
    | inr (ip, cport, buff, same) ↦ record {
      ip = ip;
      cport = cport;
      buff = buff;
      after = same;
      untaints =
          (accept_untainting-Untaints ip cport buff n h).0 (sym (ap (λ x. x.tainted) same) ∙ e);
    }
  ]
