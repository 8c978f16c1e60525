-- ===== src/Node/Steps/Timekeeping.antt =====
-- The reference time of a started node, after any steps.
use Prim.Native.String.{String}
use tri_ha_rd_higher_resilie.Base.{ℕ, ◌≡◌, sym, subst, List}
use tri_ha_rd_higher_resilie.Base.Int.{ℤ}
use tri_ha_rd_higher_resilie.Double.{Double}
use tri_ha_rd_higher_resilie.Timespec.{Timespec}
use tri_ha_rd_higher_resilie.Timespec.Nanos.{IsStandard}
use tri_ha_rd_higher_resilie.Node.{ENode}
use tri_ha_rd_higher_resilie.Node.Messages.{Inputs, handle_message}
use tri_ha_rd_higher_resilie.Node.Messages.Cases.{handle_message-cases}
use tri_ha_rd_higher_resilie.Node.Tasks.{start_monitor}
use tri_ha_rd_higher_resilie.Node.Steps.{
  Step, exits, starts, monitors, polls, calibrates, asks_authority, receives, adds, serves, shadows,
  asks_siblings, stops,
}
use tri_ha_rd_higher_resilie.Node.Steps.Rounds.{monitor_rdtsc-relates}
use tri_ha_rd_higher_resilie.Node.Steps.Clocks.{
  SameTime, parts-SameTime, aex_handler-SameTime, monitor_polling-SameTime,
  accept_untainting-SameTime, add_sibling-SameTime, accept_sibling-SameTime,
}
use tri_ha_rd_higher_resilie.Node.Steps.Standard.{
  StaysStandard, same_stays, read_clock-IsStandard, shadow_tsc_update-StaysStandard,
  send_tainted_messages-IsStandard, accept_drift-IsStandard, accept_tainted-StaysStandard,
  end_monitor-StaysStandard, calibrate-IsStandard, start_monitor-time,
}
use tri_ha_rd_higher_resilie.Node.Steps.Replays.{Steps, here, next}

module _ {F : Double} where
  handle_message-StaysStandard :
      (i : Inputs) (ip : String) (cport : ℕ) (buff : List ℕ) (n : ENode F)
      → StaysStandard n (handle_message i ip cport buff n).0
  handle_message-StaysStandard i ip cport buff n =
      handle_message-cases (StaysStandard n) i ip cport buff n (λ h. h)
        (same_stays _ n.ts_ref (accept_sibling-SameTime ip cport n))
        (accept_tainted-StaysStandard i.now i.xmt_tsc ip cport buff n)
        (same_stays _ n.ts_ref (accept_untainting-SameTime ip cport buff n))
        (λ fits h. accept_drift-IsStandard i.now buff n)

  -- `timespec_get` returns a standard time, in the steps that keep what it returns.
  abbrev pub OsTime : {n m : ENode F} → Step n m → Type 0
  OsTime (starts now reading e) = IsStandard now
  OsTime (shadows now e) = IsStandard now
  OsTime _ = Unit

  abbrev pub OsTimes : {n m : ENode F} → Steps n m → Type 0
  OsTimes here = Unit
  OsTimes (next before s) = OsTimes before × OsTime s

  Step-StaysStandard : (n m : ENode F) (s : Step n m) → OsTime s → StaysStandard n m
  Step-StaysStandard n m s os h = by s os
    where
      to : (k : ENode F) → m ≡ k → IsStandard k.ts_ref → IsStandard m.ts_ref
      to k e p = subst (λ x. IsStandard x.ts_ref) (sym e) p

      by : (s : Step n m) → OsTime s → IsStandard m.ts_ref
      by (exits t e) os = to _ e (same_stays _ n.ts_ref (aex_handler-SameTime t n) h)
      by (starts now reading e) os =
          to _ e (subst IsStandard (sym (start_monitor-time now reading n)) os)
      by (monitors start ticks e) os =
          same_stays m.ts_ref n.ts_ref
            (monitor_rdtsc-relates SameTime parts-SameTime start ticks n m e) h
      by (polls threshold start readings e) os =
          same_stays m.ts_ref n.ts_ref (monitor_polling-SameTime threshold start readings n m e) h
      by (calibrates now dummy_ts runs d e) os = calibrate-IsStandard now dummy_ts runs n (m, d) e
      by (asks_authority now dummy_ts e) os = to _ e (end_monitor-StaysStandard now dummy_ts n h)
      by (receives i ip cport buff e) os = to _ e (handle_message-StaysStandard i ip cport buff n h)
      by (adds failed hostname port e) os =
          to _ e (same_stays _ n.ts_ref (add_sibling-SameTime failed hostname port n) h)
      by (serves e) os = to _ e (read_clock-IsStandard n)
      by (shadows now e) os = to _ e (shadow_tsc_update-StaysStandard now n os h)
      by (asks_siblings dummy_ts e) os = to _ e (send_tainted_messages-IsStandard dummy_ts n)
      by (stops e) os = to _ e h

  Steps-StaysStandard : (n m : ENode F) (steps : Steps n m) → OsTimes steps → StaysStandard n m
  Steps-StaysStandard n _ here os h = h
  Steps-StaysStandard n k (next {m} before s) os h =
      Step-StaysStandard m k s os.1 (Steps-StaysStandard n m before os.0 h)

  -- If the times of the OS are standard, with 0 to 999999999 nanoseconds, then after the start of the
  -- monitoring and any further steps the reference time of the node is standard too.
  pub Steps-IsStandard :
      (now : Timespec) (reading : ℤ) (n m : ENode F) (steps : Steps (start_monitor now reading n) m)
      → IsStandard now
      → OsTimes steps
      → IsStandard m.ts_ref
  Steps-IsStandard now reading n m steps os later =
      Steps-StaysStandard (start_monitor now reading n) m steps later
        (subst IsStandard (sym (start_monitor-time now reading n)) os)
