-- ===== src/Node/Steps/Order.antt =====
-- The steps of a node do not depend on the order in which it keeps its siblings.
use mathlib.Core.List.{Permᴰ}
use mathlib.Core.Option.{some-injective}
use Prim.Native.String.{String}
use tri_ha_rd_higher_resilie.Base.{
  ℕ, ◌≡◌, refl, sym, ap, subst, ◌∙◌, Bool, true, inl, inr, ◌||◌, List, Option, some, Bool-cases,
}
use tri_ha_rd_higher_resilie.Base.Int.{ℤ}
use tri_ha_rd_higher_resilie.Double.{Double}
use tri_ha_rd_higher_resilie.Timespec.{Timespec}
use tri_ha_rd_higher_resilie.Node.{ENode, Peer, peer, Datagram, print_state}
use tri_ha_rd_higher_resilie.Node.Clock.{read_clock, shadow_tsc_update}
use tri_ha_rd_higher_resilie.Node.Messages.{handle_message}
use tri_ha_rd_higher_resilie.Node.Messages.Order.{handle_message-Unordered}
use tri_ha_rd_higher_resilie.Node.Monitor.{
  Run, monitor_rdtsc, monitor_polling, calibrate, end_monitor,
}
use tri_ha_rd_higher_resilie.Node.Monitor.Siblings.{
  IgnoresIf, if_done, if_sent, aex_handler-Ignores, monitor_rdtsc-Ignores, monitor_polling-Ignores,
  calibrate-Ignores, end_monitor-Ignores,
}
use tri_ha_rd_higher_resilie.Node.Ntp.Siblings.{with_siblings, Ignores, shadow_tsc_update-Ignores}
use tri_ha_rd_higher_resilie.Node.Peers.{find, is_found, is_self, add_sibling}
use tri_ha_rd_higher_resilie.Node.Peers.Distinct.{Distinct}
use tri_ha_rd_higher_resilie.Node.Peers.Order.{find-order, emplace-order}
use tri_ha_rd_higher_resilie.Node.Taint.{aex_handler, send_tainted_messages}
use tri_ha_rd_higher_resilie.Node.Taint.Order.{Reordered}
use tri_ha_rd_higher_resilie.Node.Tasks.{start_monitor}
use tri_ha_rd_higher_resilie.Node.Steps.{
  Step, exits, starts, monitors, polls, calibrates, asks_authority, receives, adds, serves, shadows,
  asks_siblings, stops,
}

module _ {F : Double} (rs : List Peer) where
  start_monitor-Ignores :
      (now : Timespec) (reading : ℤ) → Ignores {F = F} rs (start_monitor now reading)
  unfolding start_monitor print_state
  start_monitor-Ignores now reading n = refl

  read_clock-Ignores : Ignores {F = F} rs (λ n. (read_clock n).0)
  unfolding read_clock
  read_clock-Ignores n = refl

  send_tainted_messages-Ignores :
      (dummy_ts : Timespec) → Ignores {F = F} rs (λ n. (send_tainted_messages dummy_ts n).0)
  unfolding send_tainted_messages read_clock
  send_tainted_messages-Ignores dummy_ts n = refl

module _ {F : Double} (n : ENode F) (qs : List Peer) (s : Permᴰ n.siblings qs) where
  -- The step that the node takes with its siblings in the other order.
  pub record Follows (m : ENode F) : Type 0 where
    pub state : ENode F
    pub by_step : Step (with_siblings qs n) state
    pub reordered : Reordered m state

  kept-Reordered : (m : ENode F) → m.siblings ≡ n.siblings → Reordered m (with_siblings qs m)
  kept-Reordered m e = record { order = subst (λ ps. Permᴰ ps qs) (sym e) s; same = refl }

  Ignores-Reordered :
      (f : ENode F → ENode F) (m : ENode F)
      → ((rs : List Peer) → Ignores {F = F} rs f)
      → m ≡ f n
      → Reordered m (f (with_siblings qs n))
  Ignores-Reordered f m h e =
      let kept : (f n).siblings ≡ n.siblings = ap (λ (x : ENode F). x.siblings) (h n.siblings n) in
      subst (λ x. Reordered x (f (with_siblings qs n))) (sym e)
        (subst (Reordered (f n)) (sym (h qs n)) (kept-Reordered (f n) kept))

  IgnoresIf-siblings :
      (g : ENode F → Option (ENode F)) (m : ENode F)
      → ((rs : List Peer) → IgnoresIf {F = F} rs g)
      → g n ≡ some m
      → (g (with_siblings qs n) ≡ some (with_siblings qs m)) × (m.siblings ≡ n.siblings)
  IgnoresIf-siblings g m h e =
      let again : some m ≡ some (with_siblings n.siblings m) =
        sym e ∙ h n.siblings n ∙ ap (if_done n.siblings) e in
      (
        h qs n ∙ ap (if_done qs) e,
        ap (λ (x : ENode F). x.siblings) (some-injective m (with_siblings n.siblings m) again),
      )

  calibrates-siblings :
      (now dummy_ts : Timespec) (runs : List Run) (m : ENode F) (d : Datagram)
      → calibrate now dummy_ts runs n ≡ some (m, d)
      → (calibrate now dummy_ts runs (with_siblings qs n) ≡ some (with_siblings qs m, d))
        × (m.siblings ≡ n.siblings)
  calibrates-siblings now dummy_ts runs m d e =
      let again : some (m, d) ≡ some (with_siblings n.siblings m, d) =
        sym e ∙ calibrate-Ignores n.siblings now dummy_ts runs n ∙ ap (if_sent n.siblings) e in
      (
        calibrate-Ignores qs now dummy_ts runs n ∙ ap (if_sent qs) e,
        ap (λ (x : ENode F × Datagram). x.0.siblings)
            (some-injective (m, d) (with_siblings n.siblings m, d) again),
      )

  add_sibling-Reordered :
      (failed : Bool) (hostname : String) (port : ℕ)
      → Distinct n.siblings
      → Reordered
          (add_sibling failed hostname port n).0
          (add_sibling failed hostname port (with_siblings qs n)).0
  unfolding add_sibling
  add_sibling-Reordered failed hostname port d =
      let p = peer hostname port in
      let same = ap (λ o. is_self hostname port n || is_found o) (find-order p n.siblings qs s d) in
      elim (Bool-cases (is_self hostname port n || is_found (find p qs))) [
        | inl known ↦ rw (same ∙ known, known) (record { order = s; same = refl })
        | inr new ↦
            rw (same ∙ new, new) (record { order = emplace-order p n.siblings qs s d; same = refl })
      ]

  Ignores-Follows :
      (f : ENode F → ENode F)
      → Step (with_siblings qs n) (f (with_siblings qs n))
      → (m : ENode F) → ((rs : List Peer) → Ignores {F = F} rs f)
      → m ≡ f n
      → Follows m
  Ignores-Follows f taken m h e = record {
    state = f (with_siblings qs n);
    by_step = taken;
    reordered = Ignores-Reordered f m h e;
  }

  -- Whatever step a node takes, the same node with its siblings in another order, whose addresses are pairwise
  -- different, can take a step that leads to the same state but for the order of the siblings.
  pub Step-Follows : (m : ENode F) → Distinct n.siblings → Step n m → Follows m
  Step-Follows m d (exits t e) =
      Ignores-Follows (aex_handler t) (exits t refl) m (λ rs. aex_handler-Ignores rs t) e
  Step-Follows m d (monitors start ticks e) =
      let (again, kept) =
        IgnoresIf-siblings (monitor_rdtsc start ticks) m
          (λ rs. monitor_rdtsc-Ignores rs start ticks) e in
      record {
        state = with_siblings qs m;
        by_step = monitors start ticks again;
        reordered = kept-Reordered m kept;
      }
  Step-Follows m d (polls threshold start readings e) =
      let (again, kept) =
        IgnoresIf-siblings (monitor_polling threshold start readings) m
          (λ rs. monitor_polling-Ignores rs threshold start readings) e in
      record {
        state = with_siblings qs m;
        by_step = polls threshold start readings again;
        reordered = kept-Reordered m kept;
      }
  Step-Follows m d (calibrates now dummy_ts runs sent e) =
      let (again, kept) = calibrates-siblings now dummy_ts runs m sent e in
      record {
        state = with_siblings qs m;
        by_step = calibrates now dummy_ts runs sent again;
        reordered = kept-Reordered m kept;
      }
  Step-Follows m d (receives i ip cport buff e) = record {
    state = (handle_message i ip cport buff (with_siblings qs n)).0;
    by_step = receives i ip cport buff refl;
    reordered =
        subst (λ x. Reordered x (handle_message i ip cport buff (with_siblings qs n)).0) (sym e)
          (handle_message-Unordered n qs s d i ip cport buff).0;
  }
  Step-Follows m d (adds failed hostname port e) = record {
    state = (add_sibling failed hostname port (with_siblings qs n)).0;
    by_step = adds failed hostname port refl;
    reordered =
        subst (λ x. Reordered x (add_sibling failed hostname port (with_siblings qs n)).0) (sym e)
          (add_sibling-Reordered failed hostname port d);
  }
  Step-Follows m d (starts now reading e) =
      Ignores-Follows (start_monitor now reading) (starts now reading refl) m
        (λ rs. start_monitor-Ignores rs now reading) e
  Step-Follows m d (asks_authority now dummy_ts e) =
      Ignores-Follows (λ x. (end_monitor now dummy_ts x).0) (asks_authority now dummy_ts refl) m
        (λ rs. end_monitor-Ignores rs now dummy_ts) e
  Step-Follows m d (serves e) =
      Ignores-Follows (λ x. (read_clock x).0) (serves refl) m read_clock-Ignores e
  Step-Follows m d (shadows now e) =
      Ignores-Follows (shadow_tsc_update now) (shadows now refl) m
        (λ rs. shadow_tsc_update-Ignores rs now) e
  Step-Follows m d (asks_siblings dummy_ts e) =
      Ignores-Follows (λ x. (send_tainted_messages dummy_ts x).0) (asks_siblings dummy_ts refl) m
        (λ rs. send_tainted_messages-Ignores rs dummy_ts) e
  Step-Follows m d (stops e) =
      Ignores-Follows (λ x. record x { stop = true }) (stops refl) m (λ rs x. refl) e
