-- ===== src/Node/Tasks/Stopping.antt =====
-- When `stop_tasks` returns, and what it leaves.
use mathlib.Core.Option.{some-injective, none-ne-some}
use tri_ha_rd_higher_resilie.Base.{
  ◌≡◌, ◌≢◌, ◌↔◌, refl, sym, subst, ◌∙◌, ap, ◌⊎◌, inl, inr, true, arith, List, [], ◌∷◌, Option, none,
  some, Option-cases,
}
use tri_ha_rd_higher_resilie.Base.Int.{negsuc}
use tri_ha_rd_higher_resilie.Double.{Double}
use tri_ha_rd_higher_resilie.Node.{ENode}
use tri_ha_rd_higher_resilie.Node.Receive.{Host}
use tri_ha_rd_higher_resilie.Node.Socket.{Net, call, closes, wrlock, unlock}
use tri_ha_rd_higher_resilie.Node.Tasks.{
  await_receivers, await_refreshers, close_socket, refreshers_after, stop_tasks,
}

module _ {F : Double} where
  -- Some state of the list has the property.
  abbrev pub SomeState : (ENode F → Type 0) → List (ENode F) → Type 0
  SomeState P [] = ⊥
  SomeState P (n ∷ later) = P n ⊎ SomeState P later

  abbrev pub OneReceiverStopped : ENode F → Type 0
  OneReceiverStopped n = (n.monitor_stopped ≡ true) ⊎ (n.readfrom_stopped ≡ true)

  abbrev pub OneRefresherStopped : ENode F → Type 0
  OneRefresherStopped n = (n.refresh_stopped ≡ true) ⊎ (n.trigger_stopped ≡ true)

  await_receivers_iff :
      (found : List (ENode F)) → (await_receivers found ≢ none) ↔ SomeState OneReceiverStopped found
  unfolding await_receivers
  await_receivers_iff [] = ground arith
  await_receivers_iff (n ∷ later) = ground (arith, await_receivers_iff later)

  await_refreshers_iff :
      (found : List (ENode F))
      → (await_refreshers found ≢ none) ↔ SomeState OneRefresherStopped found
  unfolding await_refreshers
  await_refreshers_iff [] = ground arith
  await_refreshers_iff (n ∷ later) = ground (arith, await_refreshers_iff later)

  await_refreshers-stopped :
      (found : List (ENode F)) (n : ENode F)
      → await_refreshers found ≡ some n
      → OneRefresherStopped n
  unfolding await_refreshers
  await_refreshers-stopped [] n e = cc
  await_refreshers-stopped (m ∷ later) n e = ground (arith, e, await_refreshers-stopped later n)

  -- The node is as the second wait found it, and the socket is closed.
  abbrev pub IsClosed : Net → Host F → Type 0
  IsClosed net h =
      OneRefresherStopped h.node
      × (h.net ≡ record net {
        sock = negsuc 0;
        calls = unlock ∷ (closes net.sock ∷ (wrlock ∷ net.calls));
      })

  stop_tasks_iff :
      (first second : List (ENode F)) (net : Net)
      → (stop_tasks first second net ≢ none)
        ↔ (SomeState OneReceiverStopped first × SomeState OneRefresherStopped second)
  unfolding stop_tasks
  stop_tasks_iff first second net =
      by (await_receivers first) (await_receivers_iff first) (await_refreshers_iff second)
    where
      by :
          {A B : Type 0} (o : Option (ENode F))
          → (o ≢ none) ↔ A
          → (await_refreshers second ≢ none) ↔ B
          → (close_socket net (refreshers_after second o) ≢ none) ↔ (A × B)
      by none p q = (λ h. absurd (h refl), λ (a, b) e. p.1 a refl)
      by (some n) p q = elim (Option-cases (await_refreshers second)) [
        | inl waits ↦ (λ h. absurd (h (ap (close_socket net) waits)), λ (a, b) e. q.1 b waits)
        | inr (m, found) ↦ (λ h. (p.0 (λ e. cc), q.0 (λ e. cc)), λ (a, b) e. cc)
      ]

  stop_tasks-IsClosed :
      (first second : List (ENode F)) (net : Net) (h : Host F)
      → stop_tasks first second net ≡ some h
      → IsClosed net h
  unfolding stop_tasks call
  stop_tasks-IsClosed first second net h = by (await_receivers first)
    where
      by :
          (o : Option (ENode F))
          → close_socket net (refreshers_after second o) ≡ some h
          → IsClosed net h
      by none e = cc
      by (some n) e = elim (Option-cases (await_refreshers second)) [
        | inl waits ↦ absurd (none-ne-some _ (ap (close_socket net) (sym waits) ∙ e))
        | inr (m, found) ↦
            subst (IsClosed net) (some-injective _ h (ap (close_socket net) (sym found) ∙ e))
              (await_refreshers-stopped second m found, refl)
      ]

  -- `stop_tasks` returns just when its first wait finds a state in which the monitoring or the receiving
  -- thread has stopped, one of them, and its second wait a state in which the refreshing thread or the
  -- trigger has. It has then closed the socket, under the lock, which it has released.
  pub stop_tasks_lem :
      (first second : List (ENode F)) (net : Net)
      → ((stop_tasks first second net ≢ none)
          ↔ (SomeState OneReceiverStopped first × SomeState OneRefresherStopped second))
        × ((h : Host F) → stop_tasks first second net ≡ some h → IsClosed net h)
  stop_tasks_lem first second net =
      (stop_tasks_iff first second net, stop_tasks-IsClosed first second net)
