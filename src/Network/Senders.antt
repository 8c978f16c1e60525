-- ===== src/Network/Senders.antt =====
-- The datagrams that a node sends of its own are no untainting messages.
use Prim.Native.String.{String}
use mathlib.Core.Option.{some-injective}
use tri_ha_rd_higher_resilie.Base.{
  ℕ, ◌+◌, ◌%◌, ◌/◌, ◌^◌, ◌≡◌, subst, Bool, arith, List, [], ◌∷◌, Option, none, some, map,
  Bool-cases, inl, inr, ◌==◌, ◌||◌,
}
use tri_ha_rd_higher_resilie.Base.Int.{ℤ, pos}
use tri_ha_rd_higher_resilie.Double.{Double}
use tri_ha_rd_higher_resilie.Timespec.{Timespec}
use tri_ha_rd_higher_resilie.Wire.{tainted_message, drift_message}
use tri_ha_rd_higher_resilie.Node.{ENode, Datagram, Peer, peer}
use tri_ha_rd_higher_resilie.Node.Ntp.{send_recv_drift_message, ntp}
use tri_ha_rd_higher_resilie.Node.Peers.{find, add_sibling, is_self, is_found}
use tri_ha_rd_higher_resilie.Node.Taint.{to_sibling, send_tainted_messages}
use tri_ha_rd_higher_resilie.Node.Monitor.{
  Run, monitor_time, end_monitor, calibrate, calibrate_drift, calibrate_count,
}
use tri_ha_rd_higher_resilie.Network.{All}
use tri_ha_rd_higher_resilie.Network.Answers.{IsAnswer}

drift_message-IsAnswer :
    (a b : ℤ) (org_ts dummy_ts : Timespec) → ¬ IsAnswer (drift_message a b org_ts dummy_ts)
unfolding drift_message
drift_message-IsAnswer a b org_ts dummy_ts h = omega arith

tainted_message-IsAnswer :
    (count : ℤ) (org_ts dummy_ts : Timespec) → ¬ IsAnswer (tainted_message count org_ts dummy_ts)
unfolding tainted_message
tainted_message-IsAnswer count org_ts dummy_ts h = omega arith

abbrev pub NoAnswers : List Datagram → Type 0
NoAnswers l = All (λ d. ¬ IsAnswer d.payload) l

map-NoAnswers :
    (payload : List ℕ) (siblings : List Peer)
    → ¬ IsAnswer payload
    → NoAnswers (map (to_sibling payload) siblings)
map-NoAnswers payload [] h = tt
map-NoAnswers payload (p ∷ ps) h = (h, map-NoAnswers payload ps h)

module _ {F : Double} where
  pub send_tainted_messages-NoAnswers :
      (dummy_ts : Timespec) (n : ENode F) → NoAnswers (send_tainted_messages dummy_ts n).1
  unfolding send_tainted_messages
  send_tainted_messages-NoAnswers dummy_ts n =
      map-NoAnswers _ _ (tainted_message-IsAnswer _ _ dummy_ts)

  send_recv_drift_message-IsAnswer :
      (now dummy_ts : Timespec) (a b : ℤ) (n : ENode F)
      → ¬ IsAnswer (send_recv_drift_message now dummy_ts a b n).1.payload
  unfolding send_recv_drift_message
  send_recv_drift_message-IsAnswer now dummy_ts a b n = drift_message-IsAnswer _ _ _ dummy_ts

  ntp-NoAnswers : (now dummy_ts : Timespec) (n : ENode F) → NoAnswers (ntp now dummy_ts n).1
  unfolding ntp
  ntp-NoAnswers now dummy_ts n =
      let counted = record n { poll_count = 0 } in
      elim (Bool-cases (n.poll_count + 1 == 2 ^ n.poll_exponent)) [
        | inl asks ↦
            rw asks
              (send_recv_drift_message-IsAnswer now dummy_ts (pos 0) n.sleep_attack_ms counted, tt)
        | inr waits ↦ rw waits tt
      ]

  pub end_monitor-NoAnswers :
      (now dummy_ts : Timespec) (n : ENode F) → NoAnswers (end_monitor now dummy_ts n).1
  unfolding end_monitor
  end_monitor-NoAnswers now dummy_ts n =
      elim (Bool-cases (n.ntp_step % (1000 / monitor_time) == 0)) [
        | inl turn ↦ rw turn (ntp-NoAnswers now dummy_ts n)
        | inr other ↦ rw other tt
      ]

  pub add_sibling-NoAnswers :
      (failed : Bool) (hostname : String) (port : ℕ) (n : ENode F)
      → NoAnswers (add_sibling failed hostname port n).1
  unfolding add_sibling
  add_sibling-NoAnswers failed hostname port n =
      elim (Bool-cases
        (is_self hostname port n || is_found (find (peer hostname port) n.siblings))) [
          | inl known ↦ rw known tt
          | inr new ↦ rw new (λ h. omega arith, tt)
        ]

  calibrate_drift-IsAnswer :
      (now dummy_ts : Timespec) (o : Option (ENode F × Bool)) (r : ENode F × Datagram)
      → calibrate_drift now dummy_ts o ≡ some r
      → ¬ IsAnswer r.1.payload
  calibrate_drift-IsAnswer now dummy_ts none r e = cc
  calibrate_drift-IsAnswer now dummy_ts (some (m, calibrated)) r e =
      subst (λ x. ¬ IsAnswer x.1.payload) (some-injective _ r e)
        (send_recv_drift_message-IsAnswer now dummy_ts (pos 0) (pos 0)
          (record m { calib_count = calibrated }))

  pub calibrate-IsAnswer :
      (now dummy_ts : Timespec) (runs : List Run) (n : ENode F) (r : ENode F × Datagram)
      → calibrate now dummy_ts runs n ≡ some r
      → ¬ IsAnswer r.1.payload
  unfolding calibrate
  calibrate-IsAnswer now dummy_ts runs n r e =
      calibrate_drift-IsAnswer now dummy_ts (calibrate_count runs n) r e
