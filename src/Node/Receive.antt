-- ===== src/Node/Receive.antt =====
-- trihard/node/Enclave/ENode.cpp: `loop_recvfrom`.
pub mod Delivery
pub mod Authentic
use Prim.Native.String.{String}
use tri_ha_rd_higher_resilie.Base.{
  ℕ, Bool, true, false, ◌||◌, List, [], ◌∷◌, Option, none, some, if◌then◌else◌,
}
use tri_ha_rd_higher_resilie.Base.Int.{ℤ, pos, negsuc, ltb_ℤ}
use tri_ha_rd_higher_resilie.Double.{Double}
use tri_ha_rd_higher_resilie.Node.{ENode, Datagram, Status, success, socket_inexistent}
use tri_ha_rd_higher_resilie.Node.Cipher.{Aead, decrypt}
use tri_ha_rd_higher_resilie.Node.Messages.{Inputs, handle_message}
use tri_ha_rd_higher_resilie.Node.Socket.{
  Net, call, rdlock, unlock, closes, Setup, setup_socket, Attempt, send_message,
}

-- What `recvfrom` returns: a time-out, another error, nothing, or a datagram with its sender. A
-- datagram comes with what its handler meets.
pub record Arrival : Type 0 where
  pub bytes : List ℕ
  pub ip : String
  pub cport : ℕ
  pub inputs : Inputs
  pub attempts : List Attempt

pub data Read : Type 0 where
  times_out : Read
  breaks : Setup → Read
  reads_nothing : Read
  arrives : Arrival → Read

pub record Host (F : Double) : Type 0 where
  pub node : ENode F
  pub net : Net

module _ {F : Double} where
  abbrev pub replied : ENode F → Option (Net × Status) → Option (Host F × Status)
  replied n none = none
  replied n (some (net, status)) = some (record { node = n; net = net }, status)

  abbrev stopped : Host F → Host F
  stopped h = record h { node = record h.node { readfrom_stopped = true } }

  abbrev stop_found : Bool → Host F → Host F
  stop_found stopping h = record h { node = record h.node { stop = h.node.stop || stopping } }

  abbrev locked_read : Host F → Host F
  locked_read h = record h { net = call unlock (call rdlock h.net) }

  abbrev continue_if :
      Option (Host F × Status) → (Host F → Option (Host F × Status)) → Option (Host F × Status)
  continue_if none k = none
  continue_if (some (h, success)) k = k h
  continue_if (some (h, status)) k = some (stopped h, status)

module _ {F : Double} (A : Aead) where
  -- `handle_message` with its calls of `sendMessage`: it makes at most one, and returns its result.
  unfoldable pub reply : List Attempt → ENode F × List Datagram → Net → Option (Host F × Status)
  unfolding send_message
  reply attempts (n, []) net = some (record { node = n; net = net }, success)
  reply attempts (n, d ∷ _) net = replied n (send_message A d attempts net)

  -- A datagram is handled whether its decryption succeeds or not.
  unfoldable pub receive : Arrival → Host F → Option (Host F × Status)
  unfolding decrypt reply
  receive a h =
      let buff_dec = (decrypt A a.bytes h.net.cipher).1 in
      reply a.attempts (handle_message a.inputs a.ip a.cport buff_dec h.node) h.net

  unfoldable pub read_round : Read → Host F → Option (Host F × Status)
  unfolding receive setup_socket call
  read_round times_out h = some (h, success)
  read_round (breaks s) h = some (
    record h {
      net = (setup_socket s (record (call (closes h.net.sock) h.net) { sock = negsuc 0 })).0;
    },
    success,
  )
  read_round reads_nothing h = some (h, success)
  read_round (arrives a) h = receive a h

  -- The rounds of the loop: whether the node is found stopping, and what is read.
  unfoldable pub loop_recvfrom : List (Bool × Read) → Host F → Option (Host F × Status)
  unfolding read_round call
  loop_recvfrom [] h = none
  loop_recvfrom ((stopping, r) ∷ more) h =
      let found = stop_found stopping h in
      let next = λ (m : Host F). loop_recvfrom more m in
      if found.node.stop
      then some (stopped found, success)
      else if ltb_ℤ h.net.sock (pos 0)
      then some (locked_read found, socket_inexistent)
      else continue_if (read_round r (locked_read found)) next
