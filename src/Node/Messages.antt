-- ===== src/Node/Messages.antt =====
-- trihard/node/Enclave/ENode.cpp: `handle_message`, by the first byte of the decrypted message.
pub mod Cases
pub mod Recovery
pub mod Order
use Prim.Native.String.{String}
use tri_ha_rd_higher_resilie.Base.{ℕ, not, List, [], ◌∷◌, ◌==◌, if◌then◌else◌, length}
use tri_ha_rd_higher_resilie.Base.Int.{ℤ}
use tri_ha_rd_higher_resilie.Double.{Double}
use tri_ha_rd_higher_resilie.Timespec.{Timespec}
use tri_ha_rd_higher_resilie.Wire.{d_msg_expected_len}
use tri_ha_rd_higher_resilie.Node.{ENode, Datagram}
use tri_ha_rd_higher_resilie.Node.Ntp.{accept_drift}
use tri_ha_rd_higher_resilie.Node.Peers.{accept_sibling}
use tri_ha_rd_higher_resilie.Node.Taint.{accept_tainted, accept_untainting}

-- What a handler reads from outside: the OS clock, and `tsc` at a second reading.
pub record Inputs : Type 0 where
  pub now : Timespec
  pub xmt_tsc : ℤ

module _ {F : Double} where
  abbrev silent : ENode F → ENode F × List Datagram
  silent n = (n, [])

  -- The state after the message and the datagrams that were given to `sendMessage`.
  unfoldable pub handle_message : Inputs → String → ℕ → List ℕ → ENode F → ENode F × List Datagram
  unfolding accept_sibling accept_tainted accept_untainting accept_drift
  handle_message i ip cport [] n = (n, [])
  handle_message i ip cport (b ∷ rest) n =
      let buff = b ∷ rest in
      if b == b'S'
      then silent (accept_sibling ip cport n)
      else if b == b'T'
      then accept_tainted i.now i.xmt_tsc ip cport buff n
      else if b == b'U'
      then silent (accept_untainting ip cport buff n)
      else if b == b'D'
      then (if not (length buff == d_msg_expected_len)
          then silent n
          else silent (accept_drift i.now buff n))
      else (n, record { payload = buff; ip = ip; port = cport } ∷ [])
