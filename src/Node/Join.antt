-- ===== src/Node/Join.antt =====
-- trihard/node/Enclave/ENode.cpp: `add_sibling` with its use of the socket.
pub mod Closing
use Prim.Native.String.{String}
use tri_ha_rd_higher_resilie.Base.{ℕ, Bool, ◌||◌, List, [], ◌∷◌, ◌++◌, if◌then◌else◌}
use tri_ha_rd_higher_resilie.Double.{Double}
use tri_ha_rd_higher_resilie.Wire.{sibling_str}
use tri_ha_rd_higher_resilie.Node.{ENode, Datagram, Status, success, peer}
use tri_ha_rd_higher_resilie.Node.Cipher.{Aead, encrypt}
use tri_ha_rd_higher_resilie.Node.Peers.{add_sibling, find, is_found, is_self}
use tri_ha_rd_higher_resilie.Node.Socket.{Net, Call, rdlock, wrlock, unlock, closes, sends, call}

-- `sendto`, outside of the lock and whatever `sock` is; after an error `close`, under the lock. `sock`
-- keeps its value.
unfoldable pub send_sibling : Aead → Bool → String → ℕ → Net → Net
unfolding call encrypt
send_sibling A failed hostname port net =
    let (cipher, buff_enc) = encrypt A sibling_str net.cipher in
    let d : Datagram = record { payload = buff_enc; ip = hostname; port = port } in
    let sent = call (sends net.sock d) (record net { cipher = cipher }) in
    if failed then call unlock (call (closes net.sock) (call wrlock sent)) else sent

module _ {F : Double} (A : Aead) where
  -- `add_sibling`; `failed` says whether `sendto` reports an error.
  unfoldable pub join : Bool → String → ℕ → ENode F → Net → ENode F × Net × Status
  unfolding add_sibling send_sibling
  join failed hostname port n net =
      let (next, datagrams, status) = add_sibling failed hostname port n in
      if is_self hostname port n || is_found (find (peer hostname port) n.siblings)
      then (next, net, status)
      else (next, send_sibling A failed hostname port net, status)
