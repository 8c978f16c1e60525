-- ===== src/Node/Socket.antt =====
-- trihard/node/Enclave/ENode.cpp: the socket of a node, and the lock that guards it. What the calls of
-- the system return is an argument.
pub mod Locking
use Prim.Native.String.{String}
use tri_ha_rd_higher_resilie.Base.{
  ℕ, Bool, true, false, List, [], ◌∷◌, Option, none, some, if◌then◌else◌,
}
use tri_ha_rd_higher_resilie.Base.Int.{ℤ, pos, negsuc, ltb_ℤ}
use tri_ha_rd_higher_resilie.Node.{
  Datagram, Status, success, socket_creation_error, socket_binding_error, socket_inexistent,
}
use tri_ha_rd_higher_resilie.Node.Cipher.{Aead, Cipher, encrypt}

-- The calls made on `socket_rwlock` and on descriptors.
pub data Call : Type 0 where
  rdlock wrlock unlock : Call
  closes : ℤ → Call
  sends : ℤ → Datagram → Call

pub record Net : Type 0 where
  pub sock : ℤ
  pub cipher : Cipher
  -- Newest first.
  pub calls : List Call

unfoldable pub call : Call → Net → Net
call c net = record net { calls = c ∷ net.calls }

-- What `socket` and `bind` return.
pub record Setup : Type 0 where
  pub fd : ℤ
  pub binds : Bool

unfoldable pub setup_socket : Setup → Net → Net × Status
unfolding call
setup_socket s net =
    let opened = record (call wrlock net) { sock = s.fd } in
    if ltb_ℤ s.fd (pos 0)
    then (opened, socket_creation_error)
    else if s.binds
    then (call unlock opened, success)
    else (call (closes s.fd) opened, socket_binding_error)

-- What one `sendto` meets: it sends; it would block, and the node is found stopping or not; or it
-- fails, and the socket is created again.
pub data Attempt : Type 0 where
  goes : Attempt
  would_block : Bool → Attempt
  fails : Setup → Attempt

-- `close`, `sock = -1` and `setup_socket`, under the lock.
unfoldable pub recreate_socket : Setup → Net → Net
unfolding setup_socket call
recreate_socket s net =
    (setup_socket s
      (call unlock (record (call (closes net.sock) (call wrlock net)) { sock = negsuc 0 }))).0

-- The loop of `sendMessage`; `none` while every attempt asks for another one.
unfoldable pub send_loop : Datagram → List Attempt → Net → Option Net
unfolding call recreate_socket
send_loop d [] net = none
send_loop d (goes ∷ more) net = some (call unlock (call (sends net.sock d) net))
send_loop d (would_block stopping ∷ more) net =
    let rest = send_loop d more (call unlock net) in
    if stopping then some (call unlock net) else rest
send_loop d (fails s ∷ more) net = some (recreate_socket s (call unlock net))

abbrev pub with_success : Option Net → Option (Net × Status)
with_success none = none
with_success (some net) = some (net, success)

unfoldable pub send_message : Aead → Datagram → List Attempt → Net → Option (Net × Status)
unfolding send_loop encrypt call
send_message A d attempts net =
    let locked = call rdlock net in
    let (cipher, buff_enc) = encrypt A d.payload net.cipher in
    let encrypted = record d { payload = buff_enc } in
    if ltb_ℤ net.sock (pos 0)
    then some (call unlock locked, socket_inexistent)
    else with_success (send_loop encrypted attempts (record locked { cipher = cipher }))
