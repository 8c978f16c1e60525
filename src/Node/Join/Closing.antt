-- ===== src/Node/Join/Closing.antt =====
-- ENode.cpp: the descriptor of the socket after `add_sibling` could not send.
use Prim.Native.String.{String}
use tri_ha_rd_higher_resilie.Base.{
  ℕ, ◌+◌, ◌≤◌, ◌≡◌, refl, sym, subst, inl, inr, true, false, ◌||◌, List, [], ◌∷◌, ◌++◌, some,
  if◌then◌else◌, Bool-cases, arith,
}
use tri_ha_rd_higher_resilie.Base.Int.{ℤ, pos, negsuc, ◌≤ℤ◌, ltb_ℤ, eqb_ℤ}
use tri_ha_rd_higher_resilie.Double.{Double}
use tri_ha_rd_higher_resilie.Node.{ENode, Datagram, peer, success, sending_error}
use tri_ha_rd_higher_resilie.Node.Cipher.{Aead, encrypt}
use tri_ha_rd_higher_resilie.Node.Peers.{add_sibling, emplace, find, is_found, is_self}
use tri_ha_rd_higher_resilie.Node.Socket.{
  Net, Call, rdlock, wrlock, unlock, closes, call, Setup, fails, setup_socket, recreate_socket,
  send_loop, send_message,
}
use tri_ha_rd_higher_resilie.Node.Join.{send_sibling, join}

-- How often a descriptor has been closed.
abbrev pub closings : ℤ → List Call → ℕ
closings fd [] = 0
closings fd (closes other ∷ more) = (if eqb_ℤ fd other then 1 else 0) + closings fd more
closings fd (_ ∷ more) = closings fd more

same : (fd : ℤ) → eqb_ℤ fd fd ≡ true
same fd = ground arith

send_sibling_closes :
    (A : Aead) (hostname : String) (port : ℕ) (net : Net)
    → let after = send_sibling A true hostname port net in
      (after.sock ≡ net.sock) × (closings net.sock after.calls ≡ 1 + closings net.sock net.calls)
unfolding send_sibling call
send_sibling_closes A hostname port net = rw (same net.sock) (refl, refl)

setup_socket_closes :
    (fd : ℤ) (s : Setup) (net : Net)
    → closings fd net.calls ≤ closings fd (setup_socket s net).0.calls
unfolding setup_socket call
setup_socket_closes fd s net = elim (Bool-cases (ltb_ℤ s.fd (pos 0))) [
  | inl bad ↦ rw bad (omega arith)
  | inr opened ↦ rw opened (elim (Bool-cases s.binds) [
    | inl binds ↦ rw binds (omega arith)
    | inr unbound ↦ rw unbound (omega arith)
  ])
]

recreate_socket_closes :
    (s : Setup) (net : Net)
    → 1 + closings net.sock net.calls ≤ closings net.sock (recreate_socket s net).calls
unfolding recreate_socket call
recreate_socket_closes s net =
    let closed : Net = record net {
      sock = negsuc 0;
      calls = unlock ∷ (closes net.sock ∷ (wrlock ∷ net.calls));
    } in
    let counted : closings net.sock closed.calls ≡ 1 + closings net.sock net.calls =
      rw (same net.sock) refl in
    omega (arith, setup_socket_closes net.sock s closed)

module _ (A : Aead) where
  -- The network as it is when an attempt to send has failed.
  abbrev failed_net : Datagram → Net → Net
  failed_net d net =
      call unlock (record (call rdlock net) { cipher = (encrypt A d.payload net.cipher).0 })

  send_message_fails :
      (d : Datagram) (s : Setup) (net : Net)
      → pos 0 ≤ℤ net.sock
      → send_message A d (fails s ∷ []) net ≡ some (recreate_socket s (failed_net d net), success)
  unfolding send_message send_loop
  send_message_fails d s net usable =
      let open_socket : ltb_ℤ net.sock (pos 0) ≡ false = ground arith in rw open_socket refl

  failed_net_closes :
      (d : Datagram) (s : Setup) (net : Net)
      → 1 + closings net.sock net.calls
        ≤ closings net.sock (recreate_socket s (failed_net d net)).calls
  unfolding call
  failed_net_closes d s net = recreate_socket_closes s (failed_net d net)

module _ {F : Double} (A : Aead) where
  join_fails :
      (hostname : String) (port : ℕ) (n : ENode F) (net : Net)
      → (is_self hostname port n || is_found (find (peer hostname port) n.siblings)) ≡ false
      → join A true hostname port n net ≡ (
        record n { siblings = emplace (peer hostname port) n.siblings },
        send_sibling A true hostname port net,
        sending_error,
      )
  unfolding join add_sibling
  join_fails hostname port n net new = rw new refl

  emplaced :
      (hostname : String) (port : ℕ) (n : ENode F)
      → (is_self hostname port n || is_found (find (peer hostname port) n.siblings)) ≡ false
      → emplace (peer hostname port) n.siblings ≡ n.siblings ++ (peer hostname port ∷ [])
  unfolding emplace
  emplaced hostname port n new =
      let absent : is_found (find (peer hostname port) n.siblings) ≡ false = ground arith in
      rw absent refl

  -- When `add_sibling` cannot send to a new sibling, it reports that and closes the socket; but the
  -- sibling is in the list, and `sock` keeps the closed descriptor: the next message that cannot be
  -- sent on it, whoever it is for, closes this descriptor a second time, and reports success.
  pub join_closes_twice :
      (hostname : String) (port : ℕ) (n : ENode F) (net : Net) (d : Datagram) (s : Setup)
      → (is_self hostname port n || is_found (find (peer hostname port) n.siblings)) ≡ false
      → pos 0 ≤ℤ net.sock
      → let (joined, after, status) = join A true hostname port n net in
        (joined.siblings ≡ n.siblings ++ (peer hostname port ∷ []))
        × (status ≡ sending_error)
        × (after.sock ≡ net.sock)
        × ((later : Net) × (send_message A d (fails s ∷ []) after ≡ some (later, success))
            × (2 + closings net.sock net.calls ≤ closings net.sock later.calls))
  join_closes_twice hostname port n net d s new usable =
      let after = send_sibling A true hostname port net in
      let (kept, closed) = send_sibling_closes A hostname port net in
      rw (join_fails hostname port n net new) (
        emplaced hostname port n new,
        refl,
        kept,
        (
          recreate_socket s (failed_net A d after),
          send_message_fails A d s after (subst (λ fd. pos 0 ≤ℤ fd) (sym kept) usable),
          omega (
            arith,
            closed,
            subst
                (λ fd.
                  1 + closings fd after.calls
                  ≤ closings fd (recreate_socket s (failed_net A d after)).calls)
                kept (failed_net_closes A d s after),
          ),
        ),
      )
