-- ===== src/Node/Socket/Locking.antt =====
-- How often the lock of the socket is taken and released.
use mathlib.Core.Option.{some-injective}
use tri_ha_rd_higher_resilie.Base.{
  ℕ, suc, ◌+◌, ◌≡◌, ◌≢◌, refl, sym, ap, ◌∙◌, ◌⊎◌, if_true, if_false, inl, inr, Option, true, false,
  arith, List, [], ◌∷◌, some, none, Bool-cases, if◌then◌else◌,
}
use tri_ha_rd_higher_resilie.Base.Int.{pos, ◌≤ℤ◌, ◌<ℤ◌, ltb_ℤ, ltb_ℤ→lt, not-ltb_ℤ→le}
use tri_ha_rd_higher_resilie.Node.{Status, Datagram, success, socket_inexistent}
use tri_ha_rd_higher_resilie.Node.Cipher.{Aead, encrypt}
use tri_ha_rd_higher_resilie.Node.Socket.{
  Call, rdlock, wrlock, unlock, closes, sends, Net, Setup, Attempt, goes, would_block, fails, call,
  setup_socket, recreate_socket, send_loop, send_message, with_success,
}

unfoldable pub taken : List Call → ℕ
taken [] = 0
taken (rdlock ∷ cs) = suc (taken cs)
taken (wrlock ∷ cs) = suc (taken cs)
taken (unlock ∷ cs) = taken cs
taken (closes fd ∷ cs) = taken cs
taken (sends fd d ∷ cs) = taken cs

unfoldable pub released : List Call → ℕ
released [] = 0
released (rdlock ∷ cs) = released cs
released (wrlock ∷ cs) = released cs
released (unlock ∷ cs) = suc (released cs)
released (closes fd ∷ cs) = released cs
released (sends fd d ∷ cs) = released cs

-- `setup_socket` takes the lock once. It succeeds, with the new descriptor in `sock`, and releases the
-- lock once, when `socket` and `bind` succeed; otherwise it reports an error and does not release it.
pub setup_socket_lem :
    (s : Setup) (net : Net)
    → let (after, status) = setup_socket s net in
      (taken after.calls ≡ suc (taken net.calls))
      × (after.sock ≡ s.fd)
      × (((pos 0 ≤ℤ s.fd)
            × (s.binds ≡ true)
            × (status ≡ success)
            × (released after.calls ≡ suc (released net.calls)))
          ⊎ (((s.fd <ℤ pos 0) ⊎ (s.binds ≡ false))
              × (status ≢ success)
              × (released after.calls ≡ released net.calls)))
unfolding setup_socket call taken released
setup_socket_lem s net = ground arith

-- The attempts that end with another one.
unfoldable pub retries : List Attempt → ℕ
retries [] = 0
retries (goes ∷ more) = 0
retries (would_block stopping ∷ more) = if stopping then 0 else suc (retries more)
retries (fails s ∷ more) = 0

-- The last attempt finds a socket that it cannot create again.
unfoldable pub IsLost : List Attempt → Type 0
IsLost [] = ⊥
IsLost (goes ∷ more) = ⊥
IsLost (would_block stopping ∷ more) = (stopping ≡ false) × IsLost more
IsLost (fails s ∷ more) = (s.fd <ℤ pos 0) ⊎ (s.binds ≡ false)

recreate_socket_balance :
    (s : Setup) (net : Net)
    → ¬ ((s.fd <ℤ pos 0) ⊎ (s.binds ≡ false))
    → let after = recreate_socket s net in
      taken after.calls + released net.calls ≡ released after.calls + taken net.calls
unfolding recreate_socket setup_socket call taken released
recreate_socket_balance s net kept = ground arith

send_loop_balance :
    (d : Datagram) (attempts : List Attempt) (net after : Net)
    → send_loop d attempts net ≡ some after
    → ¬ IsLost attempts
    → suc (retries attempts) + taken after.calls + released net.calls
      ≡ released after.calls + taken net.calls
unfolding send_loop retries call taken released IsLost
send_loop_balance d [] net after e kept = cc
send_loop_balance d (goes ∷ more) net after e kept = ground (arith, e)
send_loop_balance d (would_block true ∷ more) net after e kept = ground (arith, e)
send_loop_balance d (would_block false ∷ more) net after e kept =
    omega (arith, send_loop_balance d more (call unlock net) after e (λ l. kept (refl, l)))
send_loop_balance d (fails s ∷ more) net after e kept =
    ground (arith, e, recreate_socket_balance s (call unlock net) kept)

some_pair : {A B : Type 0} (p q : A × B) → some p ≡ some q → (p.0 ≡ q.0) × (p.1 ≡ q.1)
some_pair p q e = (ap (λ r. r.0) (some-injective p q e), ap (λ r. r.1) (some-injective p q e))

with_success-balance :
    (net : Net) (r : ℕ) (o : Option Net) (after : Net) (status : Status)
    → ((m : Net)
        → o ≡ some m
        → r + taken m.calls + released net.calls ≡ released m.calls + taken net.calls)
    → with_success o ≡ some (after, status)
    → (status ≡ success)
      × (r + taken after.calls + released net.calls ≡ released after.calls + taken net.calls)
with_success-balance net r none after status h e = cc
with_success-balance net r (some m) after status h e =
    let (same, status_is) = some_pair _ _ e in (sym status_is, rw (← same) (h m refl))

-- A `sendMessage` that ends, and whose last attempt does not lose the socket, reports a missing socket
-- exactly when there is none, and has then released the lock as often as it has taken it. Otherwise
-- it reports success, whatever the attempts met, and has released the lock once more for each further
-- attempt.
pub send_message_lem :
    (A : Aead) (d : Datagram) (attempts : List Attempt) (net after : Net) (status : Status)
    → send_message A d attempts net ≡ some (after, status)
    → ¬ IsLost attempts
    → ((net.sock <ℤ pos 0)
        × (status ≡ socket_inexistent)
        × (taken after.calls + released net.calls ≡ released after.calls + taken net.calls))
      ⊎ ((pos 0 ≤ℤ net.sock)
          × (status ≡ success)
          × (retries attempts + taken after.calls + released net.calls
              ≡ released after.calls + taken net.calls))
unfolding send_message call taken released
send_message_lem A d attempts net after status e kept = elim (Bool-cases (ltb_ℤ net.sock (pos 0))) [
  | inl closed ↦
      let (same, inexistent) = some_pair _ _ (sym (if_true _ _ _ closed) ∙ e) in
      inl (ltb_ℤ→lt net.sock (pos 0) closed, sym inexistent, rw (← same) (omega arith))
  | inr usable ↦
      let e' = sym (if_false _ _ _ usable) ∙ e in
      let start = record (call rdlock net) { cipher = (encrypt A d.payload net.cipher).0 } in
      let encrypted = record d { payload = (encrypt A d.payload net.cipher).1 } in
      let (status_is, balance) =
        with_success-balance net (retries attempts) (send_loop encrypted attempts start) after
          status (λ m found. omega (arith, send_loop_balance encrypted attempts start m found kept))
          e' in
      inr (not-ltb_ℤ→le net.sock (pos 0) usable, status_is, balance)
]
