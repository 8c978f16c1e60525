-- ===== src/Node/Tasks/Sent.antt =====
-- ENode.cpp, `sendMessage`: the datagrams that it adds, and the key and the nonce that it keeps.
use mathlib.Core.Option.{some-injective}
use tri_ha_rd_higher_resilie.Base.{
  ◌≡◌, sym, ◌∙◌, ap, subst, ◌⊎◌, inl, inr, List, [], ◌∷◌, true, false, some, none, arith, Option,
  Bool-cases, replicate, Has, if_true, if_false,
}
use tri_ha_rd_higher_resilie.Base.Int.{ℤ, pos, negsuc, ltb_ℤ}
use tri_ha_rd_higher_resilie.Node.{Datagram, Status}
use tri_ha_rd_higher_resilie.Node.Cipher.{Aead, Cipher, encrypt, increment_nonce}
use tri_ha_rd_higher_resilie.Node.Socket.{
  Net, Setup, Attempt, goes, would_block, fails, call, rdlock, wrlock, unlock, sends, closes,
  setup_socket, recreate_socket, send_loop, send_message, with_success,
}
use tri_ha_rd_higher_resilie.Node.Receive.Delivery.{sealed}
use tri_ha_rd_higher_resilie.Node.Tasks.{test_key}

-- The cipher of every node: the key of the source and the first nonce.
pub record IsFirst (c : Cipher) : Type 0 where
  pub key : c.key ≡ test_key
  pub nonce : c.nonce ≡ replicate 12 0
  pub init : c.init ≡ true

pub setup_socket-cipher : (s : Setup) (net : Net) → (setup_socket s net).0.cipher ≡ net.cipher
unfolding setup_socket call
setup_socket-cipher s net = ground arith

pub increment_nonce-IsFirst : (c : Cipher) → IsFirst c → IsFirst (increment_nonce c)
unfolding increment_nonce
increment_nonce-IsFirst c f = ground (arith, f)

pub keyed-IsFirst :
    (c : Cipher) → c.init ≡ false → IsFirst (record (increment_nonce c) { key = test_key })
unfolding increment_nonce
keyed-IsFirst c e = ground (arith, e)

-- A datagram that is new among the calls is the sealed one.
abbrev pub IsNew : Datagram → Net → Net → Type 0
IsNew e before after =
    (fd : ℤ) (x : Datagram) → Has (sends fd x) after.calls → Has (sends fd x) before.calls ⊎ (x ≡ e)

setup_socket-IsNew : (s : Setup) (e : Datagram) (net : Net) → IsNew e net (setup_socket s net).0
unfolding setup_socket call
setup_socket-IsNew s e net fd x h = ground (arith, h)

recreate_socket-IsNew : (s : Setup) (e : Datagram) (net : Net) → IsNew e net (recreate_socket s net)
unfolding recreate_socket call
recreate_socket-IsNew s e net fd x h = ground (
  arith,
  h,
  setup_socket-IsNew s e
      (call unlock (record (call (closes net.sock) (call wrlock net)) { sock = negsuc 0 })) fd x,
)

sends-injective : (fd fd' : ℤ) (x e : Datagram) → sends fd x ≡ sends fd' e → x ≡ e
sends-injective fd fd' x e p = cc

send_loop-IsNew :
    (e : Datagram) (attempts : List Attempt) (net after : Net)
    → send_loop e attempts net ≡ some after
    → IsNew e net after
unfolding send_loop call
send_loop-IsNew e [] net after h fd x new = cc
send_loop-IsNew e (goes ∷ more) net after h fd x new = ground (
  arith,
  subst (λ k. Has (sends fd x) k.calls) (sym (some-injective _ after h)) new,
  sends-injective fd net.sock x e,
)
send_loop-IsNew e (would_block true ∷ more) net after h fd x new =
    ground (arith, subst (λ k. Has (sends fd x) k.calls) (sym (some-injective _ after h)) new)
send_loop-IsNew e (would_block false ∷ more) net after h fd x new =
    ground (arith, send_loop-IsNew e more (call unlock net) after h fd x new)
send_loop-IsNew e (fails s ∷ more) net after h fd x new = ground (
  arith,
  recreate_socket-IsNew s e (call unlock net) fd x
      (subst (λ k. Has (sends fd x) k.calls) (sym (some-injective _ after h)) new),
)

send_loop-cipher :
    (e : Datagram) (attempts : List Attempt) (net after : Net)
    → send_loop e attempts net ≡ some after
    → after.cipher ≡ net.cipher
unfolding send_loop recreate_socket call
send_loop-cipher e [] net after h = cc
send_loop-cipher e (goes ∷ more) net after h = ap (λ k. k.cipher) (sym (some-injective _ after h))
send_loop-cipher e (would_block true ∷ more) net after h =
    ap (λ k. k.cipher) (sym (some-injective _ after h))
send_loop-cipher e (would_block false ∷ more) net after h =
    send_loop-cipher e more (call unlock net) after h
send_loop-cipher e (fails s ∷ more) net after h =
    ap (λ k. k.cipher) (sym (some-injective _ after h))
    ∙ setup_socket-cipher s (
        call unlock
          (record (call (closes net.sock) (call wrlock (call unlock net))) { sock = negsuc 0 }))

with_success-some :
    (o : Option Net) (after : Net) (status : Status)
    → with_success o ≡ some (after, status)
    → o ≡ some after
with_success-some none after status h = cc
with_success-some (some net) after status h = ap some (ap (λ r. r.0) (some-injective _ _ h))

module _ (A : Aead) where
  -- What `sendMessage` does to the cipher and the calls.
  pub record Sent (d : Datagram) (net after : Net) : Type 0 where
    pub first : IsFirst net.cipher → IsFirst after.cipher
    pub new : IsNew (sealed A d net.cipher) net after

  pub send_message-Sent :
      (d : Datagram) (attempts : List Attempt) (net after : Net) (status : Status)
      → send_message A d attempts net ≡ some (after, status)
      → Sent d net after
  unfolding send_message encrypt call
  send_message-Sent d attempts net after status h = elim (Bool-cases (ltb_ℤ net.sock (pos 0))) [
    | inl shut ↦
        let same = ap (λ r. r.0) (some-injective _ _ (sym (if_true _ _ _ shut) ∙ h)) in
        record {
          first = λ f. subst (λ k. IsFirst k.cipher) same f;
          new = λ fd x new. ground (arith, subst (λ k. Has (sends fd x) k.calls) (sym same) new);
        }
    | inr usable ↦
        let locked = record (call rdlock net) { cipher = increment_nonce net.cipher } in
        let looped =
          with_success-some (send_loop (sealed A d net.cipher) attempts locked) after status
            (sym (if_false _ _ _ usable) ∙ h) in
        record {
          first = λ f.
              subst IsFirst
                (sym (send_loop-cipher (sealed A d net.cipher) attempts locked after looped))
                (increment_nonce-IsFirst net.cipher f);
          new = λ fd x new. ground (
            arith,
            send_loop-IsNew (sealed A d net.cipher) attempts locked after looped fd x new,
          );
        }
  ]
