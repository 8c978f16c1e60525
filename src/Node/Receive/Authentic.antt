-- ===== src/Node/Receive/Authentic.antt =====
-- ENode.cpp, `loop_recvfrom` on datagrams that do not decrypt.
use tri_ha_rd_higher_resilie.Base.{
  ℕ, ◌≡◌, refl, sym, subst, ◌∙◌, ap, ◌⊎◌, inl, inr, Bool, arith, List, [], ◌∷◌, Option, none, some,
  Bool-cases, if_true, if_false,
}
use mathlib.Core.Option.{some-injective}
use tri_ha_rd_higher_resilie.Base.Int.{pos, ltb_ℤ}
use tri_ha_rd_higher_resilie.Double.{Double}
use tri_ha_rd_higher_resilie.Node.{ENode, Status, success, socket_inexistent}
use tri_ha_rd_higher_resilie.Node.Cipher.{Aead, Cipher, decrypt}
use tri_ha_rd_higher_resilie.Node.Messages.{handle_message}
use tri_ha_rd_higher_resilie.Node.Socket.{call, setup_socket}
use tri_ha_rd_higher_resilie.Node.Receive.{
  Read, times_out, breaks, reads_nothing, arrives, Arrival, Host, receive, reply, read_round,
  locked_read, stop_found, continue_if, loop_recvfrom,
}

-- A read that brings no datagram, or one that does not decrypt. Of a failed decryption libsodium
-- documents that the length of the output is 0.
abbrev pub Rejects : Aead → Cipher → Read → Type 0
Rejects A c times_out = Unit {0}
Rejects A c (breaks s) = Unit {0}
Rejects A c reads_nothing = Unit {0}
Rejects A c (arrives a) = (A.unseal c.key c.nonce a.bytes ≡ none) × (A.rejected a.bytes ≡ [])

abbrev pub AllReject : Aead → Cipher → List (Bool × Read) → Type 0
AllReject A c [] = Unit {0}
AllReject A c ((stopping, r) ∷ more) = Rejects A c r × AllReject A c more

decrypt_rejected :
    (A : Aead) (a : Arrival) (c : Cipher) → Rejects A c (arrives a) → (decrypt A a.bytes c).1 ≡ []
unfolding decrypt
decrypt_rejected A a c k = rw k.0 k.1

AllReject-cipher :
    (A : Aead) (reads : List (Bool × Read)) (c d : Cipher)
    → d ≡ c
    → AllReject A c reads
    → AllReject A d reads
AllReject-cipher A reads c d e k = subst (λ x. AllReject A x reads) (sym e) k

module _ {F : Double} where
  -- The nodes differ at most in `stop` and `readfrom_stopped`.
  abbrev pub IsIdle : ENode F → ENode F → Type 0
  IsIdle n m = m ≡ record n { stop = m.stop; readfrom_stopped = m.readfrom_stopped }

  module _ (A : Aead) where
    -- A round that changes neither the node nor the cipher.
    record Passes (h : Host F) (r : Option (Host F × Status)) : Type 0 where
      after : Host F
      result : r ≡ some (after, success)
      node : after.node ≡ h.node
      cipher : after.net.cipher ≡ h.net.cipher

    reply_empty :
        (a : Arrival) (h : Host F) (buff : List ℕ)
        → buff ≡ []
        → reply A a.attempts (handle_message a.inputs a.ip a.cport buff h.node) h.net
          ≡ some (h, success)
    unfolding handle_message reply
    reply_empty a h buff e =
        subst
          (λ b.
            reply A a.attempts (handle_message a.inputs a.ip a.cport b h.node) h.net
            ≡ some (h, success))
          (sym e) refl

    read_round-Passes :
        (r : Read) (h : Host F) → Rejects A h.net.cipher r → Passes h (read_round A r h)
    unfolding read_round receive setup_socket call
    read_round-Passes times_out h k = record {
      after = h;
      result = refl;
      node = refl;
      cipher = refl;
    }
    read_round-Passes (breaks s) h k = record {
      after = _;
      result = refl;
      node = refl;
      cipher = ground arith;
    }
    read_round-Passes reads_nothing h k = record {
      after = h;
      result = refl;
      node = refl;
      cipher = refl;
    }
    read_round-Passes (arrives a) h k = record {
      after = h;
      result = reply_empty a h _ (decrypt_rejected A a h.net.cipher k);
      node = refl;
      cipher = refl;
    }

    IsIdle-trans : (n m k : ENode F) → IsIdle n m → IsIdle m k → IsIdle n k
    IsIdle-trans n m k p q =
        let stop_as_k =
          λ (x : ENode F). record x { stop = k.stop; readfrom_stopped = k.readfrom_stopped } in
        q ∙ ap stop_as_k p

    -- How the loop ends.
    pub record Ends (h : Host F) (r : Host F × Status) : Type 0 where
      pub idle : IsIdle h.node r.0.node
      pub status : (r.1 ≡ success) ⊎ (r.1 ≡ socket_inexistent)

    -- However many datagrams arrive that do not decrypt, among time-outs and errors of the socket, a loop
    -- that ends leaves every field of the node but `stop` and `readfrom_stopped` as it was, and reports
    -- no failed decryption. A failed decryption is taken to leave an output of length 0.
    pub loop_recvfrom-Ends :
        (reads : List (Bool × Read)) (h : Host F) (r : Host F × Status)
        → AllReject A h.net.cipher reads
        → loop_recvfrom A reads h ≡ some r
        → Ends h r
    unfolding loop_recvfrom call
    loop_recvfrom-Ends [] h r k e = cc
    loop_recvfrom-Ends ((stopping, first) ∷ more) h r k e =
        elim (Bool-cases (stop_found stopping h).node.stop) [
          | inl stops ↦
              subst (Ends h) (some-injective _ _ (sym (if_true _ _ _ stops) ∙ e))
                (record { idle = refl; status = inl refl })
          | inr goes ↦
              let e' = sym (if_false _ _ _ goes) ∙ e in
              elim (Bool-cases (ltb_ℤ h.net.sock (pos 0))) [
                | inl closed ↦
                    subst (Ends h) (some-injective _ _ (sym (if_true _ _ _ closed) ∙ e'))
                      (record { idle = refl; status = inr refl })
                | inr usable ↦
                    let p = read_round-Passes first (locked_read (stop_found stopping h)) k.0 in
                    let next = λ (m : Host F). loop_recvfrom A more m in
                    let e'' = sym (if_false _ _ _ usable) ∙ e' in
                    let rest =
                      loop_recvfrom-Ends more p.after r (AllReject-cipher A more _ _ p.cipher k.1)
                        (sym (ap (λ x. continue_if x next) p.result) ∙ e'') in
                    record {
                      idle =
                          IsIdle-trans h.node p.after.node r.0.node
                            (subst (IsIdle h.node) (sym p.node) refl) rest.idle;
                      status = rest.status;
                    }
              ]
        ]
