-- ===== src/Node/Tasks/Delivery.antt =====
-- ENode.cpp, `sendMessage` of one node and `loop_recvfrom` of another, from their creation on.
use mathlib.Core.Option.{some-injective}
use tri_ha_rd_higher_resilie.Base.{
  ℕ, ◌≡◌, refl, sym, ◌∙◌, ap, subst, List, [], ◌∷◌, false, some, none, arith, Option, Has,
}
use tri_ha_rd_higher_resilie.Base.Int.{ℤ, negsuc}
use tri_ha_rd_higher_resilie.Double.{Double}
use tri_ha_rd_higher_resilie.Node.{ENode, Datagram, Status}
use tri_ha_rd_higher_resilie.Node.Cipher.{Aead, encrypt, decrypt, increment_nonce, test_encdec}
use tri_ha_rd_higher_resilie.Node.Messages.{handle_message}
use tri_ha_rd_higher_resilie.Node.Socket.{
  Call, Net, Setup, Attempt, call, sends, closes, send_message,
}
use tri_ha_rd_higher_resilie.Node.Receive.{
  Arrival, Read, times_out, breaks, reads_nothing, arrives, Host, receive, read_round, reply,
  replied,
}
use tri_ha_rd_higher_resilie.Node.Receive.Delivery.{Opens, sealed, decrypt-sealed}
use tri_ha_rd_higher_resilie.Node.Tasks.{test_key, create}
use tri_ha_rd_higher_resilie.Node.Tasks.Sent.{
  IsFirst, Sent, setup_socket-cipher, increment_nonce-IsFirst, keyed-IsFirst, send_message-Sent,
}

module _ (A : Aead) where
  reply-IsFirst :
      {F : Double} (attempts : List Attempt) (n : ENode F) (out : List Datagram) (net : Net)
      (h : Host F) (status : Status)
      → reply A attempts (n, out) net ≡ some (h, status)
      → IsFirst net.cipher
      → IsFirst h.net.cipher
  unfolding reply
  reply-IsFirst attempts n [] net h status e f =
      subst (λ k. IsFirst k.0.net.cipher) (some-injective _ _ e) f
  reply-IsFirst attempts n (d ∷ _) net h status e f =
      by (send_message A d attempts net)
        (λ after st p. send_message-Sent A d attempts net after st p) e
    where
      by :
          (o : Option (Net × Status))
          → ((after : Net) (st : Status) → o ≡ some (after, st) → Sent A d net after)
          → replied n o ≡ some (h, status)
          → IsFirst h.net.cipher
      by none p e = cc
      by (some (after, st)) p e =
          subst (λ k. IsFirst k.0.net.cipher) (some-injective _ _ e) ((p after st refl).first f)

  -- The states of a host from its creation on: it sends messages, it reads, and its other operations
  -- change the node, and lock and close the socket.
  pub data Lives {F : Double} : Host F → Type 0 where
    created :
        (s : Setup) (memory : Host F) (port : ℕ) (tsc_freq shadow_tsc_freq : F.Value)
        (sleep_attack_ms : ℤ)
        → memory.net.cipher.init ≡ false
        → Lives (create A s memory port tsc_freq shadow_tsc_freq sleep_attack_ms)
    sent :
        (h : Host F) (d : Datagram) (attempts : List Attempt) (after : Net) (status : Status)
        → Lives h
        → send_message A d attempts h.net ≡ some (after, status)
        → Lives (record h { net = after })
    read :
        (h later : Host F) (r : Read) (status : Status)
        → Lives h
        → read_round A r h ≡ some (later, status)
        → Lives later
    changed :
        (h : Host F) (n : ENode F) (sock : ℤ) (calls : List Call)
        → Lives h
        → Lives (record { node = n; net = record h.net { sock = sock; calls = calls } })

  read_round-IsFirst :
      {F : Double} (r : Read) (h later : Host F) (status : Status)
      → read_round A r h ≡ some (later, status)
      → IsFirst h.net.cipher
      → IsFirst later.net.cipher
  unfolding read_round receive call
  read_round-IsFirst times_out h later status e f =
      subst (λ k. IsFirst k.0.net.cipher) (some-injective _ _ e) f
  read_round-IsFirst (breaks s) h later status e f =
      subst (λ k. IsFirst k.0.net.cipher) (some-injective _ _ e)
        (subst IsFirst
          (sym
            (setup_socket-cipher s (record (call (closes h.net.sock) h.net) { sock = negsuc 0 })))
          f)
  read_round-IsFirst reads_nothing h later status e f =
      subst (λ k. IsFirst k.0.net.cipher) (some-injective _ _ e) f
  read_round-IsFirst (arrives a) h later status e f =
      reply-IsFirst a.attempts _ _ h.net later status e f

  create-IsFirst :
      {F : Double} (s : Setup) (memory : Host F) (port : ℕ) (tsc_freq shadow_tsc_freq : F.Value)
      (sleep_attack_ms : ℤ)
      → memory.net.cipher.init ≡ false
      → IsFirst (create A s memory port tsc_freq shadow_tsc_freq sleep_attack_ms).net.cipher
  unfolding create test_encdec encrypt
  create-IsFirst s memory port tsc_freq shadow_tsc_freq sleep_attack_ms e =
      increment_nonce-IsFirst _ (
        subst IsFirst
          (sym (
            setup_socket-cipher s (record memory.net {
              sock = negsuc 0;
              cipher = record (increment_nonce memory.net.cipher) { key = test_key };
            })))
          (keyed-IsFirst memory.net.cipher e))

  Lives-IsFirst : {F : Double} (h : Host F) → Lives h → IsFirst h.net.cipher
  Lives-IsFirst _ (created s memory port f sf ms e) = create-IsFirst s memory port f sf ms e
  Lives-IsFirst _ (sent h d attempts after status l e) =
      (send_message-Sent A d attempts h.net after status e).first (Lives-IsFirst h l)
  Lives-IsFirst _ (read h later r status l e) =
      read_round-IsFirst r h later status e (Lives-IsFirst h l)
  Lives-IsFirst _ (changed h n sock calls l) =
      let f = Lives-IsFirst h l in record { key = f.key; nonce = f.nonce; init = f.init }

  -- Take two hosts as they are created by processes whose nonce is not set yet, and then live: each
  -- sends any messages, reads any datagrams, and changes in any other way that leaves the key and the
  -- nonce. If sealed messages open, then each datagram that a call of `sendMessage` of the one adds to
  -- its calls of `sendto`, whatever its attempts meet, is read by the other as the message that was
  -- given to `sendMessage`: its `loop_recvfrom` handles that plaintext, and sends the reply.
  pub receive-send_message :
      {F G : Double} (from : Host F) (h : Host G) (d : Datagram) (attempts : List Attempt)
      (after : Net) (status : Status) (fd : ℤ) (e : Datagram) (a : Arrival)
      → Opens A
      → Lives from
      → Lives h
      → send_message A d attempts from.net ≡ some (after, status)
      → Has (sends fd e) after.calls
      → ¬ Has (sends fd e) from.net.calls
      → a.bytes ≡ e.payload
      → receive A a h
        ≡ reply A a.attempts (handle_message a.inputs a.ip a.cport d.payload h.node) h.net
  unfolding receive encrypt
  receive-send_message from h d attempts after status fd e a opens lives lives' call_ends new old
        arrived =
      let c = increment_nonce-IsFirst from.net.cipher (Lives-IsFirst from lives) in
      let k = Lives-IsFirst h lives' in
      let same : e ≡ sealed A d from.net.cipher = ground (
        arith,
        (send_message-Sent A d attempts from.net after status call_ends).new fd e new,
        old,
      ) in
      ap (λ b. reply A a.attempts (handle_message a.inputs a.ip a.cport b h.node) h.net)
        (ap (λ b. (decrypt A b h.net.cipher).1) (arrived ∙ ap (λ x. x.payload) same)
          ∙ decrypt-sealed A d from.net.cipher h.net.cipher opens (k.key ∙ sym c.key)
              (k.nonce ∙ sym c.nonce))
