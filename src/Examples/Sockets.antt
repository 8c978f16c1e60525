-- ===== src/Examples/Sockets.antt =====
-- Witnesses for the socket and the encryption, with a cipher that prefixes a byte.
use tri_ha_rd_higher_resilie.Base.{
  ℕ, ◌+◌, ◌≤◌, ◌++◌, ◌≡◌, refl, ◌⊎◌, Bool, true, false, arith, List, [], ◌∷◌, Option, none, some,
  if◌then◌else◌, ◌==◌, replicate, Has, inl, inr,
}
use tri_ha_rd_higher_resilie.Base.Int.{pos, ◌≤ℤ◌, ◌<ℤ◌}
use tri_ha_rd_higher_resilie.Double.Exact.{exact}
use tri_ha_rd_higher_resilie.Node.{
  Datagram, success, socket_inexistent, peer, peer_eq, sending_error,
}
use tri_ha_rd_higher_resilie.Node.Cipher.{
  Aead, Cipher, encrypt, decrypt, increment_nonce, test_encdec,
}
use tri_ha_rd_higher_resilie.Node.Messages.{handle_message}
use tri_ha_rd_higher_resilie.Node.Socket.{
  rdlock, wrlock, unlock, sends, setup_socket, Net, Setup, Attempt, goes, would_block, fails, call,
  send_loop, send_message,
}
use tri_ha_rd_higher_resilie.Node.Socket.Locking.{
  taken, released, retries, IsLost, send_message_lem,
}
use tri_ha_rd_higher_resilie.Node.Peers.{find}
use tri_ha_rd_higher_resilie.Node.Join.{join}
use tri_ha_rd_higher_resilie.Node.Join.Closing.{closings, join_closes_twice}
use tri_ha_rd_higher_resilie.Node.Receive.{
  Read, times_out, arrives, Arrival, Host, receive, reply, loop_recvfrom, read_round,
}
use tri_ha_rd_higher_resilie.Node.Receive.Authentic.{loop_recvfrom-Ends, Ends}
use tri_ha_rd_higher_resilie.Node.Receive.Delivery.{sealed}
use tri_ha_rd_higher_resilie.Node.Tasks.{test_key, create}
use tri_ha_rd_higher_resilie.Node.Tasks.Delivery.{Lives, created, sent, receive-send_message}
use tri_ha_rd_higher_resilie.Examples.{noon, steady}

-- A sealed message is the message after one byte, 7.
abbrev unsealed : List ℕ → Option (List ℕ)
unsealed [] = none
unsealed (b ∷ p) = if b == 7 then some p else none

abbrev pub marking : Aead
marking = record {
  seal = λ key nonce p. 7 ∷ p;
  unseal = λ key nonce c. unsealed c;
  rejected = λ c. [];
}

abbrev cipher : Cipher
cipher = record { nonce = replicate 12 0; key = 1 ∷ []; init = true }

abbrev pub net : Net
net = record { sock = pos 3; cipher = cipher; calls = [] }

abbrev host : Host exact
host = record { node = steady; net = net }

abbrev unbound : Setup
unbound = record { fd = pos 4; binds = false }

abbrev hello : Datagram
hello = record { payload = b'H' ∷ []; ip = "127.0.0.1"; port = 12346 }

abbrev twice : List Attempt
twice = would_block false ∷ (goes ∷ [])

abbrev after_twice : Net
after_twice = record net {
  calls =
      unlock
      ∷ (sends (pos 3) (record hello { payload = 7 ∷ b'H' ∷ [] }) ∷ (unlock ∷ (rdlock ∷ [])));
}

twice_runs : send_message marking hello twice net ≡ some (after_twice, success)
unfolding send_message send_loop encrypt increment_nonce call
twice_runs = refl

not-IsLost : ¬ IsLost twice
unfolding IsLost
not-IsLost l = l.1

send_message_lem_example :
    ((net.sock <ℤ pos 0)
      × (success ≡ socket_inexistent)
      × (taken after_twice.calls + released net.calls
          ≡ released after_twice.calls + taken net.calls))
    ⊎ ((pos 0 ≤ℤ net.sock)
        × (success ≡ success)
        × (retries twice + taken after_twice.calls + released net.calls
            ≡ released after_twice.calls + taken net.calls))
send_message_lem_example =
    send_message_lem marking hello twice net after_twice success twice_runs not-IsLost

abbrev forged : Arrival
forged = record {
  bytes = 9 ∷ b'U' ∷ [];
  ip = "127.0.0.1";
  cport = 12346;
  inputs = record { now = noon; xmt_tsc = pos 6000 };
  attempts = [];
}

abbrev reads : List (Bool × Read)
reads = (false, times_out) ∷ ((false, arrives forged) ∷ ((true, times_out) ∷ []))

abbrev ended : Host exact
ended = record {
  node = record steady { stop = true; readfrom_stopped = true };
  net = record net { calls = unlock ∷ (rdlock ∷ (unlock ∷ (rdlock ∷ []))) };
}

reads_end : loop_recvfrom marking reads host ≡ some (ended, success)
unfolding loop_recvfrom read_round receive decrypt reply handle_message call
reads_end = refl

loop_recvfrom-Ends_example : Ends marking host (ended, success)
loop_recvfrom-Ends_example =
    loop_recvfrom-Ends marking reads host (ended, success) (tt, ((refl, refl), (tt, tt))) reads_end

abbrev genuine : Arrival
genuine = record forged { bytes = 7 ∷ b'H' ∷ []; attempts = goes ∷ [] }

-- Two nodes are created alike, and the one to which the message arrives has sent it before.
abbrev setup : Setup
setup = record { fd = pos 3; binds = true }

abbrev fresh : Host exact
fresh = record host { net = record net { cipher = record cipher { init = false } } }

abbrev made : Host exact
made = create marking setup fresh 12345 steady.tsc_freq steady.tsc_freq (pos 0)

made-Lives : Lives marking made
made-Lives = created setup fresh 12345 steady.tsc_freq steady.tsc_freq (pos 0) refl

abbrev said : Net
said = record {
  sock = pos 3;
  cipher = record { nonce = replicate 12 0; key = test_key; init = true };
  calls =
      unlock
      ∷ (sends (pos 3) (sealed marking hello made.net.cipher)
          ∷ (rdlock ∷ (unlock ∷ (wrlock ∷ []))));
}

said_once : send_message marking hello (goes ∷ []) made.net ≡ some (said, success)
unfolding create setup_socket test_encdec send_message send_loop encrypt increment_nonce call
said_once = refl

not_said : ¬ Has (sends (pos 3) (sealed marking hello made.net.cipher)) made.net.calls
unfolding create setup_socket call
not_said h = ground (arith, h)

receive-send_message_example :
    let later = record made { net = said } in
    receive marking genuine later
    ≡ reply marking genuine.attempts
        (handle_message genuine.inputs genuine.ip genuine.cport hello.payload later.node)
        later.net
unfolding encrypt
receive-send_message_example =
    receive-send_message marking made (record made { net = said }) hello (goes ∷ []) said success
      (pos 3) (sealed marking hello made.net.cipher) genuine (λ key nonce p. refl) made-Lives
      (sent made hello (goes ∷ []) said success made-Lives said_once) said_once (inr (inl refl))
      not_said refl

join_closes_twice_example :
    let (joined, after, status) = join marking true "10.0.0.9" 12350 steady net in
    (joined.siblings ≡ steady.siblings ++ (peer "10.0.0.9" 12350 ∷ []))
    × (status ≡ sending_error)
    × (after.sock ≡ net.sock)
    × ((later : Net) × (send_message marking hello
            (fails (record { fd = pos 9; binds = true }) ∷ [])
            after
          ≡ some (later, success))
        × (2 + closings net.sock net.calls ≤ closings net.sock later.calls))
unfolding find peer_eq
join_closes_twice_example =
    join_closes_twice marking "10.0.0.9" 12350 steady net hello
      (record { fd = pos 9; binds = true }) refl (omega arith)
