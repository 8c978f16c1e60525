-- ===== src/Authority/Server/Buffer.antt =====
-- server.cpp, main: what the threads find in the receive buffer that they share.
use tri_ha_rd_higher_resilie.Base.{ℕ, ◌≡◌, refl, ap, ◌∙◌, List, [], ◌∷◌, ◌++◌, map, length, take}
use tri_ha_rd_higher_resilie.Base.Int.{ℤ}
use tri_ha_rd_higher_resilie.Node.Cipher.{Aead}
use tri_ha_rd_higher_resilie.Authority.{Readings, handle_msg}
use tri_ha_rd_higher_resilie.Authority.Server.{
  Job, Server, Event, arrives, runs, Handled, Outcome, continues, exits, received, accept,
  get_elem?, remove, run_thread, run_found, run_one, prepend, serve,
}

take-append : (xs ys : List ℕ) → take (length xs) (xs ++ ys) ≡ xs
take-append [] ys = refl
take-append (x ∷ xs) ys = ap (◌∷◌ x) (take-append xs ys)

-- A datagram, and the run of its thread.
pub record Turn : Type 0 where
  pub client : ℕ
  pub datagram : List ℕ
  pub readings : Readings
  pub memory : List ℕ

-- Each thread runs before the next datagram is read.
abbrev pub turns : List Turn → List Event
turns [] = []
turns (t ∷ more) = arrives t.client t.datagram ∷ (runs 0 t.readings t.memory ∷ turns more)

-- Both datagrams are read before the threads run, in order.
abbrev pub both_first : Turn → Turn → List Event
both_first t u =
    arrives t.client t.datagram
    ∷ (arrives u.client u.datagram
        ∷ (runs 0 t.readings t.memory ∷ (runs 0 u.readings u.memory ∷ [])))

abbrev pub handled_of : Outcome → List Handled
handled_of (continues s h) = h
handled_of (exits s h) = h

pub handled_of-prepend :
    (h : List Handled) (o : Outcome) → handled_of (prepend h o) ≡ h ++ handled_of o
handled_of-prepend h (continues s more) = refl
handled_of-prepend h (exits s more) = refl

module _ (A : Aead) (key nonce : List ℕ) (netw_delay_ms : ℤ) where
  -- The handler on the datagram of a turn.
  abbrev pub own : Turn → Handled
  own t = record {
    client = t.client;
    actions = handle_msg A key nonce netw_delay_ms t.readings t.memory (received t.datagram);
  }

  abbrev job_of : Turn → Job
  job_of t = record { client = t.client; read_status = length (received t.datagram) }

  -- What a thread does whose read left `xs` at the front of the buffer, or bytes as many.
  run_thread-prefix :
      (t : Turn) (xs ys : List ℕ) (s : Server)
      → length (received t.datagram) ≡ length xs
      → s.buff ≡ xs ++ ys
      → run_thread A key nonce netw_delay_ms (job_of t) t.readings t.memory s ≡ record {
        client = t.client;
        actions = handle_msg A key nonce netw_delay_ms t.readings t.memory xs;
      }
  unfolding run_thread
  run_thread-prefix t xs ys s e b = rw (e, b, take-append xs ys) refl

  -- The first waiting thread runs.
  run_one_first :
      (t : Turn) (js : List Job) (s : Server)
      → s.threads ≡ job_of t ∷ js
      → run_one A key nonce netw_delay_ms 0 t.readings t.memory s ≡ (
        record s { threads = js },
        run_thread A key nonce netw_delay_ms (job_of t) t.readings t.memory s ∷ [],
      )
  unfolding run_one get_elem? remove
  run_one_first t js s e =
      ap
        (λ ts.
          run_found A key nonce netw_delay_ms (get_elem? ts 0) 0 t.readings t.memory
            (record s { threads = ts }))
        e

  -- If each thread runs before the next datagram is read, then each client is sent what the handler
  -- sends for its own datagram, cut to 1024 bytes, in the order of the datagrams.
  pub serve-turns :
      (ts : List Turn) (s : Server)
      → s.threads ≡ []
      → handled_of (serve A key nonce netw_delay_ms (turns ts) s) ≡ map own ts
  unfolding serve
  serve-turns [] s idle = refl
  serve-turns (t ∷ ts) s idle =
      let first = accept t.client t.datagram s in
      rw
        (
          run_one_first t [] first (unfold accept in ap (λ js. js ++ (job_of t ∷ [])) idle),
          run_thread-prefix t (received t.datagram) _ first refl (unfold accept in refl),
        )
        (handled_of-prepend (own t ∷ []) _ ∙ ap (λ hs. own t ∷ hs) (serve-turns ts _ refl))

  -- If two datagrams of one length arrive before a thread runs, then both clients are sent what the
  -- handler sends for the second datagram.
  pub serve_overwritten :
      (t u : Turn) (s : Server)
      → s.threads ≡ []
      → length (received t.datagram) ≡ length (received u.datagram)
      → handled_of (serve A key nonce netw_delay_ms (both_first t u) s)
        ≡ own (record t { datagram = u.datagram }) ∷ (own u ∷ [])
  unfolding serve get_elem? remove
  serve_overwritten t u s idle same =
      let first = accept t.client t.datagram s in
      let second = accept u.client u.datagram first in
      let waiting : second.threads ≡ job_of t ∷ (job_of u ∷ []) =
        unfold accept in ap (λ js. (js ++ (job_of t ∷ [])) ++ (job_of u ∷ [])) idle in
      let after = record second { threads = job_of u ∷ [] } in
      rw
        (
          run_one_first t (job_of u ∷ []) second waiting,
          run_thread-prefix t (received u.datagram) _ second same (unfold accept in refl),
          run_thread-prefix u (received u.datagram) _ after refl (unfold accept in refl),
        )
        refl
