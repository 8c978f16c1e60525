-- ===== src/Authority/Server/Threads.antt =====
-- server.cpp, main: the threads of the time authority, one for each datagram.
use tri_ha_rd_higher_resilie.Base.{
  ℕ, zero, suc, ◌+◌, ◌≡◌, List, [], ◌∷◌, ◌++◌, some, ◌==◌, if◌then◌else◌, arith, Option-cases,
  subst, inl, inr,
}
use tri_ha_rd_higher_resilie.Base.Int.{ℤ}
use tri_ha_rd_higher_resilie.Node.Cipher.{Aead}
use tri_ha_rd_higher_resilie.Authority.{Readings}
use tri_ha_rd_higher_resilie.Authority.Server.{
  Job, Server, Event, arrives, read_fails, runs, Handled, Outcome, continues, exits, accept,
  get_elem?, remove, run_thread, run_one, prepend, serve,
}

-- The datagrams of a client that are read: those before the first failure of `recvfrom`.
abbrev pub count_arrivals : ℕ → List Event → ℕ
count_arrivals c [] = 0
count_arrivals c (arrives client datagram ∷ more) =
    (if client == c then 1 else 0) + count_arrivals c more
count_arrivals c (read_fails ∷ more) = 0
count_arrivals c (runs i r memory ∷ more) = count_arrivals c more

abbrev pub count_waiting : ℕ → List Job → ℕ
count_waiting c [] = 0
count_waiting c (j ∷ js) = (if j.client == c then 1 else 0) + count_waiting c js

abbrev pub count_handled : ℕ → List Handled → ℕ
count_handled c [] = 0
count_handled c (h ∷ hs) = (if h.client == c then 1 else 0) + count_handled c hs

-- Over the whole run.
abbrev pub Accounts : ℕ → ℕ → Outcome → Type 0
Accounts c n (continues s hs) = count_handled c hs + count_waiting c s.threads ≡ n
Accounts c n (exits s hs) = count_handled c hs + count_waiting c s.threads ≡ n

count_waiting-append :
    (c : ℕ) (js ks : List Job)
    → count_waiting c (js ++ ks) ≡ count_waiting c js + count_waiting c ks
count_waiting-append c [] ks = omega arith
count_waiting-append c (j ∷ js) ks = omega (arith, count_waiting-append c js ks)

count_handled-append :
    (c : ℕ) (hs ks : List Handled)
    → count_handled c (hs ++ ks) ≡ count_handled c hs + count_handled c ks
count_handled-append c [] ks = omega arith
count_handled-append c (h ∷ hs) ks = omega (arith, count_handled-append c hs ks)

count_waiting-remove :
    (c : ℕ) (js : List Job) (i : ℕ) (j : Job)
    → get_elem? js i ≡ some j
    → count_waiting c js ≡ (if j.client == c then 1 else 0) + count_waiting c (remove js i)
unfolding get_elem? remove
count_waiting-remove c [] i j e = cc
count_waiting-remove c (k ∷ js) zero j e = ground arith
count_waiting-remove c (k ∷ js) (suc i) j e = ground (arith, count_waiting-remove c js i j e)

Accounts-prepend :
    (c n : ℕ) (hs : List Handled) (o : Outcome)
    → Accounts c n o
    → Accounts c (count_handled c hs + n) (prepend hs o)
Accounts-prepend c n hs (continues s more) a = omega (arith, count_handled-append c hs more)
Accounts-prepend c n hs (exits s more) a = omega (arith, count_handled-append c hs more)

count_waiting-accept :
    (c client : ℕ) (datagram : List ℕ) (s : Server)
    → count_waiting c (accept client datagram s).threads
      ≡ count_waiting c s.threads + (if client == c then 1 else 0)
unfolding accept
count_waiting-accept c client datagram s = omega (arith, count_waiting-append c s.threads (_ ∷ []))

module _ (A : Aead) (key nonce : List ℕ) (netw_delay_ms : ℤ) where
  run_one_counts :
      (c i : ℕ) (r : Readings) (memory : List ℕ) (s : Server)
      → let (next, hs) = run_one A key nonce netw_delay_ms i r memory s in
        count_handled c hs + count_waiting c next.threads ≡ count_waiting c s.threads
  unfolding run_one run_thread
  run_one_counts c i r memory s = elim (Option-cases (get_elem? s.threads i)) [
    | inl absent ↦ rw absent (omega arith)
    | inr (j, found) ↦ rw found (ground (arith, count_waiting-remove c s.threads i j found))
  ]

  -- The counts, from any threads that wait.
  pub count-Accounts :
      (c : ℕ) (events : List Event) (s : Server)
      → Accounts c
          (count_arrivals c events + count_waiting c s.threads)
          (serve A key nonce netw_delay_ms events s)
  unfolding serve
  count-Accounts c [] s = omega arith
  count-Accounts c (arrives client datagram ∷ more) s =
      subst (λ n. Accounts c n (serve A key nonce netw_delay_ms more (accept client datagram s)))
        (omega (arith, count_waiting-accept c client datagram s))
        (count-Accounts c more (accept client datagram s))
  count-Accounts c (read_fails ∷ more) s = omega arith
  count-Accounts c (runs i r memory ∷ more) s =
      let (next, hs) = run_one A key nonce netw_delay_ms i r memory s in
      subst (λ n. Accounts c n (prepend hs (serve A key nonce netw_delay_ms more next)))
        (omega (arith, run_one_counts c i r memory s))
        (Accounts-prepend c _ hs (serve A key nonce netw_delay_ms more next)
          (count-Accounts c more next))
