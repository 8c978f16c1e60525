-- ===== src/Authority/Server/Origins.antt =====
-- server.cpp, main: what the threads of the time authority handle, and for whom.
use tri_ha_rd_higher_resilie.Base.{
  refl, ℕ, zero, suc, ◌≡◌, List, [], ◌∷◌, ◌++◌, some, arith, subst, inl, inr, sym, ap, ◌⊎◌, Option,
  none, Has, length, take, drop, ◌∙◌,
}
use tri_ha_rd_higher_resilie.Base.Int.{ℤ}
use tri_ha_rd_higher_resilie.Node.Cipher.{Aead}
use tri_ha_rd_higher_resilie.Authority.{Readings, handle_msg}
use tri_ha_rd_higher_resilie.Authority.Server.Buffer.{handled_of, handled_of-prepend}
use mathlib.Core.Option.{some-injective}
use tri_ha_rd_higher_resilie.Authority.Server.{
  Job, Server, Event, arrives, read_fails, runs, Handled, accept, received, get_elem?, remove,
  run_thread, run_found, run_one, prepend, serve,
}
use tri_ha_rd_higher_resilie.Authority.Server.Threads.{
  count_arrivals, count_waiting, Accounts, count-Accounts,
}

-- The receive buffer after the events of a list, the latest first.
abbrev pub buffer : List ℕ → List Event → List ℕ
buffer b [] = b
buffer b (arrives client datagram ∷ past) =
    received datagram ++ drop (length (received datagram)) (buffer b past)
buffer b (read_fails ∷ past) = buffer b past
buffer b (runs i r memory ∷ past) = buffer b past

Has-append : {A : Type 0} (x y : A) (xs : List A) → Has x (xs ++ (y ∷ [])) → Has x xs ⊎ (x ≡ y)
Has-append x y [] (inl e) = inr e
Has-append x y [] (inr h) = absurd h
Has-append x y (z ∷ xs) (inl e) = inl (inl e)
Has-append x y (z ∷ xs) (inr h) = ground (arith, Has-append x y xs h)

Has-remove : (x : Job) (js : List Job) (i : ℕ) → Has x (remove js i) → Has x js
unfolding remove
Has-remove x [] i h = h
Has-remove x (j ∷ js) zero h = inr h
Has-remove x (j ∷ js) (suc i) (inl e) = inl e
Has-remove x (j ∷ js) (suc i) (inr h) = inr (Has-remove x js i h)

Has-get_elem? : (js : List Job) (i : ℕ) (j : Job) → get_elem? js i ≡ some j → Has j js
unfolding get_elem?
Has-get_elem? [] i j e = cc
Has-get_elem? (k ∷ js) zero j e = inl (sym (some-injective k j e))
Has-get_elem? (k ∷ js) (suc i) j e = inr (Has-get_elem? js i j e)

-- A thread that waits was started for a datagram of the past.
abbrev Waits : List Event → Job → Type 0
Waits past j =
    (datagram : List ℕ) × Has (arrives j.client datagram) past
    × (j.read_status ≡ length (received datagram))

later : (e : Event) (past : List Event) (j : Job) → Waits past j → Waits (e ∷ past) j
later e past j (datagram, h, same) = (datagram, inr h, same)

module _ (A : Aead) (key nonce : List ℕ) (netw_delay_ms : ℤ) where
  -- A thread did this in one of the events, for the sender of a datagram that had been read: it handled
  -- as many bytes as that datagram has, of the buffer as all the datagrams read by then left it.
  abbrev pub Ran : List ℕ → List Event → List Event → Handled → Type 0
  Ran b past [] h = ⊥
  Ran b past (arrives client datagram ∷ more) h = Ran b (arrives client datagram ∷ past) more h
  Ran b past (read_fails ∷ more) h = ⊥
  Ran b past (runs i r memory ∷ more) h =
      ((datagram : List ℕ) × Has (arrives h.client datagram) past
        × (h.actions
            ≡ handle_msg A key nonce netw_delay_ms r memory
                (take (length (received datagram)) (buffer b past))))
      ⊎ Ran b (runs i r memory ∷ past) more h

  -- The case of a thread that runs.
  run_found-Ran :
      (b : List ℕ) (past more : List Event) (i : ℕ) (r : Readings) (memory : List ℕ) (s : Server)
      (h : Handled)
      → s.buff ≡ buffer b past
      → ((j : Job) → Has j s.threads → Waits past j)
      → ((next : Server)
          → next.buff ≡ s.buff
          → ((j : Job) → Has j next.threads → Has j s.threads)
          → Has h (handled_of (serve A key nonce netw_delay_ms more next))
          → Ran b (runs i r memory ∷ past) more h)
      → (o : Option Job) → get_elem? s.threads i ≡ o
      → (let (next, hs) = run_found A key nonce netw_delay_ms o i r memory s in
          Has h (handled_of (prepend hs (serve A key nonce netw_delay_ms more next))))
      → Ran b past (runs i r memory ∷ more) h
  unfolding run_thread
  run_found-Ran b past more i r memory s h e waits rest none absent has = inr (
      rest s refl (λ j w. w)
        (subst (Has h) (handled_of-prepend [] (serve A key nonce netw_delay_ms more s)) has))
  run_found-Ran b past more i r memory s h e waits rest (some j) found has =
      elim (subst (Has h)
        (handled_of-prepend (run_thread A key nonce netw_delay_ms j r memory s ∷ [])
          (serve A key nonce netw_delay_ms more (record s { threads = remove s.threads i })))
        has) [
          | inl same ↦
              let (datagram, arrived, status) = waits j (Has-get_elem? s.threads i j found) in
              inl (
                datagram,
                subst (λ c. Has (arrives c datagram) past) (sym (ap (λ x. x.client) same)) arrived,
                ap (λ x. x.actions) same
                    ∙ ap (λ n. handle_msg A key nonce netw_delay_ms r memory (take n s.buff)) status
                    ∙ ap
                        (λ xs.
                          handle_msg A key nonce netw_delay_ms r memory
                            (take (length (received datagram)) xs))
                        e,
              )
          | inr other ↦ inr (
              rest (record s { threads = remove s.threads i }) refl
                (λ k w. Has-remove k s.threads i w) other)
        ]

  serve-Ran :
      (b : List ℕ) (past events : List Event) (s : Server)
      → s.buff ≡ buffer b past
      → ((j : Job) → Has j s.threads → Waits past j)
      → (h : Handled) → Has h (handled_of (serve A key nonce netw_delay_ms events s))
      → Ran b past events h
  unfolding serve accept run_one
  serve-Ran b past [] s e waits h has = has
  serve-Ran b past (read_fails ∷ more) s e waits h has = has
  serve-Ran b past (arrives client datagram ∷ more) s e waits h has =
      serve-Ran b (arrives client datagram ∷ past) more (accept client datagram s)
        (ap (λ xs. received datagram ++ drop (length (received datagram)) xs) e) new h has
    where
      new :
          (j : Job)
          → Has j (accept client datagram s).threads
          → Waits (arrives client datagram ∷ past) j
      new j w = elim (Has-append j _ s.threads w) [
        | inl old ↦ later (arrives client datagram) past j (waits j old)
        | inr same ↦
            (datagram, inl (ap (λ k. arrives k.client datagram) same), ap (λ k. k.read_status) same)
      ]
  serve-Ran b past (runs i r memory ∷ more) s e waits h has =
      run_found-Ran b past more i r memory s h e waits
        (λ next same fewer more_has.
          serve-Ran b (runs i r memory ∷ past) more next (same ∙ e)
            (λ j w. later (runs i r memory) past j (waits j (fewer j w))) h more_has)
        (get_elem? s.threads i) refl has

  -- However datagrams and threads interleave, from a server that no thread waits in: each thread that
  -- has run has run in one of the events, for the sender of a datagram that had been read, and has
  -- handled as many bytes as that datagram has, of the buffer as the datagrams read by then left it.
  -- And for each client, the threads that have run and those that still wait are as many as its
  -- datagrams that were read.
  pub serve-Accounts :
      (events : List Event) (s : Server)
      → s.threads ≡ []
      → ((h : Handled)
          → Has h (handled_of (serve A key nonce netw_delay_ms events s))
          → Ran s.buff [] events h)
        × ((c : ℕ)
            → Accounts c (count_arrivals c events) (serve A key nonce netw_delay_ms events s))
  serve-Accounts events s idle = (
    serve-Ran s.buff [] events s refl (λ j w. absurd (subst (Has j) idle w)),
    λ c.
        subst (λ n. Accounts c n (serve A key nonce netw_delay_ms events s))
          (omega (arith, ap (count_waiting c) idle))
          (count-Accounts A key nonce netw_delay_ms c events s),
  )
