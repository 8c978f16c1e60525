-- ===== src/User/Process/Balance.antt =====
-- Node.cpp: the threads that the calls of a program start and join.
use mathlib.Core.Option.{some-injective}
use tri_ha_rd_higher_resilie.Base.{
  ℕ, ◌+◌, ◌≡◌, refl, ap, inl, inr, Bool, List, [], ◌∷◌, ◌++◌, Option, none, some, map, ◌==◌,
  if◌then◌else◌, Bool-cases, Option-cases, arith,
}
use tri_ha_rd_higher_resilie.Base.Int.{ℤ}
use tri_ha_rd_higher_resilie.Double.{Double}
use tri_ha_rd_higher_resilie.Manager.{lookup, erase, update}
use tri_ha_rd_higher_resilie.Launcher.{
  Thread, Action, starts, joins, destroys, Node, start, construct, destruct, destroy_enclave,
  get_instance, destroy_instance, start_on, constructed,
}
use tri_ha_rd_higher_resilie.User.{Call}
use tri_ha_rd_higher_resilie.User.Process.{perform, perform_all}
use tri_ha_rd_higher_resilie.User

module _ (p : Thread → Bool) where
  abbrev pub one : Thread → ℕ
  one t = if p t then 1 else 0

  -- How many threads among these are such that `p` holds.
  abbrev pub count_threads : List Thread → ℕ
  count_threads [] = 0
  count_threads (t ∷ ts) = one t + count_threads ts

  abbrev pub count_starts : List Action → ℕ
  count_starts [] = 0
  count_starts (starts t ∷ more) = one t + count_starts more
  count_starts (_ ∷ more) = count_starts more

  abbrev pub count_joins : List Action → ℕ
  count_joins [] = 0
  count_joins (joins t ∷ more) = one t + count_joins more
  count_joins (_ ∷ more) = count_joins more

  abbrev pub running : List (ℕ × Node) → ℕ
  running [] = 0
  running ((port, n) ∷ nodes) = count_threads n.threads + running nodes

  count_threads-append :
      (ts us : List Thread) → count_threads (ts ++ us) ≡ count_threads ts + count_threads us
  count_threads-append [] us = omega arith
  count_threads-append (t ∷ ts) us = omega (arith, count_threads-append ts us)

  count_starts-append :
      (xs ys : List Action) → count_starts (xs ++ ys) ≡ count_starts xs + count_starts ys
  count_starts-append [] ys = omega arith
  count_starts-append (starts t ∷ xs) ys = omega (arith, count_starts-append xs ys)
  count_starts-append (_ ∷ xs) ys = count_starts-append xs ys

  count_joins-append :
      (xs ys : List Action) → count_joins (xs ++ ys) ≡ count_joins xs + count_joins ys
  count_joins-append [] ys = omega arith
  count_joins-append (joins t ∷ xs) ys = omega (arith, count_joins-append xs ys)
  count_joins-append (_ ∷ xs) ys = count_joins-append xs ys

  count_joins-map : (ts : List Thread) → count_joins (map joins ts) ≡ count_threads ts
  count_joins-map [] = refl
  count_joins-map (t ∷ ts) = ap (λ n. one t + n) (count_joins-map ts)

  count_starts-map_joins : (ts : List Thread) → count_starts (map joins ts) ≡ 0
  count_starts-map_joins [] = refl
  count_starts-map_joins (t ∷ ts) = count_starts-map_joins ts

  running-erase :
      (port : ℕ) (n : Node) (nodes : List (ℕ × Node))
      → lookup port nodes ≡ some n
      → running nodes ≡ count_threads n.threads + running (erase port nodes)
  unfolding lookup erase
  running-erase port n [] e = cc
  running-erase port n ((k, m) ∷ nodes) e = elim (Bool-cases (k == port)) [
    | inl here ↦ rw here (
        ap (λ (v : Node). count_threads v.threads + running nodes)
          (some-injective m n (rw here at e)))
    | inr other ↦ rw other (omega (arith, running-erase port n nodes (rw other at e)))
  ]

  -- What an operation starts and joins, against the threads of the nodes.
  abbrev pub Balanced : List (ℕ × Node) → List (ℕ × Node) × List Action → Type 0
  Balanced nodes (after, actions) =
      count_starts actions + running nodes ≡ count_joins actions + running after

  running-update :
      (port : ℕ) (n m : Node) (nodes : List (ℕ × Node))
      → lookup port nodes ≡ some n
      → running (update port m nodes) + count_threads n.threads
        ≡ running nodes + count_threads m.threads
  unfolding lookup update
  running-update port n m [] e = cc
  running-update port n m ((k, v) ∷ nodes) e = elim (Bool-cases (k == port)) [
    | inl here ↦
        let same : count_threads v.threads ≡ count_threads n.threads =
          ap (λ (x : Node). count_threads x.threads) (some-injective v n (rw here at e)) in
        rw here (omega arith)
    | inr other ↦ rw other (omega (arith, running-update port n m nodes (rw other at e)))
  ]

  get_instance-Balanced :
      (created : Option ℕ) (port : ℕ) (core sleep : ℤ) (nodes : List (ℕ × Node))
      → Balanced nodes (get_instance created port core sleep nodes)
  unfolding get_instance construct
  get_instance-Balanced created port core sleep nodes = elim (Option-cases (lookup port nodes)) [
    | inl absent ↦ rw absent (made created)
    | inr (n, found) ↦ rw found refl
  ]
    where
      made : (c : Option ℕ) → Balanced nodes (constructed port nodes (construct c port core sleep))
      made none = omega arith
      made (some id) = omega arith

  destroy_enclave_quiet :
      (id : ℕ) → (count_starts (destroy_enclave id) ≡ 0) × (count_joins (destroy_enclave id) ≡ 0)
  destroy_enclave_quiet id = elim (Bool-cases (id == 0)) [
    | inl absent ↦ rw absent (refl, refl)
    | inr made ↦ rw made (refl, refl)
  ]

  destroy_instance-Balanced :
      (port : ℕ) (nodes : List (ℕ × Node)) → Balanced nodes (destroy_instance port nodes)
  unfolding destroy_instance destruct
  destroy_instance-Balanced port nodes = elim (Option-cases (lookup port nodes)) [
    | inl absent ↦ rw absent refl
    | inr (n, found) ↦ rw found (
        omega (
          arith,
          count_starts-append (map joins n.threads) (destroys ∷ destroy_enclave n.enclave_id),
          count_joins-append (map joins n.threads) (destroys ∷ destroy_enclave n.enclave_id),
          count_starts-map_joins n.threads,
          count_joins-map n.threads,
          destroy_enclave_quiet n.enclave_id,
          running-erase port n nodes found,
        ))
  ]

  start_on-Balanced :
      (port : ℕ) (t : Thread) (nodes : List (ℕ × Node)) → Balanced nodes (start_on port t nodes)
  unfolding start_on start
  start_on-Balanced port t nodes = elim (Option-cases (lookup port nodes)) [
    | inl absent ↦ rw absent refl
    | inr (n, found) ↦ rw found (
        omega (
          arith,
          count_threads-append n.threads (t ∷ []),
          running-update port n (record n { threads = n.threads ++ (t ∷ []) }) nodes found,
        ))
  ]

  module _ {F : Double} (created : ℕ → Option ℕ) where
    perform-Balanced :
        (c : Call F) (nodes : List (ℕ × Node)) → Balanced nodes (perform created c nodes)
    unfolding perform
    perform-Balanced (User.gets_instance port core freq shadow sleep) nodes =
        get_instance-Balanced (created port) port core sleep nodes
    perform-Balanced (User.destroys_instance port) nodes = destroy_instance-Balanced port nodes
    perform-Balanced (User.bench_timestamp port) nodes = start_on-Balanced port _ nodes
    perform-Balanced (User.bench_lat_timestamp port) nodes = start_on-Balanced port _ nodes
    perform-Balanced (User.encl_poll_timestamp port n us) nodes = start_on-Balanced port _ nodes
    perform-Balanced (User.usleeps us) nodes = refl
    perform-Balanced (User.sleeps s) nodes = refl
    perform-Balanced (User.adds_sibling port h other) nodes = refl

    -- Whatever calls are made, in whatever order: the threads that were started or ran before are,
    -- each as often, those that were joined or still belong to a node.
    pub perform_all-Balanced :
        (cs : List (Call F)) (nodes : List (ℕ × Node))
        → Balanced nodes (perform_all created cs nodes)
    unfolding perform_all
    perform_all-Balanced [] nodes = refl
    perform_all-Balanced (c ∷ cs) nodes =
        let (next, actions) = perform created c nodes in
        let (last, more) = perform_all created cs next in
        omega (
          arith,
          count_starts-append actions more,
          count_joins-append actions more,
          perform-Balanced c nodes,
          perform_all-Balanced cs next,
        )
