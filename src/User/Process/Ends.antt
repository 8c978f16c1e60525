-- ===== src/User/Process/Ends.antt =====
-- main.cpp and Node.cpp: the nodes of the process at the end of the program.
use mathlib.Core.Bool.{false≢true}
use tri_ha_rd_higher_resilie.Base.{
  ℕ, ◌<◌, ◌≡◌, refl, sym, ◌∙◌, ap, ◌⊎◌, inl, inr, Bool, true, false, ◌&&◌, ◌||◌, not, List, [], ◌∷◌,
  ◌++◌, Option, ◌==◌, Bool-cases, arith,
}
use tri_ha_rd_higher_resilie.Double.{Double}
use tri_ha_rd_higher_resilie.Manager.{lookup}
use tri_ha_rd_higher_resilie.Manager.Entries.{same_port}
use tri_ha_rd_higher_resilie.Launcher.{Thread, Node}
use tri_ha_rd_higher_resilie.User.{
  Call, Config, Build, run, start_nodes, join_nodes, measure_nodes, destroy_nodes, usleeps, sleeps,
}
use tri_ha_rd_higher_resilie.User
use tri_ha_rd_higher_resilie.User.Calls.{collect, starts, ends}
use tri_ha_rd_higher_resilie.User.Mesh.{ports, run-Balanced, ends-destroy_nodes, destroy_nodes-none}
use tri_ha_rd_higher_resilie.User.Process.{perform_all}
use tri_ha_rd_higher_resilie.User.Process.Balance.{
  count_starts, count_joins, running, perform_all-Balanced,
}
use tri_ha_rd_higher_resilie.User.Process.Presence.{has, effect, present_after, perform_all-Leaves}

abbrev mem : ℕ → List ℕ → Bool
mem q [] = false
mem q (p ∷ ps) = p == q || mem q ps

module _ {F : Double} (q : ℕ) where
  present_after-append :
      (cs ds : List (Call F)) (b : Bool)
      → present_after q (cs ++ ds) b ≡ present_after q ds (present_after q cs b)
  present_after-append [] ds b = refl
  present_after-append (c ∷ cs) ds b = present_after-append cs ds (effect c q b)

  -- A port has a node only if it had one, or it was started.
  present_started :
      (cs : List (Call F)) (b : Bool)
      → present_after q cs b ≡ true
      → (b ≡ true) ⊎ (mem q (collect starts cs) ≡ true)
  present_started [] b h = inl h
  present_started (User.gets_instance port core freq shadow sleep ∷ cs) b h =
      ground (arith, present_started cs (port == q || b) h)
  present_started (User.destroys_instance port ∷ cs) b h =
      ground (arith, present_started cs (not (port == q) && b) h)
  present_started (User.bench_timestamp port ∷ cs) b h = present_started cs b h
  present_started (User.bench_lat_timestamp port ∷ cs) b h = present_started cs b h
  present_started (User.encl_poll_timestamp port n us ∷ cs) b h = present_started cs b h
  present_started (User.usleeps us ∷ cs) b h = present_started cs b h
  present_started (User.sleeps s ∷ cs) b h = present_started cs b h
  present_started (User.adds_sibling port hostname other ∷ cs) b h = present_started cs b h

  absent_stays : (cs : List (Call F)) → collect starts cs ≡ [] → present_after q cs false ≡ false
  absent_stays cs s = elim (Bool-cases (present_after q cs false)) [
    | inr absent ↦ absent
    | inl present ↦ elim (present_started cs false present) [
      | inl before ↦ absurd (false≢true before)
      | inr started ↦ absurd (false≢true (sym (ap (mem q) s) ∙ started))
    ]
  ]

  -- If none is started, a port that is ended has no node.
  present_ended :
      (cs : List (Call F)) (b : Bool)
      → collect starts cs ≡ []
      → mem q (collect ends cs) ≡ true
      → present_after q cs b ≡ false
  present_ended [] b s e = absurd (false≢true e)
  present_ended (User.gets_instance port core freq shadow sleep ∷ cs) b s e = cc
  present_ended (User.destroys_instance port ∷ cs) b s e = elim (Bool-cases (port == q)) [
    | inl same ↦ rw same (absent_stays cs s)
    | inr other ↦ rw other (present_ended cs b s (rw other at e))
  ]
  present_ended (User.bench_timestamp port ∷ cs) b s e = present_ended cs b s e
  present_ended (User.bench_lat_timestamp port ∷ cs) b s e = present_ended cs b s e
  present_ended (User.encl_poll_timestamp port n us ∷ cs) b s e = present_ended cs b s e
  present_ended (User.usleeps us ∷ cs) b s e = present_ended cs b s e
  present_ended (User.sleeps n ∷ cs) b s e = present_ended cs b s e
  present_ended (User.adds_sibling port hostname other ∷ cs) b s e = present_ended cs b s e

  -- The last part of the program, after whatever came before.
  run_splits :
      (b : Build) (c : Config F)
      → (x : Bool) × (present_after q (run b c) false ≡ present_after q (destroy_nodes b c) x)
  unfolding run
  run_splits b c = (
    _,
    present_after-append (start_nodes b c) _ false
        ∙ present_after-append (join_nodes b c) _ _
        ∙ present_after-append (measure_nodes b c) _ _,
  )

  run_ends : (b : Build) (c : Config F) → c.port < 65536 → present_after q (run b c) false ≡ false
  run_ends b c p = elim (Bool-cases (mem q (ports b.single_host c.port c.n_nodes))) [
    | inl hosted ↦
        let (x, splits) = run_splits b c in
        splits
        ∙ present_ended (destroy_nodes b c) x (destroy_nodes-none b c starts (λ n. refl))
            (ap (mem q) (ends-destroy_nodes b c p) ∙ hosted)
    | inr other ↦ elim (Bool-cases (present_after q (run b c) false)) [
      | inr absent ↦ absent
      | inl present ↦ elim (present_started (run b c) false present) [
        | inl before ↦ absurd (false≢true before)
        | inr started ↦
            absurd (false≢true (sym other ∙ sym (ap (mem q) (run-Balanced b c p).0) ∙ started))
      ]
    ]
  ]

none_left : (nodes : List (ℕ × Node)) → ((q : ℕ) → has q nodes ≡ false) → nodes ≡ []
unfolding lookup
none_left [] h = refl
none_left ((k, n) ∷ nodes) h = absurd (false≢true (sym (h k) ∙ rw (same_port k) refl))

module _ {F : Double} (created : ℕ → Option ℕ) where
  -- The program leaves no node in its process, and joins every thread that it has started, as often
  -- as it has started it, in each build and whatever enclaves SGX makes.
  pub run-Ends :
      (b : Build) (c : Config F) (p : Thread → Bool)
      → c.port < 65536
      → let (nodes, actions) = perform_all created (run b c) [] in
        (nodes ≡ []) × (count_starts p actions ≡ count_joins p actions)
  unfolding lookup
  run-Ends b c p port =
      let (nodes, actions) = perform_all created (run b c) [] in
      let left = perform_all-Leaves created (run b c) [] tt in
      let none : nodes ≡ [] = none_left nodes (λ q. left.present q ∙ run_ends q b c port) in
      let balanced = perform_all-Balanced p created (run b c) [] in
      (none, omega (arith, balanced, ap (running p) none))
