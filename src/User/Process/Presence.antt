-- ===== src/User/Process/Presence.antt =====
-- main.cpp and Node.cpp: the nodes of the process after the calls of the program.
use mathlib.Core.Option.{some-ne-none}
use tri_ha_rd_higher_resilie.Base.{
  ℕ, ◌≡◌, refl, sym, ◌∙◌, ap, subst, inl, inr, Bool, true, false, ◌&&◌, ◌||◌, not, List, [], ◌∷◌,
  Option, none, some, ◌==◌, ==_iff, Bool-cases, Option-cases, arith,
}
use tri_ha_rd_higher_resilie.Base.Int.{ℤ}
use tri_ha_rd_higher_resilie.Double.{Double}
use tri_ha_rd_higher_resilie.Manager.{lookup, erase, update}
use tri_ha_rd_higher_resilie.Manager.Entries.{
  OnePerPort, lookup-erase, lookup-update, OnePerPort-erase, OnePerPort-update,
}
use tri_ha_rd_higher_resilie.Launcher.{Thread, Node, get_instance, destroy_instance, start_on}
use tri_ha_rd_higher_resilie.User.{Call, Config, Build, run}
use tri_ha_rd_higher_resilie.User.Process.{perform, perform_all}
use tri_ha_rd_higher_resilie.User

abbrev pub is_some : Option Node → Bool
is_some none = false
is_some (some n) = true

abbrev pub has : ℕ → List (ℕ × Node) → Bool
has q nodes = is_some (lookup q nodes)

here : (port q : ℕ) → (port == q) ≡ true → port ≡ q
here port q = (==_iff port q).0

has-cons :
    (port q : ℕ) (n : Node) (nodes : List (ℕ × Node))
    → has q ((port, n) ∷ nodes) ≡ port == q || has q nodes
unfolding lookup
has-cons port q n nodes = elim (Bool-cases (port == q)) [
  | inl same ↦ rw same refl
  | inr other ↦ rw other refl
]

has_found :
    (port q : ℕ) (n : Node) (nodes : List (ℕ × Node))
    → lookup port nodes ≡ some n
    → has q nodes ≡ port == q || has q nodes
has_found port q n nodes found = elim (Bool-cases (port == q)) [
  | inl same ↦ rw same (subst (λ k. has k nodes ≡ true) (here port q same) (ap is_some found))
  | inr other ↦ rw other refl
]

has_absent :
    (port q : ℕ) (nodes : List (ℕ × Node))
    → lookup port nodes ≡ none
    → has q nodes ≡ not (port == q) && has q nodes
has_absent port q nodes absent = elim (Bool-cases (port == q)) [
  | inl same ↦ rw same (subst (λ k. has k nodes ≡ false) (here port q same) (ap is_some absent))
  | inr other ↦ rw other refl
]

swapped : (a b : ℕ) → (a == b) ≡ (b == a)
swapped a b = ground arith

has-erase :
    (port q : ℕ) (nodes : List (ℕ × Node))
    → OnePerPort nodes
    → has q (erase port nodes) ≡ not (port == q) && has q nodes
has-erase port q nodes u =
    ap is_some (lookup-erase port q nodes u) ∙ elim (Bool-cases (port == q)) [
      | inl same ↦ rw (swapped q port, same) refl
      | inr other ↦ rw (swapped q port, other) refl
    ]

has-update :
    (port q : ℕ) (n m : Node) (nodes : List (ℕ × Node))
    → lookup port nodes ≡ some n
    → has q (update port m nodes) ≡ has q nodes
has-update port q n m nodes found =
    ap is_some (lookup-update port q m nodes (λ e. some-ne-none n (sym found ∙ e)))
    ∙ elim (Bool-cases (port == q)) [
      | inl same ↦
          rw (swapped q port, same)
            (subst (λ k. true ≡ has k nodes) (here port q same) (ap is_some (sym found)))
      | inr other ↦ rw (swapped q port, other) refl
    ]

-- What an operation leaves: whether a port has a node, for every port.
pub record Leaves (nodes after : List (ℕ × Node)) (f : ℕ → Bool → Bool) : Type 0 where
  pub unique : OnePerPort after
  pub present : (q : ℕ) → has q after ≡ f q (has q nodes)

get_instance-Leaves :
    (created : Option ℕ) (port : ℕ) (core sleep : ℤ) (nodes : List (ℕ × Node))
    → OnePerPort nodes
    → Leaves nodes (get_instance created port core sleep nodes).0 (λ q b. port == q || b)
unfolding get_instance
get_instance-Leaves created port core sleep nodes u = elim (Option-cases (lookup port nodes)) [
  | inl absent ↦ rw absent (record { unique = (absent, u); present = λ q. has-cons port q _ nodes })
  | inr (n, found) ↦ rw found (record { unique = u; present = λ q. has_found port q n nodes found })
]

destroy_instance-Leaves :
    (port : ℕ) (nodes : List (ℕ × Node))
    → OnePerPort nodes
    → Leaves nodes (destroy_instance port nodes).0 (λ q b. not (port == q) && b)
unfolding destroy_instance
destroy_instance-Leaves port nodes u = elim (Option-cases (lookup port nodes)) [
  | inl absent ↦ rw absent (record { unique = u; present = λ q. has_absent port q nodes absent })
  | inr (n, found) ↦
      rw found
        (record { unique = OnePerPort-erase port nodes u; present = λ q. has-erase port q nodes u })
]

start_on-Leaves :
    (port : ℕ) (t : Thread) (nodes : List (ℕ × Node))
    → OnePerPort nodes
    → Leaves nodes (start_on port t nodes).0 (λ q b. b)
unfolding start_on
start_on-Leaves port t nodes u = elim (Option-cases (lookup port nodes)) [
  | inl absent ↦ rw absent (record { unique = u; present = λ q. refl })
  | inr (n, found) ↦ rw found (record {
    unique = OnePerPort-update port _ nodes u;
    present = λ q. has-update port q n _ nodes found;
  })
]

unchanged : {nodes : List (ℕ × Node)} → OnePerPort nodes → Leaves nodes nodes (λ q b. b)
unchanged u = record { unique = u; present = λ q. refl }

module _ {F : Double} where
  -- The nodes that a call starts and ends, by port.
  abbrev pub effect : Call F → ℕ → Bool → Bool
  effect (User.gets_instance port core freq shadow sleep) q b = port == q || b
  effect (User.destroys_instance port) q b = not (port == q) && b
  effect _ q b = b

  abbrev pub present_after : ℕ → List (Call F) → Bool → Bool
  present_after q [] b = b
  present_after q (c ∷ cs) b = present_after q cs (effect c q b)

  perform-Leaves :
      (created : ℕ → Option ℕ) (c : Call F) (nodes : List (ℕ × Node))
      → OnePerPort nodes
      → Leaves nodes (perform created c nodes).0 (effect c)
  unfolding perform
  perform-Leaves created (User.gets_instance port core freq shadow sleep) nodes u =
      get_instance-Leaves (created port) port core sleep nodes u
  perform-Leaves created (User.destroys_instance port) nodes u =
      destroy_instance-Leaves port nodes u
  perform-Leaves created (User.bench_timestamp port) nodes u = start_on-Leaves port _ nodes u
  perform-Leaves created (User.bench_lat_timestamp port) nodes u = start_on-Leaves port _ nodes u
  perform-Leaves created (User.encl_poll_timestamp port n us) nodes u =
      start_on-Leaves port _ nodes u
  perform-Leaves created (User.usleeps us) nodes u = unchanged u
  perform-Leaves created (User.sleeps s) nodes u = unchanged u
  perform-Leaves created (User.adds_sibling port h other) nodes u = unchanged u

  pub perform_all-Leaves :
      (created : ℕ → Option ℕ) (cs : List (Call F)) (nodes : List (ℕ × Node))
      → OnePerPort nodes
      → Leaves nodes (perform_all created cs nodes).0 (λ q b. present_after q cs b)
  unfolding perform_all
  perform_all-Leaves created [] nodes u = unchanged u
  perform_all-Leaves created (c ∷ cs) nodes u =
      let first = perform-Leaves created c nodes u in
      let rest = perform_all-Leaves created cs (perform created c nodes).0 first.unique in
      record {
        unique = rest.unique;
        present = λ q. rest.present q ∙ ap (present_after q cs) (first.present q);
      }
