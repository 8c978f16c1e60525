-- ===== src/Manager/Entries.antt =====
-- Which nodes an enclave has after its calls.
use mathlib.Core.Option.{some-ne-none}
use tri_ha_rd_higher_resilie.Base.{
  ℕ, ◌≡◌, ◌≢◌, refl, sym, ◌∙◌, inl, inr, if_true, if_false, true, false, List, [], ◌∷◌, Option,
  none, some, ◌==◌, Option-cases, arith, if◌then◌else◌,
}
use tri_ha_rd_higher_resilie.Node.{success, socket_already_exists}
use tri_ha_rd_higher_resilie.Manager.{lookup, erase, update, ecall_init, ecall_destroy, ecall}

other_port : (port other : ℕ) → other ≢ port → (other == port) ≡ false
other_port port other h = ground arith

pub same_port : (port : ℕ) → (port == port) ≡ true
same_port port = ground arith

module _ {V : Type 0} where
  -- Every port has at most one node.
  abbrev pub OnePerPort : List (ℕ × V) → Type 0
  OnePerPort [] = Unit {0}
  OnePerPort ((k, v) ∷ nodes) = (lookup k nodes ≡ none) × OnePerPort nodes

  pub lookup-erase :
      (port other : ℕ) (nodes : List (ℕ × V))
      → OnePerPort nodes
      → lookup other (erase port nodes) ≡ (if other == port then none else lookup other nodes)
  unfolding lookup erase
  lookup-erase port other [] u = ground arith
  lookup-erase port other ((k, v) ∷ nodes) u = grind (arith, u.0, lookup-erase port other nodes u.1)

  pub lookup-update :
      (port other : ℕ) (w : V) (nodes : List (ℕ × V))
      → lookup port nodes ≢ none
      → lookup other (update port w nodes) ≡ (if other == port then some w else lookup other nodes)
  unfolding lookup update
  lookup-update port other w [] h = absurd (h refl)
  lookup-update port other w ((k, v) ∷ nodes) h = grind (arith, lookup-update port other w nodes)

  absent-erase :
      (port k : ℕ) (nodes : List (ℕ × V))
      → lookup k nodes ≡ none
      → lookup k (erase port nodes) ≡ none
  unfolding lookup erase
  absent-erase port k [] h = refl
  absent-erase port k ((j, v) ∷ nodes) h = grind (arith, absent-erase port k nodes)

  pub OnePerPort-erase :
      (port : ℕ) (nodes : List (ℕ × V)) → OnePerPort nodes → OnePerPort (erase port nodes)
  unfolding erase
  OnePerPort-erase port [] u = tt
  OnePerPort-erase port ((k, v) ∷ nodes) u =
      ground (arith, OnePerPort-erase port nodes u.1, absent-erase port k nodes u.0)

  absent-update :
      (port k : ℕ) (w : V) (nodes : List (ℕ × V))
      → lookup k nodes ≡ none
      → lookup k (update port w nodes) ≡ none
  unfolding lookup update
  absent-update port k w [] h = refl
  absent-update port k w ((j, v) ∷ nodes) h = grind (arith, absent-update port k w nodes)

  pub OnePerPort-update :
      (port : ℕ) (w : V) (nodes : List (ℕ × V))
      → OnePerPort nodes
      → OnePerPort (update port w nodes)
  unfolding update
  OnePerPort-update port w [] u = tt
  OnePerPort-update port w ((k, v) ∷ nodes) u =
      ground (arith, OnePerPort-update port w nodes u.1, absent-update port k w nodes u.0)

  -- The nodes of other ports are as before.
  abbrev pub SameOthers : ℕ → List (ℕ × V) → List (ℕ × V) → Type 0
  SameOthers port nodes after = (other : ℕ) → other ≢ port → lookup other after ≡ lookup other nodes

  init_others :
      (port : ℕ) (new : V) (nodes : List (ℕ × V)) → SameOthers port nodes ((port, new) ∷ nodes)
  unfolding lookup
  init_others port new nodes other h = ground arith

  init_here :
      (port : ℕ) (new : V) (nodes : List (ℕ × V)) → lookup port ((port, new) ∷ nodes) ≡ some new
  unfolding lookup
  init_here port new nodes = ground arith

  -- `ecall_init` adds its node when the port has none, and otherwise reports that one exists and
  -- changes nothing; no other port is touched, and every port keeps at most one node.
  pub ecall_init_lem :
      (port : ℕ) (new : V) (nodes : List (ℕ × V))
      → OnePerPort nodes
      → let (after, status) = ecall_init port new nodes in
        OnePerPort after
        × SameOthers port nodes after
        × (lookup port nodes ≡ none → (status ≡ success) × (lookup port after ≡ some new))
        × (lookup port nodes ≢ none → (status ≡ socket_already_exists) × (after ≡ nodes))
  unfolding ecall_init
  ecall_init_lem port new nodes u = elim (Option-cases (lookup port nodes)) [
    | inl absent ↦ rw absent (
      (absent, u),
      init_others port new nodes,
      λ h. (refl, init_here port new nodes),
      λ h. absurd (h refl),
    )
    | inr (v, present) ↦
        rw present (u, λ other h. refl, λ h. absurd (some-ne-none _ h), λ h. (refl, refl))
  ]

  -- `ecall_destroy` removes the node of its port, and reports that a node exists, and changes nothing,
  -- when there is none; no other port is touched, and every port keeps at most one node.
  pub ecall_destroy_lem :
      (port : ℕ) (nodes : List (ℕ × V))
      → OnePerPort nodes
      → let (after, status) = ecall_destroy port nodes in
        OnePerPort after
        × SameOthers port nodes after
        × (lookup port after ≡ none)
        × (lookup port nodes ≢ none → status ≡ success)
        × (lookup port nodes ≡ none → (status ≡ socket_already_exists) × (after ≡ nodes))
  unfolding ecall_destroy
  ecall_destroy_lem port nodes u = elim (Option-cases (lookup port nodes)) [
    | inl absent ↦ rw absent (u, λ other h. refl, absent, λ h. absurd (h refl), λ h. (refl, refl))
    | inr (v, present) ↦ rw present (
      OnePerPort-erase port nodes u,
      λ other h. lookup-erase port other nodes u ∙ if_false _ _ _ (other_port port other h),
      lookup-erase port port nodes u ∙ if_true _ _ _ (same_port port),
      λ h. refl,
      λ h. absurd (some-ne-none _ h),
    )
  ]

module _ {V R : Type 0} where
  -- A call whose method returns leaves the node of its port as the method does, hands on its output,
  -- and reports success; without a node it reports that one exists, has no output and changes
  -- nothing. No other port is touched.
  pub ecall_lem :
      (method : V → Option (V × R)) (port : ℕ) (nodes : List (ℕ × V))
      → OnePerPort nodes
      → ((v w : V) (r : R)
          → lookup port nodes ≡ some v
          → method v ≡ some (w, r)
          → (after : List (ℕ × V)) × (ecall method port nodes
              ≡ some (record { nodes = after; output = some r; status = success }))
            × OnePerPort after
            × SameOthers port nodes after
            × (lookup port after ≡ some w))
        × (lookup port nodes ≡ none
            → ecall method port nodes
              ≡ some (record { nodes = nodes; output = none; status = socket_already_exists }))
  unfolding ecall
  ecall_lem method port nodes u = (
    λ v w r present returns. (
      update port w nodes,
      rw (present, returns) refl,
      OnePerPort-update port w nodes u,
      λ other h.
          lookup-update port other w nodes (λ e. some-ne-none v (sym present ∙ e))
          ∙ if_false _ _ _ (other_port port other h),
      lookup-update port port w nodes (λ e. some-ne-none v (sym present ∙ e))
          ∙ if_true _ _ _ (same_port port),
    ),
    λ absent. rw absent refl,
  )
