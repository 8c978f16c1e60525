-- ===== src/Manager.antt =====
-- trihard/node/Enclave/ecalls.cpp: the nodes of an enclave, by port, and the calls into it. The map is
-- the list of its entries; the order is not observed.
pub mod Entries
use tri_ha_rd_higher_resilie.Base.{
  ℕ, Bool, true, false, List, [], ◌∷◌, Option, none, some, ◌==◌, if◌then◌else◌,
}
use tri_ha_rd_higher_resilie.Node.{Status, success, socket_already_exists}

module _ {V : Type 0} where
  -- `nodes.find(port)`.
  unfoldable pub lookup : ℕ → List (ℕ × V) → Option V
  lookup port [] = none
  lookup port ((k, v) ∷ nodes) = if k == port then some v else lookup port nodes

  unfoldable pub erase : ℕ → List (ℕ × V) → List (ℕ × V)
  erase port [] = []
  erase port ((k, v) ∷ nodes) =
      let rest = erase port nodes in if k == port then nodes else (k, v) ∷ rest

  -- What a call of a method leaves of the node, in its place.
  unfoldable pub update : ℕ → V → List (ℕ × V) → List (ℕ × V)
  update port w [] = []
  update port w ((k, v) ∷ nodes) =
      let rest = update port w nodes in if k == port then (k, w) ∷ nodes else (k, v) ∷ rest

  abbrev init_found : ℕ → V → List (ℕ × V) → Option V → List (ℕ × V) × Status
  init_found port new nodes none = ((port, new) ∷ nodes, success)
  init_found port new nodes (some v) = (nodes, socket_already_exists)

  -- `ecall_init`, with the node that `new ENode(…)` makes.
  unfoldable pub ecall_init : ℕ → V → List (ℕ × V) → List (ℕ × V) × Status
  unfolding lookup
  ecall_init port new nodes = init_found port new nodes (lookup port nodes)

  abbrev destroy_found : ℕ → List (ℕ × V) → Option V → List (ℕ × V) × Status
  destroy_found port nodes none = (nodes, socket_already_exists)
  destroy_found port nodes (some v) = (erase port nodes, success)

  unfoldable pub ecall_destroy : ℕ → List (ℕ × V) → List (ℕ × V) × Status
  unfolding lookup erase
  ecall_destroy port nodes = destroy_found port nodes (lookup port nodes)

-- The map after a call, what the call writes for its caller, and its result.
pub record Called (V R : Type 0) : Type 0 where
  pub nodes : List (ℕ × V)
  pub output : Option R
  pub status : Status

module _ {V R : Type 0} where
  abbrev called : ℕ → List (ℕ × V) → Option (V × R) → Option (Called V R)
  called port nodes none = none
  called port nodes (some (w, r)) =
      some (record { nodes = update port w nodes; output = some r; status = success })

  abbrev call_found : (V → Option (V × R)) → ℕ → List (ℕ × V) → Option V → Option (Called V R)
  call_found method port nodes none =
      some (record { nodes = nodes; output = none; status = socket_already_exists })
  call_found method port nodes (some v) = called port nodes (method v)

  -- The other calls: `ecall_stop`, `ecall_monitor`, `ecall_loop_recvfrom`, `ecall_refresh`,
  -- `ecall_untaint_trigger`, `ecall_add_sibling`, `ecall_get_timestamp` and `ecall_poll_timestamp` run
  -- one method of the node; `none` means that it does not return. `ecall_get_timestamp` writes the
  -- timestamp through its pointer; the others have no output, so `R` is `Unit` for them.
  unfoldable pub ecall : (V → Option (V × R)) → ℕ → List (ℕ × V) → Option (Called V R)
  unfolding lookup update
  ecall method port nodes = call_found method port nodes (lookup port nodes)
