-- ===== src/Examples/Processes.antt =====
-- Witnesses for the calls into an enclave and for the nodes of a process.
use tri_ha_rd_higher_resilie.Base.{ℕ, refl, List, [], ◌∷◌, Option, some}
use tri_ha_rd_higher_resilie.Manager.{lookup}
use tri_ha_rd_higher_resilie.Manager.Entries.{OnePerPort}

-- Nodes are numbers here.
abbrev nodes : List (ℕ × ℕ)
nodes = (12345, 1) ∷ ((12346, 2) ∷ [])

one_each : OnePerPort nodes
unfolding lookup
one_each = (refl, (refl, tt))

-- A method that makes its node 7 and gives back the old one.
abbrev method : ℕ → Option (ℕ × ℕ)
method v = some (7, v)
