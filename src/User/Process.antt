-- ===== src/User/Process.antt =====
-- main.cpp and Node.cpp: what the calls of the program do to the nodes of the process. `created` is the
-- enclave that SGX makes for the node of a port, if it does.
pub mod Presence
pub mod Ends
pub mod Balance
use tri_ha_rd_higher_resilie.Base.{ℕ, List, [], ◌∷◌, ◌++◌, Option}
use tri_ha_rd_higher_resilie.Base.Int.{ℤ}
use tri_ha_rd_higher_resilie.Double.{Double}
use tri_ha_rd_higher_resilie.Launcher.{
  Thread, Action, Node, bench_timestamp, bench_lat_timestamp, encl_poll_timestamp, get_instance,
  destroy_instance, start_on,
}
use tri_ha_rd_higher_resilie.User.{Call}
use tri_ha_rd_higher_resilie.User

module _ {F : Double} (created : ℕ → Option ℕ) where
  -- `add_sibling` enters the enclave, and changes nothing outside of it.
  unfoldable pub perform : Call F → List (ℕ × Node) → List (ℕ × Node) × List Action
  unfolding get_instance destroy_instance start_on
  perform (User.gets_instance port core freq shadow sleep) nodes =
      get_instance (created port) port core sleep nodes
  perform (User.destroys_instance port) nodes = destroy_instance port nodes
  perform (User.bench_timestamp port) nodes = start_on port bench_timestamp nodes
  perform (User.bench_lat_timestamp port) nodes = start_on port bench_lat_timestamp nodes
  perform (User.encl_poll_timestamp port count us) nodes =
      start_on port (encl_poll_timestamp count us) nodes
  perform (User.usleeps us) nodes = (nodes, [])
  perform (User.sleeps s) nodes = (nodes, [])
  perform (User.adds_sibling port hostname other) nodes = (nodes, [])

  unfoldable pub perform_all : List (Call F) → List (ℕ × Node) → List (ℕ × Node) × List Action
  unfolding perform
  perform_all [] nodes = (nodes, [])
  perform_all (c ∷ cs) nodes =
      let (next, actions) = perform c nodes in
      let (last, more) = perform_all cs next in (last, actions ++ more)
