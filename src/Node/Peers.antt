-- ===== src/Node/Peers.antt =====
-- trihard/node/Enclave/ENode.cpp: the list of siblings, `add_sibling` and the sibling message.
use Prim.Native.String.{String}
pub mod Advancing
pub mod Distinct
pub mod Order
use text.Mathlib.Text.{◌==◌ as str_eq}
use tri_ha_rd_higher_resilie.Base.{
  ℕ, Bool, true, false, ◌&&◌, ◌||◌, List, [], ◌∷◌, ◌++◌, Option, none, some, ◌==◌, if◌then◌else◌,
}
use tri_ha_rd_higher_resilie.Double.{Double}
use tri_ha_rd_higher_resilie.Wire.{sibling_str}
use tri_ha_rd_higher_resilie.Node.{
  ENode, Datagram, Peer, peer, peer_eq, Status, success, sending_error,
}

-- `std::find(siblings.begin(), siblings.end(), p)`.
unfoldable pub find : Peer → List Peer → Option Peer
unfolding peer_eq
find p [] = none
find p (q ∷ qs) = if peer_eq q p then some q else find p qs

-- `siblings[index] = …` at the index that `find` gave.
unfoldable pub replace : Peer → Peer → List Peer → List Peer
unfolding peer_eq
replace p new [] = []
replace p new (q ∷ qs) = if peer_eq q p then new ∷ qs else q ∷ replace p new qs

abbrev pub is_found : Option Peer → Bool
is_found none = false
is_found (some q) = true

-- `find(…) == end()` and `emplace_back`.
unfoldable pub emplace : Peer → List Peer → List Peer
unfolding find
emplace p siblings = if is_found (find p siblings) then siblings else siblings ++ (p ∷ [])

module _ {F : Double} where
  -- `case 'S'` of `handle_message`.
  unfoldable pub accept_sibling : String → ℕ → ENode F → ENode F
  unfolding emplace
  accept_sibling ip cport n = record n { siblings = emplace (peer ip cport) n.siblings }

  abbrev pub is_self : String → ℕ → ENode F → Bool
  is_self hostname port n = str_eq hostname "127.0.0.1" && port == n.port

  -- `add_sibling`: the new state, the datagram given to `sendto`, and the result. `failed` says
  -- whether `sendto` reports an error.
  unfoldable pub add_sibling : Bool → String → ℕ → ENode F → ENode F × List Datagram × Status
  unfolding emplace
  add_sibling failed hostname port n =
      if is_self hostname port n || is_found (find (peer hostname port) n.siblings)
      then (n, [], success)
      else (
        record n { siblings = emplace (peer hostname port) n.siblings },
        record { payload = sibling_str; ip = hostname; port = port } ∷ [],
        if failed then sending_error else success,
      )
