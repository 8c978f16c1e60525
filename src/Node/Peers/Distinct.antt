-- ===== src/Node/Peers/Distinct.antt =====
-- ENode.cpp: the addresses of the siblings, before and after one is added.
use text.Mathlib.TextEquality.{eq_iff}
use Prim.Native.String.{String}
use tri_ha_rd_higher_resilie.Base.{
  ℕ, ◌≡◌, refl, sym, ◌∙◌, ◌⊎◌, inl, inr, Bool, true, false, arith, List, [], ◌∷◌, ◌++◌, Bool-cases,
}
use tri_ha_rd_higher_resilie.Double.{Double}
use tri_ha_rd_higher_resilie.Node.{ENode, Peer, peer, peer_eq}
use tri_ha_rd_higher_resilie.Node.Peers.{
  find, replace, emplace, is_found, accept_sibling, add_sibling,
}

-- Two peers have one address.
abbrev pub SameAddress : Peer → Peer → Type 0
SameAddress p q = (p.hostname ≡ q.hostname) × (p.port ≡ q.port)

pub peer_eq-SameAddress : (p q : Peer) → peer_eq p q ≡ true → SameAddress p q
unfolding peer_eq
peer_eq-SameAddress p q h = ground (arith, eq_iff p.hostname q.hostname)

pub SameAddress-peer_eq : (p q : Peer) → SameAddress p q → peer_eq p q ≡ true
unfolding peer_eq
SameAddress-peer_eq p q h = ground (arith, eq_iff p.hostname q.hostname)

-- No peer of the list has the address of `p`.
abbrev pub Absent : Peer → List Peer → Type 0
Absent p [] = Unit {0}
Absent p (q ∷ qs) = (peer_eq q p ≡ false) × Absent p qs

abbrev pub Distinct : List Peer → Type 0
Distinct [] = Unit {0}
Distinct (p ∷ ps) = Absent p ps × Distinct ps

find-Absent : (p : Peer) (ps : List Peer) → is_found (find p ps) ≡ false → Absent p ps
unfolding find
find-Absent p [] h = tt
find-Absent p (q ∷ qs) h = ground (arith, find-Absent p qs)

pub peer_eq_comm : (p q : Peer) → peer_eq p q ≡ peer_eq q p
unfolding peer_eq
peer_eq_comm p q = ground (arith, eq_iff p.hostname q.hostname, eq_iff q.hostname p.hostname)

-- Comparisons see the address alone.
pub peer_eq_address : (p q r : Peer) → SameAddress p q → peer_eq r p ≡ peer_eq r q
unfolding peer_eq
peer_eq_address p q r h = ground (arith, h)

Absent-address : (p q : Peer) (ps : List Peer) → SameAddress p q → Absent p ps → Absent q ps
Absent-address p q [] h a = tt
Absent-address p q (r ∷ rs) h a = (sym (peer_eq_address p q r h) ∙ a.0, Absent-address p q rs h a.1)

Absent-append :
    (p q : Peer) (ps : List Peer) → Absent p ps → peer_eq q p ≡ false → Absent p (ps ++ (q ∷ []))
Absent-append p q [] h k = (k, tt)
Absent-append p q (r ∷ rs) h k = (h.0, Absent-append p q rs h.1 k)

Distinct-append :
    (p : Peer) (ps : List Peer) → Distinct ps → Absent p ps → Distinct (ps ++ (p ∷ []))
Distinct-append p [] d a = (tt, tt)
Distinct-append p (q ∷ qs) d a =
    (Absent-append q p qs d.0 (peer_eq_comm p q ∙ a.0), Distinct-append p qs d.1 a.1)

pub emplace-Distinct : (p : Peer) (ps : List Peer) → Distinct ps → Distinct (emplace p ps)
unfolding emplace
emplace-Distinct p ps d = ground (arith, find-Absent p ps, Distinct-append p ps d)

-- An entry that is written over by one with its address.
Absent-replace :
    (p new r : Peer) (ps : List Peer)
    → SameAddress new p
    → Absent r ps
    → Absent r (replace p new ps)
unfolding replace
Absent-replace p new r [] h a = tt
Absent-replace p new r (q ∷ qs) h a = elim (Bool-cases (peer_eq q p)) [
  | inl hit ↦
      let same : SameAddress q p = peer_eq-SameAddress q p hit in
      let here : peer_eq new r ≡ false =
        peer_eq_comm new r
        ∙ peer_eq_address new q r (h.0 ∙ sym same.0, h.1 ∙ sym same.1)
        ∙ peer_eq_comm r q
        ∙ a.0 in
      rw hit (here, a.1)
  | inr miss ↦ rw miss (a.0, Absent-replace p new r qs h a.1)
]

pub replace-Distinct :
    (p new : Peer) (ps : List Peer) → SameAddress new p → Distinct ps → Distinct (replace p new ps)
unfolding replace
replace-Distinct p new [] h d = tt
replace-Distinct p new (q ∷ qs) h d = elim (Bool-cases (peer_eq q p)) [
  | inl hit ↦
      let same : SameAddress q p = peer_eq-SameAddress q p hit in
      rw hit (Absent-address q new qs (same.0 ∙ sym h.0, same.1 ∙ sym h.1) d.0, d.1)
  | inr miss ↦ rw miss (Absent-replace p new q qs h d.0, replace-Distinct p new qs h d.1)
]

pub peer_eq_refl : (p : Peer) → peer_eq p p ≡ true
peer_eq_refl p = SameAddress-peer_eq p p (refl, refl)

find-append : (p : Peer) (ps : List Peer) → is_found (find p (ps ++ (p ∷ []))) ≡ true
unfolding find
find-append p [] = rw (peer_eq_refl p)
find-append p (q ∷ qs) = ground (arith, find-append p qs)

-- A peer that is added is found afterwards.
pub find-emplace : (p : Peer) (ps : List Peer) → is_found (find p (emplace p ps)) ≡ true
unfolding emplace
find-emplace p ps = ground (arith, find-append p ps)

-- If the addresses of the siblings are pairwise different, they are so after `add_sibling` and after
-- a sibling message, and the peer is then found in the list; the only call that leaves it out is
-- one with the node's own port on 127.0.0.1.
pub siblings-Distinct :
    {F : Double} (failed : Bool) (hostname : String) (port : ℕ) (n : ENode F)
    → Distinct n.siblings
    → let added = (add_sibling failed hostname port n).0.siblings in
      let met = (accept_sibling hostname port n).siblings in
      Distinct added
      × Distinct met
      × ((is_found (find (peer hostname port) added) ≡ true)
          ⊎ ((hostname ≡ "127.0.0.1") × (port ≡ n.port)))
      × (is_found (find (peer hostname port) met) ≡ true)
unfolding add_sibling accept_sibling
siblings-Distinct failed hostname port n d = ground (
  arith,
  emplace-Distinct (peer hostname port) n.siblings d,
  find-emplace (peer hostname port) n.siblings,
  eq_iff hostname "127.0.0.1",
)
