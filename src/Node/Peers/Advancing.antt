-- ===== src/Node/Peers/Advancing.antt =====
-- ENode.cpp: the list of siblings, and the rounds that they have answered, over time.
use tri_ha_rd_higher_resilie.Base.{
  ◌≡◌, refl, sym, ◌∙◌, ap, subst, inl, inr, true, false, List, [], ◌∷◌, ◌++◌, some, Bool-cases,
  arith,
}
use mathlib.Core.Option.{some-injective}
use tri_ha_rd_higher_resilie.Base.Int.{◌≤ℤ◌}
use tri_ha_rd_higher_resilie.Node.{Peer, peer_eq}
use tri_ha_rd_higher_resilie.Node.Peers.{find, replace, emplace, is_found}
use tri_ha_rd_higher_resilie.Node.Peers.Distinct.{
  SameAddress, peer_eq-SameAddress, SameAddress-peer_eq, peer_eq_address, peer_eq_comm,
}

-- The peers keep their places and addresses, new ones come last, and no recorded round goes back.
abbrev pub Advances : List Peer → List Peer → Type 0
Advances [] qs = Unit {0}
Advances (p ∷ ps) [] = ⊥
Advances (p ∷ ps) (q ∷ qs) =
    SameAddress p q × (p.last_ts_is_consistent.0 ≤ℤ q.last_ts_is_consistent.0) × Advances ps qs

pub Advances-refl : (ps : List Peer) → Advances ps ps
Advances-refl [] = tt
Advances-refl (p ∷ ps) = ((refl, refl), omega arith, Advances-refl ps)

pub Advances-trans : (ps qs rs : List Peer) → Advances ps qs → Advances qs rs → Advances ps rs
Advances-trans [] qs rs a b = tt
Advances-trans (p ∷ ps) [] rs a b = absurd a
Advances-trans (p ∷ ps) (q ∷ qs) [] a b = absurd b
Advances-trans (p ∷ ps) (q ∷ qs) (r ∷ rs) a b =
    ((a.0.0 ∙ b.0.0, a.0.1 ∙ b.0.1), omega arith, Advances-trans ps qs rs a.2 b.2)

Advances-append : (ps qs : List Peer) → Advances ps (ps ++ qs)
Advances-append [] qs = tt
Advances-append (p ∷ ps) qs = ((refl, refl), omega arith, Advances-append ps qs)

pub Advances-emplace : (p : Peer) (ps : List Peer) → Advances ps (emplace p ps)
unfolding emplace
Advances-emplace p ps = elim (Bool-cases (is_found (find p ps))) [
  | inl known ↦ rw known (Advances-refl ps)
  | inr new ↦ rw new (Advances-append ps (p ∷ []))
]

find-SameAddress : (p q : Peer) (ps : List Peer) → find p ps ≡ some q → SameAddress q p
unfolding find
find-SameAddress p q [] found = cc
find-SameAddress p q (e ∷ es) found = elim (Bool-cases (peer_eq e p)) [
  | inl hit ↦
      subst (λ x. SameAddress x p) (some-injective e q (rw hit at found))
        (peer_eq-SameAddress e p hit)
  | inr miss ↦ find-SameAddress p q es (rw miss at found)
]

-- The entry of the sender is written over by a newer one.
pub Advances-replace :
    (p q new : Peer) (ps : List Peer)
    → find p ps ≡ some q
    → SameAddress q new
    → q.last_ts_is_consistent.0 ≤ℤ new.last_ts_is_consistent.0
    → Advances ps (replace q new ps)
unfolding find replace
Advances-replace p q new [] found same newer = cc
Advances-replace p q new (e ∷ es) found same newer = elim (Bool-cases (peer_eq e p)) [
  | inl hit ↦
      let here : e ≡ q = some-injective e q (rw hit at found) in
      let matches : peer_eq e q ≡ true =
        SameAddress-peer_eq e q (ap (λ x. x.hostname) here, ap (λ x. x.port) here) in
      rw matches (
        (ap (λ x. x.hostname) here ∙ same.0, ap (λ x. x.port) here ∙ same.1),
        subst (λ x. x.last_ts_is_consistent.0 ≤ℤ new.last_ts_is_consistent.0) (sym here) newer,
        Advances-refl es,
      )
  | inr miss ↦
      let later = rw miss at found in
      let found_at = find-SameAddress p q es later in
      let other : peer_eq e q ≡ false =
        sym (peer_eq_address p q e (sym found_at.0, sym found_at.1)) ∙ miss in
      rw other ((refl, refl), omega arith, Advances-replace p q new es later same newer)
]

-- A peer that is found stays found, with a round that is no older.
pub find-Advances :
    (p q : Peer) (ps qs : List Peer)
    → Advances ps qs
    → find p ps ≡ some q
    → (r : Peer) × (find p qs ≡ some r) × (q.last_ts_is_consistent.0 ≤ℤ r.last_ts_is_consistent.0)
unfolding find
find-Advances p q [] qs a found = cc
find-Advances p q (e ∷ es) [] a found = absurd a
find-Advances p q (e ∷ es) (r ∷ rs) a found = elim (Bool-cases (peer_eq e p)) [
  | inl hit ↦
      let here : e ≡ q = some-injective e q (rw hit at found) in
      let found_at = peer_eq-SameAddress e p hit in
      let matches : peer_eq r p ≡ true =
        SameAddress-peer_eq r p (sym a.0.0 ∙ found_at.0, sym a.0.1 ∙ found_at.1) in
      rw matches
        (r, refl, subst (λ x. x.last_ts_is_consistent.0 ≤ℤ r.last_ts_is_consistent.0) here a.1)
  | inr miss ↦
      let other : peer_eq r p ≡ false =
        peer_eq_comm r p ∙ sym (peer_eq_address e r p a.0) ∙ peer_eq_comm p e ∙ miss in
      rw other (find-Advances p q es rs a.2 (rw miss at found))
]
