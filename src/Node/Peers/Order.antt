-- ===== src/Node/Peers/Order.antt =====
-- ENode.cpp: the list of siblings in another order.
use mathlib.Core.List.{Permᴰ}
use tri_ha_rd_higher_resilie.Base.{
  ◌≡◌, refl, sym, ap, subst, ◌∙◌, inl, inr, true, false, List, [], ◌∷◌, ◌++◌, some, Bool-cases,
  if◌then◌else◌,
}
use tri_ha_rd_higher_resilie.Node.{Peer, peer_eq}
use tri_ha_rd_higher_resilie.Node.Peers.{find, replace, emplace, is_found}
use tri_ha_rd_higher_resilie.Node.Peers.Distinct.{
  Absent, Distinct, peer_eq-SameAddress, peer_eq_address, peer_eq_comm,
}

Absent-order : (p : Peer) (ps qs : List Peer) → Permᴰ ps qs → Absent p ps → Absent p qs
Absent-order p _ _ Permᴰ.nil a = tt
Absent-order p _ _ (Permᴰ.cons {a = x} {b = y} {l₁ = l} {l₂ = k} e s) a =
    (subst (λ z. peer_eq z p ≡ false) e a.0, Absent-order p l k s a.1)
Absent-order p _ _ (Permᴰ.swap {a = x} {b = y} e d) a =
    (subst (λ z. peer_eq z p ≡ false) d a.1.0, (subst (λ z. peer_eq z p ≡ false) e a.0, a.1.1))
Absent-order p ps qs (Permᴰ.trans {l₂ = l} s t) a = Absent-order p l qs t (Absent-order p ps l s a)

-- Of two entries at different addresses, at most one is found.
only_one : (p x y : Peer) → peer_eq y x ≡ false → peer_eq x p ≡ true → peer_eq y p ≡ false
only_one p x y apart hit = sym (peer_eq_address x p y (peer_eq-SameAddress x p hit)) ∙ apart

pub Distinct-order : (ps qs : List Peer) → Permᴰ ps qs → Distinct ps → Distinct qs
Distinct-order _ _ Permᴰ.nil d = tt
Distinct-order _ _ (Permᴰ.cons {a = x} {b = y} {l₁ = l} {l₂ = k} e s) d =
    (subst (λ z. Absent z k) e (Absent-order x l k s d.0), Distinct-order l k s d.1)
Distinct-order _ _ (Permᴰ.swap {a = x} {b = y} {a' = x'} {b' = y'} {l = l} e h) d =
    subst (λ z. Distinct (z ∷ y' ∷ l)) h
      (subst (λ z. Distinct (y ∷ z ∷ l)) e ((peer_eq_comm x y ∙ d.0.0, d.1.0), (d.0.1, d.1.1)))
Distinct-order ps qs (Permᴰ.trans {l₂ = l} s t) d = Distinct-order l qs t (Distinct-order ps l s d)

find-swap :
    (p x y : Peer) (l : List Peer) → peer_eq y x ≡ false → find p (x ∷ y ∷ l) ≡ find p (y ∷ x ∷ l)
unfolding find
find-swap p x y l apart = elim (Bool-cases (peer_eq x p)) [
  | inl hit ↦ rw (hit, only_one p x y apart hit) refl
  | inr miss ↦ rw (miss) refl
]

pub find-order : (p : Peer) (ps qs : List Peer) → Permᴰ ps qs → Distinct ps → find p ps ≡ find p qs
unfolding find
find-order p _ _ Permᴰ.nil d = refl
find-order p _ _ (Permᴰ.cons {a = x} {b = y} {l₁ = l} {l₂ = k} e s) d =
    ap (λ z. find p (z ∷ l)) e
    ∙ ap (λ o. if peer_eq y p then some y else o) (find-order p l k s d.1)
find-order p _ _ (Permᴰ.swap {a = x} {b = y} {a' = x'} {b' = y'} {l = l} e h) d =
    find-swap p x y l d.0.0 ∙ ap (λ z. find p (y ∷ z ∷ l)) e ∙ ap (λ z. find p (z ∷ y' ∷ l)) h
find-order p ps qs (Permᴰ.trans {l₂ = l} s t) d =
    find-order p ps l s d ∙ find-order p l qs t (Distinct-order ps l s d)

replace-swap :
    (p new x y : Peer) (l : List Peer)
    → peer_eq y x ≡ false
    → Permᴰ (replace p new (x ∷ y ∷ l)) (replace p new (y ∷ x ∷ l))
unfolding replace
replace-swap p new x y l apart = elim (Bool-cases (peer_eq x p)) [
  | inl hit ↦ rw (hit, only_one p x y apart hit) (Permᴰ.swap refl refl)
  | inr miss ↦ elim (Bool-cases (peer_eq y p)) [
    | inl hit ↦ rw (miss, hit) (Permᴰ.swap refl refl)
    | inr other ↦ rw (miss, other) (Permᴰ.swap refl refl)
  ]
]

pub replace-order :
    (p new : Peer) (ps qs : List Peer)
    → Permᴰ ps qs
    → Distinct ps
    → Permᴰ (replace p new ps) (replace p new qs)
unfolding replace
replace-order p new _ _ Permᴰ.nil d = Permᴰ.nil
replace-order p new _ _ (Permᴰ.cons {a = x} {b = y} {l₁ = l} {l₂ = k} e s) d =
    elim (Bool-cases (peer_eq y p)) [
      | inl hit ↦ rw (ap (λ z. peer_eq z p) e ∙ hit, hit) (Permᴰ.cons refl s)
      | inr miss ↦
          rw (ap (λ z. peer_eq z p) e ∙ miss, miss) (Permᴰ.cons e (replace-order p new l k s d.1))
    ]
replace-order p new _ _ (Permᴰ.swap {a = x} {b = y} {a' = x'} {b' = y'} {l = l} e h) d =
    subst (λ z. Permᴰ (replace p new (x ∷ y ∷ l)) (replace p new (z ∷ y' ∷ l))) h
      (subst (λ z. Permᴰ (replace p new (x ∷ y ∷ l)) (replace p new (y ∷ z ∷ l))) e
        (replace-swap p new x y l d.0.0))
replace-order p new ps qs (Permᴰ.trans {l₂ = l} s t) d =
    Permᴰ.trans (replace-order p new ps l s d)
      (replace-order p new l qs t (Distinct-order ps l s d))

append-order :
    (p : Peer) (ps qs : List Peer) → Permᴰ ps qs → Permᴰ (ps ++ (p ∷ [])) (qs ++ (p ∷ []))
append-order p _ _ Permᴰ.nil = Permᴰ.cons refl Permᴰ.nil
append-order p _ _ (Permᴰ.cons {l₁ = l} {l₂ = k} e s) = Permᴰ.cons e (append-order p l k s)
append-order p _ _ (Permᴰ.swap e h) = Permᴰ.swap e h
append-order p ps qs (Permᴰ.trans {l₂ = l} s t) =
    Permᴰ.trans (append-order p ps l s) (append-order p l qs t)

pub emplace-order :
    (p : Peer) (ps qs : List Peer) → Permᴰ ps qs → Distinct ps → Permᴰ (emplace p ps) (emplace p qs)
unfolding emplace
emplace-order p ps qs s d = elim (Bool-cases (is_found (find p qs))) [
  | inl known ↦ rw (ap is_found (find-order p ps qs s d) ∙ known, known) s
  | inr new ↦ rw (ap is_found (find-order p ps qs s d) ∙ new, new) (append-order p ps qs s)
]
