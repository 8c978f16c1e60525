-- ===== src/Base/Lists.antt =====
-- Lists measured and cut by native numbers.
use Prim.Native.Nat.{ℕ, zero, suc, ◌+◌}
use mathlib.Core.Path.{◌≡◌, refl, ap, ◌∙◌}
use mathlib.Core.Logic.{◌⊎◌}
use mathlib.Core.List.{List, [], ◌∷◌, ◌++◌, Permᴰ}
use native.Mathlib.Omega.{arith}

module _ {ℓ} {A : Type ℓ} where
  abbrev pub length : List A → ℕ
  length [] = 0
  length (x ∷ xs) = suc (length xs)

  abbrev pub take : ℕ → List A → List A
  take zero xs = []
  take (suc n) [] = []
  take (suc n) (x ∷ xs) = x ∷ take n xs

  abbrev pub drop : ℕ → List A → List A
  drop zero xs = xs
  drop (suc n) [] = []
  drop (suc n) (x ∷ xs) = drop n xs

  abbrev pub replicate : ℕ → A → List A
  replicate zero a = []
  replicate (suc n) a = a ∷ replicate n a

  pub length-append : (xs ys : List A) → length (xs ++ ys) ≡ length xs + length ys
  length-append [] ys = omega arith
  length-append (x ∷ xs) ys = omega (arith, length-append xs ys)

-- A member.
abbrev pub Has : {A : Type 0} → A → List A → Type 0
Has x [] = ⊥
Has x (y ∷ ys) = (x ≡ y) ⊎ Has x ys

-- A function that does not see the exchange of two neighbours does not see the order of a list.
pub Permᴰ-ap {ℓ κ} :
    {A : Type ℓ} {B : Type κ} (f : List A → B)
    → ((x : A) (l k : List A) → f l ≡ f k → f (x ∷ l) ≡ f (x ∷ k))
    → ((x y : A) (l : List A) → f (x ∷ y ∷ l) ≡ f (y ∷ x ∷ l))
    → (l k : List A) → Permᴰ l k
    → f l ≡ f k
Permᴰ-ap f below swapped _ _ Permᴰ.nil = refl
Permᴰ-ap f below swapped _ _ (Permᴰ.cons {a = x} {l₁ = l} {l₂ = k} e s) =
    below x l k (Permᴰ-ap f below swapped l k s) ∙ ap (λ z. f (z ∷ k)) e
Permᴰ-ap f below swapped _ _ (Permᴰ.swap {a = x} {b = y} {b' = y'} {l = l} e h) =
    swapped x y l ∙ ap (λ z. f (y ∷ z ∷ l)) e ∙ ap (λ z. f (z ∷ y' ∷ l)) h
Permᴰ-ap f below swapped l k (Permᴰ.trans {l₂ = m} s t) =
    Permᴰ-ap f below swapped l m s ∙ Permᴰ-ap f below swapped m k t
