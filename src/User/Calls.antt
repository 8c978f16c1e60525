-- ===== src/User/Calls.antt =====
-- main.cpp: the calls of the program by what they do to the nodes of the host.
use Prim.Native.String.{String}
use tri_ha_rd_higher_resilie.Base.{
  ℕ, zero, suc, ◌+◌, ◌<◌, ltb, ◌≡◌, refl, ◌∙◌, ap, ap₂, sym, Option, none, some, Bool, true, false,
  List, [], ◌∷◌, ◌++◌, map, arith, leb, if◌then◌else◌,
}
use tri_ha_rd_higher_resilie.Base.Int.{ℤ, pos, negsuc, pos_part}
use tri_ha_rd_higher_resilie.Double.{Double}
use tri_ha_rd_higher_resilie.User.{
  Config, Build, Call, gets_instance, usleeps, adds_sibling, bench_timestamp, bench_lat_timestamp,
  encl_poll_timestamp, sleeps, destroys_instance, when, each_more, link, mesh, named, start_nodes,
  join_nodes, measure_nodes, destroy_nodes, run,
}

-- The numbers from `i` on.
abbrev pub upto : ℕ → ℕ → List ℕ
upto i zero = []
upto i (suc k) = i ∷ upto (suc i) k

-- The pairs of `k` numbers from `i` on, the smaller one first.
abbrev pub pairs : ℕ → ℕ → List (ℕ × ℕ)
pairs i zero = []
pairs i (suc k) = map (λ j. (i, j)) (upto (suc i) k) ++ pairs (suc i) k

-- `SINGLE_HOST` runs at most four nodes; without it there is one.
abbrev pub hosted : Bool → ℤ → ℕ
hosted false n = 1
hosted true n = if leb (pos_part n) 1 then 1 else if leb (pos_part n) 4 then pos_part n else 4

-- The tests for four nodes or more.
ltb_more : (i k : ℕ) → i < 4 → ltb i (suc (suc (suc (suc k))) + 0) ≡ true
ltb_more i k h = ground arith

ltb_negative : (i k : ℕ) → ltb (i + suc k) 0 ≡ false
ltb_negative i k = ground arith

hosted_four : (k : ℕ) → hosted true (pos (suc (suc (suc (suc k))))) ≡ 4
hosted_four k = ground arith

each_more-upto {ℓ} :
    {A : Type ℓ} (n : ℤ) (f : ℕ → A) → f 0 ∷ each_more n f ≡ map f (upto 0 (hosted true n))
each_more-upto (negsuc k) f = rw (ltb_negative 1 k, ltb_negative 2 k, ltb_negative 3 k) refl
each_more-upto (pos zero) f = refl
each_more-upto (pos (suc zero)) f = refl
each_more-upto (pos (suc (suc zero))) f = refl
each_more-upto (pos (suc (suc (suc zero)))) f = refl
each_more-upto (pos (suc (suc (suc (suc k))))) f =
    rw
      (
        ltb_more 1 k (omega arith),
        ltb_more 2 k (omega arith),
        ltb_more 3 k (omega arith),
        hosted_four k,
      )
      refl

module _ {F : Double} where
  pub mesh-pairs :
      (port : ℕ) (n : ℤ)
      → mesh {F = F} port n ≡ map (λ p. link port p.0 p.1) (pairs 0 (hosted true n))
  unfolding mesh
  mesh-pairs port (negsuc k) = rw (ltb_negative 1 k, ltb_negative 2 k, ltb_negative 3 k) refl
  mesh-pairs port (pos zero) = refl
  mesh-pairs port (pos (suc zero)) = refl
  mesh-pairs port (pos (suc (suc zero))) = refl
  mesh-pairs port (pos (suc (suc (suc zero)))) = refl
  mesh-pairs port (pos (suc (suc (suc (suc k))))) =
      rw
        (
          ltb_more 1 k (omega arith),
          ltb_more 2 k (omega arith),
          ltb_more 3 k (omega arith),
          hosted_four k,
        )
        refl

  -- What a call starts, measures, ends or links, if it does.
  abbrev pub starts : Call F → Option ℕ
  starts (gets_instance port core freq shadow sleep) = some port
  starts c = none

  abbrev pub measures : Call F → Option ℕ
  measures (bench_timestamp port) = some port
  measures (bench_lat_timestamp port) = some port
  measures (encl_poll_timestamp port count us) = some port
  measures c = none

  abbrev pub ends : Call F → Option ℕ
  ends (destroys_instance port) = some port
  ends c = none

  abbrev pub links : Call F → Option (ℕ × String × ℕ)
  links (adds_sibling port hostname other) = some (port, hostname, other)
  links c = none

  module _ {A : Type 0} (sel : Call F → Option A) where
    abbrev pub keep : Option A → List A → List A
    keep none xs = xs
    keep (some x) xs = x ∷ xs

    abbrev pub collect : List (Call F) → List A
    collect [] = []
    collect (c ∷ cs) = keep (sel c) (collect cs)

    keep-append : (o : Option A) (xs ys : List A) → keep o xs ++ ys ≡ keep o (xs ++ ys)
    keep-append none xs ys = refl
    keep-append (some x) xs ys = refl

    pub collect-append : (cs ds : List (Call F)) → collect (cs ++ ds) ≡ collect cs ++ collect ds
    collect-append [] ds = refl
    collect-append (c ∷ cs) ds =
        ap (keep (sel c)) (collect-append cs ds) ∙ sym (keep-append (sel c) _ _)

    -- Over calls that are all selected, and over calls none of which is.
    pub collect-map :
        {X : Type 0} (f : X → Call F) (g : X → A)
        → ((x : X) → sel (f x) ≡ some (g x))
        → (xs : List X) → collect (map f xs) ≡ map g xs
    collect-map f g h [] = refl
    collect-map f g h (x ∷ xs) = rw (h x) (ap (◌∷◌ (g x)) (collect-map f g h xs))

    pub collect-map-none :
        {X : Type 0} (f : X → Call F)
        → ((x : X) → sel (f x) ≡ none)
        → (xs : List X) → collect (map f xs) ≡ []
    collect-map-none f h [] = refl
    collect-map-none f h (x ∷ xs) = rw (h x) (collect-map-none f h xs)

    pub collect-run :
        ((us : ℕ) → sel (usleeps us) ≡ none)
        → ((n : ℤ) → sel (sleeps n) ≡ none)
        → (b : Build) (c : Config F)
        → collect (run b c)
          ≡ collect (start_nodes b c)
            ++ (collect (join_nodes b c)
                ++ (collect (measure_nodes b c) ++ collect (destroy_nodes b c)))
    unfolding run
    collect-run us sl b c =
        rw
          (
            collect-append (start_nodes b c) _,
            us 10000,
            collect-append (join_nodes b c) _,
            us 1000000,
            collect-append (measure_nodes b c) _,
            sl,
          )
          refl

    -- The nodes of the host, the first one included.
    pub collect-hosted :
        (single : Bool) (port : ℕ) (n : ℤ) (f : ℕ → Call F) (g : ℕ → A)
        → ((k : ℕ) → sel (f k) ≡ some (g k))
        → g 0 ∷ collect (when single (each_more n f)) ≡ map g (upto 0 (hosted single n))
    collect-hosted false port n f g h = refl
    collect-hosted true port n f g h =
        ap (λ o. keep o (collect (each_more n f))) (sym (h 0))
        ∙ ap collect (each_more-upto n f)
        ∙ collect-map f g h (upto 0 (hosted true n))

    drop_none : (c : Call F) (cs : List (Call F)) → sel c ≡ none → collect (c ∷ cs) ≡ collect cs
    drop_none c cs e = rw e refl

    pub collect-hosted-none :
        (single : Bool) (n : ℤ) (f : ℕ → Call F)
        → ((k : ℕ) → sel (f k) ≡ none)
        → collect (when single (each_more n f)) ≡ []
    collect-hosted-none false n f h = refl
    collect-hosted-none true n f h =
        sym (drop_none (f 0) (each_more n f) (h 0))
        ∙ ap collect (each_more-upto n f)
        ∙ collect-map-none f h (upto 0 (hosted true n))

    collect-mesh-none :
        (single : Bool) (port : ℕ) (n : ℤ)
        → ((i : ℕ) (h : String) (j : ℕ) → sel (adds_sibling i h j) ≡ none)
        → collect (when single (mesh port n)) ≡ []
    collect-mesh-none false port n h = refl
    collect-mesh-none true port n h =
        ap collect (mesh-pairs port n)
        ∙ collect-map-none (λ p. link port p.0 p.1) (λ p. h _ _ _) (pairs 0 (hosted true n))

    pub collect-join_nodes-none :
        (b : Build) (c : Config F)
        → ((i : ℕ) (h : String) (j : ℕ) → sel (adds_sibling i h j) ≡ none)
        → collect (join_nodes b c) ≡ []
    unfolding join_nodes
    collect-join_nodes-none b c h =
        collect-append (when b.single_host (mesh c.port c.n_nodes)) _
        ∙ ap₂ ◌++◌ (collect-mesh-none b.single_host c.port c.n_nodes h)
            (collect-map-none (named c.port) (λ s. h _ _ _) c.siblings)
