-- ===== src/Affinity.antt =====
-- node/App/Node.cpp and AEXTest/App/App.cpp: the cores that a thread is bound to. The answers of the OS to
-- a set of cores, and the texts of its errors, are arguments.
use Prim.Native.String.{String}
use tri_ha_rd_higher_resilie.Base.{
  ℕ, ◌≡◌, ◌≢◌, refl, ap, List, [], ◌∷◌, ltb, if◌then◌else◌, Bool-cases, ◌⊎◌, inl, inr, arith,
  length, suc,
}
use tri_ha_rd_higher_resilie.Base.Int.{ℤ, pos, negsuc, eqb_ℤ, eq_of_parts}

-- CPU_ZERO and CPU_SET on a `cpu_set_t`, which has 1024 bits: a number outside of them sets none.
abbrev cpu_set : ℤ → List ℕ
cpu_set (pos core_id) = if ltb core_id 1024 then core_id ∷ [] else []
cpu_set (negsuc n) = []

-- A thread: the cores that it may run on, and what it has printed on the standard error, newest first.
record Placement : Type 0 where
  cores : List ℕ
  errors : List String

module _ (os : List ℕ → ℤ) (strerror : ℤ → String) where
  abbrev bound : (ℤ → String) → List ℕ → Placement → Placement
  bound text cpuset t =
      if eqb_ℤ (os cpuset) (pos 0)
      then record t { cores = cpuset }
      else record t { errors = text (os cpuset) ∷ t.errors }

  -- `pthread_setaffinity_np` returns the number of the error.
  unfoldable set_thread_affinity : ℤ → Placement → Placement
  set_thread_affinity core_id t = bound strerror (cpu_set core_id) t

  -- `sched_setaffinity` returns -1 and puts the number into `errno`; the text is that of the result.
  unfoldable set_affinity : ℤ → Placement → Placement
  set_affinity core_id t = bound strerror (cpu_set core_id) t

  -- A thread is bound to one core, and says nothing.
  record IsBound (core_id : ℤ) (t u : Placement) : Type 0 where
    core : ℕ
    given : core_id ≡ pos core
    cores : u.cores ≡ core ∷ []
    quiet : u.errors ≡ t.errors

  -- A thread keeps its cores, and prints one error.
  IsRefused : Placement → Placement → Type 0
  IsRefused t u = (u.cores ≡ t.cores) × (length u.errors ≡ suc (length t.errors))

  bound_lem :
      (text : ℤ → String) (cpuset : List ℕ) (t : Placement)
      → ((bound text cpuset t ≡ record t { cores = cpuset }) × (os cpuset ≡ pos 0))
        ⊎ IsRefused t (bound text cpuset t)
  unfolding IsRefused
  bound_lem text cpuset t = elim (Bool-cases (eqb_ℤ (os cpuset) (pos 0))) [
    | inl taken ↦ rw taken (inl (refl, eq_of_parts (os cpuset) (pos 0) (ground (arith, taken))))
    | inr refused ↦ rw refused (inr (refl, refl))
  ]

  empty_IsRefused :
      (text : ℤ → String) (t : Placement) → os [] ≢ pos 0 → IsRefused t (bound text [] t)
  empty_IsRefused text t rejects = elim (bound_lem text [] t) [
    | inl (_, taken) ↦ absurd (rejects taken)
    | inr refused ↦ refused
  ]

  -- If the OS takes no empty set, then a thread either is bound to its one core and prints no error, or keeps
  -- its cores and prints one; so does a thread whose number is outside of a set.
  set_thread_affinity_lem :
      (core_id : ℤ) (t : Placement)
      → os [] ≢ pos 0
      → IsBound core_id t (set_thread_affinity core_id t)
        ⊎ IsRefused t (set_thread_affinity core_id t)
  unfolding set_thread_affinity
  set_thread_affinity_lem (pos c) t rejects = elim (Bool-cases (ltb c 1024)) [
    | inl inside ↦ rw inside (elim (bound_lem strerror (c ∷ []) t) [
      | inl (same, _) ↦ inl (record {
        core = c;
        given = refl;
        cores = ap (λ (u : Placement). u.cores) same;
        quiet = ap (λ (u : Placement). u.errors) same;
      })
      | inr refused ↦ inr refused
    ])
    | inr outside ↦ rw outside (inr (empty_IsRefused strerror t rejects))
  ]
  set_thread_affinity_lem (negsuc c) t rejects = inr (empty_IsRefused strerror t rejects)
