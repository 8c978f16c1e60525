-- ===== src/User/Mesh.antt =====
-- main.cpp: which nodes are started, measured and destroyed, and which are made siblings.
use Prim.Native.String.{String}
use tri_ha_rd_higher_resilie.Base.{
  ℕ, ◌<◌, ◌≡◌, refl, ◌∙◌, ap, ap₂, sym, Bool, true, false, List, [], ◌∷◌, ◌++◌, map, arith, some,
  none, Option,
}
use tri_ha_rd_higher_resilie.Base.Int.{ℤ}
use tri_ha_rd_higher_resilie.Double.{Double}
use tri_ha_rd_higher_resilie.User.{
  Config, Build, Measure, throughput, latency, polling, Call, destroys_instance, gets_instance,
  port_of, when, each_more, mesh, measured, more_instance, named, start_nodes, join_nodes,
  measure_nodes, destroy_nodes, run,
}
use tri_ha_rd_higher_resilie.User.Calls.{
  upto, pairs, hosted, starts, measures, ends, links, collect, collect-map, collect-append,
  collect-run, collect-hosted, collect-hosted-none, collect-join_nodes-none, mesh-pairs,
}

append_nil {ℓ} : {A : Type ℓ} (xs : List A) → xs ++ [] ≡ xs
append_nil [] = refl
append_nil (x ∷ xs) = ap (◌∷◌ x) (append_nil xs)

-- The ports of the nodes of the host.
abbrev pub ports : Bool → ℕ → ℤ → List ℕ
ports single port n = map (port_of port) (upto 0 (hosted single n))

-- The siblings that `main` names to the nodes: each pair of nodes of the host, and those of the
-- arguments.
abbrev pub host_link : ℕ → ℕ × ℕ → ℕ × String × ℕ
host_link port p = (port_of port p.0, "127.0.0.1", port_of port p.1)

abbrev pub named_link : ℕ → String × ℕ → ℕ × String × ℕ
named_link port (hostname, other) = (port, hostname, other)

module _ (F : Double) where
  measured_port : (m : Measure) (port : ℕ) → measures {F = F} (measured m port) ≡ some port
  measured_port throughput port = refl
  measured_port latency port = refl
  measured_port polling port = refl

  not_started : (m : Measure) (port : ℕ) → starts {F = F} (measured m port) ≡ none
  not_started throughput port = refl
  not_started latency port = refl
  not_started polling port = refl

  not_ended : (m : Measure) (port : ℕ) → ends {F = F} (measured m port) ≡ none
  not_ended throughput port = refl
  not_ended latency port = refl
  not_ended polling port = refl

  not_linked : (m : Measure) (port : ℕ) → links {F = F} (measured m port) ≡ none
  not_linked throughput port = refl
  not_linked latency port = refl
  not_linked polling port = refl

  links-mesh :
      (single : Bool) (port : ℕ) (n : ℤ)
      → collect (links {F = F}) (when single (mesh port n))
        ≡ when single (map (host_link port) (pairs 0 (hosted true n)))
  links-mesh false port n = refl
  links-mesh true port n =
      ap (collect links) (mesh-pairs port n)
      ∙ collect-map links _ (host_link port) (λ p. refl) (pairs 0 (hosted true n))

module _ {F : Double} (b : Build) (c : Config F) where
  hosted_none :
      {A : Type 0} (sel : Call F → Option A) (x : Call F) (f : ℕ → Call F)
      → sel x ≡ none
      → ((k : ℕ) → sel (f k) ≡ none)
      → collect sel (x ∷ when b.single_host (each_more c.n_nodes f)) ≡ []
  hosted_none sel x f e h = rw e (collect-hosted-none sel b.single_host c.n_nodes f h)

  module _ {A : Type 0} (sel : Call F → Option A) where
    start_nodes-none :
        ((p : ℕ) (n : ℤ) (x y : F.Value) (s : ℤ) → sel (gets_instance p n x y s) ≡ none)
        → collect sel (start_nodes b c) ≡ []
    unfolding start_nodes
    start_nodes-none h = hosted_none sel _ (more_instance c) (h _ _ _ _ _) (λ k. h _ _ _ _ _)

    measure_nodes-none :
        ((m : Measure) (port : ℕ) → sel (measured m port) ≡ none)
        → collect sel (measure_nodes b c) ≡ []
    unfolding measure_nodes
    measure_nodes-none h =
        hosted_none sel _ (λ k. measured b.measure (port_of c.port k)) (h _ _) (λ k. h _ _)

    pub destroy_nodes-none :
        ((port : ℕ) → sel (destroys_instance port) ≡ none) → collect sel (destroy_nodes b c) ≡ []
    unfolding destroy_nodes
    destroy_nodes-none h =
        hosted_none sel _ (λ k. destroys_instance (port_of c.port k)) (h _) (λ k. h _)

  -- `main` makes siblings of each pair of nodes of the host, once, and then of the first node and
  -- each host and port that the arguments name, in their order; and of no others.
  pub links-run :
      collect links (run b c)
      ≡ when b.single_host (map (host_link c.port) (pairs 0 (hosted true c.n_nodes)))
        ++ map (named_link c.port) c.siblings
  unfolding join_nodes
  links-run =
      collect-run links (λ us. refl) (λ n. refl) b c
      ∙ rw
          (
            start_nodes-none links (λ p n x y s. refl),
            measure_nodes-none links (not_linked F),
            destroy_nodes-none links (λ p. refl),
          )
          (append_nil _
            ∙ collect-append links (when b.single_host (mesh c.port c.n_nodes)) _
            ∙ ap₂ ◌++◌ (links-mesh F b.single_host c.port c.n_nodes)
                (collect-map links (named c.port) (named_link c.port) (λ s. refl) c.siblings))

module _ {F : Double} (b : Build) (c : Config F) (is_port : c.port < 65536) where
  first_port : port_of c.port 0 ≡ c.port
  first_port = omega arith

  -- A part of the program that starts, measures or destroys every node of the host.
  hosted_ports :
      (sel : Call F → Option ℕ) (x : Call F) (f : ℕ → Call F)
      → sel x ≡ some c.port
      → ((k : ℕ) → sel (f k) ≡ some (port_of c.port k))
      → collect sel (x ∷ when b.single_host (each_more c.n_nodes f))
        ≡ ports b.single_host c.port c.n_nodes
  hosted_ports sel x f e h = rw e (
      ap (λ p. p ∷ collect sel (when b.single_host (each_more c.n_nodes f))) (sym first_port)
      ∙ collect-hosted sel b.single_host c.port c.n_nodes f (port_of c.port) h)

  starts-start_nodes : collect starts (start_nodes b c) ≡ ports b.single_host c.port c.n_nodes
  unfolding start_nodes
  starts-start_nodes =
      hosted_ports starts
        (gets_instance c.port c.core_rd_tsc (F.plus c.tsc_freq c.freq_offset) c.tsc_freq
          c.sleep_attack_ms)
        (more_instance c) refl (λ k. refl)

  measures-measure_nodes :
      collect measures (measure_nodes b c) ≡ ports b.single_host c.port c.n_nodes
  unfolding measure_nodes
  measures-measure_nodes =
      hosted_ports measures (measured b.measure c.port) (λ k. measured b.measure (port_of c.port k))
        (measured_port F _ _) (λ k. measured_port F _ _)

  pub ends-destroy_nodes : collect ends (destroy_nodes b c) ≡ ports b.single_host c.port c.n_nodes
  unfolding destroy_nodes
  ends-destroy_nodes =
      hosted_ports ends (destroys_instance c.port) (λ k. destroys_instance (port_of c.port k)) refl
        (λ k. refl)

  -- With `SINGLE_HOST` the nodes of the host are `n_nodes`, at least one and at most four, on
  -- consecutive ports; without it there is one. `main` starts each of them once, measures each once
  -- and destroys each once, in the order of their ports.
  pub run-Balanced :
      (collect starts (run b c) ≡ ports b.single_host c.port c.n_nodes)
      × (collect measures (run b c) ≡ ports b.single_host c.port c.n_nodes)
      × (collect ends (run b c) ≡ ports b.single_host c.port c.n_nodes)
  run-Balanced = (
    collect-run starts (λ us. refl) (λ n. refl) b c
        ∙ rw
            (
              collect-join_nodes-none starts b c (λ i h j. refl),
              measure_nodes-none b c starts (not_started F),
              destroy_nodes-none b c starts (λ p. refl),
            )
            (append_nil _ ∙ starts-start_nodes),
    collect-run measures (λ us. refl) (λ n. refl) b c
        ∙ rw
            (
              start_nodes-none b c measures (λ p n x y s. refl),
              collect-join_nodes-none measures b c (λ i h j. refl),
              destroy_nodes-none b c measures (λ p. refl),
            )
            (append_nil _ ∙ measures-measure_nodes),
    collect-run ends (λ us. refl) (λ n. refl) b c
        ∙ rw
            (
              start_nodes-none b c ends (λ p n x y s. refl),
              collect-join_nodes-none ends b c (λ i h j. refl),
              measure_nodes-none b c ends (not_ended F),
            )
            ends-destroy_nodes,
  )
