-- ===== src/Launcher/Lifetime.antt =====
-- Node.cpp: what is started for a node, and what is ended with it.
use tri_ha_rd_higher_resilie.Base.{
  ℕ, ◌≡◌, ◌≢◌, refl, ◌∙◌, ap, inl, inr, false, List, [], ◌∷◌, ◌++◌, Option, none, some, map, ◌==◌,
  ==_iff, Bool-cases,
}
use tri_ha_rd_higher_resilie.Base.Int.{ℤ}
use tri_ha_rd_higher_resilie.Manager.{lookup, erase, update}
use tri_ha_rd_higher_resilie.Manager.Entries.{same_port}
use tri_ha_rd_higher_resilie.Launcher.{
  Thread, loop_recvfrom, loop_untaint_trigger, loop_refresh, monitor, Action, creates_enclave,
  destroys_enclave, inits, stops, destroys, starts, joins, Node, start, construct, destruct,
  get_instance, destroy_instance, start_on, start_all, instance_found, constructed, destroy_found,
}

update_here :
    (port : ℕ) (n m : Node) (nodes : List (ℕ × Node))
    → update port m ((port, n) ∷ nodes) ≡ (port, m) ∷ nodes
unfolding update
update_here port n m nodes = rw (same_port port) refl

lookup_here :
    (port : ℕ) (n : Node) (nodes : List (ℕ × Node)) → lookup port ((port, n) ∷ nodes) ≡ some n
unfolding lookup
lookup_here port n nodes = rw (same_port port) refl

erase_here :
    (port : ℕ) (n : Node) (nodes : List (ℕ × Node)) → erase port ((port, n) ∷ nodes) ≡ nodes
unfolding erase
erase_here port n nodes = rw (same_port port) refl

append_assoc : (xs ys zs : List Thread) → (xs ++ ys) ++ zs ≡ xs ++ (ys ++ zs)
append_assoc [] ys zs = refl
append_assoc (x ∷ xs) ys zs = ap (◌∷◌ x) (append_assoc xs ys zs)

append_nil : (xs : List Thread) → xs ++ [] ≡ xs
append_nil [] = refl
append_nil (x ∷ xs) = ap (◌∷◌ x) (append_nil xs)

abbrev with_threads : Node → List Thread → Node
with_threads n ts = record n { threads = n.threads ++ ts }

start_on_here :
    (port : ℕ) (t : Thread) (n : Node) (nodes : List (ℕ × Node))
    → start_on port t ((port, n) ∷ nodes) ≡ ((port, with_threads n (t ∷ [])) ∷ nodes, starts t ∷ [])
unfolding start_on start
start_on_here port t n nodes =
    rw (lookup_here port n nodes) (ap (λ x. (x, starts t ∷ [])) (update_here port n _ nodes))

start_all_here :
    (port : ℕ) (ts : List Thread) (n : Node) (nodes : List (ℕ × Node))
    → start_all port ts ((port, n) ∷ nodes) ≡ ((port, with_threads n ts) ∷ nodes, map starts ts)
unfolding start_all
start_all_here port [] n nodes = rw (append_nil n.threads) refl
start_all_here port (t ∷ ts) n nodes =
    rw
      (
        start_on_here port t n nodes,
        start_all_here port ts (with_threads n (t ∷ [])) nodes,
        append_assoc n.threads (t ∷ []) ts,
      )
      refl

-- The enclave that was created.
abbrev pub creations : Option ℕ → List Action
creations none = []
creations (some id) = creates_enclave id ∷ []

abbrev pub destructions : Option ℕ → List Action
destructions none = []
destructions (some id) = destroys_enclave id ∷ []

abbrev pub first_threads : ℤ → List Thread
first_threads core = loop_recvfrom ∷ (loop_untaint_trigger ∷ (loop_refresh ∷ (monitor core ∷ [])))

abbrev id_of : Option ℕ → ℕ
id_of none = 0
id_of (some id) = id

abbrev made : Option ℕ → ℕ → ℤ → ℤ → Node
made created port core sleep = record {
  stop = false;
  port = port;
  core_rd_tsc = core;
  sleep_attack_ms = sleep;
  enclave_id = id_of created;
  threads = first_threads core;
}

construct-made :
    (created : Option ℕ) (port : ℕ) (core sleep : ℤ)
    → construct created port core sleep ≡ (
      made created port core sleep,
      creations created ++ (inits ∷ map starts (first_threads core)),
    )
unfolding construct
construct-made none port core sleep = refl
construct-made (some id) port core sleep = refl

destruct-made :
    (created : Option ℕ) (port : ℕ) (core sleep : ℤ) (ts : List Thread)
    → created ≢ some 0
    → destruct (with_threads (made created port core sleep) ts)
      ≡ stops ∷ (map joins (first_threads core ++ ts) ++ (destroys ∷ destructions created))
unfolding destruct
destruct-made none port core sleep ts h = refl
destruct-made (some id) port core sleep ts h =
    let other : (id == 0) ≡ false = elim (Bool-cases (id == 0)) [
      | inl zero_id ↦ absurd (h (ap some ((==_iff id 0).0 zero_id)))
      | inr other ↦ other
    ] in
    rw other refl

get_instance-made :
    (created : Option ℕ) (port : ℕ) (core sleep : ℤ) (nodes : List (ℕ × Node))
    → lookup port nodes ≡ none
    → get_instance created port core sleep nodes ≡ (
      (port, made created port core sleep) ∷ nodes,
      creations created ++ (inits ∷ map starts (first_threads core)),
    )
unfolding get_instance
get_instance-made created port core sleep nodes absent =
    ap (instance_found created port core sleep nodes) absent
    ∙ ap (constructed port nodes) (construct-made created port core sleep)

destroy_instance_here :
    (port : ℕ) (n : Node) (nodes : List (ℕ × Node))
    → destroy_instance port ((port, n) ∷ nodes) ≡ (nodes, destruct n)
unfolding destroy_instance
destroy_instance_here port n nodes =
    ap (destroy_found port ((port, n) ∷ nodes)) (lookup_here port n nodes)
    ∙ ap (λ x. (x, destruct n)) (erase_here port n nodes)

-- For a port without a node, and an enclave whose identifier, if SGX makes one, is not 0:
-- `get_instance` creates the enclave and starts the four threads; after any further threads,
-- `destroy_instance` stops the node, joins each thread that was started, once and in order, and
-- destroys the enclave if there is one; and the nodes of the process are those before.
pub destroy_instance-get_instance :
    (created : Option ℕ) (port : ℕ) (core sleep : ℤ) (ts : List Thread) (nodes : List (ℕ × Node))
    → lookup port nodes ≡ none
    → created ≢ some 0
    → let (after_get, gotten) = get_instance created port core sleep nodes in
      let (busy, started) = start_all port ts after_get in
      let (after, ended) = destroy_instance port busy in
      (gotten ≡ creations created ++ (inits ∷ map starts (first_threads core)))
      × (started ≡ map starts ts)
      × (ended
          ≡ stops ∷ (map joins (first_threads core ++ ts) ++ (destroys ∷ destructions created)))
      × (after ≡ nodes)
destroy_instance-get_instance created port core sleep ts nodes absent named =
    let n = made created port core sleep in
    rw
      (
        get_instance-made created port core sleep nodes absent,
        start_all_here port ts n nodes,
        destroy_instance_here port (with_threads n ts) nodes,
      )
      (refl, refl, destruct-made created port core sleep ts named, refl)
