-- ===== src/User.antt =====
-- trihard/user/main.cpp: the program that runs the nodes of a host. `atof` of the C library is a parameter,
-- as `double` is; the three macros of the build are fields.
pub mod Arguments
pub mod Calls
pub mod Mesh
pub mod Process
use Prim.Native.String.{String}
use tri_ha_rd_higher_resilie.Base.{
  ℕ, zero, suc, ◌+◌, ◌-◌, ◌%◌, map, Bool, true, false, ◌||◌, not, List, [], ◌∷◌, ◌++◌, Option, none,
  some, ltb, ◌==◌, if◌then◌else◌, length,
}
use tri_ha_rd_higher_resilie.Base.Int.{ℤ, pos, negsuc, ltb_ℤ, ◌+ℤ◌}
use tri_ha_rd_higher_resilie.Base.Text.{atoi}
use tri_ha_rd_higher_resilie.Double.{Double}

-- `(uint16_t)n`.
unfoldable pub to_u16 : ℤ → ℕ
to_u16 (pos n) = n % 65536
to_u16 (negsuc n) = (65535 - n % 65536) % 65536

-- `argv[i]`; `none` is the null pointer after the last argument, or what lies behind it.
unfoldable pub get_elem? : List String → ℕ → Option String
get_elem? [] i = none
get_elem? (s ∷ ss) zero = some s
get_elem? (s ∷ ss) (suc i) = get_elem? ss i

module _ (F : Double) where
  open F use {Value, of_ℤ, over, plus, times, less_eq, trunc}

  pub record Config : Type 0 where
    pub port : ℕ
    pub core_rd_tsc : ℤ
    pub tsc_freq : Value
    pub freq_offset : Value
    pub sleep_attack_ms : ℤ
    pub n_nodes : ℤ
    pub exp_time : Value
    -- The siblings named by the arguments.
    pub siblings : List (String × ℕ)

  -- The three usage errors, a read past the arguments, or a run.
  pub data Parsed : Type 0 where
    usage bad_tsc_freq bad_exp_time bad_n_nodes reads_past : Parsed
    accepted : Config → Parsed

-- The loop over `argv` from the index `i`, with as many rounds left as `rounds`.
abbrev pub sibling_next :
    String → Option String → Option (List (String × ℕ)) → Option (List (String × ℕ))
sibling_next hostname none more = none
sibling_next hostname (some port) none = none
sibling_next hostname (some port) (some more) = some ((hostname, to_u16 (atoi port)) ∷ more)

abbrev pub sibling_at :
    Option String → Option String → Option (List (String × ℕ)) → Option (List (String × ℕ))
sibling_at none port more = none
sibling_at (some hostname) port more = sibling_next hostname port more

-- `for(int i=8; i<argc; i+=2)`, on fuel.
unfoldable pub sibling_args : ℕ → List String → ℕ → Option (List (String × ℕ))
unfolding get_elem? atoi to_u16
sibling_args zero argv i = none
sibling_args (suc fuel) argv i =
    let more = sibling_args fuel argv (i + 2) in
    if ltb i (length argv)
    then sibling_at (get_elem? argv i) (get_elem? argv (i + 1)) more
    else some []

-- `argv[1]` to `argv[7]`.
pub record Texts : Type 0 where
  pub port : String
  pub core_rd_tsc : String
  pub tsc_freq : String
  pub freq_offset : String
  pub sleep_attack_ms : String
  pub n_nodes : String
  pub exp_time : String

abbrev pub texts : List String → Option Texts
texts (name ∷ (a ∷ (b ∷ (c ∷ (d ∷ (e ∷ (f ∷ (g ∷ more)))))))) = some (record {
  port = a;
  core_rd_tsc = b;
  tsc_freq = c;
  freq_offset = d;
  sleep_attack_ms = e;
  n_nodes = f;
  exp_time = g;
})
texts _ = none

module _ (F : Double) (atof : String → F.Value) where
  open F use {of_ℤ, over, less_eq}

  abbrev pub configured : Texts → List (String × ℕ) → Config F
  configured t siblings = record {
    port = to_u16 (atoi t.port);
    core_rd_tsc = atoi t.core_rd_tsc;
    tsc_freq = over (atof t.tsc_freq) (of_ℤ (pos 1000));
    freq_offset = over (atof t.freq_offset) (of_ℤ (pos 1000));
    sleep_attack_ms = atoi t.sleep_attack_ms;
    n_nodes = atoi t.n_nodes;
    exp_time = atof t.exp_time;
    siblings = siblings;
  }

  abbrev pub checked : Config F → Parsed F
  checked c =
      if less_eq c.tsc_freq (of_ℤ (pos 0))
      then bad_tsc_freq
      else if less_eq c.exp_time (of_ℤ (pos 0))
      then bad_exp_time
      else if ltb_ℤ c.n_nodes (pos 1)
      then bad_n_nodes
      else accepted c

  abbrev pub read_texts : Option Texts → Option (List (String × ℕ)) → Parsed F
  read_texts none siblings = reads_past
  read_texts (some t) none = reads_past
  read_texts (some t) (some siblings) = checked (configured t siblings)

  -- The checks of `main`, with the reads of `argv`. The source reads the siblings' arguments after
  -- the checks and the start of the nodes; that no read is past the arguments is a theorem.
  unfoldable pub parse : List String → Parsed F
  unfolding sibling_args atoi to_u16
  parse argv =
      if ltb (length argv) 8 || not (length argv % 2 == 0)
      then usage
      else read_texts (texts argv) (sibling_args (length argv) argv 8)

-- What `main` measures, by its macros.
pub data Measure : Type 0 where
  throughput latency polling : Measure

pub record Build : Type 0 where
  pub single_host : Bool
  pub measure : Measure

-- The calls of `main`. A node is named by its port.
pub data Call (F : Double) : Type 0 where
  gets_instance : ℕ → ℤ → F.Value → F.Value → ℤ → Call F
  usleeps : ℕ → Call F
  adds_sibling : ℕ → String → ℕ → Call F
  bench_timestamp bench_lat_timestamp : ℕ → Call F
  encl_poll_timestamp : ℕ → ℤ → ℤ → Call F
  sleeps : ℤ → Call F
  destroys_instance : ℕ → Call F

-- The nodes after the first one, of which `SINGLE_HOST` starts up to three.
abbrev pub port_of : ℕ → ℕ → ℕ
port_of port k = (port + k) % 65536

abbrev pub when {ℓ} : {A : Type ℓ} → Bool → List A → List A
when b xs = if b then xs else []

abbrev pub beyond {ℓ} : {A : Type ℓ} → ℤ → ℕ → A → List A
beyond n_nodes k x = when (ltb_ℤ (pos k) n_nodes) (x ∷ [])

abbrev pub each_more {ℓ} : {A : Type ℓ} → ℤ → (ℕ → A) → List A
each_more n_nodes f = beyond n_nodes 1 (f 1) ++ (beyond n_nodes 2 (f 2) ++ beyond n_nodes 3 (f 3))

module _ {F : Double} where
  open F use {Value, of_ℤ, plus, times, trunc}

  abbrev pub link : ℕ → ℕ → ℕ → Call F
  link port i j = adds_sibling (port_of port i) "127.0.0.1" (port_of port j)

  -- Lines 47 to 52, each under its own test.
  unfoldable pub mesh : ℕ → ℤ → List (Call F)
  mesh port n =
      beyond n 1 (link port 0 1)
      ++ (beyond n 2 (link port 0 2)
          ++ (beyond n 3 (link port 0 3)
              ++ (beyond n 2 (link port 1 2)
                  ++ (beyond n 3 (link port 1 3) ++ beyond n 3 (link port 2 3)))))

  abbrev pub measured : Measure → ℕ → Call F
  measured throughput port = bench_timestamp port
  measured latency port = bench_lat_timestamp port
  measured polling port = encl_poll_timestamp port (negsuc 0) (pos 100000)

  abbrev pub more_instance : Config F → ℕ → Call F
  more_instance c k =
      gets_instance (port_of c.port k) (c.core_rd_tsc +ℤ pos k) c.tsc_freq c.tsc_freq (pos 0)

  abbrev pub named : ℕ → String × ℕ → Call F
  named port (hostname, sibling_port) = adds_sibling port hostname sibling_port

  -- The first part of `main` after its checks: the nodes are started.
  unfoldable pub start_nodes : Build → Config F → List (Call F)
  start_nodes b c =
      gets_instance c.port c.core_rd_tsc (plus c.tsc_freq c.freq_offset) c.tsc_freq
        c.sleep_attack_ms
      ∷ when b.single_host (each_more c.n_nodes (more_instance c))

  unfoldable pub join_nodes : Build → Config F → List (Call F)
  unfolding mesh
  join_nodes b c = when b.single_host (mesh c.port c.n_nodes) ++ map (named c.port) c.siblings

  unfoldable pub measure_nodes : Build → Config F → List (Call F)
  measure_nodes b c =
      measured b.measure c.port
      ∷ when b.single_host (each_more c.n_nodes (λ k. measured b.measure (port_of c.port k)))

  unfoldable pub destroy_nodes : Build → Config F → List (Call F)
  destroy_nodes b c =
      destroys_instance c.port
      ∷ when b.single_host (each_more c.n_nodes (λ k. destroys_instance (port_of c.port k)))

  -- `main` after its checks.
  unfoldable pub run : Build → Config F → List (Call F)
  unfolding start_nodes join_nodes measure_nodes destroy_nodes
  run b c =
      start_nodes b c
      ++ (usleeps 10000
          ∷ (join_nodes b c
              ++ (usleeps 1000000
                  ∷ (measure_nodes b c
                      ++ (sleeps (trunc (times c.exp_time (of_ℤ (pos 60)))) ∷ destroy_nodes b c)))))
