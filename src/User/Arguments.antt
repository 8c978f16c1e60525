-- ===== src/User/Arguments.antt =====
-- main.cpp: the arguments, and what is read of them.
use Prim.Native.String.{String}
use tri_ha_rd_higher_resilie.Base.{
  ℕ, zero, suc, ◌+◌, ◌-◌, ◌*◌, ◌%◌, ◌/◌, ◌≤◌, ◌<◌, ◌≡◌, ◌≢◌, refl, ◌⊎◌, inl, inr, true, false, ◌||◌,
  not, List, [], ◌∷◌, some, length, ltb, ◌==◌, Bool-cases, arith,
}
use tri_ha_rd_higher_resilie.Base.Int.{ℤ, pos, negsuc, ◌≤ℤ◌, ltb_ℤ}
use tri_ha_rd_higher_resilie.Base.Text.{atoi}
use tri_ha_rd_higher_resilie.Double.{Double}
use tri_ha_rd_higher_resilie.User.{
  to_u16, get_elem?, Config, Parsed, usage, bad_tsc_freq, bad_exp_time, bad_n_nodes, reads_past,
  accepted, sibling_args, Texts, texts, configured, checked, parse,
}

to_u16_bound : (n : ℤ) → to_u16 n < 65536
unfolding to_u16
to_u16_bound (pos n) = omega arith
to_u16_bound (negsuc n) = omega arith

get_elem?_found :
    (argv : List String) (i : ℕ) → i < length argv → (s : String) × (get_elem? argv i ≡ some s)
unfolding get_elem?
get_elem?_found [] i h = absurd (omega arith)
get_elem?_found (s ∷ argv) zero h = (s, refl)
get_elem?_found (s ∷ argv) (suc i) h = get_elem?_found argv i (omega arith)

-- The arguments from the index `i` on are pairs, of a host name and of a number that is cut to 16 bits.
abbrev pub Names : List String → ℕ → List (String × ℕ) → Type 0
Names argv i [] = i ≡ length argv
Names argv i ((hostname, port) ∷ more) =
    (get_elem? argv i ≡ some hostname)
    × ((s : String) × (get_elem? argv (i + 1) ≡ some s) × (port ≡ to_u16 (atoi s)))
    × Names argv (i + 2) more

-- With an even number of arguments left, the loop reads them all.
sibling_args-ReadsAll :
    (fuel k : ℕ) (argv : List String) (i : ℕ)
    → i + 2 * k ≡ length argv
    → k < fuel
    → (siblings : List (String × ℕ)) × (sibling_args fuel argv i ≡ some siblings)
      × Names argv i siblings
unfolding sibling_args
sibling_args-ReadsAll zero k argv i e h = absurd (omega arith)
sibling_args-ReadsAll (suc fuel) zero argv i e h = ([], ground arith, omega arith)
sibling_args-ReadsAll (suc fuel) (suc k) argv i e h =
    let (hostname, h_found) = get_elem?_found argv i (omega arith) in
    let (port, p_found) = get_elem?_found argv (i + 1) (omega arith) in
    let (siblings, found, names) =
      sibling_args-ReadsAll fuel k argv (i + 2) (omega arith) (omega arith) in
    let goes : ltb i (length argv) ≡ true = ground arith in
    (
      (hostname, to_u16 (atoi port)) ∷ siblings,
      rw (goes, h_found, p_found, found) refl,
      (h_found, (port, p_found, refl), names),
    )

-- The texts of the first seven arguments.
record Seven (argv : List String) : Type 0 where
  t : Texts
  found : texts argv ≡ some t
  port : get_elem? argv 1 ≡ some t.port
  core_rd_tsc : get_elem? argv 2 ≡ some t.core_rd_tsc
  tsc_freq : get_elem? argv 3 ≡ some t.tsc_freq
  freq_offset : get_elem? argv 4 ≡ some t.freq_offset
  sleep_attack_ms : get_elem? argv 5 ≡ some t.sleep_attack_ms
  n_nodes : get_elem? argv 6 ≡ some t.n_nodes
  exp_time : get_elem? argv 7 ≡ some t.exp_time

texts-Seven : (argv : List String) → 8 ≤ length argv → Seven argv
unfolding get_elem?
texts-Seven (n ∷ (a ∷ (b ∷ (c ∷ (d ∷ (e ∷ (f ∷ (g ∷ more)))))))) h = record {
  t = record {
    port = a;
    core_rd_tsc = b;
    tsc_freq = c;
    freq_offset = d;
    sleep_attack_ms = e;
    n_nodes = f;
    exp_time = g;
  };
  found = refl;
  port = refl;
  core_rd_tsc = refl;
  tsc_freq = refl;
  freq_offset = refl;
  sleep_attack_ms = refl;
  n_nodes = refl;
  exp_time = refl;
}
texts-Seven _ h = absurd (omega arith)

-- `argv[i]` is there, and has the property.
abbrev pub Given : List String → ℕ → (String → Type 0) → Type 0
Given argv i P = (s : String) × (get_elem? argv i ≡ some s) × P s

abbrev pub RightNumber : List String → Type 0
RightNumber argv = (8 ≤ length argv) × (length argv % 2 ≡ 0)

wrong_number :
    (argv : List String)
    → (ltb (length argv) 8 || not (length argv % 2 == 0)) ≡ true
    → (length argv < 8) ⊎ (length argv % 2 ≢ 0)
wrong_number argv h = ground arith

right_number :
    (argv : List String)
    → (ltb (length argv) 8 || not (length argv % 2 == 0)) ≡ false
    → (8 ≤ length argv) × (length argv % 2 ≡ 0)
right_number argv h = ground arith

module _ (F : Double) (atof : String → F.Value) where
  open F use {of_ℤ, over, less_eq}

  -- The value is a thousandth of what `atof` reads.
  abbrev pub thousandth : String → F.Value
  thousandth s = over (atof s) (of_ℤ (pos 1000))

  abbrev pub IsZeroOrLess : F.Value → Type 0
  IsZeroOrLess v = less_eq v (of_ℤ (pos 0)) ≡ true

  abbrev pub IsAboveZero : F.Value → Type 0
  IsAboveZero v = less_eq v (of_ℤ (pos 0)) ≡ false

  -- The settings are those of the arguments, each by its place.
  pub record Configures (argv : List String) (c : Config F) : Type 0 where
    pub port : Given argv 1 (λ s. c.port ≡ to_u16 (atoi s))
    pub core_rd_tsc : Given argv 2 (λ s. c.core_rd_tsc ≡ atoi s)
    pub tsc_freq : Given argv 3 (λ s. c.tsc_freq ≡ thousandth s)
    pub freq_offset : Given argv 4 (λ s. c.freq_offset ≡ thousandth s)
    pub sleep_attack_ms : Given argv 5 (λ s. c.sleep_attack_ms ≡ atoi s)
    pub n_nodes : Given argv 6 (λ s. c.n_nodes ≡ atoi s)
    pub exp_time : Given argv 7 (λ s. c.exp_time ≡ atof s)
    pub siblings : Names argv 8 c.siblings

  -- What the result of the checks says of the arguments.
  abbrev pub Reads : List String → Parsed F → Type 0
  Reads argv usage = (length argv < 8) ⊎ (length argv % 2 ≢ 0)
  Reads argv reads_past = ⊥
  Reads argv bad_tsc_freq = RightNumber argv × Given argv 3 (λ s. IsZeroOrLess (thousandth s))
  Reads argv bad_exp_time =
      RightNumber argv
      × Given argv 3 (λ s. IsAboveZero (thousandth s))
      × Given argv 7 (λ s. IsZeroOrLess (atof s))
  Reads argv bad_n_nodes =
      RightNumber argv
      × Given argv 3 (λ s. IsAboveZero (thousandth s))
      × Given argv 7 (λ s. IsAboveZero (atof s))
      × Given argv 6 (λ s. atoi s ≤ℤ pos 0)
  Reads argv (accepted c) =
      RightNumber argv
      × Configures argv c
      × IsAboveZero c.tsc_freq
      × IsAboveZero c.exp_time
      × (pos 1 ≤ℤ c.n_nodes)

  Reads-checked :
      (argv : List String) (seven : Seven argv) (siblings : List (String × ℕ))
      → RightNumber argv
      → Names argv 8 siblings
      → Reads argv (checked F atof (configured F atof seven.t siblings))
  Reads-checked argv seven siblings right names =
      let t = seven.t in
      elim (Bool-cases (less_eq (thousandth t.tsc_freq) (of_ℤ (pos 0)))) [
        | inl bad ↦ rw bad (right, (t.tsc_freq, seven.tsc_freq, bad))
        | inr freq ↦ rw freq (elim (Bool-cases (less_eq (atof t.exp_time) (of_ℤ (pos 0)))) [
          | inl bad ↦
              rw bad (right, (t.tsc_freq, seven.tsc_freq, freq), (t.exp_time, seven.exp_time, bad))
          | inr time ↦ rw time (elim (Bool-cases (ltb_ℤ (atoi t.n_nodes) (pos 1))) [
            | inl bad ↦ rw bad (
              right,
              (t.tsc_freq, seven.tsc_freq, freq),
              (t.exp_time, seven.exp_time, time),
              (t.n_nodes, seven.n_nodes, ground arith),
            )
            | inr nodes ↦ rw nodes (
              right,
              record {
                port = (t.port, seven.port, refl);
                core_rd_tsc = (t.core_rd_tsc, seven.core_rd_tsc, refl);
                tsc_freq = (t.tsc_freq, seven.tsc_freq, refl);
                freq_offset = (t.freq_offset, seven.freq_offset, refl);
                sleep_attack_ms = (t.sleep_attack_ms, seven.sleep_attack_ms, refl);
                n_nodes = (t.n_nodes, seven.n_nodes, refl);
                exp_time = (t.exp_time, seven.exp_time, refl);
                siblings = names;
              },
              freq,
              time,
              ground arith,
            )
          ])
        ])
      ]

  -- `main` rejects the arguments as a wrong usage exactly if they are fewer than eight or odd in
  -- number, the name of the program counted. Otherwise it reads no argument past the last. It then rejects
  -- the third argument if a thousandth of its number is at most 0, else the seventh if its number is at
  -- most 0, else the sixth if its number is below 1; and otherwise it runs with the settings of the
  -- arguments, each read from its own place, and with a sibling for each pair of arguments after the
  -- seventh, the host name first.
  pub parse-Reads : (argv : List String) → Reads argv (parse F atof argv)
  unfolding parse
  parse-Reads argv = elim (Bool-cases (ltb (length argv) 8 || not (length argv % 2 == 0))) [
    | inl bad ↦ rw bad (wrong_number argv bad)
    | inr good ↦
        let right = right_number argv good in
        let seven = texts-Seven argv right.0 in
        let (siblings, found, names) =
          sibling_args-ReadsAll (length argv) ((length argv - 8) / 2) argv 8 (omega (arith, right))
            (omega (arith, right)) in
        rw (good, seven.found, found) (Reads-checked argv seven siblings right names)
  ]
