-- ===== src/AexTest/App.antt =====
-- trihard/AEXTest/App/App.cpp: main, its arguments and its threads. What `sgx_create_enclave_ex` returns is
-- an argument.
pub mod Threads
use Prim.Native.String.{String}
use tri_ha_rd_higher_resilie.Base.{
  ℕ, Bool, true, false, ◌&&◌, ◌||◌, not, List, [], ◌∷◌, ◌++◌, Option, none, some, length, ◌==◌,
  if◌then◌else◌,
}
use tri_ha_rd_higher_resilie.Base.Int.{ℤ, pos, negsuc, ltb_ℤ, leb_ℤ, eqb_ℤ}
use tri_ha_rd_higher_resilie.Base.Text.{atoi}
use tri_ha_rd_higher_resilie.AexTest.{
  SleepType, syscall_sleep, o_readtsc_sleep, e_readtsc_sleep, c_adder_sleep, asm_adder_sleep,
  self_monitor, aex_self_monitor, aex_asm_self_monitor,
}

pub record Settings : Type 0 where
  pub sgx_type : ℤ
  pub sleep_time : ℤ
  pub sleep_inside_enclave : ℤ
  pub verbosity : ℤ
  -- `core_add` and `core_main`, if `set_aff`.
  pub cores : Option (ℤ × ℤ)

-- The threads enter the enclave; the counting thread in one of its two loops, or it aborts.
pub data Entry : Type 0 where
  loop_o_readtsc loop_e_readtsc aborts : Entry

pub data Action : Type 0 where
  starts_main : ℤ → ℤ → ℤ → Option ℤ → Action
  starts_adder : Entry → Option ℤ → Action
  joins_adder joins_main : Action
  destroys_enclave : Action

pub data Exit : Type 0 where
  usage assertion_fails enclave_fails : Exit
  returns : List Action → Exit

abbrev core_of : (ℤ × ℤ → ℤ) → Option (ℤ × ℤ) → Option ℤ
core_of f none = none
core_of f (some cores) = some (f cores)

-- `ecall_add_thread`.
unfoldable pub adder_entry : ℤ → Entry
adder_entry sgx_type =
    if eqb_ℤ sgx_type (pos 1)
    then loop_o_readtsc
    else if eqb_ℤ sgx_type (pos 2)
    then loop_e_readtsc
    else aborts

unfoldable pub start_threads : Settings → List Action
unfolding adder_entry
start_threads s =
    starts_main s.sleep_time s.sleep_inside_enclave s.verbosity (core_of (λ c. c.1) s.cores)
    ∷ ((if ltb_ℤ s.sleep_inside_enclave (pos 5) || ltb_ℤ (pos 7) s.sleep_inside_enclave
          then starts_adder (adder_entry s.sgx_type) (core_of (λ c. c.0) s.cores)
            ∷ (joins_adder ∷ [])
          else [])
        ++ (joins_main ∷ []))

abbrev settings : String → String → String → String → Option (ℤ × ℤ) → Settings
settings a b c d cores = record {
  sgx_type = atoi a;
  sleep_time = atoi b;
  sleep_inside_enclave = atoi c;
  verbosity = atoi d;
  cores = cores;
}

-- The arguments of one of the two lengths that `main` takes.
abbrev parse : List String → Option Settings
parse (name ∷ (a ∷ (b ∷ (c ∷ (d ∷ []))))) = some (settings a b c d none)
parse (name ∷ (a ∷ (b ∷ (c ∷ (d ∷ (e ∷ (f ∷ []))))))) =
    some (settings a b c d (some (atoi e, atoi f)))
parse _ = none

abbrev run_parsed : Bool → Option Settings → Exit
run_parsed created none = usage
run_parsed created (some s) =
    if leb_ℤ (pos 1) s.sgx_type && leb_ℤ s.sgx_type (pos 2)
    then if created then returns (start_threads s ++ (destroys_enclave ∷ [])) else enclave_fails
    else assertion_fails

unfoldable pub main : Bool → List String → Exit
unfolding start_threads atoi
main created argv = run_parsed created (parse argv)

-- The values of `sleep_type_t`, by which `main_thread` reads `sleep_inside_enclave`.
unfoldable pub sleep_type_of : ℤ → Option SleepType
sleep_type_of n =
    if eqb_ℤ n (pos 0)
    then some syscall_sleep
    else if eqb_ℤ n (pos 1)
    then some o_readtsc_sleep
    else if eqb_ℤ n (pos 2)
    then some e_readtsc_sleep
    else if eqb_ℤ n (pos 3)
    then some c_adder_sleep
    else if eqb_ℤ n (pos 4)
    then some asm_adder_sleep
    else if eqb_ℤ n (pos 5)
    then some self_monitor
    else if eqb_ℤ n (pos 6)
    then some aex_self_monitor
    else if eqb_ℤ n (pos 7)
    then some aex_asm_self_monitor
    else none
