-- ===== src/AexTest/App/Threads.antt =====
-- App.cpp and Enclave.cpp: the counting thread, and the main thread that waits for it.
use tri_ha_rd_higher_resilie.Base.{◌≡◌, ◌≢◌, List, [], ◌∷◌, some, arith}
use tri_ha_rd_higher_resilie.AexTest.{SleepType, waits, first_phase}
use tri_ha_rd_higher_resilie.AexTest.App.{
  Settings, Entry, Action, starts_adder, adder_entry, start_threads, sleep_type_of,
}

-- The counting threads that are started, each with its loop, and those that are joined.
abbrev pub adders : List Action → List Entry
adders [] = []
adders (starts_adder e core ∷ more) = e ∷ adders more
adders (_ ∷ more) = adders more

-- For each of the eight values of `sleep_type_t`: `start_threads` starts the counting thread exactly if
-- the main thread begins by waiting for a count, and then one, in the loop of the `sgx_type`.
pub start_threads-Counts :
    (s : Settings) (t : SleepType)
    → sleep_type_of s.sleep_inside_enclave ≡ some t
    → (first_phase t ≡ waits → adders (start_threads s) ≡ adder_entry s.sgx_type ∷ [])
      × (first_phase t ≢ waits → adders (start_threads s) ≡ [])
unfolding start_threads sleep_type_of
start_threads-Counts s t e = ground arith
