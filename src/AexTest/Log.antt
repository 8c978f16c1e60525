-- ===== src/AexTest/Log.antt =====
-- trihard/AEXTest/Enclave/Enclave.cpp: the arrays of logged exits, and how they are printed.
use tri_ha_rd_higher_resilie.Base.{ℕ, zero, suc, ◌+◌, List, [], ◌∷◌, ltb, ◌==◌, if◌then◌else◌}
use tri_ha_rd_higher_resilie.Base.Int.{ℤ, ◌-ℤ◌}

abbrev pub size : ℕ
size = 65536

-- What `t_print` prints.
pub data Line : Type 0 where
  full_error : Line
  tsc_error : ℤ → Line
  count_header monitor_header totals_header : Line
  row : ℕ → ℤ → Line
  total : ℕ → ℤ → Line
  totals : ℕ → ℕ → ℤ → Line

-- An array of `size` numbers, and `next_index`.
pub record AexLog : Type 0 where
  pub entries : ℕ → ℤ
  pub next_index : ℕ

abbrev pub update : (ℕ → ℤ) → ℕ → ℤ → ℕ → ℤ
update a i v j = if i == j then v else a j

unfoldable pub log_aex : ℤ → AexLog → AexLog × List Line
log_aex add_count log =
    if ltb log.next_index size
    then (
      record {
        entries = update log.entries log.next_index add_count;
        next_index = log.next_index + 1;
      },
      [],
    )
    else (log, full_error ∷ [])

-- The loop of `printArray`, from the index `i` over `k` rows.
unfoldable pub print_rows : ℕ → ℕ → (ℕ → ℤ) → ℤ → List Line
print_rows i zero arr reference = []
print_rows i (suc k) arr reference = row i (arr i -ℤ reference) ∷ print_rows (suc i) k arr reference

unfoldable pub print_array : AexLog → ℤ → List Line
unfolding print_rows
print_array log reference = print_rows 0 log.next_index log.entries reference
