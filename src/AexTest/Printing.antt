-- ===== src/AexTest/Printing.antt =====
-- Enclave.cpp: the logged values, and what `printArray` prints of them.
use tri_ha_rd_higher_resilie.Base.{
  ℕ, zero, suc, ◌+◌, ◌-◌, ◌≤◌, ◌<◌, ◌≡◌, refl, sym, ◌∙◌, ap, true, false, List, [], ◌∷◌, ◌++◌,
  length, take, replicate, ltb, ◌==◌, arith,
}
use tri_ha_rd_higher_resilie.Base.Int.{ℤ, ◌-ℤ◌}
use tri_ha_rd_higher_resilie.AexTest.Log.{
  AexLog, Line, full_error, row, size, update, log_aex, print_rows, print_array,
}

-- The values are logged one after the other; what is printed meanwhile.
abbrev pub log_all : List ℤ → AexLog → AexLog × List Line
log_all [] log = (log, [])
log_all (v ∷ vs) log =
    let (next, lines) = log_aex v log in let (last, more) = log_all vs next in (last, lines ++ more)

-- The rows of values, numbered from `i`, relative to `reference`.
abbrev pub numbered : ℕ → List ℤ → ℤ → List Line
numbered i [] reference = []
numbered i (v ∷ vs) reference = row i (v -ℤ reference) ∷ numbered (suc i) vs reference

append_assoc : (xs ys zs : List Line) → (xs ++ ys) ++ zs ≡ xs ++ (ys ++ zs)
append_assoc [] ys zs = refl
append_assoc (x ∷ xs) ys zs = ap (◌∷◌ x) (append_assoc xs ys zs)

append_nil : (xs : List Line) → xs ++ [] ≡ xs
append_nil [] = refl
append_nil (x ∷ xs) = ap (◌∷◌ x) (append_nil xs)

-- A write behind the rows does not show in them.
print_rows-update :
    (i k j : ℕ) (arr : ℕ → ℤ) (v reference : ℤ)
    → i + k ≤ j
    → print_rows i k (update arr j v) reference ≡ print_rows i k arr reference
unfolding print_rows
print_rows-update i zero j arr v reference h = refl
print_rows-update i (suc k) j arr v reference h =
    let other : (j == i) ≡ false = ground arith in
    rw other (
      ap (◌∷◌ (row i (arr i -ℤ reference)))
        (print_rows-update (suc i) k j arr v reference (omega arith)))

print_rows-snoc :
    (i k j : ℕ) (arr : ℕ → ℤ) (reference : ℤ)
    → i + k ≡ j
    → print_rows i (suc k) arr reference
      ≡ print_rows i k arr reference ++ (row j (arr j -ℤ reference) ∷ [])
unfolding print_rows
print_rows-snoc i zero j arr reference e =
    let here : i ≡ j = omega arith in ap (λ n. row n (arr n -ℤ reference) ∷ []) here
print_rows-snoc i (suc k) j arr reference e =
    ap (◌∷◌ (row i (arr i -ℤ reference))) (print_rows-snoc (suc i) k j arr reference (omega arith))

abbrev push : ℤ → AexLog → AexLog
push v log = record {
  entries = update log.entries log.next_index v;
  next_index = log.next_index + 1;
}

log_aex_room : (v : ℤ) (log : AexLog) → log.next_index < size → log_aex v log ≡ (push v log, [])
unfolding log_aex
log_aex_room v log room = let t : ltb log.next_index size ≡ true = ground arith in rw t refl

log_aex_full :
    (v : ℤ) (log : AexLog) → log.next_index ≡ size → log_aex v log ≡ (log, full_error ∷ [])
unfolding log_aex
log_aex_full v log full = let t : ltb log.next_index size ≡ false = ground arith in rw t refl

-- One more value is one more row.
print_array-push :
    (v : ℤ) (log : AexLog) (reference : ℤ)
    → print_array (push v log) reference
      ≡ print_array log reference ++ (row log.next_index (v -ℤ reference) ∷ [])
unfolding print_array
print_array-push v log reference =
    let n = log.next_index in
    let more : n + 1 ≡ suc n = omega arith in
    let here : (n == n) ≡ true = ground arith in
    rw
      (
        more,
        print_rows-snoc 0 n n (update log.entries n v) reference (omega arith),
        print_rows-update 0 n n log.entries v reference (omega arith),
        here,
      )
      refl

-- With `room` entries left.
abbrev Prints : List ℤ → AexLog → ℤ → ℕ → AexLog × List Line → Type 0
Prints vs log reference room (last, lines) =
    (print_array last reference
      ≡ print_array log reference ++ numbered log.next_index (take room vs) reference)
    × (lines ≡ replicate (length vs - room) full_error)

errors_eq : (m n : ℕ) → m ≡ n → replicate m full_error ≡ replicate n full_error
errors_eq m n e = ap (λ k. replicate k full_error) e

log_all-Prints :
    (vs : List ℤ) (room : ℕ) (log : AexLog) (reference : ℤ)
    → log.next_index + room ≡ size
    → Prints vs log reference room (log_all vs log)
log_all-Prints [] zero log reference e = (sym (append_nil _), refl)
log_all-Prints [] (suc room) log reference e =
    (sym (append_nil _), errors_eq 0 (0 - suc room) (omega arith))
log_all-Prints (v ∷ vs) zero log reference e =
    let (rows, errors) = log_all-Prints vs zero log reference e in
    rw (log_aex_full v log (omega arith)) (
      rows,
      ap (◌∷◌ full_error) errors
          ∙ errors_eq (suc (length vs - 0)) (suc (length vs) - 0) (omega arith),
    )
log_all-Prints (v ∷ vs) (suc room) log reference e =
    let (rows, errors) = log_all-Prints vs room (push v log) reference (omega arith) in
    let next : log.next_index + 1 ≡ suc log.next_index = omega arith in
    rw (log_aex_room v log (omega arith)) (
      rows
          ∙ ap (λ l. l ++ numbered (log.next_index + 1) (take room vs) reference)
              (print_array-push v log reference)
          ∙ append_assoc (print_array log reference) (row log.next_index (v -ℤ reference) ∷ []) _
          ∙ ap
              (λ n.
                print_array log reference
                ++ (row log.next_index (v -ℤ reference) ∷ numbered n (take room vs) reference))
              next,
      errors ∙ errors_eq (length vs - room) (suc (length vs) - suc room) (omega arith),
    )

-- Of the values logged into an array, `printArray` prints those for which there was room, in their
-- order, after those that were there, and numbered on; each of the others was reported as an error.
pub print_array-log_all :
    (vs : List ℤ) (log : AexLog) (reference : ℤ)
    → log.next_index ≤ size
    → let (last, lines) = log_all vs log in
      let room = size - log.next_index in
      (print_array last reference
        ≡ print_array log reference ++ numbered log.next_index (take room vs) reference)
      × (lines ≡ replicate (length vs - room) full_error)
print_array-log_all vs log reference h =
    log_all-Prints vs (size - log.next_index) log reference (omega arith)
