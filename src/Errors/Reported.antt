-- ===== src/Errors/Reported.antt =====
-- print_error_message of the node and of the AEX test program, compared.
use tri_ha_rd_higher_resilie.Base.{
  ℕ, ◌≡◌, ◌≢◌, refl, ◌⊎◌, inl, inr, List, [], ◌∷◌, ◌++◌, ◌==◌, none, Bool-cases, arith,
}
use tri_ha_rd_higher_resilie.Errors.{
  SgxError, enclave_crashed, Entry, entry, Line, unexpected_status, unexpected_error, print_entry,
  aex_errlist, print_node_error, print_aex_error,
}

module _ (code : SgxError → ℕ) where
  print_entry-append :
      (p q : List Line) (entries : List Entry) (e : Entry) (ret : ℕ)
      → ret ≢ code e.err
      → (print_entry code p (entries ++ (e ∷ [])) ret ≡ print_entry code q entries ret)
        ⊎ ((print_entry code p (entries ++ (e ∷ [])) ret ≡ p)
            × (print_entry code q entries ret ≡ q))
  unfolding print_entry
  print_entry-append p q [] e ret d = inr ((ground arith, refl))
  print_entry-append p q (first ∷ entries) e ret d = elim (Bool-cases (ret == code first.err)) [
    | inl same ↦ inl (rw same refl)
    | inr other ↦ rw other (print_entry-append p q entries e ret d)
  ]

  -- For every status but that of a crashed enclave, the node and the AEX test program print the same
  -- lines, or both of them that the error is unexpected.
  pub print_node_error-print_aex_error :
      (ret : ℕ)
      → ret ≢ code enclave_crashed
      → (print_node_error code ret ≡ print_aex_error code ret)
        ⊎ ((print_node_error code ret ≡ unexpected_status ret ∷ [])
            × (print_aex_error code ret ≡ unexpected_error ∷ []))
  unfolding print_node_error print_aex_error
  print_node_error-print_aex_error ret d =
      print_entry-append (unexpected_status ret ∷ []) (unexpected_error ∷ []) aex_errlist
        (entry enclave_crashed "The enclave is crashed." none) ret d
