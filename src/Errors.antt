-- ===== src/Errors.antt =====
-- trihard/node/App/Node.cpp and trihard/AEXTest/App/App.cpp: the tables of the errors of SGX, and
-- print_error_message, which reads them. The constants of sgx_error.h are an argument, `code`.
pub mod Reported
use Prim.Native.String.{String}
use tri_ha_rd_higher_resilie.Base.{ℕ, List, [], ◌∷◌, Option, none, some, ◌==◌, if◌then◌else◌}

-- The constants of `sgx_status_t` that the tables name, without their prefix SGX_ERROR.
pub data SgxError : Type 0 where
  unexpected invalid_parameter out_of_memory enclave_lost invalid_enclave invalid_enclave_id :
      SgxError
  invalid_signature out_of_epc no_device memory_map_conflict invalid_metadata device_busy : SgxError
  invalid_version invalid_attribute enclave_file_access memory_map_failure enclave_crashed :
      SgxError

-- `sgx_errlist_t`.
pub record Entry : Type 0 where
  pub err : SgxError
  pub msg : String
  pub sug : Option String

abbrev entry : SgxError → String → Option String → Entry
entry err msg sug = record { err = err; msg = msg; sug = sug }

-- What is printed: a suggestion, a message, and, for a status that no entry has, its number or not.
pub data Line : Type 0 where
  info error : String → Line
  unexpected_status : ℕ → Line
  unexpected_error : Line

abbrev pub lines_of : Entry → List Line
lines_of e = by e.sug
  where
    by : Option String → List Line
    by none = error e.msg ∷ []
    by (some sug) = info sug ∷ (error e.msg ∷ [])

-- The loop: the first entry of the status ends it; past the last one, `otherwise` is printed.
unfoldable pub print_entry : (SgxError → ℕ) → List Line → List Entry → ℕ → List Line
print_entry code otherwise [] ret = otherwise
print_entry code otherwise (e ∷ entries) ret =
    let rest = print_entry code otherwise entries ret in
    if ret == code e.err then lines_of e else rest

-- `sgx_errlist` of Node.cpp.
abbrev pub node_errlist : List Entry
node_errlist =
    entry unexpected "Unexpected error occurred." none
    ∷ entry invalid_parameter "Invalid parameter." none
    ∷ entry out_of_memory "Out of memory." none
    ∷ entry enclave_lost "Power transition occurred."
        (some "Please refer to the sample \"PowerTransition\" for details.")
    ∷ entry invalid_enclave "Invalid enclave image." none
    ∷ entry invalid_enclave_id "Invalid enclave identification." none
    ∷ entry invalid_signature "Invalid enclave signature." none
    ∷ entry out_of_epc "Out of EPC memory." none
    ∷ entry no_device "Invalid SGX device." (
        some
          "Please make sure SGX module is enabled in the BIOS, and install SGX driver afterwards.")
    ∷ entry memory_map_conflict "Memory map conflicted." none
    ∷ entry invalid_metadata "Invalid enclave metadata." none
    ∷ entry device_busy "SGX device was busy." none
    ∷ entry invalid_version "Enclave version was invalid." none
    ∷ entry invalid_attribute "Enclave was not authorized." none
    ∷ entry enclave_file_access "Can't open enclave file." none
    ∷ entry memory_map_failure "Failed to reserve memory for the enclave." none
    ∷ entry enclave_crashed "The enclave is crashed." none
    ∷ []

-- `sgx_errlist` of App.cpp.
abbrev pub aex_errlist : List Entry
aex_errlist =
    entry unexpected "Unexpected error occurred." none
    ∷ entry invalid_parameter "Invalid parameter." none
    ∷ entry out_of_memory "Out of memory." none
    ∷ entry enclave_lost "Power transition occurred."
        (some "Please refer to the sample \"PowerTransition\" for details.")
    ∷ entry invalid_enclave "Invalid enclave image." none
    ∷ entry invalid_enclave_id "Invalid enclave identification." none
    ∷ entry invalid_signature "Invalid enclave signature." none
    ∷ entry out_of_epc "Out of EPC memory." none
    ∷ entry no_device "Invalid SGX device." (
        some
          "Please make sure SGX module is enabled in the BIOS, and install SGX driver afterwards.")
    ∷ entry memory_map_conflict "Memory map conflicted." none
    ∷ entry invalid_metadata "Invalid enclave metadata." none
    ∷ entry device_busy "SGX device was busy." none
    ∷ entry invalid_version "Enclave version was invalid." none
    ∷ entry invalid_attribute "Enclave was not authorized." none
    ∷ entry enclave_file_access "Can't open enclave file." none
    ∷ entry memory_map_failure "Failed to reserve memory for the enclave." none
    ∷ []

-- `print_error_message` of Node.cpp.
unfoldable pub print_node_error : (SgxError → ℕ) → ℕ → List Line
unfolding print_entry
print_node_error code ret = print_entry code (unexpected_status ret ∷ []) node_errlist ret

-- `print_error_message` of App.cpp.
unfoldable pub print_aex_error : (SgxError → ℕ) → ℕ → List Line
unfolding print_entry
print_aex_error code ret = print_entry code (unexpected_error ∷ []) aex_errlist ret
