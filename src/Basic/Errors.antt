-- ===== src/Basic/Errors.antt =====
-- The error table of code-experiments/basic-enclave/App/App.cpp, its lookup, and
-- `initialize_enclave`.
use sgx_experiments.Prelude.{
  ℕ, ◌+◌, ◌≡◌, refl, Bool, true, false, List, [], ◌∷◌, Option, none, some, ◌==◌, if◌then◌else◌,
  arith,
}
use sgx_experiments.Prelude.Int.{ℤ, pos, negsuc}

-- The `sgx_status_t` values of the table, success, and all the others by their number.
pub data LoadStatus : Type 0 where
  sgx_success : LoadStatus
  sgx_error_unexpected : LoadStatus
  sgx_error_invalid_parameter : LoadStatus
  sgx_error_out_of_memory : LoadStatus
  sgx_error_enclave_lost : LoadStatus
  sgx_error_invalid_enclave : LoadStatus
  sgx_error_invalid_enclave_id : LoadStatus
  sgx_error_invalid_signature : LoadStatus
  sgx_error_out_of_epc : LoadStatus
  sgx_error_no_device : LoadStatus
  sgx_error_memory_map_conflict : LoadStatus
  sgx_error_invalid_metadata : LoadStatus
  sgx_error_device_busy : LoadStatus
  sgx_error_invalid_version : LoadStatus
  sgx_error_invalid_attribute : LoadStatus
  sgx_error_enclave_file_access : LoadStatus
  unlisted : ℕ → LoadStatus

-- The two suggestions of the table.
pub data Suggestion : Type 0 where
  power_transition_sample : Suggestion
  enable_in_bios : Suggestion

-- `sgx_errlist_t`; a message stands for its status, since no two entries share one.
pub record SgxErrlist : Type 0 where
  pub err : LoadStatus
  pub sug : Option Suggestion

abbrev entry : LoadStatus → SgxErrlist
entry err = record { err = err; sug = none }

-- `sgx_errlist`
pub sgx_errlist : List SgxErrlist
sgx_errlist =
    entry sgx_error_unexpected
    ∷ entry sgx_error_invalid_parameter
    ∷ entry sgx_error_out_of_memory
    ∷ record { err = sgx_error_enclave_lost; sug = some power_transition_sample }
    ∷ entry sgx_error_invalid_enclave
    ∷ entry sgx_error_invalid_enclave_id
    ∷ entry sgx_error_invalid_signature
    ∷ entry sgx_error_out_of_epc
    ∷ record { err = sgx_error_no_device; sug = some enable_in_bios }
    ∷ entry sgx_error_memory_map_conflict
    ∷ entry sgx_error_invalid_metadata
    ∷ entry sgx_error_device_busy
    ∷ entry sgx_error_invalid_version
    ∷ entry sgx_error_invalid_attribute
    ∷ entry sgx_error_enclave_file_access
    ∷ []

-- `ret == err`, by the numbers of the constructors.
abbrev pub number : LoadStatus → ℕ
number sgx_success = 0
number sgx_error_unexpected = 1
number sgx_error_invalid_parameter = 2
number sgx_error_out_of_memory = 3
number sgx_error_enclave_lost = 4
number sgx_error_invalid_enclave = 5
number sgx_error_invalid_enclave_id = 6
number sgx_error_invalid_signature = 7
number sgx_error_out_of_epc = 8
number sgx_error_no_device = 9
number sgx_error_memory_map_conflict = 10
number sgx_error_invalid_metadata = 11
number sgx_error_device_busy = 12
number sgx_error_invalid_version = 13
number sgx_error_invalid_attribute = 14
number sgx_error_enclave_file_access = 15
number (unlisted n) = 16 + n

-- A line that is printed.
pub data Line : Type 0 where
  info : Suggestion → Line
  error_message : LoadStatus → Line
  error_code : LoadStatus → Line

-- The loop: the lines of the entry that is found, or the line behind the loop.
pub find_error : LoadStatus → List SgxErrlist → List Line
find_error ret [] = error_code ret ∷ []
find_error ret (e ∷ others) =
    let rest = find_error ret others in
    if number ret == number e.err
    then elim e.sug [ none ↦ error_message e.err ∷ [] | some s ↦ info s ∷ error_message e.err ∷ [] ]
    else rest

pub print_error_message : LoadStatus → List Line
unfolding find_error sgx_errlist
print_error_message ret = find_error ret sgx_errlist

-- `initialize_enclave`, with the result of `sgx_create_enclave`: the return code and what is printed.
pub initialize_enclave : LoadStatus → ℤ × List Line
unfolding print_error_message
initialize_enclave sgx_success = (pos 0, [])
initialize_enclave ret = (negsuc 0, print_error_message ret)

pub initialize_enclave-if :
    (ret : LoadStatus)
    → initialize_enclave ret
      ≡ (if number ret == 0 then (pos 0, []) else (negsuc 0, print_error_message ret))
unfolding initialize_enclave
initialize_enclave-if sgx_success = refl
initialize_enclave-if (unlisted n) = ground arith
initialize_enclave-if ret = refl

abbrev pub last_line : List Line → Option Line
last_line [] = none
last_line (l ∷ []) = some l
last_line (l ∷ m ∷ rest) = last_line (m ∷ rest)

abbrev pub listed : LoadStatus → Bool
listed sgx_success = false
listed (unlisted n) = false
listed ret = true

-- The return code of initialize_enclave is 0 for success and else -1, and the last line that is
-- printed names the status: as a message when the status is in the table, and as a code when it is
-- not.
pub initialize_enclave-reports :
    (ret : LoadStatus)
    → ((initialize_enclave ret).0 ≡ (if number ret == 0 then pos 0 else negsuc 0))
      × (last_line (initialize_enclave ret).1 ≡ (
          if number ret == 0
          then none
          else some (if listed ret then error_message ret else error_code ret)))
unfolding initialize_enclave print_error_message find_error sgx_errlist
initialize_enclave-reports sgx_success = (refl, refl)
initialize_enclave-reports (unlisted n) = (ground arith, ground arith)
initialize_enclave-reports ret = (refl, refl)
