-- ===== src/Tests/Calls.antt =====
-- The theorems about the calls of the basic enclave, and its programs with a concrete passage.
use sgx_experiments.Prelude.{
  ℕ, ◌≡◌, refl, Bool, true, false, List, [], ◌∷◌, ◌++◌, Option, none, some, replicate,
  if◌then◌else◌, length, leb, ◌+◌, arith,
}
use sgx_experiments.Prelude.Int.{ℤ, pos, pos_part, neg_part, ◌+ℤ◌, ◌-ℤ◌, ◌*ℤ◌}
use sgx_experiments.Basic.Checksum.{ecall_pointer_user_check}
use sgx_experiments.Basic.Pointers.{ecall_pointer_in}
use sgx_experiments.Basic.Pointers.{ecall_pointer_out}
use sgx_experiments.Basic.Pointers.{ecall_pointer_in_out}
use sgx_experiments.Basic.Pointers.{ocall_pointer_attr}
use sgx_experiments.Basic.Pointers.{ecall_pointer_string_const}
use sgx_experiments.Basic.Pointers.{ecall_pointer_size}
use sgx_experiments.Basic.Pointers.{ecall_pointer_isptr_readonly}
use sgx_experiments.Basic.Checksum.{ecall_pointer_count}
use sgx_experiments.Basic.Arrays.{ecall_array_user_check}
use sgx_experiments.Basic.Arrays.{ecall_array_in}
use sgx_experiments.Basic.Arrays.{ecall_array_out}
use sgx_experiments.Basic.Arrays.{ecall_array_in_out}
use sgx_experiments.Basic.Arrays.{ecall_array_isary}
use sgx_experiments.Basic.Bridge.{Direction, user_check, in_only, out_only, in_out, Bridge}
use sgx_experiments.Basic.Functions.{
  Gate, sgx_success, sgx_error_ecall_not_allowed, edger8r_function_attributes,
}
use sgx_experiments.Basic.Floats.{Floating, ecall_type_floating}
use sgx_experiments.Basic.Types.{
  edger8r_type_attributes, ecall_type_char, ecall_type_int, ecall_type_size_t, ecall_type_wchar_t,
  ecall_type_struct, ecall_type_enum_union,
}
use sgx_experiments.Basic.Libc.{Trusted, ecall_libc_functions}
use sgx_experiments.Basic.Libcxx.{ecall_libcxx_functions}
use sgx_experiments.Basic.Pointers.{ecall_pointer_string, strlen, digits}
use sgx_experiments.Basic.Pointers.Strings.{fitted, ecall_pointer_string-fits}
use sgx_experiments.Basic.Callers.{edger8r_pointer_attributes, edger8r_array_attributes}

abbrev unchanged : List ℕ → Option (List ℕ) → Option (List ℕ)
unchanged before none = none
unchanged before (some after) = some before

-- Copies for `[in]`, zeros for `[out]`.
abbrev pass : Direction → (Bool → List ℕ → Option (List ℕ)) → List ℕ → Option (List ℕ)
pass user_check f xs = f true xs
pass in_only f xs = unchanged xs (f false xs)
pass out_only f xs = f false (replicate (length xs) 0)
pass in_out f xs = f false xs

abbrev pub test_bridge : Bridge
test_bridge = record { transfer = pass }

abbrev test_gate : Gate
test_gate = record {
  call_private = λ allowed result before.
      if allowed then (sgx_success, result) else (sgx_error_ecall_not_allowed, before);
}

-- Whole numbers, with a tolerance of their sum.
abbrev magnitude : ℤ → ℤ
magnitude x = pos (pos_part x + neg_part x)

abbrev test_floating : Floating
test_floating = record {
  F = ℤ;
  plus = ◌+ℤ◌;
  minus = ◌-ℤ◌;
  times = ◌*ℤ◌;
  abs = magnitude;
  at_most = λ x y. leb (pos_part x + neg_part y) (pos_part y + neg_part x);
  epsilon = pos 1;
  ulp = pos 2;
  constant = pos 1234;
}

-- A heap with blocks of ones, and a processor that answers with the leaf.
abbrev test_trusted : Trusted
test_trusted = record {
  malloc = λ n. some (replicate n 1);
  sgx_cpuid = λ info leaf. (sgx_success, replicate 4 leaf);
}

pointers_run : edger8r_pointer_attributes test_bridge ≡ some tt
unfolding edger8r_pointer_attributes ecall_pointer_user_check ecall_pointer_in ecall_pointer_out
    ecall_pointer_in_out ocall_pointer_attr ecall_pointer_string ecall_pointer_string_const
    ecall_pointer_size ecall_pointer_isptr_readonly ecall_pointer_count ◌-ℤ◌
pointers_run = refl

arrays_run : edger8r_array_attributes test_bridge ≡ some tt
unfolding edger8r_array_attributes ecall_array_user_check ecall_array_in ecall_array_out
    ecall_array_in_out ecall_array_isary
arrays_run = refl

types_run : edger8r_type_attributes test_floating test_floating test_bridge ≡ some tt
unfolding edger8r_type_attributes ecall_type_char ecall_type_int ecall_type_size_t
    ecall_type_wchar_t ecall_type_struct ecall_type_enum_union ecall_type_floating ◌+ℤ◌ ◌-ℤ◌ ◌*ℤ◌
types_run = refl

functions_run : edger8r_function_attributes test_gate ≡ some tt
unfolding edger8r_function_attributes
functions_run = refl

libc_run : ecall_libc_functions test_trusted test_bridge 7 ≡ some 7
unfolding ecall_libc_functions
libc_run = refl

libcxx_run : ecall_libcxx_functions ≡ some tt
unfolding ecall_libcxx_functions
libcxx_run = refl

-- A text that is longer than the new one.
abbrev long_text : List ℕ
long_text = digits ++ (b'!' ∷ b'!' ∷ [])

ecall_pointer_string-fits_example :
    (ecall_pointer_string false (long_text ++ (0 ∷ [])) ≡ some (fitted 12 ++ (0 ∷ [])))
    × (strlen (fitted 12 ++ (0 ∷ [])) ≡ some 10)
    × (length (fitted 12) ≡ 12)
ecall_pointer_string-fits_example = ecall_pointer_string-fits false long_text [] (ground arith)
