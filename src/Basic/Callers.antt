-- ===== src/Basic/Callers.antt =====
-- The App's side: edger8r_pointer_attributes and edger8r_array_attributes of
-- App/Edger8rSyntax/Pointers.cpp and Arrays.cpp. Each call is followed by its assertions.
use sgx_experiments.Prelude.{
  ℕ, Bool, false, ◌&&◌, [], ◌∷◌, ◌++◌, Option, none, some, Bytes, take, replicate, same, ◌==◌,
}
use sgx_experiments.Prelude.Int.{ℤ}
use sgx_experiments.Basic.Checksum.{success_text, ecall_pointer_user_check, ecall_pointer_count}
use sgx_experiments.Basic.Arrays.{
  ecall_array_user_check, ecall_array_in, ecall_array_out, ecall_array_in_out, ecall_array_isary,
  upwards, downwards,
}
use sgx_experiments.Basic.Bridge.{user_check, in_only, out_only, in_out, Bridge, expect, in_order}
use sgx_experiments.Basic.Pointers.{
  holds, val, ecall_pointer_in, ecall_pointer_out, ecall_pointer_in_out, ocall_pointer_attr,
  until_nul, strlen, digits, new_digits, ecall_pointer_string, ecall_pointer_string_const,
  ecall_pointer_size, ecall_pointer_isptr_readonly,
}

-- `strlen(str) == 10 && memcmp(str, text, strlen(str)) == 0`
abbrev pub reads : Bytes → Bytes → Bool
reads text str = elim (strlen str) [
  | none ↦ false
  | some n ↦ n == 10 && same (take n str) (take n text)
]

-- `ecall_pointer_user_check` and `ecall_pointer_count` as calls on a buffer.
abbrev pub on_buffer : Option (ℕ × ℤ × Bytes) → Option Bytes
on_buffer none = none
on_buffer (some (len, sum, val)) = some val

-- A C string, with its NUL.
abbrev pub string : Bytes → Bytes
string text = text ++ (0 ∷ [])

unfoldable pub edger8r_pointer_attributes : Bridge → Option (Unit {0})
edger8r_pointer_attributes b = in_order (
    expect
      (b.transfer user_check (λ own c. on_buffer (ecall_pointer_user_check own c 128))
        (replicate 128 0x0e))
      (λ c. same (until_nul c) (until_nul success_text))
    ∷ expect (b.transfer in_only ecall_pointer_in val) (holds 0)
    ∷ expect (b.transfer out_only ecall_pointer_out val) (holds 1234)
    ∷ expect (b.transfer in_out ecall_pointer_in_out val) (holds 1234)
    ∷ ocall_pointer_attr b
    ∷ expect (b.transfer in_out ecall_pointer_string (string digits)) (reads new_digits)
    ∷ expect (b.transfer in_only ecall_pointer_string_const (string digits)) (reads digits)
    ∷ expect (b.transfer in_out (ecall_pointer_size 10) digits) (λ s. reads new_digits (string s))
    ∷ expect (b.transfer in_only (ecall_pointer_isptr_readonly 10) digits)
        (λ s. reads digits (string s))
    ∷ expect (b.transfer in_out (λ own arr. ecall_pointer_count arr 10) (upwards 0 10))
        (same (downwards 10 0 10))
    ∷ [])

unfoldable pub edger8r_array_attributes : Bridge → Option (Unit {0})
edger8r_array_attributes b = in_order (
    expect (b.transfer user_check ecall_array_user_check (upwards 0 4)) (same (downwards 4 0 4))
    ∷ expect (b.transfer in_only (λ own. ecall_array_in) (upwards 0 4)) (same (upwards 0 4))
    ∷ expect (b.transfer out_only (λ own. ecall_array_out) (upwards 0 4)) (same (downwards 4 0 4))
    ∷ expect (b.transfer in_out (λ own. ecall_array_in_out) (upwards 0 4)) (same (downwards 4 0 4))
    ∷ expect (b.transfer user_check (ecall_array_isary 10) (upwards 0 10))
        (same (downwards 10 0 10))
    ∷ [])
