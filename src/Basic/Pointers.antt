-- ===== src/Basic/Pointers.antt =====
-- The calls with pointer attributes: Enclave/Edger8rSyntax/Pointers.cpp and App/Edger8rSyntax/
-- Pointers.cpp of the basic enclave. A variable is a buffer of one element.
pub mod Strings
use sgx_experiments.Prelude.{
  ℕ, suc, ◌+◌, Bool, true, false, List, [], ◌∷◌, ◌++◌, Option, none, some, Bytes, take, drop,
  replicate, length, set, leb, ◌==◌, if◌then◌else◌,
}
use sgx_experiments.Basic.Bridge.{user_check, in_only, out_only, in_out, Bridge, expect, in_order}

-- `*val == n`, and `*val = n`
abbrev pub holds : ℕ → List ℕ → Bool
holds n (x ∷ xs) = x == n
holds n [] = false

-- The buffer that the enclave is given has to lie in the enclave: `abort` otherwise.
unfoldable pub ecall_pointer_in : Bool → List ℕ → Option (List ℕ)
ecall_pointer_in own val = if own then none else some (set val 0 1234)

unfoldable pub ecall_pointer_out : Bool → List ℕ → Option (List ℕ)
ecall_pointer_out own val =
    if own then none else if holds 0 val then some (set val 0 1234) else none

unfoldable pub ecall_pointer_in_out : Bool → List ℕ → Option (List ℕ)
ecall_pointer_in_out own val = if own then none else some (set val 0 1234)

unfoldable pub ocall_pointer_user_check : Bool → List ℕ → Option (List ℕ)
ocall_pointer_user_check own val = some val

unfoldable pub ocall_pointer_in : Bool → List ℕ → Option (List ℕ)
ocall_pointer_in own val = some (set val 0 1234)

unfoldable pub ocall_pointer_out : Bool → List ℕ → Option (List ℕ)
ocall_pointer_out own val = some (set val 0 1234)

unfoldable pub ocall_pointer_in_out : Bool → List ℕ → Option (List ℕ)
ocall_pointer_in_out own val = some (set val 0 1234)

-- `val = 0` in front of each call.
abbrev pub val : List ℕ
val = 0 ∷ []

unfoldable pub ocall_pointer_attr : Bridge → Option (Unit {0})
unfolding ocall_pointer_user_check ocall_pointer_in ocall_pointer_out ocall_pointer_in_out
ocall_pointer_attr b = in_order (
    expect (b.transfer user_check ocall_pointer_user_check val) (λ v. true)
    ∷ expect (b.transfer in_only ocall_pointer_in val) (holds 0)
    ∷ expect (b.transfer out_only ocall_pointer_out val) (holds 1234)
    ∷ expect (b.transfer in_out ocall_pointer_in_out val) (holds 1234)
    ∷ [])

-- The C library: the bytes in front of the first NUL, and their number; `none` without a NUL.
abbrev pub until_nul : Bytes → Bytes
until_nul [] = []
until_nul (x ∷ xs) = let rest = until_nul xs in if x == 0 then [] else x ∷ rest

abbrev pub strlen : Bytes → Option ℕ
strlen [] = none
strlen (x ∷ xs) =
    let rest = strlen xs in
    if x == 0 then some 0 else elim rest [ none ↦ none | some n ↦ some (suc n) ]

-- `strncpy(dest, src, n)`: the bytes of the string, and NUL bytes up to `n`; `none` when they do not fit
-- in the destination.
abbrev pub strncpy : Bytes → Bytes → ℕ → Option Bytes
strncpy dest src n =
    if leb n (length dest)
    then some (take n (until_nul src ++ replicate n 0) ++ drop n dest)
    else none

-- "0987654321" and "1234567890"
abbrev pub new_digits : Bytes
new_digits = b'0' ∷ b'9' ∷ b'8' ∷ b'7' ∷ b'6' ∷ b'5' ∷ b'4' ∷ b'3' ∷ b'2' ∷ b'1' ∷ []

abbrev pub digits : Bytes
digits = b'1' ∷ b'2' ∷ b'3' ∷ b'4' ∷ b'5' ∷ b'6' ∷ b'7' ∷ b'8' ∷ b'9' ∷ b'0' ∷ []

unfoldable pub ecall_pointer_string : Bool → Bytes → Option Bytes
ecall_pointer_string own str = elim (strlen str) [ none ↦ none | some n ↦ strncpy str new_digits n ]

-- The string is copied into a block of its length, which is freed.
unfoldable pub ecall_pointer_string_const : Bool → Bytes → Option Bytes
ecall_pointer_string_const own str = elim (strlen str) [
  | none ↦ none
  | some n ↦ elim (strncpy (replicate n 0) str n) [ none ↦ none | some temp ↦ some str ]
]

unfoldable pub ecall_pointer_size : ℕ → Bool → Bytes → Option Bytes
ecall_pointer_size len own ptr = strncpy ptr new_digits len

unfoldable pub ecall_pointer_isptr_readonly : ℕ → Bool → Bytes → Option Bytes
ecall_pointer_isptr_readonly len own buf = strncpy buf new_digits len
