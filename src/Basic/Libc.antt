-- ===== src/Basic/Libc.antt =====
-- The C library in the enclave: Enclave/TrustedLibrary/Libc.cpp, and App/TrustedLibrary/Libc.cpp,
-- which makes the calls. The memory that `malloc` gives and `sgx_cpuid` are parameters.
use sgx_experiments.Prelude.{
  ℕ, ◌+◌, ◌-◌, Bool, List, [], ◌∷◌, ◌++◌, Option, none, some, Bytes, drop, replicate, length, leb,
  if◌then◌else◌,
}
use sgx_experiments.Basic.Bridge.{out_only, Bridge}
use sgx_experiments.Basic.Functions.{EcallStatus, is_sgx_success}

-- A block of the size that is asked for, with what is in it, if there is memory; and the four words of
-- a leaf, with a status.
pub record Trusted : Type 0 where
  pub malloc : ℕ → Option Bytes
  pub sgx_cpuid : List ℕ → ℕ → EcallStatus × List ℕ

-- `memset(ptr, value, n)`: undefined, `none`, when the block is shorter.
abbrev pub memset : Bytes → ℕ → ℕ → Option Bytes
memset block value n =
    if leb n (length block) then some (replicate n value ++ drop n block) else none

-- The number of blocks that are held, before and after; `none` when it aborts.
unfoldable pub ecall_malloc_free : Trusted → ℕ → Option ℕ
ecall_malloc_free t held = elim (t.malloc 100) [
  | none ↦ none
  | some ptr ↦ elim (memset ptr 0x0 100) [ none ↦ none | some zeroed ↦ some ((held + 1) - 1) ]
]

unfoldable pub ecall_sgx_cpuid : Trusted → ℕ → Bool → List ℕ → Option (List ℕ)
ecall_sgx_cpuid t leaf own cpuinfo =
    let (ret, info) = t.sgx_cpuid cpuinfo leaf in if is_sgx_success ret then some info else none

abbrev pub cpuid : List ℕ
cpuid = 0x0 ∷ 0x0 ∷ 0x0 ∷ 0x0 ∷ []

-- Both calls have to succeed: `abort` otherwise.
abbrev pub both : Option ℕ → Option (List ℕ) → Option ℕ
both none info = none
both (some held) none = none
both (some held) (some info) = some held

unfoldable pub ecall_libc_functions : Trusted → Bridge → ℕ → Option ℕ
unfolding ecall_malloc_free ecall_sgx_cpuid
ecall_libc_functions t b held =
    both (ecall_malloc_free t held) (b.transfer out_only (ecall_sgx_cpuid t 0x0) cpuid)
