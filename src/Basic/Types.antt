-- ===== src/Basic/Types.antt =====
-- The calls on basic types: Enclave/Edger8rSyntax/Types.cpp and App/Edger8rSyntax/Types.cpp; those
-- on floating-point numbers are in Basic/Floats.antt. A call returns `none` when its assertion fails.
use sgx_experiments.Prelude.{
  ℕ, ◌+◌, ◌*◌, ◌^◌, Bool, true, false, [], ◌∷◌, Option, none, some, Bytes, memcpy, replicate,
  u32_le, ◌==◌, if◌then◌else◌,
}
use sgx_experiments.Basic.Floats.{Floating, ecall_type_floating}
use sgx_experiments.Basic.Bridge.{user_check, Bridge, expect, in_order}

-- `assert(val == expected)`
abbrev pub equals : ℕ → ℕ → Option (Unit {0})
equals expected val = if val == expected then some tt else none

unfoldable pub ecall_type_char : ℕ → Option (Unit {0})
ecall_type_char val = equals 0x12 val

unfoldable pub ecall_type_int : ℕ → Option (Unit {0})
ecall_type_int val = equals 1234 val

unfoldable pub ecall_type_size_t : ℕ → Option (Unit {0})
ecall_type_size_t val = equals 12345678 val

unfoldable pub ecall_type_wchar_t : ℕ → Option (Unit {0})
ecall_type_wchar_t val = equals 0x1234 val

-- `struct struct_foo_t`
pub record StructFoo : Type 0 where
  pub struct_foo_0 : ℕ
  pub struct_foo_1 : ℕ

unfoldable pub ecall_type_struct : StructFoo → Option (Unit {0})
ecall_type_struct val = in_order (equals 1234 val.struct_foo_0 ∷ equals 5678 val.struct_foo_1 ∷ [])

-- `enum enum_foo_t`
pub data EnumFoo : Type 0 where
  enum_foo_0 enum_foo_1 : EnumFoo

abbrev pub is_enum_foo_0 : EnumFoo → Bool
is_enum_foo_0 enum_foo_0 = true
is_enum_foo_0 enum_foo_1 = false

-- `union union_foo_t`, as its eight bytes: all members begin at the first. `union_foo_0` and
-- `union_foo_1` are words, read and written little-endian; `union_foo_3` is all of it.
abbrev pub union_foo_word : Bytes → Option ℕ
union_foo_word (b0 ∷ b1 ∷ b2 ∷ b3 ∷ rest) = some (b0 + b1 * 2 ^ 8 + b2 * 2 ^ 16 + b3 * 2 ^ 24)
union_foo_word val = none

abbrev pub set_union_foo_word : ℕ → Bytes → Bytes
set_union_foo_word n val = memcpy val (u32_le n) 4

-- The union has to lie outside the enclave: `abort` otherwise.
unfoldable pub ecall_type_enum_union : EnumFoo → Bool → Bytes → Option Bytes
ecall_type_enum_union val1 is_outside val2 =
    let written = set_union_foo_word 2 (set_union_foo_word 1 val2) in
    if is_outside then if is_enum_foo_0 val1 then some written else none else none

-- `val.union_foo_0 == n`
abbrev pub reads_word : ℕ → Bytes → Bool
reads_word n val = elim (union_foo_word val) [ none ↦ false | some m ↦ m == n ]

unfoldable pub edger8r_type_attributes : Floating → Floating → Bridge → Option (Unit {0})
unfolding ecall_type_char ecall_type_int ecall_type_size_t ecall_type_wchar_t ecall_type_struct
    ecall_type_enum_union
edger8r_type_attributes float double b = in_order (
    ecall_type_char 0x12
    ∷ ecall_type_int 1234
    ∷ ecall_type_floating float float.constant
    ∷ ecall_type_floating double double.constant
    ∷ ecall_type_size_t 12345678
    ∷ ecall_type_wchar_t 0x1234
    ∷ ecall_type_struct (record { struct_foo_0 = 1234; struct_foo_1 = 5678 })
    ∷ expect (b.transfer user_check (ecall_type_enum_union enum_foo_0) (replicate 8 0))
        (reads_word 2)
    ∷ [])
