-- ===== src/Basic/Output.antt =====
-- `printf` of code-experiments/basic-enclave/Enclave/Enclave.cpp, and `ocall_print_string` of
-- App/App.cpp, which prints what it is given. `text` is what the format and its arguments stand for,
-- and `bufsiz` the BUFSIZ of the C library.
use mathlib.Core.List.{append_assoc}
use sgx_experiments.Prelude.{
  ℕ, zero, suc, ◌+◌, ◌-◌, ◌^◌, ◌<◌, ◌≡◌, refl, [], ◌∷◌, ◌++◌, Option, some, Bytes, memcpy, take,
  drop, replicate, length, length-take, take-all, ◌==◌, if◌then◌else◌, arith,
}
use sgx_experiments.Prelude.Int.{ℤ, to_int, pos, ◌+ℤ◌}
use sgx_experiments.Basic.Arithmetic.{checked}
use sgx_experiments.Basic.Pointers.{until_nul}

-- `vsnprintf(buf, size, …)`: what fits of the text, and a NUL.
abbrev pub vsnprintf : Bytes → ℕ → Bytes → Bytes
vsnprintf buf size text =
    let line = take (size - 1) text ++ (0 ∷ []) in memcpy buf line (length line)

abbrev pub strnlen : Bytes → ℕ → ℕ
strnlen s zero = 0
strnlen [] (suc m) = 0
strnlen (x ∷ xs) (suc m) = let rest = strnlen xs m in if x == 0 then 0 else suc rest

-- `[in, string]`: the App is given the text up to the first NUL.
pub ocall_print_string : Bytes → Bytes
ocall_print_string str = until_nul str

-- The return value, `none` when it overflows, and what is shown.
pub printf : ℕ → Bytes → Option ℤ × Bytes
unfolding ocall_print_string
printf bufsiz text =
    let buf = vsnprintf (replicate bufsiz 0) bufsiz text in
    (checked (to_int (strnlen buf (bufsiz - 1)) +ℤ pos 1), ocall_print_string buf)

until_nul-take :
    (n : ℕ) (text rest : Bytes) → until_nul (take n text ++ (0 ∷ rest)) ≡ take n (until_nul text)
until_nul-take zero text rest = refl
until_nul-take (suc n) [] rest = refl
until_nul-take (suc n) (x ∷ xs) rest = ground (arith, until_nul-take n xs rest)

strnlen-take :
    (n : ℕ) (text rest : Bytes)
    → strnlen (take n text ++ (0 ∷ rest)) n ≡ length (take n (until_nul text))
strnlen-take zero text rest = refl
strnlen-take (suc n) [] rest = refl
strnlen-take (suc n) (x ∷ xs) rest = ground (arith, strnlen-take n xs rest)

-- The int that is returned.
returned_int : (n : ℕ) → n + 1 < 2 ^ 31 → checked (to_int n +ℤ pos 1) ≡ some (pos (n + 1))
unfolding ◌+ℤ◌
returned_int n h = ground arith

-- The buffer after `vsnprintf`.
vsnprintf_lem :
    (buf : Bytes) (size : ℕ) (text : Bytes)
    → vsnprintf buf size text
      ≡ take (size - 1) text ++ (0 ∷ drop (length (take (size - 1) text ++ (0 ∷ []))) buf)
vsnprintf_lem buf size text =
    let line = take (size - 1) text ++ (0 ∷ []) in
    rw (take-all (length line) line (omega arith))
      (append_assoc (take (size - 1) text) (0 ∷ []) (drop (length line) buf))

-- What is shown: the text up to its first NUL, or up to BUFSIZ - 1 bytes.
abbrev pub fitting : ℕ → Bytes → Bytes
fitting bufsiz text = take (bufsiz - 1) (until_nul text)

-- For a BUFSIZ between 1 and 2 ^ 31 - 1 the printf of the enclave shows the text up to its first
-- NUL and to BUFSIZ - 1 bytes, fewer bytes than BUFSIZ, and returns their number and 1, with no
-- overflow.
pub printf-fits :
    (bufsiz : ℕ) (text : Bytes)
    → 0 < bufsiz
    → bufsiz < 2 ^ 31
    → (printf bufsiz text ≡ (some (pos (length (fitting bufsiz text) + 1)), fitting bufsiz text))
      × (length (fitting bufsiz text) < bufsiz)
unfolding printf ocall_print_string
printf-fits bufsiz text some_room small =
    let n = bufsiz - 1 in
    let fits : length (fitting bufsiz text) < bufsiz =
      omega (arith, length-take n (until_nul text)) in
    (
      simp
          (
            vsnprintf_lem (replicate bufsiz 0) bufsiz text,
            strnlen-take,
            until_nul-take,
            returned_int (length (fitting bufsiz text)) (omega arith),
          )
          refl,
      fits,
    )
