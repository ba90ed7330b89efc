-- ===== src/Basic/Arrays.antt =====
-- The array calls of code-experiments/basic-enclave/Enclave/Edger8rSyntax/Arrays.cpp.
use sgx_experiments.Prelude.{
  ℕ, zero, suc, ◌+◌, ◌-◌, ◌≡◌, ◌↔◌, inl, inr, length, Option-cases, refl, Bool, true, List, [], ◌∷◌,
  Option, none, some, ◌==◌, if◌then◌else◌, arith,
}

-- The loop at index `i`, with `left` rounds left, of a call on `n` elements: the element must be
-- `expected i` (`assert`, `none` when it fails), and becomes `n - 1 - i`.
unfoldable pub array_loop : (ℕ → ℕ) → ℕ → ℕ → ℕ → List ℕ → Option (List ℕ)
array_loop expected n i zero arr = some arr
array_loop expected n i (suc left) [] = none
array_loop expected n i (suc left) (x ∷ arr) =
    let rest = array_loop expected n (i + 1) left arr in
    if x == expected i then elim rest [ none ↦ none | some t ↦ some ((n - 1 - i) ∷ t) ] else none

unfoldable pub ecall_array_user_check : Bool → List ℕ → Option (List ℕ)
unfolding array_loop
ecall_array_user_check is_outside arr = if is_outside then array_loop (λ i. i) 4 0 4 arr else none

unfoldable pub ecall_array_in : List ℕ → Option (List ℕ)
unfolding array_loop
ecall_array_in arr = array_loop (λ i. i) 4 0 4 arr

unfoldable pub ecall_array_out : List ℕ → Option (List ℕ)
unfolding array_loop
ecall_array_out arr = array_loop (λ i. 0) 4 0 4 arr

unfoldable pub ecall_array_in_out : List ℕ → Option (List ℕ)
unfolding array_loop
ecall_array_in_out arr = array_loop (λ i. i) 4 0 4 arr

-- `n` is the number of elements of `array_t`.
unfoldable pub ecall_array_isary : ℕ → Bool → List ℕ → Option (List ℕ)
unfolding array_loop
ecall_array_isary n is_outside arr = if is_outside then array_loop (λ i. i) n 0 n arr else none

-- The numbers from `i` on, and the numbers down from `m`.
abbrev pub upwards : ℕ → ℕ → List ℕ
upwards i zero = []
upwards i (suc n) = i ∷ upwards (i + 1) n

abbrev pub downwards : ℕ → ℕ → ℕ → List ℕ
downwards n i zero = []
downwards n i (suc left) = (n - 1 - i) ∷ downwards n (i + 1) left

array_loop-counts :
    (n i left : ℕ) → array_loop (λ j. j) n i left (upwards i left) ≡ some (downwards n i left)
unfolding array_loop
array_loop-counts n i zero = refl
array_loop-counts n i (suc left) = let r = array_loop-counts n (i + 1) left in ground arith

-- An array that counts up passes the assertions and counts down afterwards, for every size.
pub ecall_array_isary-reverses :
    (n : ℕ) → ecall_array_isary n true (upwards 0 n) ≡ some (downwards n 0 n)
unfolding ecall_array_isary
ecall_array_isary-reverses n = array_loop-counts n 0 n

loop_passed :
    (n i left : ℕ) (arr out : List ℕ)
    → length arr ≡ left
    → array_loop (λ j. j) n i left arr ≡ some out
    → arr ≡ upwards i left
unfolding array_loop
loop_passed n i zero [] out l h = refl
loop_passed n i zero (x ∷ arr) out l h = absurd (ground arith)
loop_passed n i (suc left) [] out l h = absurd (ground arith)
loop_passed n i (suc left) (x ∷ arr) out l h =
    elim (Option-cases (array_loop (λ j. j) n (i + 1) left arr)) [
      | inl e ↦ absurd (ground arith)
      | inr (t, e) ↦ let r = loop_passed n (i + 1) left arr t (omega arith) e in ground arith
    ]

-- An array of n elements outside the enclave passes the assertions exactly when it counts up, and
-- it counts down afterwards.
pub ecall_array_isary_iff :
    (n : ℕ) (arr out : List ℕ)
    → length arr ≡ n
    → (ecall_array_isary n true arr ≡ some out) ↔ ((arr ≡ upwards 0 n) × (out ≡ downwards n 0 n))
unfolding ecall_array_isary
ecall_array_isary_iff n arr out l = (
  (λ h.
      let e = loop_passed n 0 n arr out l h in
      let c = array_loop-counts n 0 n in (e, ground arith)),
  (λ (e, e'). rw (e, e') (array_loop-counts n 0 n)),
)
