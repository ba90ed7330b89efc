-- ===== src/Basic/Checksum.antt =====
-- `checksum_internal`, `ecall_pointer_user_check` and `ecall_pointer_count` of
-- code-experiments/basic-enclave/Enclave/Edger8rSyntax/Pointers.cpp.
use sgx_experiments.Prelude.{
  ℕ, zero, suc, ◌+◌, ◌-◌, ◌*◌, ◌%◌, ◌^◌, ◌<◌, true, ◌&&◌, ◌⊎◌, ◌≤◌, ◌≡◌, refl, ◌∙◌, Bool, List, [],
  ◌∷◌, Option, none, some, Bytes, memcpy, take, replicate, set, get_elem?, get_elem?-set_self,
  eq-cases, Bool-cases, inl, inr, get_elem?-set_ne, length-set, length, ltb, if◌then◌else◌, arith,
}
use sgx_experiments.Prelude.Int.{ℤ, pos, negsuc, pos_part, neg_part, ◌+ℤ◌, ◌-ℤ◌, to_int}
use sgx_experiments.Basic.Arithmetic.{checked}

-- Two bytes as an `int16_t`, little-endian, and one byte as a `char`, which is signed.
abbrev pub int16 : ℕ → ℕ → ℤ
int16 lo hi =
    if ltb (lo + hi * 2 ^ 8) (2 ^ 15)
    then pos (lo + hi * 2 ^ 8)
    else negsuc (2 ^ 16 - 1 - (lo + hi * 2 ^ 8))

abbrev pub char : ℕ → ℤ
char b = if ltb b (2 ^ 7) then pos b else negsuc (2 ^ 8 - 1 - b)

-- The loop and the byte left over, on the `count` bytes of the buffer.
unfoldable pub checksum_sum : ℤ → Bytes → ℤ
checksum_sum sum [] = sum
checksum_sum sum (b ∷ []) = sum +ℤ char b
checksum_sum sum (lo ∷ hi ∷ rest) = checksum_sum (sum +ℤ int16 lo hi) rest

-- `~sum`
unfoldable pub checksum_internal : Bytes → ℤ
unfolding checksum_sum
checksum_internal buf = negsuc 0 -ℤ checksum_sum (pos 0) buf

abbrev pub AllBytes : Bytes → Type 0
AllBytes [] = Unit {0}
AllBytes (b ∷ rest) = (b < 2 ^ 8) × AllBytes rest

sum_parts :
    (a b : ℤ) (m n : ℕ)
    → (pos_part a ≤ m) × (neg_part a ≤ m)
    → (pos_part b ≤ n) × (neg_part b ≤ n)
    → (pos_part (a +ℤ b) ≤ m + n) × (neg_part (a +ℤ b) ≤ m + n)
unfolding ◌+ℤ◌
sum_parts a b m n h k = ground arith

checksum_sum-bounds :
    (sum : ℤ) (buf : Bytes) (m : ℕ)
    → AllBytes buf
    → (pos_part sum ≤ m) × (neg_part sum ≤ m)
    → (pos_part (checksum_sum sum buf) ≤ m + 2 ^ 15 * length buf)
      × (neg_part (checksum_sum sum buf) ≤ m + 2 ^ 15 * length buf)
unfolding checksum_sum
checksum_sum-bounds sum [] m bytes h = (omega arith, omega arith)
checksum_sum-bounds sum (b ∷ []) m (small, _) h =
    let s = sum_parts sum (char b) m (2 ^ 15) h (ground arith) in (omega arith, omega arith)
checksum_sum-bounds sum (lo ∷ hi ∷ rest) m (small, (small', bytes)) h =
    let s = sum_parts sum (int16 lo hi) m (2 ^ 15) h (ground arith) in
    let r = checksum_sum-bounds (sum +ℤ int16 lo hi) rest (m + 2 ^ 15) bytes s in
    (omega arith, omega arith)

-- The sum of at most 100 bytes, as ecall_pointer_user_check passes them, stays within the int32_t.
pub checksum_sum-fits :
    (buf : Bytes)
    → AllBytes buf
    → length buf ≤ 100
    → (pos_part (checksum_sum (pos 0) buf) < 2 ^ 31)
      × (neg_part (checksum_sum (pos 0) buf) < 2 ^ 31)
checksum_sum-fits buf bytes short =
    let r = checksum_sum-bounds (pos 0) buf 0 bytes (omega arith, omega arith) in
    (omega arith, omega arith)

-- "SGX_SUCCESS" with its NUL
abbrev pub success_text : Bytes
success_text = b'S' ∷ b'G' ∷ b'X' ∷ b'_' ∷ b'S' ∷ b'U' ∷ b'C' ∷ b'C' ∷ b'E' ∷ b'S' ∷ b'S' ∷ 0 ∷ []

-- `ecall_pointer_user_check` on a buffer outside the enclave (`abort` otherwise, `none`): the length
-- that it returns, the checksum that it prints, and the buffer afterwards.
unfoldable pub ecall_pointer_user_check : Bool → Bytes → ℕ → Option (ℕ × ℤ × Bytes)
unfolding checksum_internal
ecall_pointer_user_check is_outside val sz =
    let len = if ltb 100 sz then 100 else sz in
    let tmp = memcpy (replicate 100 0) val len in
    let count = if ltb 12 len then 12 else len in
    if is_outside
    then some (len, checksum_internal (take len tmp), memcpy val success_text count)
    else none

-- The loop of `ecall_pointer_count`, from index `i - 1` down.
unfoldable pub count_down : ℕ → ℕ → List ℕ → List ℕ
count_down zero cnt arr = arr
count_down (suc i) cnt arr = count_down i cnt (set arr i (cnt - 1 - i))

-- `int cnt = (int)count`, and the loop, if `cnt - 1` is not negative; undefined, `none`, when it
-- overflows.
unfoldable pub ecall_pointer_count : List ℕ → ℕ → Option (List ℕ)
unfolding count_down
ecall_pointer_count arr count = elim (checked (to_int count -ℤ pos 1)) [
  | none ↦ none
  | some (pos i) ↦ some (count_down (i + 1) (i + 1) arr)
  | some (negsuc i) ↦ some arr
]

count_down-above :
    (i cnt k : ℕ) (arr : List ℕ) → i ≤ k → get_elem? (count_down i cnt arr) k ≡ get_elem? arr k
unfolding count_down
count_down-above zero cnt k arr h = refl
count_down-above (suc i) cnt k arr h =
    count_down-above i cnt k (set arr i (cnt - 1 - i)) (omega arith)
    ∙ get_elem?-set_ne arr (cnt - 1 - i) (λ e. absurd (omega arith))

count_down-below :
    (i cnt k : ℕ) (arr : List ℕ)
    → i ≤ length arr
    → k < i
    → get_elem? (count_down i cnt arr) k ≡ some (cnt - 1 - k)
unfolding count_down
count_down-below zero cnt k arr l h = elim h [ ]
count_down-below (suc i) cnt k arr l h = elim (eq-cases k i) [
  | inl e ↦ rw e (
      count_down-above i cnt i (set arr i (cnt - 1 - i)) (omega arith)
      ∙ get_elem?-set_self arr i (cnt - 1 - i) l)
  | inr n ↦
      count_down-below i cnt k (set arr i (cnt - 1 - i))
        (omega (arith, length-set arr i (cnt - 1 - i))) (omega arith)
]

-- The first index, where the count is 0, positive, and negative as an int.
module _ (count : ℕ) where
  index_none : count % 2 ^ 32 ≡ 0 → checked (to_int count -ℤ pos 1) ≡ some (negsuc 0)
  unfolding ◌-ℤ◌
  index_none h = ground arith

  index_some :
      0 < count % 2 ^ 32
      → count % 2 ^ 32 < 2 ^ 31
      → checked (to_int count -ℤ pos 1) ≡ some (pos (count % 2 ^ 32 - 1))
  unfolding ◌-ℤ◌
  index_some h k = ground arith

  index_negative :
      2 ^ 31 < count % 2 ^ 32
      → checked (to_int count -ℤ pos 1) ≡ some (negsuc (2 ^ 32 - count % 2 ^ 32))
  unfolding ◌-ℤ◌
  index_negative h = ground arith

-- What the call leaves at index `k`, where `w` is the count modulo 2 ^ 32.
abbrev pub counted : List ℕ → ℕ → ℕ → Option ℕ
counted arr w k = if ltb w (2 ^ 31) && ltb k w then some (w - 1 - k) else get_elem? arr k

count_down-get :
    (arr : List ℕ) (w k : ℕ)
    → w ≤ length arr
    → get_elem? (count_down w w arr) k ≡ (if ltb k w then some (w - 1 - k) else get_elem? arr k)
count_down-get arr w k l = elim (Bool-cases (ltb k w)) [
  | inl e ↦ rw e (count_down-below w w k arr l (ground arith))
  | inr e ↦ rw e (count_down-above w w k arr (ground arith))
]

-- Let w be the count modulo 2 ^ 32. When w is below 2 ^ 31 and the array has w elements, the call
-- is defined, the first w elements count down to zero, and those behind are as they were; when w
-- is above 2 ^ 31, so that the int is negative, the array is as it was.
pub ecall_pointer_count-get :
    (arr : List ℕ) (count k : ℕ)
    → ((count % 2 ^ 32 < 2 ^ 31) × (count % 2 ^ 32 ≤ length arr)) ⊎ (2 ^ 31 < count % 2 ^ 32)
    → (out : List ℕ) × (ecall_pointer_count arr count ≡ some out)
      × (get_elem? out k ≡ counted arr (count % 2 ^ 32) k)
unfolding ecall_pointer_count
ecall_pointer_count-get arr count k (inr large) =
    (arr, rw (ecall_pointer_count, index_negative count large) refl, ground arith)
ecall_pointer_count-get arr count k (inl (small, l)) = elim (eq-cases (count % 2 ^ 32) 0) [
  | inl e ↦ (arr, rw (ecall_pointer_count, index_none count e) refl, ground arith)
  | inr n ↦
      let whole : count % 2 ^ 32 - 1 + 1 ≡ count % 2 ^ 32 = omega arith in
      let below : ltb (count % 2 ^ 32) (2 ^ 31) ≡ true = ground arith in
      (
        count_down (count % 2 ^ 32) (count % 2 ^ 32) arr,
        rw (ecall_pointer_count, index_some count (omega arith) small, whole) refl,
        rw below (count_down-get arr (count % 2 ^ 32) k l),
      )
]
