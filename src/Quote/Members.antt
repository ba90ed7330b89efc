-- ===== src/Quote/Members.antt =====
-- Structures in memory: the offsets of their members, and what is read there.
use mathlib.Core.List.{append_assoc}
use sgx_experiments.Prelude.{
  ℕ, zero, suc, ◌+◌, ◌*◌, ◌/◌, ◌^◌, ◌<◌, ◌≤◌, ◌-◌, ◌≡◌, refl, ap, ◌∙◌, List, [], ◌∷◌, ◌++◌, Bytes,
  take, drop, length, length-append, get_or, map, subst, ltb, false, take-all, take-append_le,
  arith,
}
use sgx_experiments.Quote.{word_bytes, word, concat, field}

length-word_bytes : (n w : ℕ) → length (word_bytes n w) ≡ n
length-word_bytes zero w = refl
length-word_bytes (suc n) w = ap suc (length-word_bytes n (w / 256))

word-word_bytes : (n w : ℕ) → w < 256 ^ n → word (word_bytes n w) ≡ w
word-word_bytes zero w h = omega arith
word-word_bytes (suc n) w h = let rest = word-word_bytes n (w / 256) (omega arith) in omega arith

-- The offset of a member.
abbrev pub offset : List ℕ → ℕ → ℕ
offset [] i = 0
offset (s ∷ ss) zero = 0
offset (s ∷ ss) (suc i) = s + offset ss i

drop-append_add : (n m : ℕ) (xs ys : Bytes) → length xs ≡ n → drop (n + m) (xs ++ ys) ≡ drop m ys
drop-append_add zero m [] ys h = ap (λ k. drop k ys) (omega arith)
drop-append_add zero m (x ∷ xs) ys h = absurd (omega arith)
drop-append_add (suc n) m [] ys h = absurd (omega arith)
drop-append_add (suc n) m (x ∷ xs) ys h =
    let e : suc n + m ≡ suc (n + m) = omega arith in rw e (drop-append_add n m xs ys (omega arith))

pub take-append_eq : (n : ℕ) (xs ys : Bytes) → length xs ≡ n → take n (xs ++ ys) ≡ xs
take-append_eq n xs ys h = take-append_le n xs ys (omega arith) ∙ take-all n xs (omega arith)

-- The members have the sizes.
abbrev Sized : List ℕ → List Bytes → Type 0
Sized [] xs = Unit {0}
Sized (s ∷ ss) xs = (length (get_or xs 0 []) ≡ s) × Sized ss (drop 1 xs)

Sized-map : (xs : List Bytes) → Sized (map length xs) xs
Sized-map [] = tt
Sized-map (x ∷ xs) = (refl, Sized-map xs)

pub Sized_lem : {ss : List ℕ} (xs : List Bytes) → map length xs ≡ ss → Sized ss xs
Sized_lem xs e = subst (λ ss. Sized ss xs) e (Sized-map xs)

-- A member is read back at its offset, whatever comes behind the structure.
pub field-concat :
    (ss : List ℕ) (xs : List Bytes) (rest : Bytes)
    → Sized ss xs
    → (i : ℕ) → i < length ss
    → length ss ≡ length xs
    → field (offset ss i) (get_or ss i 0) (concat xs ++ rest) ≡ get_or xs i []
field-concat [] xs rest sized i h l = absurd (omega arith)
field-concat (s ∷ ss) [] rest sized i h l = absurd (omega arith)
field-concat (s ∷ ss) (y ∷ xs) rest (sy, sized) zero h l =
    rw (append_assoc y (concat xs) rest) (take-append_eq s y (concat xs ++ rest) sy)
field-concat (s ∷ ss) (y ∷ xs) rest (sy, sized) (suc i) h l = rw (append_assoc y (concat xs) rest) (
    ap (take (get_or ss i 0)) (drop-append_add s (offset ss i) y (concat xs ++ rest) sy)
    ∙ field-concat ss xs rest sized i (omega arith) (omega arith))

pub le→ltb : (a b : ℕ) → b ≤ a → ltb a b ≡ false
le→ltb a b h = ground arith

-- A member with alignment `a` behind the first `n` bytes.
abbrev aligned : ℕ → ℕ → ℕ
aligned a n = (n + (a - 1)) / a * a

abbrev pub aligned_offsets : ℕ → List ℕ → List ℕ → List ℕ
aligned_offsets n (a ∷ rest) (s ∷ ss) = aligned a n ∷ aligned_offsets (aligned a n + s) rest ss
aligned_offsets n alignments sizes = []

abbrev pub packed_offsets : ℕ → List ℕ → List ℕ
packed_offsets n (s ∷ ss) = n ∷ packed_offsets (n + s) ss
packed_offsets n [] = []

pub length-concat :
    (ss : List ℕ) (xs : List Bytes)
    → Sized ss xs
    → length ss ≡ length xs
    → length (concat xs) ≡ offset ss (length ss)
length-concat [] [] sized l = refl
length-concat [] (x ∷ xs) sized l = absurd (omega arith)
length-concat (s ∷ ss) [] sized l = absurd (omega arith)
length-concat (s ∷ ss) (x ∷ xs) (sx, sized) l =
    omega (arith, length-append x (concat xs), length-concat ss xs sized (omega arith))

-- A word of the structure, from its bytes.
pub word_field : (n w : ℕ) (bs : Bytes) → w < 256 ^ n → bs ≡ word_bytes n w → word bs ≡ w
word_field n w bs h e = rw e (word-word_bytes n w h)
