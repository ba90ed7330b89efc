-- ===== src/Basic/Pointers/Strings.antt =====
-- What `ecall_pointer_string` leaves of a string.
use sgx_experiments.Prelude.{
  ℕ, zero, suc, ◌≤◌, ◌≡◌, ◌≢◌, refl, ap, ◌∙◌, [], ◌∷◌, ◌++◌, some, Bytes, take, drop, replicate,
  length, min, length-append, length-take, length-replicate, drop-append_eq, Bool, true, leb, arith,
}
use sgx_experiments.Basic.Pointers.{strlen, strncpy, new_digits, ecall_pointer_string}

-- No byte is NUL.
abbrev pub NoNul : Bytes → Type 0
NoNul [] = Unit {0}
NoNul (x ∷ xs) = (x ≢ 0) × NoNul xs

-- The new text, cut or filled up to a length.
abbrev pub fitted : ℕ → Bytes
fitted n = take n (new_digits ++ replicate n 0)

strlen_text : (text rest : Bytes) → NoNul text → strlen (text ++ (0 ∷ rest)) ≡ some (length text)
strlen_text [] rest h = refl
strlen_text (x ∷ text) rest (n, h) = let r = strlen_text text rest h in ground (arith, r, n)

strlen_fitted :
    (xs rest : Bytes) (n m : ℕ)
    → NoNul xs
    → n ≤ m
    → strlen (take n (xs ++ replicate m 0) ++ (0 ∷ rest)) ≡ some (min n (length xs))
strlen_fitted xs rest zero m h l = ap some (omega arith)
strlen_fitted [] rest (suc n) zero h l = elim l [ ]
strlen_fitted [] rest (suc n) (suc m) h l = ap some (omega arith)
strlen_fitted (x ∷ xs) rest (suc n) m (d, h) l =
    let r = strlen_fitted xs rest n m h (omega arith) in ground (arith, r, d)

new_digits-NoNul : NoNul new_digits
new_digits-NoNul = ground arith

string_with :
    (own : Bool) (str : Bytes) (n : ℕ)
    → strlen str ≡ some n
    → ecall_pointer_string own str ≡ strncpy str new_digits n
unfolding ecall_pointer_string
string_with own str n e = rw (e, ecall_pointer_string) refl

strncpy_into :
    (dest rest : Bytes) (n : ℕ)
    → leb n (length dest) ≡ true
    → drop n dest ≡ rest
    → strncpy dest new_digits n ≡ some (fitted n ++ rest)
strncpy_into dest rest n e f = rw (e, f) refl

-- On a buffer with a text without NUL bytes, a NUL and whatever follows, the call leaves the NUL
-- and what follows, and in place of the text the ten digits, cut or filled with NUL bytes to its
-- length: the string then has the smaller of the two lengths.
pub ecall_pointer_string-fits :
    (own : Bool) (text rest : Bytes)
    → NoNul text
    → (ecall_pointer_string own (text ++ (0 ∷ rest)) ≡ some (fitted (length text) ++ (0 ∷ rest)))
      × (strlen (fitted (length text) ++ (0 ∷ rest)) ≡ some (min (length text) 10))
      × (length (fitted (length text)) ≡ length text)
ecall_pointer_string-fits own text rest h =
    let n = length text in
    let room : leb n (length (text ++ (0 ∷ rest))) ≡ true =
      ground (arith, length-append text (0 ∷ rest)) in
    (
      string_with own (text ++ (0 ∷ rest)) n (strlen_text text rest h)
          ∙ strncpy_into (text ++ (0 ∷ rest)) (0 ∷ rest) n room
              (drop-append_eq n text (0 ∷ rest) refl),
      strlen_fitted new_digits rest n n new_digits-NoNul (omega arith),
      omega (
        arith,
        length-take n (new_digits ++ replicate n 0),
        length-append new_digits (replicate n 0),
        length-replicate {A = ℕ} n 0,
      ),
    )
