-- ===== src/App/Print.antt =====
-- `PRINT_BYTE_ARRAY` of app.cpp: what it writes, as a list of pieces.
use sgx_experiments.Prelude.{
  ℕ, zero, suc, ◌+◌, ◌-◌, ◌/◌, ◌%◌, ◌<◌, ◌≡◌, refl, ap, Bool-cases, inl, inr, List, [], ◌∷◌, Option,
  none, some, Bytes, take, length, ◌==◌, if◌then◌else◌, arith,
}

-- "( null )", the number of bytes and the opening brace, "0x%x, ", a line break, "0x%x ", and the
-- closing brace.
pub data Piece : Type 0 where
  null_text : Piece
  opening : ℕ → Piece
  element : ℕ → Piece
  line_break : Piece
  last_element : ℕ → Piece
  closing : Piece

-- The loop at index `i` with `left` rounds left, and the last byte; `none` when a read leaves the
-- memory.
pub print_from : ℕ → ℕ → Bytes → Option (List Piece)
print_from left i [] = none
print_from zero i (b ∷ rest) = some (last_element b ∷ closing ∷ [])
print_from (suc left) i (b ∷ rest) = elim (print_from left (i + 1) rest) [
  | none ↦ none
  | some pieces ↦ some (if i % 8 == 7 then element b ∷ line_break ∷ pieces else element b ∷ pieces)
]

-- `none` for NULL.
pub print_byte_array : Option Bytes → ℕ → Option (List Piece)
unfolding print_from
print_byte_array none len = some (null_text ∷ [])
print_byte_array (some mem) zero = some (null_text ∷ [])
print_byte_array (some mem) (suc n) = elim (print_from n 0 mem) [
  | none ↦ none
  | some pieces ↦ some (opening (suc n) ∷ pieces)
]

-- The bytes that can be read off the pieces, and the line breaks among them.
abbrev pub bytes_of : List Piece → Bytes
bytes_of [] = []
bytes_of (element b ∷ pieces) = b ∷ bytes_of pieces
bytes_of (last_element b ∷ pieces) = b ∷ bytes_of pieces
bytes_of (null_text ∷ pieces) = bytes_of pieces
bytes_of (opening n ∷ pieces) = bytes_of pieces
bytes_of (line_break ∷ pieces) = bytes_of pieces
bytes_of (closing ∷ pieces) = bytes_of pieces

abbrev pub breaks : List Piece → ℕ
breaks [] = 0
breaks (line_break ∷ pieces) = suc (breaks pieces)
breaks (element b ∷ pieces) = breaks pieces
breaks (last_element b ∷ pieces) = breaks pieces
breaks (null_text ∷ pieces) = breaks pieces
breaks (opening n ∷ pieces) = breaks pieces
breaks (closing ∷ pieces) = breaks pieces

-- Pieces that show these bytes, with as many breaks.
pub record Shows (bytes : Bytes) (n : ℕ) (pieces : List Piece) : Type 0 where
  pub same : bytes_of pieces ≡ bytes
  pub lines : breaks pieces ≡ n

print_from-Shows :
    (left i : ℕ) (mem : Bytes)
    → left < length mem
    → (pieces : List Piece) × (print_from left i mem ≡ some pieces)
      × Shows (take (suc left) mem) ((i + left) / 8 - i / 8) pieces
unfolding print_from
print_from-Shows left i [] h = elim h [ ]
print_from-Shows zero i (b ∷ rest) h = (_, refl, record { same = refl; lines = omega arith })
print_from-Shows (suc left) i (b ∷ rest) h =
    let (pieces, e, s) = print_from-Shows left (i + 1) rest (omega arith) in
    elim (Bool-cases (i % 8 == 7)) [
      | inl full ↦ (
        element b ∷ line_break ∷ pieces,
        rw (e, full) refl,
        record { same = ap (λ t. b ∷ t) s.same; lines = ground (arith, s.lines, full) },
      )
      | inr part ↦ (
        element b ∷ pieces,
        rw (e, part) refl,
        record { same = ap (λ t. b ∷ t) s.same; lines = ground (arith, s.lines, part) },
      )
    ]

-- Printing the first bytes of a memory that has them, at least one, reads nothing behind them and
-- writes their number and these bytes in order, with as many line breaks as there are groups of
-- eight in front of the last byte.
pub print_byte_array-Shows :
    (mem : Bytes) (n : ℕ)
    → n < length mem
    → (pieces : List Piece) × (print_byte_array (some mem) (suc n)
        ≡ some (opening (suc n) ∷ pieces))
      × Shows (take (suc n) mem) (n / 8) pieces
unfolding print_byte_array
print_byte_array-Shows mem n h =
    let (pieces, e, s) = print_from-Shows n 0 mem h in
    (
      pieces,
      rw (e, print_byte_array) refl,
      record { same = s.same; lines = omega (arith, s.lines) },
    )
