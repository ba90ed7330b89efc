-- ===== src/Ias/Endian.antt =====
-- SWAP_ENDIAN_32B of ias_ra.cpp against the byte order that it is meant to change.
use mathlib.Core.List.{reverse-append, reverse-cons, append-nil}
use sgx_experiments.Prelude.{
  ℕ, ◌^◌, ◌<◌, ◌≡◌, refl, ap, ap₂, ◌∙◌, sym, List, map, length, [], ◌∷◌, ◌++◌, reverse, u32_le,
  arith,
}
use sgx_experiments.Crypto.{words_le}
use sgx_experiments.Ias.{swap_endian_dw, swap_endian_32b}

-- The bytes of the swapped word are the bytes of the word in reverse.
pub u32_le-swap_endian_dw : (w : ℕ) → u32_le (swap_endian_dw w) ≡ reverse (u32_le w)
unfolding swap_endian_dw
u32_le-swap_endian_dw w = ground arith

-- Swapping a 32-bit word twice gives it back.
pub swap_endian_dw-swap_endian_dw : (w : ℕ) → w < 2 ^ 32 → swap_endian_dw (swap_endian_dw w) ≡ w
unfolding swap_endian_dw
swap_endian_dw-swap_endian_dw w h = omega arith

words_le-append : (vs ws : List ℕ) → words_le (vs ++ ws) ≡ words_le vs ++ words_le ws
words_le-append [] ws = refl
words_le-append (v ∷ vs) ws = ap (λ t. u32_le v ++ t) (words_le-append vs ws)

words_le-swap : (ws : List ℕ) → words_le (reverse (map swap_endian_dw ws)) ≡ reverse (words_le ws)
words_le-swap [] = refl
words_le-swap (w ∷ ws) =
    ap words_le (reverse-cons (swap_endian_dw w) (map swap_endian_dw ws))
    ∙ words_le-append (reverse (map swap_endian_dw ws)) (swap_endian_dw w ∷ [])
    ∙ ap₂ ◌++◌ (words_le-swap ws) (append-nil (u32_le (swap_endian_dw w)) ∙ u32_le-swap_endian_dw w)
    ∙ sym (reverse-append (u32_le w) (words_le ws))

-- On eight words the macro reverses their order and swaps each.
pub swap_endian_32b_lem :
    (ptr : List ℕ) → length ptr ≡ 8 → swap_endian_32b ptr ≡ reverse (map swap_endian_dw ptr)
unfolding swap_endian_32b
swap_endian_32b_lem (a ∷ b ∷ c ∷ d ∷ e ∷ f ∷ g ∷ h ∷ []) p = refl
swap_endian_32b_lem ptr p = absurd (omega arith)

-- On eight words the macro SWAP_ENDIAN_32B reverses the 32 bytes in memory.
pub words_le-swap_endian_32b :
    (ptr : List ℕ) → length ptr ≡ 8 → words_le (swap_endian_32b ptr) ≡ reverse (words_le ptr)
words_le-swap_endian_32b ptr p = ap words_le (swap_endian_32b_lem ptr p) ∙ words_le-swap ptr

-- Eight words below 2 ^ 32 come back when the macro is applied twice.
pub swap_endian_32b-swap_endian_32b :
    (a b c d e f g h : ℕ)
    → (a < 2 ^ 32) × (b < 2 ^ 32) × (c < 2 ^ 32) × (d < 2 ^ 32)
    → (e < 2 ^ 32) × (f < 2 ^ 32) × (g < 2 ^ 32) × (h < 2 ^ 32)
    → swap_endian_32b (swap_endian_32b (a ∷ b ∷ c ∷ d ∷ e ∷ f ∷ g ∷ h ∷ []))
      ≡ a ∷ b ∷ c ∷ d ∷ e ∷ f ∷ g ∷ h ∷ []
unfolding swap_endian_32b
swap_endian_32b-swap_endian_32b a b c d e f g h p q = cc (
  swap_endian_dw-swap_endian_dw a p.0,
  swap_endian_dw-swap_endian_dw b p.1,
  swap_endian_dw-swap_endian_dw c p.2,
  swap_endian_dw-swap_endian_dw d p.3,
  swap_endian_dw-swap_endian_dw e q.0,
  swap_endian_dw-swap_endian_dw f q.1,
  swap_endian_dw-swap_endian_dw g q.2,
  swap_endian_dw-swap_endian_dw h q.3,
)
