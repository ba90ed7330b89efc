-- ===== src/Ecp/Derive.antt =====
-- The default key derivation of ecp.cpp: the layout of the derivation buffer, and what a derived
-- key is.
use sgx_experiments.Prelude.{
  ℕ, zero, suc, ◌+◌, ◌-◌, ◌<◌, ◌≡◌, refl, ap, ◌↔◌, inl, inr, true, false, [], ◌∷◌, ◌++◌, some, sym,
  ◌∙◌, Bytes, length, take, drop, replicate, take-all, ltb, Option-cases, arith,
}
use sgx_experiments.Codes.{sample_success}
use sgx_experiments.Crypto.{Libcrypto, Works}
use mathlib.Core.List.{append_assoc, append_cancel_right}
use sgx_experiments.Ecp.{derivation_buffer, derive_from_label, derive_key, key_label}

drop-zeros : (n : ℕ) → drop {A = ℕ} n (0 ∷ 0 ∷ 0 ∷ replicate n 0) ≡ 0 ∷ 0 ∷ 0 ∷ []
drop-zeros zero = refl
drop-zeros (suc n) = drop-zeros n

take-label : (l r : Bytes) → take (suc (length l)) (l ++ 0 ∷ r) ≡ l ++ 0 ∷ []
take-label [] r = refl
take-label (x ∷ l) r = ap (λ t. x ∷ t) (take-label l r)

fits : (n : ℕ) → ltb (suc (suc (suc n))) n ≡ false
fits n = ground arith

-- For every label the derivation buffer is the counter 0x01, the label, a zero byte, and the
-- output length 0x0080 as a little-endian word.
pub derivation_buffer_lem :
    (label : Bytes) → derivation_buffer label ≡ 1 ∷ (label ++ 0 ∷ 0x80 ∷ 0 ∷ [])
unfolding derivation_buffer
derivation_buffer_lem label =
    let size : length label + 4 ≡ suc (suc (suc (suc (length label)))) = omega arith in
    let tail : suc (suc (suc (suc (length label)))) - 1 ≡ suc (suc (suc (length label))) =
      omega arith in
    let head : suc (suc (suc (suc (length label)))) - 2 ≡ suc (suc (length label)) = omega arith in
    rw
      (
        size,
        tail,
        head,
        fits (length label),
        drop-zeros (length label),
        take-all (length label) label (omega arith),
        take-label label,
      )
      (ap (λ t. 1 ∷ t) (append_assoc label (0 ∷ []) (0x80 ∷ 0 ∷ [])))

-- Two labels with one derivation buffer are equal.
pub derivation_buffer-injective : (a b : Bytes) → derivation_buffer a ≡ derivation_buffer b → a ≡ b
derivation_buffer-injective a b h =
    append_cancel_right a b _
      (ap (drop 1) (sym (derivation_buffer_lem a) ∙ h ∙ derivation_buffer_lem b))

-- The labels of different key ids differ: the four session keys are derived from different
-- messages.
pub key_label-injective :
    (i j : ℕ) (label : Bytes) → key_label i ≡ some label → key_label j ≡ some label → i ≡ j
unfolding key_label
key_label-injective i j label p q = ground arith

-- What a derived key is made from.
abbrev pub Derived : Libcrypto → Bytes → ℕ → Bytes → Type 0
Derived lib shared_key key_id key =
    (label key_derive_key : Bytes) × (key_label key_id ≡ some label)
    × (lib.malloc label (length label + 4) ≡ true)
    × (lib.rijndael128_cmac_msg (replicate 16 0) shared_key ≡ (sample_success, key_derive_key))
    × (lib.rijndael128_cmac_msg key_derive_key (1 ∷ (label ++ 0 ∷ 0x80 ∷ 0 ∷ []))
        ≡ (sample_success, key))

success_of :
    (lib : Libcrypto) (shared_key old_key key : Bytes) (key_id : ℕ)
    → derive_key lib shared_key key_id old_key ≡ (true, key)
    → Derived lib shared_key key_id key
unfolding derive_key derive_from_label
success_of lib shared_key old_key key key_id h = elim (Option-cases (key_label key_id)) [
  | inl e ↦ absurd (ground arith)
  | inr (label, e) ↦ (
    label,
    (lib.rijndael128_cmac_msg (replicate 16 0) shared_key).1,
    e,
    ground arith,
    ground arith,
    ground (arith, derivation_buffer_lem label),
  )
]

of_success :
    (lib : Libcrypto) (shared_key old_key key : Bytes) (key_id : ℕ)
    → Derived lib shared_key key_id key
    → derive_key lib shared_key key_id old_key ≡ (true, key)
unfolding derive_key derive_from_label
of_success lib shared_key old_key key key_id (label, kdk, p, m, c, d) =
    ground (arith, derivation_buffer_lem label)

-- The default derivation succeeds with a key exactly when the key id has a label, the buffer is
-- allocated, the MAC of the shared secret under sixteen zero bytes is computed, and the key is the
-- MAC under it of the counter, the label, a zero byte and the output length.
pub derive_key_iff :
    (lib : Libcrypto) (shared_key old_key key : Bytes) (key_id : ℕ)
    → (derive_key lib shared_key key_id old_key ≡ (true, key)) ↔ Derived lib shared_key key_id key
derive_key_iff lib shared_key old_key key key_id =
    (success_of lib shared_key old_key key key_id, of_success lib shared_key old_key key key_id)

key_label-small : (key_id : ℕ) → key_id < 4 → (label : Bytes) × (key_label key_id ≡ some label)
unfolding key_label
key_label-small key_id h = elim (Option-cases (key_label key_id)) [
  | inl e ↦ absurd (ground arith)
  | inr found ↦ found
]

-- With memory and a MAC that succeeds, the four key ids are derived.
pub derive_key-succeeds :
    (lib : Libcrypto) (shared_key old_key : Bytes) (key_id : ℕ)
    → Works lib
    → key_id < 4
    → (derive_key lib shared_key key_id old_key).0 ≡ true
unfolding derive_key derive_from_label
derive_key-succeeds lib shared_key old_key key_id works small =
    simp ((key_label-small key_id small).1, works.macs, works.room)
