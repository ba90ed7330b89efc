-- ===== src/Ecp/Supplied.antt =====
-- The supplied key derivation of ecp.cpp: the byte order of the shared secret, and what the two
-- derived keys are.
use mathlib.Core.List.{flatten, reverse-cons, append_assoc, append-nil}
use sgx_experiments.Prelude.{
  ℕ, zero, suc, ◌≡◌, refl, ap, sym, ◌∙◌, inl, inr, true, [], ◌∷◌, ◌++◌, reverse, some, Bytes,
  memcpy, length, take, drop, drop-all, Option-cases, arith,
}
use sgx_experiments.Crypto.{Libcrypto, sha256_of, IsSha256, sha256_of-digest}
use sgx_experiments.Ecp.{reversed_bytes, hash_buffer, id_u, id_v, derive_key_pair}

reversed_bytes-cons :
    (n : ℕ) (x : ℕ) (xs : Bytes) → reversed_bytes (suc n) (x ∷ xs) ≡ reversed_bytes n xs ++ x ∷ []
unfolding reversed_bytes
reversed_bytes-cons zero x xs = refl
reversed_bytes-cons (suc n) x xs =
    ap (λ t. take 1 (drop n xs) ++ t) (reversed_bytes-cons n x xs)
    ∙ sym (append_assoc (take 1 (drop n xs)) (reversed_bytes n xs) (x ∷ []))

-- The loop over all bytes of a buffer reverses it.
pub reversed_bytes-length : (xs : Bytes) → reversed_bytes (length xs) xs ≡ reverse xs
unfolding reversed_bytes
reversed_bytes-length [] = refl
reversed_bytes-length (x ∷ xs) =
    reversed_bytes-cons (length xs) x xs
    ∙ ap (λ t. t ++ x ∷ []) (reversed_bytes-length xs)
    ∙ sym (reverse-cons x xs)

hash_buffer-reverse :
    (key_id : ℕ) (shared_key : Bytes)
    → length shared_key ≡ 32
    → hash_buffer key_id shared_key
      ≡ (0 ∷ 0 ∷ 0 ∷ key_id ∷ []) ++ (reverse shared_key ++ (0 ∷ 0 ∷ 0 ∷ 0 ∷ []))
unfolding hash_buffer
hash_buffer-reverse key_id shared_key ls =
    ap (λ t. (0 ∷ 0 ∷ 0 ∷ key_id ∷ []) ++ (t ++ 0 ∷ 0 ∷ 0 ∷ 0 ∷ []))
      (ap (λ n. reversed_bytes n shared_key) (sym ls) ∙ reversed_bytes-length shared_key)

-- The message that the key material is the digest of: the key id as a big-endian word, the shared
-- secret in reverse, a zero word, and the identifiers of both parties with their NULs.
abbrev pub kdf_message : ℕ → Bytes → Bytes
kdf_message key_id shared_key =
    (0 ∷ 0 ∷ 0 ∷ key_id ∷ []) ++ (reverse shared_key ++ ((0 ∷ 0 ∷ 0 ∷ 0 ∷ []) ++ (id_u ++ id_v)))

pub flatten-message :
    (key_id : ℕ) (shared_key : Bytes)
    → length shared_key ≡ 32
    → flatten (hash_buffer key_id shared_key ∷ id_u ∷ id_v ∷ []) ≡ kdf_message key_id shared_key
unfolding flatten
flatten-message key_id shared_key ls =
    ap (λ t. t ++ (id_u ++ id_v)) (hash_buffer-reverse key_id shared_key ls)
    ∙ ap (λ t. (0 ∷ 0 ∷ 0 ∷ key_id ∷ []) ++ t)
        (append_assoc (reverse shared_key) (0 ∷ 0 ∷ 0 ∷ 0 ∷ []) (id_u ++ id_v))

-- A copy of 16 bytes into a buffer of 16 bytes leaves nothing of the old contents.
pub memcpy_key : (dest src : Bytes) → length dest ≡ 16 → memcpy dest src 16 ≡ take 16 src
memcpy_key dest src h =
    ap (λ t. take 16 src ++ t) (drop-all 16 dest (omega arith)) ∙ append-nil (take 16 src)

pub derive_key_pair_material :
    (lib : Libcrypto) (shared_key first second first' second' : Bytes) (key_id : ℕ)
    → derive_key_pair lib shared_key key_id first second ≡ (true, first', second')
    → (material : Bytes) × (sha256_of lib.sha256 (hash_buffer key_id shared_key ∷ id_u ∷ id_v ∷ [])
        ≡ some material)
      × (first' ≡ memcpy first material 16)
      × (second' ≡ memcpy second (drop 16 material) 16)
unfolding derive_key_pair
derive_key_pair_material lib shared_key first second first' second' key_id h =
    elim (Option-cases (sha256_of lib.sha256 (hash_buffer key_id shared_key ∷ id_u ∷ id_v ∷ []))) [
      | inl e ↦ absurd (ground arith)
      | inr (material, e) ↦ (material, e, ground arith, ground arith)
    ]

-- When the supplied derivation succeeds into two 16-byte buffers from a 32-byte secret, with a
-- library whose hash calls compute a digest, the keys are the two halves of the digest of the key
-- id, the reversed secret, a zero word and the names of both parties.
pub derive_key_pair-digest :
    (lib : Libcrypto) {digest absorbed : Bytes → Bytes}
    → IsSha256 lib.sha256 digest absorbed
    → (shared_key first second first' second' : Bytes) (key_id : ℕ) → length shared_key ≡ 32
    → length first ≡ 16
    → length second ≡ 16
    → derive_key_pair lib shared_key key_id first second ≡ (true, first', second')
    → (first' ≡ take 16 (digest (kdf_message key_id shared_key)))
      × (second' ≡ take 16 (drop 16 (digest (kdf_message key_id shared_key))))
derive_key_pair-digest lib {digest} law shared_key first second first' second' key_id ls lf lg h =
    let (material, e, f, g) =
      derive_key_pair_material lib shared_key first second first' second' key_id h in
    let d : material ≡ digest (kdf_message key_id shared_key) =
      sha256_of-digest law _ material e ∙ ap digest (flatten-message key_id shared_key ls) in
    (
      f ∙ memcpy_key first material lf ∙ ap (take 16) d,
      g ∙ memcpy_key second (drop 16 material) lg ∙ ap (λ t. take 16 (drop 16 t)) d,
    )
