-- ===== src/RaEnclave/Derive.antt =====
-- The enclave's `key_derivation` when the calls of the hash succeed.
use sgx_experiments.Prelude.{
  ℕ, ◌≡◌, ◌≢◌, refl, ◌∙◌, ap, inl, inr, true, List, [], ◌∷◌, none, some, Option-cases, Bytes,
  length, take, drop,
}
use sgx_experiments.Crypto.{Sha256, IsSha256, absorb, sha256_of, sha256_of-digest}
use sgx_experiments.Ecp.{id_u, id_v, hash_buffer}
use sgx_experiments.Ecp.Supplied.{kdf_message, flatten-message, memcpy_key}
use sgx_experiments.Sp.Msg1.Assemble.{kdf_id_of}
use sgx_experiments.RaEnclave.{
  sgx_success, Sdk, enclave_split, enclave_derive_key, SessionKeyBuffers, key_derivation,
}
use sgx_experiments.RaEnclave.Agreement.{KeySized}

-- Every call of the hash succeeds.
pub record Hashes (sha : Sha256) : Type 0 where
  pub starts : sha.init ≢ none
  pub feeds : (piece state : Bytes) → sha.update piece state ≢ none
  pub ends : (state : Bytes) → sha.get_hash state ≢ none

-- The two keys that a key id gives.
abbrev pub first_key : (Bytes → Bytes) → ℕ → Bytes → Bytes
first_key digest key_id shared_key = take 16 (digest (kdf_message key_id shared_key))

abbrev pub second_key : (Bytes → Bytes) → ℕ → Bytes → Bytes
second_key digest key_id shared_key = take 16 (drop 16 (digest (kdf_message key_id shared_key)))

abbrev pub session_keys : (Bytes → Bytes) → Bytes → SessionKeyBuffers
session_keys digest shared_key = record {
  smk_key = first_key digest 0 shared_key;
  sk_key = second_key digest 0 shared_key;
  mk_key = first_key digest 1 shared_key;
  vk_key = second_key digest 1 shared_key;
}

module _ (sha : Sha256) (hashes : Hashes sha) where
  absorb-total :
      (state : Bytes) (pieces : List Bytes) → (hash : Bytes) × (absorb sha state pieces ≡ some hash)
  unfolding absorb
  absorb-total state [] = elim (Option-cases (sha.get_hash state)) [
    | inl e ↦ absurd (hashes.ends state e)
    | inr (hash, e) ↦ (hash, e)
  ]
  absorb-total state (piece ∷ pieces) = elim (Option-cases (sha.update piece state)) [
    | inl e ↦ absurd (hashes.feeds piece state e)
    | inr (next, e) ↦ let (hash, h) = absorb-total next pieces in (hash, rw (e, absorb) h)
  ]

  sha256_of-total : (pieces : List Bytes) → (hash : Bytes) × (sha256_of sha pieces ≡ some hash)
  unfolding sha256_of
  sha256_of-total pieces = elim (Option-cases sha.init) [
    | inl e ↦ absurd (hashes.starts e)
    | inr (state, e) ↦ let (hash, h) = absorb-total state pieces in (hash, rw (e, sha256_of) h)
  ]

split_keys :
    (hash material first second : Bytes)
    → hash ≡ material
    → length first ≡ 16
    → length second ≡ 16
    → enclave_split (some hash) first second ≡ (true, take 16 material, take 16 (drop 16 material))
split_keys hash material first second d lf ls =
    rw (memcpy_key first hash lf, memcpy_key second (drop 16 hash) ls, d) refl

module _ (sdk : Sdk) {digest absorbed : Bytes → Bytes} (law : IsSha256 sdk.sha256 digest absorbed)
    (hashes : Hashes sdk.sha256) (shared_key : Bytes) (whole : length shared_key ≡ 32) where
  derives :
      (key_id : ℕ) (first second : Bytes)
      → length first ≡ 16
      → length second ≡ 16
      → enclave_derive_key sdk shared_key key_id first second
        ≡ (true, first_key digest key_id shared_key, second_key digest key_id shared_key)
  unfolding enclave_derive_key hash_buffer
  derives key_id first second lf ls =
      let pieces = hash_buffer key_id shared_key ∷ id_u ∷ id_v ∷ [] in
      let (hash, e) = sha256_of-total sdk.sha256 hashes pieces in
      let d : hash ≡ digest (kdf_message key_id shared_key) =
        sha256_of-digest law pieces hash e ∙ ap digest (flatten-message key_id shared_key whole) in
      rw e (split_keys hash (digest (kdf_message key_id shared_key)) first second d lf ls)

  -- When the hash of the SDK computes a digest and its calls succeed, key_derivation with the KDF
  -- id of message 2, on a 32-byte secret and buffers of the size of a key, succeeds; the four keys
  -- are the halves of the digests of the key ids 0 and 1, each with the reversed secret, a zero
  -- word and the names of both parties.
  pub key_derivation-derives :
      (keys : SessionKeyBuffers)
      → KeySized keys
      → key_derivation sdk (some shared_key) (kdf_id_of true) keys
        ≡ (sgx_success, session_keys digest shared_key)
  unfolding key_derivation
  key_derivation-derives keys k =
      rw (derives 0 keys.smk_key keys.sk_key k.0 k.1, derives 1 keys.mk_key keys.vk_key k.2 k.3)
        refl
