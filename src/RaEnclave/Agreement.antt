-- ===== src/RaEnclave/Agreement.antt =====
-- The session keys of the enclave and those of the service provider, in the build with
-- SUPPLIED_KEY_DERIVATION.
use sgx_experiments.Prelude.{ℕ, ◌≡◌, refl, sym, ◌∙◌, true, Option, none, some, Bytes, length, arith}
use sgx_experiments.Crypto.{IsSha256, Libcrypto}
use sgx_experiments.Ecp.{hash_buffer, split_material, derive_key_pair}
use sgx_experiments.Ecp.Supplied.{derive_key_pair-digest}
use sgx_experiments.Sp.Msg1.Assemble.{kdf_id_of}
use sgx_experiments.RaEnclave.{
  sgx_success, Sdk, enclave_split, enclave_derive_key, SessionKeyBuffers, key_derivation,
}

-- The service provider's library, with the enclave's hash.
abbrev with_hash : Libcrypto → Sdk → Libcrypto
with_hash lib sdk = record lib { sha256 = sdk.sha256 }

same_split :
    (material : Option Bytes) (first second : Bytes)
    → enclave_split material first second ≡ split_material material first second
same_split none first second = refl
same_split (some material) first second = refl

enclave_derive_key_lem :
    (lib : Libcrypto) (sdk : Sdk) (shared_key first second : Bytes) (key_id : ℕ)
    → enclave_derive_key sdk shared_key key_id first second
      ≡ derive_key_pair (with_hash lib sdk) shared_key key_id first second
unfolding enclave_derive_key derive_key_pair hash_buffer
enclave_derive_key_lem lib sdk shared_key first second key_id = same_split _ first second

-- All four buffers have the size of a key.
abbrev pub KeySized : SessionKeyBuffers → Type 0
KeySized k =
    (length k.smk_key ≡ 16)
    × (length k.sk_key ≡ 16)
    × (length k.mk_key ≡ 16)
    × (length k.vk_key ≡ 16)

-- The service provider derived these keys, from buffers of the size of a key.
abbrev pub SpDerived : Libcrypto → Bytes → SessionKeyBuffers → SessionKeyBuffers → Type 0
SpDerived lib shared_key before after =
    (derive_key_pair lib shared_key 0 before.smk_key before.sk_key
      ≡ (true, after.smk_key, after.sk_key))
    × (derive_key_pair lib shared_key 1 before.mk_key before.vk_key
        ≡ (true, after.mk_key, after.vk_key))

module _ (lib : Libcrypto) (sdk : Sdk) {digest absorbed absorbed' : Bytes → Bytes} where
  pairs_agree :
      IsSha256 lib.sha256 digest absorbed
      → IsSha256 sdk.sha256 digest absorbed'
      → (shared_key a b a' b' c d c' d' : Bytes) (key_id : ℕ) → length shared_key ≡ 32
      → (length a ≡ 16) × (length b ≡ 16) × (length c ≡ 16) × (length d ≡ 16)
      → derive_key_pair lib shared_key key_id a b ≡ (true, a', b')
      → enclave_derive_key sdk shared_key key_id c d ≡ (true, c', d')
      → (a' ≡ c') × (b' ≡ d')
  pairs_agree law law' shared_key a b a' b' c d c' d' key_id l (la, lb, lc, ld) h h' =
      let (p, q) = derive_key_pair-digest lib law shared_key a b a' b' key_id l la lb h in
      let (p', q') =
        derive_key_pair-digest (with_hash lib sdk) law' shared_key c d c' d' key_id l lc ld
          (sym (enclave_derive_key_lem lib sdk shared_key c d key_id) ∙ h') in
      (p ∙ sym p', q ∙ sym q')

  -- In the build with the supplied key derivation, when both sides hash with SHA-256 and derive
  -- from the same 32-byte shared secret, and the enclave is given the KDF id of message 2, the
  -- four session keys of the enclave equal those of the service provider.
  pub key_derivation-agrees :
      IsSha256 lib.sha256 digest absorbed
      → IsSha256 sdk.sha256 digest absorbed'
      → (shared_key : Bytes) (sp sp' keys keys' : SessionKeyBuffers) → length shared_key ≡ 32
      → KeySized sp
      → KeySized keys
      → SpDerived lib shared_key sp sp'
      → key_derivation sdk (some shared_key) (kdf_id_of true) keys ≡ (sgx_success, keys')
      → keys' ≡ sp'
  unfolding key_derivation
  key_derivation-agrees law law' shared_key sp sp' keys keys' l k k' (h, h') derived =
      let e : enclave_derive_key sdk shared_key 0 keys.smk_key keys.sk_key
          ≡ (true, keys'.smk_key, keys'.sk_key) =
        ground arith in
      let e' : enclave_derive_key sdk shared_key 1 keys.mk_key keys.vk_key
          ≡ (true, keys'.mk_key, keys'.vk_key) =
        ground arith in
      let (p, q) =
        pairs_agree law law' shared_key sp.smk_key sp.sk_key sp'.smk_key sp'.sk_key keys.smk_key
          keys.sk_key keys'.smk_key keys'.sk_key 0 l (k.0, k.1, k'.0, k'.1) h e in
      let (r, t) =
        pairs_agree law law' shared_key sp.mk_key sp.vk_key sp'.mk_key sp'.vk_key keys.mk_key
          keys.vk_key keys'.mk_key keys'.vk_key 1 l (k.2, k.3, k'.2, k'.3) h' e' in
      ground arith
