-- ===== src/Tests/Keys.antt =====
-- The theorems about the key derivations and the attestation report, at concrete inputs.
use sgx_experiments.Prelude.{
  ℕ, ◌<◌, ◌≤◌, ◌≡◌, ◌↔◌, ◌⊎◌, refl, true, [], ◌∷◌, ◌++◌, some, Bytes, replicate, take, drop, length,
  arith,
}
use sgx_experiments.Prelude.Int.{pos}
use sgx_experiments.Codes.{is_success, minus_one}
use sgx_experiments.Crypto.{absorb, sha256_of}
use sgx_experiments.Ecp.{
  memcpy_s, verify_cmac128, derive_key, derive_key_pair, hash_buffer, reversed_bytes,
}
use sgx_experiments.Ecp.Copy.{memcpy_s_bounds, verify_cmac128_iff}
use sgx_experiments.Ecp.Derive.{Derived, derive_key_iff}
use sgx_experiments.Ecp.Supplied.{kdf_message, derive_key_pair-digest}
use sgx_experiments.Sp.Msg1.Assemble.{kdf_id_of}
use sgx_experiments.RaEnclave.{sgx_success, key_derivation, enclave_derive_key, SessionKeyBuffers}
use sgx_experiments.RaEnclave.Derive.{Hashes, session_keys, key_derivation-derives}
use sgx_experiments.RaEnclave.Agreement.{key_derivation-agrees}
use sgx_experiments.Tests.Data.{test_digest, test_lib, test_sha256, test_sha256-IsSha256, test_sdk}

abbrev zeros : Bytes
zeros = replicate 16 0

abbrev secret : Bytes
secret = replicate 31 6 ++ (1 ∷ [])

memcpy_s_bounds_example :
    (((4 < 6) × (memcpy_s zeros 4 secret 6 ≡ (minus_one, zeros)))
      ⊎ ((6 ≤ 4)
          × ((memcpy_s zeros 4 secret 6).0 ≡ pos 0)
          × (take 6 (memcpy_s zeros 4 secret 6).1 ≡ take 6 secret)
          × (drop 6 (memcpy_s zeros 4 secret 6).1 ≡ drop 6 zeros)))
    × (length (memcpy_s zeros 4 secret 6).1 ≡ length zeros)
memcpy_s_bounds_example = memcpy_s_bounds zeros secret 4 6 (omega arith) (omega arith)

verify_cmac128_iff_example : (verify_cmac128 test_lib zeros secret 8 zeros ≡ true) ↔ (
    (is_success (test_lib.rijndael128_cmac_msg zeros (take 8 secret)).0 ≡ true)
    × (take 16 zeros ≡ take 16 (test_lib.rijndael128_cmac_msg zeros (take 8 secret)).1))
verify_cmac128_iff_example = verify_cmac128_iff test_lib zeros secret zeros 8

derive_key_iff_example :
    (derive_key test_lib secret 2 zeros ≡ (true, zeros)) ↔ Derived test_lib secret 2 zeros
derive_key_iff_example = derive_key_iff test_lib secret zeros zeros 2

-- The two keys for a key id: the digest takes the first bytes of the message.
abbrev first_key : ℕ → Bytes
first_key key_id = 0 ∷ 0 ∷ 0 ∷ key_id ∷ 1 ∷ replicate 11 6

abbrev second_key : Bytes
second_key = replicate 16 6

derived :
    (key_id : ℕ)
    → derive_key_pair test_lib secret key_id zeros zeros ≡ (true, first_key key_id, second_key)
unfolding derive_key_pair hash_buffer reversed_bytes sha256_of absorb
derived key_id = refl

derive_key_pair-digest_example :
    (first_key 1 ≡ take 16 (test_digest (kdf_message 1 secret)))
    × (second_key ≡ take 16 (drop 16 (test_digest (kdf_message 1 secret))))
derive_key_pair-digest_example =
    derive_key_pair-digest test_lib test_sha256-IsSha256 secret zeros zeros (first_key 1) second_key
      1 refl refl refl (derived 1)

-- The keys that both sides derive from `secret`.
abbrev derived_keys : SessionKeyBuffers
derived_keys = record {
  smk_key = first_key 0;
  sk_key = second_key;
  mk_key = first_key 1;
  vk_key = second_key;
}

abbrev no_keys : SessionKeyBuffers
no_keys = record { smk_key = zeros; sk_key = zeros; mk_key = zeros; vk_key = zeros }

enclave_derived :
    (key_id : ℕ)
    → enclave_derive_key test_sdk secret key_id zeros zeros ≡ (true, first_key key_id, second_key)
unfolding enclave_derive_key reversed_bytes sha256_of absorb
enclave_derived key_id = refl

enclave_accepts :
    key_derivation test_sdk (some secret) (kdf_id_of true) no_keys ≡ (sgx_success, derived_keys)
unfolding key_derivation
enclave_accepts = rw (enclave_derived 0, enclave_derived 1) refl

key_derivation-agrees_example : derived_keys ≡ derived_keys
key_derivation-agrees_example =
    key_derivation-agrees test_lib test_sdk test_sha256-IsSha256 test_sha256-IsSha256 secret no_keys
      derived_keys no_keys derived_keys refl (refl, refl, refl, refl) (refl, refl, refl, refl)
      (derived 0, derived 1) enclave_accepts

test_sha256-Hashes : Hashes test_sha256
test_sha256-Hashes = record {
  starts = λ e. ground arith;
  feeds = λ piece state e. ground arith;
  ends = λ state e. ground arith;
}

key_derivation-derives_example :
    key_derivation test_sdk (some secret) (kdf_id_of true) no_keys
    ≡ (sgx_success, session_keys test_digest secret)
key_derivation-derives_example =
    key_derivation-derives test_sdk test_sha256-IsSha256 test_sha256-Hashes secret refl no_keys
      (refl, refl, refl, refl)
