-- ===== src/RaEnclave/Verdict.antt =====
-- When the enclave accepts a MAC, and when it accepts a secret.
use sgx_experiments.Prelude.{
  ℕ, zero, suc, ◌+◌, ◌%◌, ◌^◌, ◌≤◌, ◌≡◌, ◌↔◌, ◌≢◌, refl, inl, inr, true, Bool-cases, [], ◌∷◌, Bytes,
  take, replicate, arith,
}
use sgx_experiments.RaEnclave.{
  SgxStatus, sgx_success, sgx_error_unexpected, Sdk, uint32_max, verify_att_result_mac,
  secret_match, put_secret_data,
}

-- What a MAC must be for the result message to be accepted.
abbrev pub Authentic : Sdk → ℕ → Bytes → ℕ → Bytes → ℕ → Type 0
Authentic sdk context message size mac mac_size =
    (mac_size ≡ 16)
    × (size ≤ uint32_max)
    × ((mk_key tag : Bytes) × (sdk.ra_get_mk context ≡ (sgx_success, mk_key))
        × (sdk.rijndael128_cmac_msg mk_key (take size message) ≡ (sgx_success, tag))
        × (sdk.consttime_memequal mac tag 16 ≡ true))

-- The MAC is accepted exactly when it has 16 bytes, the message is no longer than UINT32_MAX, the
-- MK key is there, and the MAC of the first bytes of the message, as many as its size says, under
-- it compares equal.
pub verify_att_result_mac_iff :
    (sdk : Sdk) (context : ℕ) (message : Bytes) (size : ℕ) (mac : Bytes) (mac_size : ℕ)
    → (verify_att_result_mac sdk context message size mac mac_size ≡ sgx_success)
      ↔ Authentic sdk context message size mac mac_size
unfolding verify_att_result_mac
verify_att_result_mac_iff sdk context message size mac mac_size = (
  (λ h.
      let short : size ≤ uint32_max = ground arith in
      let whole : size % 2 ^ 32 ≡ size = omega arith in
      (
        ground arith,
        short,
        (
          (sdk.ra_get_mk context).1,
          (sdk.rijndael128_cmac_msg (sdk.ra_get_mk context).1 (take size message)).1,
          ground arith,
          ground arith,
          ground arith,
        ),
      )),
  (λ (m, s, (mk_key, tag, got, maced, same_mac)).
      let whole : size % 2 ^ 32 ≡ size = omega arith in ground arith),
)

-- The numbers from `i` on.
abbrev pub from : ℕ → ℕ → Bytes
from i zero = []
from i (suc n) = i ∷ from (i + 1) n

secret_match_iff :
    (i left : ℕ) (secret : Bytes)
    → (secret_match i left secret ≡ true) ↔ (take left secret ≡ from i left)
unfolding secret_match
secret_match_iff i zero secret = ((λ h. refl), (λ h. refl))
secret_match_iff i (suc left) [] = ((λ h. ground arith), (λ h. ground arith))
secret_match_iff i (suc left) (x ∷ secret) =
    let r = secret_match_iff (i + 1) left secret in ((λ h. ground arith), (λ h. ground arith))

-- What makes `put_secret_data` succeed.
abbrev pub Delivered : Sdk → ℕ → Bytes → ℕ → Bytes → Bytes → Bytes → Type 0
Delivered sdk context cipher size tag before after =
    (size ≡ 8)
    × ((sk_key : Bytes) × (sdk.ra_get_sk context ≡ (sgx_success, sk_key))
        × (sdk.rijndael128_gcm_decrypt sk_key cipher before (replicate 12 0) tag
            ≡ (sgx_success, after))
        × (take 8 after ≡ 0 ∷ 1 ∷ 2 ∷ 3 ∷ 4 ∷ 5 ∷ 6 ∷ 7 ∷ []))

-- The secret is accepted and stored exactly when it has eight bytes, the SK key is there, the
-- decryption under it succeeds with these bytes, and they are 0 to 7.
pub put_secret_data_iff :
    (sdk : Sdk) (context : ℕ) (cipher : Bytes) (size : ℕ) (tag before after : Bytes)
    → (put_secret_data sdk context cipher size tag before ≡ (sgx_success, after))
      ↔ Delivered sdk context cipher size tag before after
unfolding put_secret_data
put_secret_data_iff sdk context cipher size tag before after = (
  (λ h.
      let e : size ≡ 8 = ground arith in
      let m : secret_match 0 8 after ≡ true = ground arith in
      (
        e,
        ((sdk.ra_get_sk context).1, ground arith, ground arith, (secret_match_iff 0 8 after).0 m),
      )),
  (λ (e, (sk_key, got, decrypted, expected)).
      let m = (secret_match_iff 0 8 after).1 expected in simp (e, got, decrypted, m)),
)

-- A decryption that fails is reported as SGX_ERROR_UNEXPECTED when what it left is not the
-- expected secret, and what it left is stored.
pub put_secret_data-masks :
    (sdk : Sdk) (context : ℕ) (cipher tag before left sk_key : Bytes) (failure : SgxStatus)
    → sdk.ra_get_sk context ≡ (sgx_success, sk_key)
    → sdk.rijndael128_gcm_decrypt sk_key cipher before (replicate 12 0) tag ≡ (failure, left)
    → take 8 left ≢ 0 ∷ 1 ∷ 2 ∷ 3 ∷ 4 ∷ 5 ∷ 6 ∷ 7 ∷ []
    → put_secret_data sdk context cipher 8 tag before ≡ (sgx_error_unexpected, left)
unfolding put_secret_data
put_secret_data-masks sdk context cipher tag before left sk_key failure got decrypted other =
    elim (Bool-cases (secret_match 0 8 left)) [
      | inl e ↦ absurd (other ((secret_match_iff 0 8 left).0 e))
      | inr e ↦ simp (got, decrypted, e)
    ]
