-- ===== src/RaEnclave.antt =====
-- code-experiments/attestation/remote/enclave/enclave.cpp: the enclave's side of the remote
-- attestation. The SGX SDK is a parameter.
pub mod Verdict
pub mod Agreement
pub mod Derive
use sgx_experiments.Prelude.{
  ℕ, zero, suc, ◌+◌, ◌%◌, ◌^◌, take, Bool, true, false, not, ◌&&◌, [], ◌∷◌, ◌++◌, Option, none,
  some, Bytes, memcpy, drop, replicate, ltb, ◌==◌, if◌then◌else◌,
}
use sgx_experiments.Crypto.{Sha256, sha256_of}
use sgx_experiments.Ecp.{id_u, id_v, reversed_bytes}

-- The `sgx_status_t` values that the source names, and all the others.
pub data SgxStatus : Type 0 where
  sgx_success : SgxStatus
  sgx_error_unexpected : SgxStatus
  sgx_error_invalid_parameter : SgxStatus
  sgx_error_mac_mismatch : SgxStatus
  sgx_error_kdf_mismatch : SgxStatus
  sgx_error_enclave_lost : SgxStatus
  sgx_error_busy : SgxStatus
  sgx_error_other : ℕ → SgxStatus

-- `SGX_SUCCESS == ret`
abbrev pub succeeded : SgxStatus → Bool
succeeded sgx_success = true
succeeded sgx_error_unexpected = false
succeeded sgx_error_invalid_parameter = false
succeeded sgx_error_mac_mismatch = false
succeeded sgx_error_kdf_mismatch = false
succeeded sgx_error_enclave_lost = false
succeeded sgx_error_busy = false
succeeded (sgx_error_other n) = false

-- The four keys that `key_derivation` writes.
pub record SessionKeyBuffers : Type 0 where
  pub smk_key : Bytes
  pub sk_key : Bytes
  pub mk_key : Bytes
  pub vk_key : Bytes

-- A function that derives the keys of a session, as `sgx_ra_init_ex` takes it.
abbrev pub KeyDerivation : Type 0
KeyDerivation = Option Bytes → ℕ → SessionKeyBuffers → SgxStatus × SessionKeyBuffers

-- The calls of the SDK: each gives its status and what it leaves in its output buffer.
pub record Sdk : Type 0 where
  -- `sgx_ra_get_keys(context, SGX_RA_KEY_MK, &key)` and the same with SGX_RA_KEY_SK
  pub ra_get_mk : ℕ → SgxStatus × Bytes
  pub ra_get_sk : ℕ → SgxStatus × Bytes
  -- `sgx_rijndael128_cmac_msg(key, src, src_len, mac)`
  pub rijndael128_cmac_msg : Bytes → Bytes → SgxStatus × Bytes
  -- `sgx_rijndael128GCM_decrypt(key, src, src_len, dst, iv, 12, NULL, 0, mac)`; the second bytes
  -- are the destination before the call
  pub rijndael128_gcm_decrypt : Bytes → Bytes → Bytes → Bytes → Bytes → SgxStatus × Bytes
  -- `consttime_memequal(a, b, len) != 0`
  pub consttime_memequal : Bytes → Bytes → ℕ → Bool
  pub sha256 : Sha256
  -- `sgx_ra_init(pub_key, b_pse, p_context)` and `sgx_ra_init_ex(pub_key, b_pse, derive_key,
  -- p_context)`; the first number counts the calls before it
  pub ra_init : ℕ → Bytes → ℕ → SgxStatus × ℕ
  pub ra_init_ex : ℕ → Bytes → ℕ → KeyDerivation → SgxStatus × ℕ
  -- `sgx_ra_close(context)`
  pub ra_close : ℕ → SgxStatus

-- `sizeof(sgx_mac_t)`, and UINT32_MAX
abbrev pub sgx_mac_size : ℕ
sgx_mac_size = 16

abbrev pub uint32_max : ℕ
uint32_max = 0xffffffff

-- The `do … while (0)` of `verify_att_result_mac`; the CMAC is over `(uint32_t)message_size` bytes.
abbrev pub check_mac : Sdk → ℕ → Bytes → ℕ → Bytes → SgxStatus
check_mac sdk context p_message message_size p_mac =
    let (got, mk_key) = sdk.ra_get_mk context in
    let (maced, mac) = sdk.rijndael128_cmac_msg mk_key (take (message_size % 2 ^ 32) p_message) in
    if succeeded got
    then if succeeded maced
      then if sdk.consttime_memequal p_mac mac sgx_mac_size
        then sgx_success
        else sgx_error_mac_mismatch
      else maced
    else got

-- The message, with its size, and the MAC, with its size.
pub verify_att_result_mac : Sdk → ℕ → Bytes → ℕ → Bytes → ℕ → SgxStatus
verify_att_result_mac sdk context p_message message_size p_mac mac_size =
    if not (mac_size == sgx_mac_size)
    then sgx_error_invalid_parameter
    else if ltb uint32_max message_size
    then sgx_error_invalid_parameter
    else check_mac sdk context p_message message_size p_mac

-- The loop of `put_secret_data`: whether every byte from index `i` on is its own index; `left`
-- bytes are looked at.
pub secret_match : ℕ → ℕ → Bytes → Bool
secret_match i zero secret = true
secret_match i (suc left) [] = false
secret_match i (suc left) (x ∷ secret) =
    let rest = secret_match (i + 1) left secret in x == i && rest

-- `put_secret_data`: the status, and `g_secret` afterwards.
pub put_secret_data : Sdk → ℕ → Bytes → ℕ → Bytes → Bytes → SgxStatus × Bytes
unfolding secret_match
put_secret_data sdk context p_secret secret_size p_gcm_mac g_secret =
    let (got, sk_key) = sdk.ra_get_sk context in
    let (ret, secret) =
      sdk.rijndael128_gcm_decrypt sk_key p_secret g_secret (replicate 12 0) p_gcm_mac in
    if not (secret_size == 8)
    then (sgx_error_invalid_parameter, g_secret)
    else if succeeded got
    then ((if secret_match 0 secret_size secret then ret else sgx_error_unexpected), secret)
    else (got, g_secret)

-- `hash_buffer_t` as the enclave fills it.
abbrev pub enclave_hash_buffer : ℕ → Bytes → Bytes
enclave_hash_buffer key_id shared_key =
    (0 ∷ 0 ∷ 0 ∷ key_id ∷ []) ++ (reversed_bytes 32 shared_key ++ replicate 4 0)

abbrev pub enclave_split : Option Bytes → Bytes → Bytes → Bool × Bytes × Bytes
enclave_split none first second = (false, first, second)
enclave_split (some material) first second =
    (true, memcpy first material 16, memcpy second (drop 16 material) 16)

-- The enclave's `derive_key`: whether it succeeded, and the two keys afterwards.
unfoldable pub enclave_derive_key : Sdk → Bytes → ℕ → Bytes → Bytes → Bool × Bytes × Bytes
enclave_derive_key sdk shared_key key_id first_derived_key second_derived_key =
    enclave_split (sha256_of sdk.sha256 (enclave_hash_buffer key_id shared_key ∷ id_u ∷ id_v ∷ []))
      first_derived_key second_derived_key

abbrev pub isv_kdf_id : ℕ
isv_kdf_id = 2

-- `key_derivation`: the status, and the keys afterwards; `none` is a NULL shared key.
unfoldable pub key_derivation :
    Sdk → Option Bytes → ℕ → SessionKeyBuffers → SgxStatus × SessionKeyBuffers
key_derivation sdk none kdf_id keys = (sgx_error_invalid_parameter, keys)
key_derivation sdk (some shared_key) kdf_id keys =
    let (derived, smk, sk) = enclave_derive_key sdk shared_key 0 keys.smk_key keys.sk_key in
    let (derived', mk, vk) = enclave_derive_key sdk shared_key 1 keys.mk_key keys.vk_key in
    let first = record keys { smk_key = smk; sk_key = sk } in
    if not (isv_kdf_id == kdf_id)
    then (sgx_error_kdf_mismatch, keys)
    else if not derived
    then (sgx_error_unexpected, first)
    else if not derived'
    then (sgx_error_unexpected, record first { mk_key = mk; vk_key = vk })
    else (sgx_success, record first { mk_key = mk; vk_key = vk })

-- `g_sp_pub_key`
abbrev pub sp_pub_key : Bytes
sp_pub_key =
    0x72 ∷ 0x12 ∷ 0x8a ∷ 0x7a ∷ 0x17 ∷ 0x52 ∷ 0x6e ∷ 0xbf ∷ 0x85 ∷ 0xd0 ∷ 0x3a ∷ 0x62 ∷ 0x37 ∷ 0x30
    ∷ 0xae ∷ 0xad ∷ 0x3e ∷ 0x3d ∷ 0xaa ∷ 0xee ∷ 0x9c ∷ 0x60 ∷ 0x73 ∷ 0x1d ∷ 0xb0 ∷ 0x5b ∷ 0xe8
    ∷ 0x62 ∷ 0x1c ∷ 0x4b ∷ 0xeb ∷ 0x38 ∷ 0xd4 ∷ 0x81 ∷ 0x40 ∷ 0xd9 ∷ 0x50 ∷ 0xe2 ∷ 0x57 ∷ 0x7b
    ∷ 0x26 ∷ 0xee ∷ 0xb7 ∷ 0x41 ∷ 0xe7 ∷ 0xc6 ∷ 0x14 ∷ 0xe2 ∷ 0x24 ∷ 0xb7 ∷ 0xbd ∷ 0xc9 ∷ 0x03
    ∷ 0xf2 ∷ 0x9a ∷ 0x28 ∷ 0xa8 ∷ 0x3c ∷ 0xc8 ∷ 0x10 ∷ 0x11 ∷ 0x14 ∷ 0x5e ∷ 0x06 ∷ []

-- `enclave_init_ra` in both builds: the status, and the context.
unfoldable pub enclave_init_ra : Bool → Sdk → ℕ → ℕ → SgxStatus × ℕ
enclave_init_ra supplied sdk n b_pse =
    if supplied
    then sdk.ra_init_ex n sp_pub_key b_pse (key_derivation sdk)
    else sdk.ra_init n sp_pub_key b_pse

unfoldable pub enclave_ra_close : Sdk → ℕ → SgxStatus
enclave_ra_close sdk context = sdk.ra_close context
