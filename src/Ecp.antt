-- ===== src/Ecp.antt =====
-- code-experiments/attestation/remote/service_provider/ecp.cpp: the bounded copy, the check of a
-- MAC, and the derivation of the session keys, in the default form and in the one that is built
-- under SUPPLIED_KEY_DERIVATION. A read of uninitialised memory does not occur in them.
pub mod Copy
pub mod Derive
pub mod Supplied
use sgx_experiments.Prelude.{
  ℕ, zero, suc, ◌+◌, ◌-◌, Bool, true, false, List, [], ◌∷◌, ◌++◌, Option, none, some, Bytes, memcpy,
  same, u16_le, ltb, if◌then◌else◌, take, drop, set, replicate, length, ◌==◌,
}
use sgx_experiments.Prelude.Int.{ℤ, pos}
use sgx_experiments.Codes.{minus_one, is_success}
use sgx_experiments.Crypto.{Libcrypto, sha256_of}

-- `memcpy_s(dest, numberOfElements, src, count)`, with the destination that it leaves.
unfoldable pub memcpy_s : Bytes → ℕ → Bytes → ℕ → ℤ × Bytes
memcpy_s dest number_of_elements src count =
    if ltb number_of_elements count then (minus_one, dest) else (pos 0, memcpy dest src count)

abbrev pub sample_ec_mac_size : ℕ
sample_ec_mac_size = 16

abbrev pub mac_key_size : ℕ
mac_key_size = 16

-- `sizeof(sample_ec_key_128bit_t)`
abbrev pub key_size : ℕ
key_size = 16

pub verify_cmac128 : Libcrypto → Bytes → Bytes → ℕ → Bytes → Bool
verify_cmac128 lib mac_key data_buf buf_size mac_buf =
    let (sample_ret, data_mac) = lib.rijndael128_cmac_msg mac_key (take buf_size data_buf) in
    if is_success sample_ret
    then same (take sample_ec_mac_size mac_buf) (take sample_ec_mac_size data_mac)
    else false

-- `sample_derive_key_type_t`, as the `uint8_t` that is passed.
abbrev pub derive_key_smk : ℕ
derive_key_smk = 0

abbrev pub derive_key_sk : ℕ
derive_key_sk = 1

abbrev pub derive_key_mk : ℕ
derive_key_mk = 2

abbrev pub derive_key_vk : ℕ
derive_key_vk = 3

-- The `switch` on the key id: the label without its NUL, or nothing in the default case.
pub key_label : ℕ → Option Bytes
key_label key_id =
    if key_id == derive_key_smk
    then some (b'S' ∷ b'M' ∷ b'K' ∷ [])
    else if key_id == derive_key_sk
    then some (b'S' ∷ b'K' ∷ [])
    else if key_id == derive_key_mk
    then some (b'M' ∷ b'K' ∷ [])
    else if key_id == derive_key_vk
    then some (b'V' ∷ b'K' ∷ [])
    else none

-- `EC_DERIVATION_BUFFER_SIZE`
abbrev pub ec_derivation_buffer_size : ℕ → ℕ
ec_derivation_buffer_size label_length = label_length + 4

-- The derivation buffer as the code fills it: zeros, the counter, the label by `memcpy_s` from
-- index 1 on, and the key length 0x0080 as a little-endian word in the last two bytes.
pub derivation_buffer : Bytes → Bytes
unfolding memcpy_s
derivation_buffer label =
    let n = ec_derivation_buffer_size (length label) in
    let zeros = replicate n 0 in
    let counted = set zeros 0 1 in
    let labelled = take 1 counted ++ (memcpy_s (drop 1 counted) (n - 1) label (length label)).1 in
    take (n - 2) labelled ++ u16_le 0x0080

-- The second half of `derive_key`: malloc, the buffer, and the MAC under the key-derivation key.
pub derive_from_label : Libcrypto → Bytes → Bytes → Bytes → Bool × Bytes
derive_from_label lib key_derive_key derived_key label =
    if lib.malloc label (ec_derivation_buffer_size (length label))
    then (let (sample_ret, out) =
          lib.rijndael128_cmac_msg key_derive_key (derivation_buffer label) in
        (is_success sample_ret, out))
    else (false, derived_key)

abbrev derive_for_label : Libcrypto → Bytes → Bytes → Option Bytes → Bool × Bytes
derive_for_label lib key_derive_key derived_key none = (false, derived_key)
derive_for_label lib key_derive_key derived_key (some label) =
    derive_from_label lib key_derive_key derived_key label

-- `derive_key`, the default: whether it succeeded, and `*derived_key` afterwards.
pub derive_key : Libcrypto → Bytes → ℕ → Bytes → Bool × Bytes
derive_key lib shared_key key_id derived_key =
    let (sample_ret, key_derive_key) =
      lib.rijndael128_cmac_msg (replicate mac_key_size 0) shared_key in
    if is_success sample_ret
    then derive_for_label lib key_derive_key derived_key (key_label key_id)
    else (false, derived_key)

-- The loop of the supplied `derive_key`: round `i` puts byte `n - 1 - i` of the source at index
-- `i`; the argument is the number of rounds left.
unfoldable pub reversed_bytes : ℕ → Bytes → Bytes
reversed_bytes zero source = []
reversed_bytes (suc left) source = take 1 (drop left source) ++ reversed_bytes left source

-- `hash_buffer_t`: the counter, the shared secret in big-endian order, and the algorithm id.
unfoldable pub hash_buffer : ℕ → Bytes → Bytes
unfolding reversed_bytes
hash_buffer key_id shared_key =
    (0 ∷ 0 ∷ 0 ∷ key_id ∷ []) ++ (reversed_bytes 32 shared_key ++ replicate 4 0)

-- "SGXRAENCLAVE" and "SGXRASERVER", with the NUL that `sizeof` counts.
abbrev pub id_u : Bytes
id_u = b'S' ∷ b'G' ∷ b'X' ∷ b'R' ∷ b'A' ∷ b'E' ∷ b'N' ∷ b'C' ∷ b'L' ∷ b'A' ∷ b'V' ∷ b'E' ∷ 0 ∷ []

abbrev pub id_v : Bytes
id_v = b'S' ∷ b'G' ∷ b'X' ∷ b'R' ∷ b'A' ∷ b'S' ∷ b'E' ∷ b'R' ∷ b'V' ∷ b'E' ∷ b'R' ∷ 0 ∷ []

-- The two keys from the key material, or the buffers as they were.
abbrev pub split_material : Option Bytes → Bytes → Bytes → Bool × Bytes × Bytes
split_material none first second = (false, first, second)
split_material (some material) first second =
    (true, memcpy first material key_size, memcpy second (drop key_size material) key_size)

-- `derive_key` under SUPPLIED_KEY_DERIVATION: whether it succeeded, and the two keys afterwards.
unfoldable pub derive_key_pair : Libcrypto → Bytes → ℕ → Bytes → Bytes → Bool × Bytes × Bytes
derive_key_pair lib shared_key key_id first_derived_key second_derived_key =
    split_material (sha256_of lib.sha256 (hash_buffer key_id shared_key ∷ id_u ∷ id_v ∷ []))
      first_derived_key second_derived_key
