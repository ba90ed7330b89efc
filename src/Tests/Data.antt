-- ===== src/Tests/Data.antt =====
-- A crypto library and an SDK that are concrete functions, and requests to a service provider.
use sgx_experiments.Prelude.{
  ℕ, refl, true, List, [], ◌∷◌, ◌++◌, some, Bytes, replicate, same, take, u32_le, arith,
}
use sgx_experiments.Codes.{sample_success}
use sgx_experiments.Crypto.{Sha256, IsSha256, EcSign256, Libcrypto, Works}
use sgx_experiments.Sp.State.{Sp, init}
use sgx_experiments.Sp.Msg0.Registration.{enrolled}
use sgx_experiments.Network.{RaSampRequest}
use sgx_experiments.RaEnclave.{Sdk, sgx_success}

-- A hash that keeps what it is fed, and digests it to its first 32 bytes, padded with zeros.
abbrev pub test_digest : Bytes → Bytes
test_digest message = take 32 (message ++ replicate 32 0)

abbrev pub test_sha256 : Sha256
test_sha256 = record {
  init = some [];
  update = λ piece state. some (state ++ piece);
  get_hash = λ state. some (test_digest state);
}

abbrev pub unchanged : Bytes → Bytes
unchanged state = state

abbrev pub words : List ℕ
words = 1 ∷ 2 ∷ 3 ∷ 4 ∷ 5 ∷ 6 ∷ 7 ∷ 8 ∷ []

abbrev pub signature : EcSign256
signature = record { x = words; y = words }

-- A MAC that depends on the key and on the message.
abbrev pub test_mac : Bytes → Bytes → Bytes
test_mac key message = take 16 (take 8 key ++ (message ++ replicate 16 0))

abbrev pub test_lib : Libcrypto
test_lib = record {
  rijndael128_cmac_msg = λ key message. (sample_success, test_mac key message);
  ecc256_open_context = (sample_success, some 5);
  ecc256_create_key_pair = λ handle. (sample_success, replicate 32 3, replicate 64 4);
  ecc256_compute_shared_dhkey = λ priv_key pub_key handle. (sample_success, take 32 pub_key);
  ecdsa_sign = λ message priv_key handle. (sample_success, signature);
  sha256 = test_sha256;
  malloc = λ label size. true;
}

pub test_lib-Works : Works test_lib
test_lib-Works = record {
  macs = λ key message. refl;
  opens = refl;
  pairs = λ handle. refl;
  shares = λ priv_key pub_key handle. refl;
  signs = λ message priv_key handle. refl;
  room = λ label size. refl;
}

pub test_sha256-IsSha256 : IsSha256 test_sha256 test_digest unchanged
test_sha256-IsSha256 = record {
  init_empty = λ s e. ground arith;
  update_appends = λ piece s s' e. ground arith;
  get_hash_digests = λ s hash e. ground arith;
}

-- An SDK over the same functions; its cipher is the identity.
abbrev pub test_sdk : Sdk
test_sdk = record {
  ra_get_mk = λ context. (sgx_success, replicate 16 1);
  ra_get_sk = λ context. (sgx_success, replicate 16 2);
  rijndael128_cmac_msg = λ key message. (sgx_success, test_mac key message);
  rijndael128_gcm_decrypt = λ key cipher before iv tag. (sgx_success, cipher);
  consttime_memequal = λ a b n. same (take n a) (take n b);
  sha256 = test_sha256;
  ra_init = λ n key b_pse. (sgx_success, 7);
  ra_init_ex = λ n key b_pse derive. (sgx_success, 7);
  ra_close = λ context. sgx_success;
}

-- A message 0 that names a group, and a message 1.
abbrev pub msg0_request : ℕ → RaSampRequest
msg0_request group = record { type = 0; size = 4; body = u32_le group }

abbrev pub msg1_bytes : Bytes
msg1_bytes = replicate 64 9 ++ (0 ∷ 0 ∷ 0 ∷ 0 ∷ [])

abbrev pub msg1_request : RaSampRequest
msg1_request = record { type = 1; size = 68; body = msg1_bytes }

abbrev pub registered : Sp
registered = enrolled init
