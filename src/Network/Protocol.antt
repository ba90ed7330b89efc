-- ===== src/Network/Protocol.antt =====
-- What the service provider promises to the outside: an abstract machine with two phases, which
-- knows nothing of buffers, contexts or the database. Refinement shows that the handlers implement it.
pub mod Phases
pub mod Exchanges
pub mod Refinement
use sgx_experiments.Prelude.{
  ℕ, ◌≡◌, Bool, true, false, List, [], ◌∷◌, ◌++◌, Option, none, some, Bytes, take, length, ◌==◌,
  if◌then◌else◌,
}
use sgx_experiments.Prelude.Int.{ℤ, pos}
use sgx_experiments.Codes.{
  sample_success, is_nonzero, sp_code, sp_internal_error, sp_unsupported_extended_epid_group,
  minus_one,
}
use sgx_experiments.Crypto.{Libcrypto}
use sgx_experiments.Ias.{sim_spid}
use sgx_experiments.Sp.State.{
  SpDbItem, Msg1, Msg2, read_msg0, read_msg1, msg0_size, msg1_size, sp_priv_key, cmaced_bytes,
  Written, untouched, buffer,
}
use sgx_experiments.Sp.Msg0.{msg0_response}
use sgx_experiments.Sp.Msg0.Registration.{response_size}
use sgx_experiments.Sp.Msg1.Assemble.{msg2_response, kdf_id_of}
use sgx_experiments.Sp.Msg1.Keys.Session.{SessionKeys}
use sgx_experiments.Network.{RaSampRequest}

-- Before the service has enrolled with the attestation server, and after.
pub data Phase : Type 0 where
  unregistered registered : Phase

-- What a request asks for: the keys of an EPID group, or a key exchange.
pub data Asked : Type 0 where
  key_list : ℕ → Asked
  key_exchange : Msg1 → Asked
  malformed : Asked

abbrev pub asked_msg0 : Option ℕ → Asked
asked_msg0 none = malformed
asked_msg0 (some wanted) = key_list wanted

abbrev pub asked_msg1 : Option Msg1 → Asked
asked_msg1 none = malformed
asked_msg1 (some p_msg1) = key_exchange p_msg1

abbrev pub asked : RaSampRequest → Asked
asked req =
    if req.type == 0
    then if req.size == msg0_size then asked_msg0 (read_msg0 req.body) else malformed
    else if req.type == 1
    then if req.size == msg1_size then asked_msg1 (read_msg1 req.body) else malformed
    else malformed

-- A message 2 that answers a message 1, with no more than the library's calls: a fresh key pair, the
-- secret that it shares with the key of message 1, the session keys from this secret, a signature
-- over both public keys, and a MAC under the first session key; it names the service, and has no
-- revocation list.
pub record KeyExchange (supplied : Bool) (lib : Libcrypto) (p_msg1 : Msg1) (m : Msg2) : Type 0 where
  pub handle : Option ℕ
  pub priv_key : Bytes
  pub dh_key : Bytes
  pub keys : SpDbItem
  pub tag : Bytes
  pub pair : lib.ecc256_create_key_pair handle ≡ (sample_success, priv_key, m.g_b)
  pub secret : lib.ecc256_compute_shared_dhkey priv_key p_msg1.g_a handle ≡ (sample_success, dh_key)
  pub session_keys : SessionKeys supplied lib dh_key keys
  pub service : m.spid ≡ sim_spid
  pub linkable : m.quote_type ≡ 1
  pub kdf : m.kdf_id ≡ kdf_id_of supplied
  pub signed :
      lib.ecdsa_sign (m.g_b ++ p_msg1.g_a) sp_priv_key handle ≡ (sample_success, m.sign_gb_ga)
  pub maced : lib.rijndael128_cmac_msg keys.smk_key (cmaced_bytes m) ≡ (sample_success, tag)
  pub tagged : m.mac ≡ take 16 tag
  pub list_size : m.sig_rl_size ≡ 0
  pub list : m.sig_rl ≡ []

-- Group 0 registers.
abbrev pub joined : ℕ → Phase → Phase
joined wanted p = if wanted == 0 then registered else p

module _ (supplied : Bool) (lib : Libcrypto) where
  -- A request in a phase, its answer, and the phase afterwards.
  pub data Serves : Phase → Asked → ℤ × Written → Phase → Type 0 where
    lists :
        (p : Phase) (wanted : ℕ)
        → lib.malloc [] response_size ≡ true
        → Serves p (key_list wanted) (pos 0, buffer msg0_response) (joined wanted p)
    lacks_memory :
        (p : Phase) (wanted : ℕ)
        → lib.malloc [] response_size ≡ false
        → Serves p (key_list wanted) (sp_code sp_internal_error, untouched) (joined wanted p)
    too_early :
        (p_msg1 : Msg1)
        → Serves unregistered
            (key_exchange p_msg1)
            (sp_code sp_unsupported_extended_epid_group, untouched)
            unregistered
    exchanges :
        (p_msg1 : Msg1) (m : Msg2)
        → KeyExchange supplied lib p_msg1 m
        → Serves registered (key_exchange p_msg1) (pos 0, buffer (msg2_response 0 m)) registered
    refuses :
        (p_msg1 : Msg1) (code : ℤ)
        → is_nonzero code ≡ true
        → Serves registered (key_exchange p_msg1) (code, untouched) registered
    rejects : (p : Phase) → Serves p malformed (minus_one, untouched) p

  -- Requests one after the other.
  pub data Follows : Phase → List RaSampRequest → List (ℤ × Written) → Phase → Type 0 where
    ends : (p : Phase) → Follows p [] [] p
    then_serves :
        (p q r : Phase) (req : RaSampRequest) (reqs : List RaSampRequest) (answer : ℤ × Written)
        (answers : List (ℤ × Written))
        → Serves p (asked req) answer q
        → Follows q reqs answers r
        → Follows p (req ∷ reqs) (answer ∷ answers) r

-- `sample_ec256_public_t` has 64 bytes.
pub record PublicKeys (lib : Libcrypto) : Type 0 where
  pub whole :
      (handle : Option ℕ) (priv_key pub_key : Bytes)
      → lib.ecc256_create_key_pair handle ≡ (sample_success, priv_key, pub_key)
      → length pub_key ≡ 64
