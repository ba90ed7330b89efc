-- ===== src/Crypto.antt =====
-- The crypto library of the service provider, code-experiments/attestation/remote/
-- sample_libcrypto/sample_libcrypto.h: the interface that the sources call. The library is a
-- binary, so it is a parameter of the model: each field gives the status of a call and what the
-- call leaves in its output buffers. A call that draws random numbers is made at most once in the
-- run of one handler, so its result there is a field too.
use mathlib.Core.List.{flatten, append-nil, append_assoc}
use sgx_experiments.Prelude.{
  ℕ, Bool, true, Bytes, List, [], ◌∷◌, ◌++◌, Option, none, some, ◌≡◌, sym, ap, ◌∙◌, inl, inr,
  Option-cases, u32_le, arith,
}
use sgx_experiments.Codes.{SampleStatus, sample_success}

-- A streaming SHA-256: `init`, `update` and `get_hash` of sample_libcrypto, or those of the SDK. The
-- state behind the handle is a byte string, and `none` is a status other than success. A call of
-- `close` only releases the handle.
pub record Sha256 : Type 0 where
  pub init : Option Bytes
  pub update : Bytes → Bytes → Option Bytes
  pub get_hash : Bytes → Option Bytes

-- `init`, one `update` for each piece, `get_hash`; the first call that fails ends it.
unfoldable pub absorb : Sha256 → Bytes → List Bytes → Option Bytes
absorb sha state [] = sha.get_hash state
absorb sha state (piece ∷ pieces) = elim (sha.update piece state) [
  | none ↦ none
  | some state' ↦ absorb sha state' pieces
]

unfoldable pub sha256_of : Sha256 → List Bytes → Option Bytes
unfolding absorb
sha256_of sha pieces = elim sha.init [ none ↦ none | some state ↦ absorb sha state pieces ]

-- What the callers rely on: the calls that succeed compute `digest` of the bytes that were fed in.
-- `absorbed` reads these bytes off the state.
pub record IsSha256 (sha : Sha256) (digest absorbed : Bytes → Bytes) : Type 0 where
  pub init_empty : (s : Bytes) → sha.init ≡ some s → absorbed s ≡ []
  pub update_appends :
      (piece s s' : Bytes) → sha.update piece s ≡ some s' → absorbed s' ≡ absorbed s ++ piece
  pub get_hash_digests : (s hash : Bytes) → sha.get_hash s ≡ some hash → hash ≡ digest (absorbed s)

module _ {sha : Sha256} {digest absorbed : Bytes → Bytes} (law : IsSha256 sha digest absorbed) where
  absorb-digest :
      (state : Bytes) (pieces : List Bytes) (hash : Bytes)
      → absorb sha state pieces ≡ some hash
      → hash ≡ digest (absorbed state ++ flatten pieces)
  unfolding absorb flatten
  absorb-digest state [] hash h =
      law.get_hash_digests state hash h ∙ ap digest (sym (append-nil (absorbed state)))
  absorb-digest state (piece ∷ pieces) hash h = elim (Option-cases (sha.update piece state)) [
    | inl e ↦ absurd (ground arith)
    | inr (state', e) ↦
        absorb-digest state' pieces hash (rw (e, absorb) at h)
        ∙ ap digest (
            ap (λ t. t ++ flatten pieces) (law.update_appends piece state state' e)
            ∙ append_assoc (absorbed state) piece (flatten pieces))
  ]

  -- However the message is cut into pieces, the hash is the digest of the whole.
  pub sha256_of-digest :
      (pieces : List Bytes) (hash : Bytes)
      → sha256_of sha pieces ≡ some hash
      → hash ≡ digest (flatten pieces)
  unfolding sha256_of
  sha256_of-digest pieces hash h = elim (Option-cases sha.init) [
    | inl e ↦ absurd (ground arith)
    | inr (state, e) ↦
        absorb-digest state pieces hash (rw (e, sha256_of) at h)
        ∙ ap digest (ap (λ t. t ++ flatten pieces) (law.init_empty state e))
  ]

-- `sample_ec256_signature_t`, laid out as `sample_ec_sign256_t`: eight words each.
pub record EcSign256 : Type 0 where
  pub x : List ℕ
  pub y : List ℕ

-- The bytes of an array of 32-bit words.
abbrev pub words_le : List ℕ → Bytes
words_le [] = []
words_le (w ∷ ws) = u32_le w ++ words_le ws

abbrev pub sign_bytes : EcSign256 → Bytes
sign_bytes sign = words_le sign.x ++ words_le sign.y

pub record Libcrypto : Type 0 where
  -- `sample_rijndael128_cmac_msg(key, src, src_len, mac)`: the key, and the `src_len` bytes
  pub rijndael128_cmac_msg : Bytes → Bytes → SampleStatus × Bytes
  -- `sample_ecc256_open_context(&handle)`: `none` is a NULL handle
  pub ecc256_open_context : SampleStatus × Option ℕ
  -- `sample_ecc256_create_key_pair(&private, &public, handle)`
  pub ecc256_create_key_pair : Option ℕ → SampleStatus × Bytes × Bytes
  -- `sample_ecc256_compute_shared_dhkey(private, public, &shared, handle)`
  pub ecc256_compute_shared_dhkey : Bytes → Bytes → Option ℕ → SampleStatus × Bytes
  -- `sample_ecdsa_sign(data, size, private, &signature, handle)`
  pub ecdsa_sign : Bytes → Bytes → Option ℕ → SampleStatus × EcSign256
  -- the `sample_sha256_*` functions
  pub sha256 : Sha256
  -- `malloc(size) != NULL`, for the derivation with a label, or for a response (`[]`)
  pub malloc : Bytes → ℕ → Bool

-- Every call of the default build succeeds.
pub record Works (lib : Libcrypto) : Type 0 where
  pub macs : (key message : Bytes) → (lib.rijndael128_cmac_msg key message).0 ≡ sample_success
  pub opens : (lib.ecc256_open_context).0 ≡ sample_success
  pub pairs : (handle : Option ℕ) → (lib.ecc256_create_key_pair handle).0 ≡ sample_success
  pub shares :
      (priv_key pub_key : Bytes) (handle : Option ℕ)
      → (lib.ecc256_compute_shared_dhkey priv_key pub_key handle).0 ≡ sample_success
  pub signs :
      (message priv_key : Bytes) (handle : Option ℕ)
      → (lib.ecdsa_sign message priv_key handle).0 ≡ sample_success
  pub room : (label : Bytes) (size : ℕ) → lib.malloc label size ≡ true
