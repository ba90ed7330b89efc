-- ===== src/Sp/Msg1/Assemble/Content.antt =====
-- What message 2 says: its fields against the state that it is built from.
use mathlib.Core.List.{append-nil}
use sgx_experiments.Prelude.{
  ℕ, zero, suc, ltb, ◌+◌, ◌≡◌, refl, ap, ◌∙◌, inl, inr, Bool, true, false, Bool-cases, [], ◌++◌,
  Option, some, Bytes, memcpy, take, drop, replicate, if◌then◌else◌, arith,
}
use sgx_experiments.Prelude.Effects.{done, stop, Ensures}
use sgx_experiments.Codes.{
  sp_code, sp_internal_error, is_nonzero, SampleStatus, sample_success, is_success,
}
use sgx_experiments.Crypto.{Libcrypto, Works, EcSign256}
use sgx_experiments.Sp.State.{Sp, sp_priv_key, Msg2, cmaced_bytes}
use sgx_experiments.Sp.Msg1.Keys.{Locals}
use sgx_experiments.Sp.Msg1.Assemble.{
  zero_msg2, msg2_response, kdf_id_of, sign_keys, fill_msg2, mac_msg2, sigrl_bytes, attach_sigrl,
  assemble_msg2, allocate_msg2,
}

-- The message 2 that belongs to a state: the stored key, the SPID, the constants of the build, a
-- signature of the service provider over its key and the App's, a MAC under SMK over all of these,
-- and the revocation list with its size.
pub record MessageOf (supplied : Bool) (lib : Libcrypto) (sp : Sp) (handle : Option ℕ) (size : ℕ)
    (sig_rl : Option Bytes) (m : Msg2) : Type 0 where
  pub key : m.g_b ≡ take 64 sp.sp_db.g_b
  pub service : m.spid ≡ take 16 sp.spid
  pub linkable : m.quote_type ≡ 1
  pub kdf : m.kdf_id ≡ kdf_id_of supplied
  pub signed :
      lib.ecdsa_sign (take 64 sp.sp_db.g_b ++ take 64 sp.sp_db.g_a) sp_priv_key handle
      ≡ (sample_success, m.sign_gb_ga)
  pub tag : Bytes
  pub maced : lib.rijndael128_cmac_msg sp.sp_db.smk_key (cmaced_bytes m) ≡ (sample_success, tag)
  pub tagged : m.mac ≡ take 16 tag
  pub list_size : m.sig_rl_size ≡ size
  pub list : m.sig_rl ≡ take size (sigrl_bytes sig_rl)

drop-replicate : (n : ℕ) → drop {A = ℕ} n (replicate n 0) ≡ []
drop-replicate zero = refl
drop-replicate (suc n) = drop-replicate n

-- A copy over a cleared field.
memcpy-zeros : (n : ℕ) (src : Bytes) → memcpy (replicate n 0) src n ≡ take n src
memcpy-zeros n src = ap (λ t. take n src ++ t) (drop-replicate n) ∙ append-nil (take n src)

ltb_self : (n : ℕ) → ltb n n ≡ false
ltb_self n = ground arith

module _ (supplied : Bool) (lib : Libcrypto) (size : ℕ) (sig_rl : Option Bytes) (l : Locals) where
  -- What the two library calls answer.
  abbrev signature : SampleStatus × EcSign256
  signature =
      lib.ecdsa_sign (take 64 l.sp.sp_db.g_b ++ take 64 l.sp.sp_db.g_a) sp_priv_key l.ecc_state

  abbrev filled : Msg2
  filled = record (zero_msg2 size) {
    g_b = take 64 l.sp.sp_db.g_b;
    spid = take 16 l.sp.spid;
    quote_type = 1;
    kdf_id = kdf_id_of supplied;
    sign_gb_ga = signature.1;
  }

  abbrev computed_tag : SampleStatus × Bytes
  computed_tag = lib.rijndael128_cmac_msg l.sp.sp_db.smk_key (cmaced_bytes filled)

  abbrev finished : Msg2
  finished = record filled {
    mac = take 16 computed_tag.1;
    sig_rl = take size (sigrl_bytes sig_rl);
    sig_rl_size = size;
  }

  sign_keys_lem :
      sign_keys lib l
      ≡ (if is_success signature.0 then done signature.1 else stop (sp_code sp_internal_error))
  unfolding sign_keys
  sign_keys_lem = rw (append-nil (take 64 l.sp.sp_db.g_b), append-nil (take 64 l.sp.sp_db.g_a))

  fill_msg2_lem :
      is_success signature.0 ≡ true → fill_msg2 supplied lib (zero_msg2 size) l ≡ done filled
  unfolding fill_msg2
  fill_msg2_lem signed =
      rw
        (sign_keys_lem, signed, append-nil (take 64 l.sp.sp_db.g_b), append-nil (take 16 l.sp.spid))

  fill_msg2_fails :
      is_success signature.0 ≡ false
      → fill_msg2 supplied lib (zero_msg2 size) l ≡ stop (sp_code sp_internal_error)
  unfolding fill_msg2
  fill_msg2_fails failed = rw (sign_keys_lem, failed)

  mac_msg2_fails :
      is_success computed_tag.0 ≡ false
      → mac_msg2 lib l.sp.sp_db.smk_key filled ≡ stop (sp_code sp_internal_error)
  unfolding mac_msg2
  mac_msg2_fails failed = rw failed

  mac_msg2_lem :
      is_success computed_tag.0 ≡ true
      → mac_msg2 lib l.sp.sp_db.smk_key filled
        ≡ done (record filled { mac = take 16 computed_tag.1 })
  unfolding mac_msg2
  mac_msg2_lem maced = rw (maced, append-nil (take 16 computed_tag.1))

  attach_sigrl_lem :
      attach_sigrl size sig_rl (record filled { mac = take 16 computed_tag.1 }) ≡ done finished
  unfolding attach_sigrl
  attach_sigrl_lem = rw (ltb_self size, memcpy-zeros size (sigrl_bytes sig_rl))

  status_of : (r : SampleStatus × Bytes) → is_success r.0 ≡ true → r ≡ (sample_success, r.1)
  status_of r h = ground arith

  signature_of : (r : SampleStatus × EcSign256) → is_success r.0 ≡ true → r ≡ (sample_success, r.1)
  signature_of r h = ground arith

  pub assemble_msg2-MessageOf :
      Ensures
        (assemble_msg2 supplied lib size sig_rl l)
        (λ _ t.
          (m : Msg2) × (t ≡ record l { msg2_full = some (msg2_response size m) })
          × MessageOf supplied lib l.sp l.ecc_state size sig_rl m)
        (λ e t. (is_nonzero e ≡ true) × (t ≡ l))
  unfolding assemble_msg2 Ensures
  assemble_msg2-MessageOf = elim (Bool-cases (is_success signature.0)) [
    | inl signed ↦ elim (Bool-cases (is_success computed_tag.0)) [
      | inl maced ↦
          rw (fill_msg2_lem signed, assemble_msg2, mac_msg2_lem maced, attach_sigrl_lem)
            (
              finished,
              refl,
              record {
                key = refl;
                service = refl;
                linkable = refl;
                kdf = refl;
                signed = signature_of signature signed;
                tag = computed_tag.1;
                maced = status_of computed_tag maced;
                tagged = refl;
                list_size = refl;
                list = refl;
              },
            )
      | inr failed ↦ rw (fill_msg2_lem signed, assemble_msg2, mac_msg2_fails failed) (refl, refl)
    ]
    | inr failed ↦ rw (fill_msg2_fails failed, assemble_msg2) (refl, refl)
  ]

-- The buffer is counted and kept, and nothing else changes.
pub allocate_msg2-counts :
    (lib : Libcrypto) (size : ℕ) (l : Locals)
    → Ensures
        (allocate_msg2 lib size l)
        (λ _ t. t ≡ record l {
          sp = record (l.sp) { buffers = l.sp.buffers + 1 };
          msg2_full = some (msg2_response size (zero_msg2 size));
        })
        (λ e t. (is_nonzero e ≡ true) × (t ≡ l))
unfolding allocate_msg2 Ensures
allocate_msg2-counts lib size l = ground arith

-- With memory, and a signature and a MAC that succeed, the message is built.
pub allocate_msg2-succeeds :
    (lib : Libcrypto) (size : ℕ) (l : Locals)
    → Works lib
    → Ensures (allocate_msg2 lib size l) (λ _ _. Unit {0}) (λ _ _. ⊥)
unfolding allocate_msg2 Ensures
allocate_msg2-succeeds lib size l works = rw (works.room [] (168 + size + 8), allocate_msg2) tt

pub assemble_msg2-succeeds :
    (supplied : Bool) (lib : Libcrypto) (size : ℕ) (sig_rl : Option Bytes) (l : Locals)
    → Works lib
    → Ensures (assemble_msg2 supplied lib size sig_rl l) (λ _ _. Unit {0}) (λ _ _. ⊥)
unfolding assemble_msg2 Ensures
assemble_msg2-succeeds supplied lib size sig_rl l works =
    rw
      (
        fill_msg2_lem supplied lib size sig_rl l (ap is_success (works.signs _ _ _)),
        assemble_msg2,
        mac_msg2_lem supplied lib size sig_rl l (ap is_success (works.macs _ _)),
        attach_sigrl_lem supplied lib size sig_rl l,
      )
      tt
