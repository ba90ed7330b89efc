-- ===== src/Sp/Msg1/Keys/Frame.antt =====
-- What the first steps of `sp_ra_proc_msg1_req` hold and leave alone.
use sgx_experiments.Prelude.{
  ℕ, ◌+◌, ◌≡◌, refl, true, Option, none, some, Bytes, memcpy, ◌∙◌, inl, inr, Bool-cases, arith,
}
use sgx_experiments.Prelude.Int.{ℤ, pos}
use sgx_experiments.Prelude.Effects.{Ensures}
use sgx_experiments.Codes.{is_nonzero, sample_success}
use sgx_experiments.Crypto.{Libcrypto}
use sgx_experiments.Ecp.{derive_key}
use sgx_experiments.Sp.State.{Sp, SpDbItem, ExtendedEpidGroup}
use sgx_experiments.Sp.Msg1.Keys.{
  Locals, save_g_a, open_context, create_key_pair, save_key_pair, compute_dh_key, fetch_sigrl,
  derive_one,
}

-- The number of things behind a pointer that may be NULL.
abbrev pub held {ℓ} : {A : Type ℓ} → Option A → ℕ
held none = 0
held (some a) = 1

-- The locals `l` of a run that began in `s0`: the registration is as it was, the context is the one
-- given and counted, and there is no response yet.
pub record Exchanging (s0 : Sp) (handle : Option ℕ) (l : Locals) : Type 0 where
  pub same_group : l.sp.sp_extended_epid_group_id ≡ s0.sp_extended_epid_group_id
  pub same_registered : l.sp.is_sp_registered ≡ s0.is_sp_registered
  pub same_spid : l.sp.spid ≡ s0.spid
  pub same_buffers : l.sp.buffers ≡ s0.buffers
  pub counted : l.sp.contexts ≡ s0.contexts + held handle
  pub context : l.ecc_state ≡ handle
  pub no_response : l.msg2_full ≡ none

-- How a step may fail: with a code that is not 0, and what it holds in order.
abbrev pub Failed : Sp → Option ℕ → ℤ → Locals → Type 0
Failed s0 handle e l = (is_nonzero e ≡ true) × Exchanging s0 handle l

module _ (s0 : Sp) (lib : Libcrypto) (l : Locals) where
  pub save_g_a-Exchanging :
      (g_a : Bytes)
      → Exchanging s0 none l
      → Ensures
          (save_g_a g_a l)
          (λ _ t.
            Exchanging s0 none t
            × (t.sp.sp_db.g_a ≡ memcpy l.sp.sp_db.g_a g_a 64)
            × (t.sp.sp_db.g_b ≡ l.sp.sp_db.g_b))
          (Failed s0 none)
  unfolding save_g_a Ensures
  save_g_a-Exchanging g_a x = ground arith

  pub open_context-Exchanging :
      Exchanging s0 none l
      → let handle = (lib.ecc256_open_context).1 in
        Ensures
          (open_context lib l)
          (λ _ t. Exchanging s0 handle t × (t.sp.sp_db ≡ l.sp.sp_db))
          (Failed s0 handle)
  unfolding open_context Ensures
  open_context-Exchanging x = ground arith

  module _ (handle : Option ℕ) where
    pub create_key_pair-Exchanging :
        Exchanging s0 handle l
        → Ensures
            (create_key_pair lib l)
            (λ p t.
              Exchanging s0 handle t
              × (t.sp.sp_db ≡ l.sp.sp_db)
              × (lib.ecc256_create_key_pair handle ≡ (sample_success, p.0, p.1)))
            (Failed s0 handle)
    unfolding create_key_pair Ensures
    create_key_pair-Exchanging x = ground arith

    pub save_key_pair-Exchanging :
        (priv_key pub_key : Bytes)
        → Exchanging s0 handle l
        → Ensures
            (save_key_pair priv_key pub_key l)
            (λ _ t.
              Exchanging s0 handle t
              × (t.sp.sp_db.g_a ≡ l.sp.sp_db.g_a)
              × (t.sp.sp_db.g_b ≡ memcpy l.sp.sp_db.g_b pub_key 64)
              × (t.sp.sp_db.b ≡ memcpy l.sp.sp_db.b priv_key 32))
            (Failed s0 handle)
    unfolding save_key_pair Ensures
    save_key_pair-Exchanging priv_key pub_key x = ground arith

    pub compute_dh_key-Exchanging :
        (priv_key g_a : Bytes)
        → Exchanging s0 handle l
        → Ensures
            (compute_dh_key lib priv_key g_a l)
            (λ dh_key t.
              Exchanging s0 handle t
              × (t.sp.sp_db ≡ l.sp.sp_db)
              × (lib.ecc256_compute_shared_dhkey priv_key g_a handle ≡ (sample_success, dh_key)))
            (Failed s0 handle)
    unfolding compute_dh_key Ensures
    compute_dh_key-Exchanging priv_key g_a x = ground arith

    -- The group that is registered answers, so the list is read from it.
    pub fetch_sigrl-Exchanging :
        (gid : Bytes) (group : ExtendedEpidGroup)
        → s0.sp_extended_epid_group_id ≡ some group
        → group.get_sigrl gid true true ≡ (pos 0, some (0, none))
        → Exchanging s0 handle l
        → Ensures
            (fetch_sigrl gid l)
            (λ sig t. Exchanging s0 handle t × (t.sp.sp_db ≡ l.sp.sp_db) × (sig ≡ (0, none)))
            (Failed s0 handle)
    unfolding fetch_sigrl Ensures
    fetch_sigrl-Exchanging gid group e p x = rw (x.same_group ∙ e, fetch_sigrl, p) (x, refl, refl)

    pub derive_one-Exchanging :
        (dh_key : Bytes) (key_id : ℕ) (get : SpDbItem → Bytes) (put : Bytes → SpDbItem → SpDbItem)
        → Exchanging s0 handle l
        → Ensures
            (derive_one lib dh_key key_id get put l)
            (λ _ t.
              Exchanging s0 handle t
              × ((key : Bytes) × (derive_key lib dh_key key_id (get l.sp.sp_db) ≡ (true, key))
                  × (t.sp.sp_db ≡ put key l.sp.sp_db)))
            (Failed s0 handle)
    unfolding derive_one Ensures
    derive_one-Exchanging dh_key key_id get put x =
        elim (Bool-cases (derive_key lib dh_key key_id (get l.sp.sp_db)).0) [
          | inl derived ↦ rw (derived, derive_one) (ground arith, (_, ground arith, refl))
          | inr failed ↦ rw (failed, derive_one) (ground arith)
        ]
