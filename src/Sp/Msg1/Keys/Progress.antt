-- ===== src/Sp/Msg1/Keys/Progress.antt =====
-- The steps of the key exchange, with a library whose calls succeed.
use sgx_experiments.Prelude.{ℕ, ◌≡◌, refl, true, false, some, none, Bytes, ltb, arith}
use sgx_experiments.Prelude.Int.{ℤ, pos}
use sgx_experiments.Prelude.Effects.{Ensures, Ensures-and_then}
use sgx_experiments.Crypto.{Libcrypto, Works}
use sgx_experiments.Ecp.{derive_key}
use sgx_experiments.Ecp.Derive.{derive_key-succeeds}
use sgx_experiments.Sp.State.{SpDbItem, ExtendedEpidGroup}
use sgx_experiments.Sp.Msg1.Keys.{
  Locals, save_g_a, open_context, create_key_pair, save_key_pair, compute_dh_key, fetch_sigrl,
  derive_one, derive_session_keys, put_smk, put_mk, put_sk, put_vk,
}

-- The group that answers for the revocation list.
abbrev pub Chosen : ExtendedEpidGroup → Locals → Type 0
Chosen group l = l.sp.sp_extended_epid_group_id ≡ some group

-- No step fails.
abbrev pub Never : ℤ → Locals → Type 0
Never code l = ⊥

module _ (lib : Libcrypto) (works : Works lib) (group : ExtendedEpidGroup) (l : Locals)
    (chosen : Chosen group l) where
  pub save_g_a-Chosen : (g_a : Bytes) → Ensures (save_g_a g_a l) (λ _. Chosen group) Never
  unfolding save_g_a Ensures
  save_g_a-Chosen g_a = chosen

  pub open_context-Chosen : Ensures (open_context lib l) (λ _. Chosen group) Never
  unfolding open_context Ensures
  open_context-Chosen = ground (arith, works.opens)

  pub create_key_pair-Chosen : Ensures (create_key_pair lib l) (λ _. Chosen group) Never
  unfolding create_key_pair Ensures
  create_key_pair-Chosen = ground (arith, works.pairs l.ecc_state)

  pub save_key_pair-Chosen :
      (priv_key pub_key : Bytes)
      → Ensures (save_key_pair priv_key pub_key l) (λ _. Chosen group) Never
  unfolding save_key_pair Ensures
  save_key_pair-Chosen priv_key pub_key = chosen

  pub compute_dh_key-Chosen :
      (priv_key g_a : Bytes) → Ensures (compute_dh_key lib priv_key g_a l) (λ _. Chosen group) Never
  unfolding compute_dh_key Ensures
  compute_dh_key-Chosen priv_key g_a = ground (arith, works.shares priv_key g_a l.ecc_state)

  pub fetch_sigrl-Chosen :
      (gid : Bytes)
      → group.get_sigrl gid true true ≡ (pos 0, some (0, none))
      → Ensures (fetch_sigrl gid l) (λ sig t. Chosen group t × (sig ≡ (0, none))) Never
  unfolding fetch_sigrl Ensures
  fetch_sigrl-Chosen gid answers = rw (chosen, fetch_sigrl, answers) (chosen, refl)

  derive_one-Chosen :
      (dh_key : Bytes) (key_id : ℕ) (get : SpDbItem → Bytes) (put : Bytes → SpDbItem → SpDbItem)
      → (derive_key lib dh_key key_id (get l.sp.sp_db)).0 ≡ true
      → Ensures (derive_one lib dh_key key_id get put l) (λ _. Chosen group) Never
  unfolding derive_one Ensures
  derive_one-Chosen dh_key key_id get put derived = rw (derived, derive_one) chosen

module _ (lib : Libcrypto) (works : Works lib) (group : ExtendedEpidGroup) where
  pub derive_session_keys-Chosen :
      (dh_key : Bytes) (l : Locals)
      → Chosen group l
      → Ensures (derive_session_keys false lib dh_key l) (λ _. Chosen group) Never
  unfolding derive_session_keys
  derive_session_keys-Chosen dh_key l chosen =
      Ensures-and_then _ (derive_one lib dh_key 0 (λ db. db.smk_key) put_smk l) _
        (one 0 (λ db. db.smk_key) put_smk l chosen refl) (λ _ _ h. h)
        λ _ l1 c1.
          Ensures-and_then _ (derive_one lib dh_key 2 (λ db. db.mk_key) put_mk l1) _
            (one 2 (λ db. db.mk_key) put_mk l1 c1 refl) (λ _ _ h. h)
            λ _ l2 c2.
              Ensures-and_then _ (derive_one lib dh_key 1 (λ db. db.sk_key) put_sk l2) _
                (one 1 (λ db. db.sk_key) put_sk l2 c2 refl) (λ _ _ h. h)
                λ _ l3 c3. one 3 (λ db. db.vk_key) put_vk l3 c3 refl
    where
      one :
          (key_id : ℕ) (get : SpDbItem → Bytes) (put : Bytes → SpDbItem → SpDbItem) (l : Locals)
          → Chosen group l
          → ltb key_id 4 ≡ true
          → Ensures (derive_one lib dh_key key_id get put l) (λ _. Chosen group) Never
      one key_id get put l c small =
          derive_one-Chosen lib works group l c dh_key key_id get put
            (derive_key-succeeds lib dh_key (get l.sp.sp_db) key_id works (ground arith))
