-- ===== src/Sp/Msg1/Keys/Session.antt =====
-- The session keys that `sp_ra_proc_msg1_req` derives, in both builds.
use sgx_experiments.Prelude.{
  ℕ, ◌≡◌, refl, ap, ◌∙◌, inl, inr, Bool, true, false, Option, Bool-cases, Bytes, arith,
}
use sgx_experiments.Prelude.Effects.{M, ◌>>=◌, Ensures, Ensures-and_then, Ensures-map}
use sgx_experiments.Crypto.{Libcrypto}
use sgx_experiments.Ecp.{derive_key, derive_key_pair}
use sgx_experiments.Ecp.Derive.{Derived, derive_key_iff}
use sgx_experiments.Sp.State.{Sp, SpDbItem}
use sgx_experiments.Sp.Msg1.Keys.{
  Locals, derive_one, derive_two, derive_session_keys, put_smk, put_mk, put_sk, put_vk,
}
use sgx_experiments.Sp.Msg1.Keys.Frame.{Exchanging, Failed, derive_one-Exchanging}

-- The four keys of the database come from the shared secret: in the default build each is the key
-- of its label, in the supplied build they are the pairs of the two key ids.
abbrev pub SessionKeys : Bool → Libcrypto → Bytes → SpDbItem → Type 0
SessionKeys false lib dh_key db =
    Derived lib dh_key 0 db.smk_key
    × Derived lib dh_key 1 db.sk_key
    × Derived lib dh_key 2 db.mk_key
    × Derived lib dh_key 3 db.vk_key
SessionKeys true lib dh_key db =
    ((first second : Bytes) × (derive_key_pair lib dh_key 0 first second
        ≡ (true, db.smk_key, db.sk_key)))
    × ((first second : Bytes) × (derive_key_pair lib dh_key 1 first second
          ≡ (true, db.mk_key, db.vk_key)))

module _ (s0 : Sp) (lib : Libcrypto) (handle : Option ℕ) (dh_key : Bytes) (l : Locals) where
  derive_two-Exchanging :
      (key_id : ℕ) (get : SpDbItem → Bytes) (put : Bytes → SpDbItem → SpDbItem)
      (get' : SpDbItem → Bytes) (put' : Bytes → SpDbItem → SpDbItem)
      → Exchanging s0 handle l
      → Ensures
          (derive_two lib dh_key key_id get put get' put' l)
          (λ _ t.
            Exchanging s0 handle t
            × ((key key' : Bytes) × (derive_key_pair lib dh_key key_id
                    (get l.sp.sp_db)
                    (get' l.sp.sp_db)
                  ≡ (true, key, key'))
                × (t.sp.sp_db ≡ put' key' (put key l.sp.sp_db))))
          (Failed s0 handle)
  unfolding derive_two Ensures
  derive_two-Exchanging key_id get put get' put' x =
      elim (Bool-cases (derive_key_pair lib dh_key key_id (get l.sp.sp_db) (get' l.sp.sp_db)).0) [
        | inl derived ↦ rw (derived, derive_two) (ground arith, (_, _, ground arith, refl))
        | inr failed ↦ rw (failed, derive_two) (ground arith)
      ]

-- The public keys stay, and the session keys come from the shared secret.
abbrev pub Keyed : Bool → Libcrypto → Sp → Option ℕ → Bytes → SpDbItem → Locals → Type 0
Keyed supplied lib s0 handle dh_key db t =
    Exchanging s0 handle t
    × (t.sp.sp_db.g_a ≡ db.g_a)
    × (t.sp.sp_db.g_b ≡ db.g_b)
    × SessionKeys supplied lib dh_key t.sp.sp_db

module _ (s0 : Sp) (lib : Libcrypto) (handle : Option ℕ) (dh_key : Bytes) where
  -- A derivation and what follows it, which starts with the new key in its field.
  derive_one-then :
      (key_id : ℕ) (get : SpDbItem → Bytes) (put : Bytes → SpDbItem → SpDbItem)
      (f : Unit {0} → M Locals (Unit {0})) (Q : Unit {0} → Locals → Type 0) (l : Locals)
      → Exchanging s0 handle l
      → ((key : Bytes) (t : Locals)
          → Exchanging s0 handle t
          → derive_key lib dh_key key_id (get l.sp.sp_db) ≡ (true, key)
          → t.sp.sp_db ≡ put key l.sp.sp_db
          → Ensures (f tt t) Q (Failed s0 handle))
      → Ensures ((derive_one lib dh_key key_id get put >>= f) l) Q (Failed s0 handle)
  derive_one-then key_id get put f Q l x rest =
      Ensures-and_then Q (derive_one lib dh_key key_id get put l) f
        (derive_one-Exchanging s0 lib l handle dh_key key_id get put x) (λ _ _ h. h)
        (λ _ t h. rest h.1.0 t h.0 h.1.1 h.1.2)

  derive_two-then :
      (key_id : ℕ) (get : SpDbItem → Bytes) (put : Bytes → SpDbItem → SpDbItem)
      (get' : SpDbItem → Bytes) (put' : Bytes → SpDbItem → SpDbItem)
      (f : Unit {0} → M Locals (Unit {0})) (Q : Unit {0} → Locals → Type 0) (l : Locals)
      → Exchanging s0 handle l
      → ((key key' : Bytes) (t : Locals)
          → Exchanging s0 handle t
          → derive_key_pair lib dh_key key_id (get l.sp.sp_db) (get' l.sp.sp_db) ≡ (true, key, key')
          → t.sp.sp_db ≡ put' key' (put key l.sp.sp_db)
          → Ensures (f tt t) Q (Failed s0 handle))
      → Ensures ((derive_two lib dh_key key_id get put get' put' >>= f) l) Q (Failed s0 handle)
  derive_two-then key_id get put get' put' f Q l x rest =
      Ensures-and_then Q (derive_two lib dh_key key_id get put get' put' l) f
        (derive_two-Exchanging s0 lib handle dh_key l key_id get put get' put' x) (λ _ _ h. h)
        (λ _ t h. rest h.1.0 h.1.1 t h.0 h.1.2 h.1.3)

  module _ (l : Locals) (x : Exchanging s0 handle l) where
    abbrev Goal : Bool → Unit {0} → Locals → Type 0
    Goal supplied _ t = Keyed supplied lib s0 handle dh_key l.sp.sp_db t

    derive_default :
        Ensures (derive_session_keys false lib dh_key l) (Goal false) (Failed s0 handle)
    unfolding derive_session_keys
    derive_default =
        derive_one-then 0 (λ db. db.smk_key) put_smk _ (Goal false) l x
          λ smk t1 x1 e1 d1.
            derive_one-then 2 (λ db. db.mk_key) put_mk _ (Goal false) t1 x1
              λ mk t2 x2 e2 d2.
                derive_one-then 1 (λ db. db.sk_key) put_sk _ (Goal false) t2 x2
                  λ sk t3 x3 e3 d3.
                    Ensures-map (derive_one lib dh_key 3 (λ db. db.vk_key) put_vk t3)
                      (derive_one-Exchanging s0 lib t3 handle dh_key 3 (λ db. db.vk_key) put_vk x3)
                      (λ _ _ failed. failed)
                      λ _ t4 h.
                        let (vk, e4, d4) = h.1 in
                        let db : t4.sp.sp_db
                            ≡ put_vk vk (put_sk sk (put_mk mk (put_smk smk l.sp.sp_db))) =
                          d4 ∙ ap (put_vk vk) (d3 ∙ ap (put_sk sk) (d2 ∙ ap (put_mk mk) d1)) in
                        (
                          h.0,
                          rw db,
                          rw db,
                          rw db (
                            (derive_key_iff lib dh_key _ smk 0).0 e1,
                            (derive_key_iff lib dh_key _ sk 1).0 e3,
                            (derive_key_iff lib dh_key _ mk 2).0 e2,
                            (derive_key_iff lib dh_key _ vk 3).0 e4,
                          ),
                        )

    derive_supplied : Ensures (derive_session_keys true lib dh_key l) (Goal true) (Failed s0 handle)
    unfolding derive_session_keys
    derive_supplied =
        derive_two-then 0 (λ db. db.smk_key) put_smk (λ db. db.sk_key) put_sk _ (Goal true) l x
          λ smk sk t1 x1 e1 d1.
            Ensures-map
              (derive_two lib dh_key 1 (λ db. db.mk_key) put_mk (λ db. db.vk_key) put_vk t1)
              (derive_two-Exchanging s0 lib handle dh_key t1 1 (λ db. db.mk_key) put_mk
                (λ db. db.vk_key) put_vk x1)
              (λ _ _ failed. failed)
              λ _ t2 h.
                let (mk, vk, e2, d2) = h.1 in
                let db : t2.sp.sp_db ≡ put_vk vk (put_mk mk (put_sk sk (put_smk smk l.sp.sp_db))) =
                  d2 ∙ ap (λ t. put_vk vk (put_mk mk t)) d1 in
                (h.0, rw db, rw db, rw db ((_, _, e1), (_, _, e2)))

  -- All of them, whichever the build.
  pub derive_session_keys-Keyed :
      (supplied : Bool) (l : Locals)
      → Exchanging s0 handle l
      → Ensures
          (derive_session_keys supplied lib dh_key l)
          (λ _ t. Keyed supplied lib s0 handle dh_key l.sp.sp_db t)
          (Failed s0 handle)
  derive_session_keys-Keyed true l x = derive_supplied l x
  derive_session_keys-Keyed false l x = derive_default l x
