-- ===== src/Network/Protocol/Exchanges.antt =====
-- A message 2 that belongs to the state is the end of a key exchange in the abstract sense.
use sgx_experiments.Prelude.{
  ℕ, ◌≡◌, sym, ap, ◌∙◌, Bool, ◌++◌, Option, none, Bytes, memcpy, take, drop, length, take-append_le,
  take-all, arith,
}
use sgx_experiments.Crypto.{Libcrypto}
use sgx_experiments.Ias.{sim_spid}
use sgx_experiments.Sp.State.{Sp, Msg1, Msg2, sp_priv_key}
use sgx_experiments.Sp.Msg1.Assemble.Content.{MessageOf}
use sgx_experiments.Sp.Msg1.Handler.{Exchanged}
use sgx_experiments.Network.Protocol.{KeyExchange, PublicKeys}

-- What is copied over a whole field is read back.
take-memcpy : (n : ℕ) (dest src : Bytes) → length src ≡ n → take n (memcpy dest src n) ≡ src
take-memcpy n dest src l =
    ap (λ t. take n (t ++ drop n dest)) (take-all n src (omega arith))
    ∙ take-append_le n src (drop n dest) (omega arith)
    ∙ take-all n src (omega arith)

module _ (supplied : Bool) (lib : Libcrypto) (law : PublicKeys lib) (s t : Sp) (p_msg1 : Msg1)
    (handle : Option ℕ) (m : Msg2) where
  pub KeyExchange_lem :
      length p_msg1.g_a ≡ 64
      → t.spid ≡ sim_spid
      → Exchanged supplied lib s p_msg1 handle t
      → MessageOf supplied lib t handle 0 none m
      → KeyExchange supplied lib p_msg1 m
  KeyExchange_lem whole named x c =
      let key : m.g_b ≡ x.pub_key =
        c.key
        ∙ ap (take 64) x.stored_g_b
        ∙ take-memcpy 64 s.sp_db.g_b x.pub_key (law.whole handle x.priv_key x.pub_key x.pair) in
      let app_key : take 64 t.sp_db.g_a ≡ p_msg1.g_a =
        ap (take 64) x.stored_g_a ∙ take-memcpy 64 s.sp_db.g_a p_msg1.g_a whole in
      record {
        handle = handle;
        priv_key = x.priv_key;
        dh_key = x.dh_key;
        keys = t.sp_db;
        tag = c.tag;
        pair = rw key x.pair;
        secret = x.secret;
        session_keys = x.session_keys;
        service = c.service ∙ ap (take 16) named;
        linkable = c.linkable;
        kdf = c.kdf;
        signed =
            ap (λ k. lib.ecdsa_sign (k ++ p_msg1.g_a) sp_priv_key handle) c.key
            ∙ ap (λ k. lib.ecdsa_sign (take 64 t.sp_db.g_b ++ k) sp_priv_key handle) (sym app_key)
            ∙ c.signed;
        maced = c.maced;
        tagged = c.tagged;
        list_size = c.list_size;
        list = c.list;
      }
