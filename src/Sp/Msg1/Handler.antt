-- ===== src/Sp/Msg1/Handler.antt =====
-- `sp_ra_proc_msg1_req` as a whole: what it holds when it returns, and what its message 2 says.
use sgx_experiments.Prelude.{
  ℕ, ◌+◌, ◌≡◌, refl, subst, sym, Bool, true, Option, none, some, Bytes, memcpy, arith,
}
use sgx_experiments.Prelude.Int.{ℤ, pos}
use sgx_experiments.Prelude.Effects.{◌>>◌, Ensures, Ensures-and_then, Ensures-map}
use sgx_experiments.Codes.{is_nonzero, sample_success}
use sgx_experiments.Crypto.{Libcrypto}
use sgx_experiments.Sp.State.{Sp, ExtendedEpidGroup, Msg1, Msg2}
use sgx_experiments.Sp.Msg1.Keys.{
  Locals, entry, save_g_a, open_context, create_key_pair, save_key_pair, compute_dh_key,
  fetch_sigrl, derive_session_keys,
}
use sgx_experiments.Sp.Msg1.Keys.Frame.{
  held, Exchanging, Failed, save_g_a-Exchanging, open_context-Exchanging,
  create_key_pair-Exchanging, save_key_pair-Exchanging, compute_dh_key-Exchanging,
  fetch_sigrl-Exchanging,
}
use sgx_experiments.Sp.Msg1.Keys.Session.{SessionKeys, derive_session_keys-Keyed}
use sgx_experiments.Sp.Msg1.Assemble.{zero_msg2, msg2_response, allocate_msg2, assemble_msg2}
use sgx_experiments.Sp.Msg1.Assemble.Content.{
  MessageOf, assemble_msg2-MessageOf, allocate_msg2-counts,
}
use sgx_experiments.Sp.Msg1.{msg1_body}

-- The registration is as it was, and what is held is counted.
pub record Balanced (s0 : Sp) (l : Locals) : Type 0 where
  pub same_group : l.sp.sp_extended_epid_group_id ≡ s0.sp_extended_epid_group_id
  pub same_registered : l.sp.is_sp_registered ≡ s0.is_sp_registered
  pub same_spid : l.sp.spid ≡ s0.spid
  pub buffers : l.sp.buffers ≡ s0.buffers + held l.msg2_full
  pub contexts : l.sp.contexts ≡ s0.contexts + held l.ecc_state

abbrev pub Aborted : Sp → ℤ → Locals → Type 0
Aborted s0 e l = (is_nonzero e ≡ true) × Balanced s0 l

Exchanging-Balanced :
    (s0 : Sp) (handle : Option ℕ) (l : Locals) → Exchanging s0 handle l → Balanced s0 l
Exchanging-Balanced s0 handle l x = record {
  same_group = x.same_group;
  same_registered = x.same_registered;
  same_spid = x.same_spid;
  buffers = ground arith;
  contexts = ground arith;
}

-- The key exchange that a message 2 ends: the key pair of the service provider, the shared secret,
-- and the state that they leave.
pub record Exchanged (supplied : Bool) (lib : Libcrypto) (s0 : Sp) (p_msg1 : Msg1)
    (handle : Option ℕ) (sp : Sp) : Type 0 where
  pub priv_key : Bytes
  pub pub_key : Bytes
  pub dh_key : Bytes
  pub pair : lib.ecc256_create_key_pair handle ≡ (sample_success, priv_key, pub_key)
  pub secret : lib.ecc256_compute_shared_dhkey priv_key p_msg1.g_a handle ≡ (sample_success, dh_key)
  pub stored_g_a : sp.sp_db.g_a ≡ memcpy s0.sp_db.g_a p_msg1.g_a 64
  pub stored_g_b : sp.sp_db.g_b ≡ memcpy s0.sp_db.g_b pub_key 64
  pub session_keys : SessionKeys supplied lib dh_key sp.sp_db

-- The message that a finished block has built.
pub record Built (supplied : Bool) (lib : Libcrypto) (s0 : Sp) (p_msg1 : Msg1) (l : Locals)
    : Type 0 where
  pub balanced : Balanced s0 l
  pub message : Msg2
  pub response : l.msg2_full ≡ some (msg2_response 0 message)
  pub exchanged : Exchanged supplied lib s0 p_msg1 l.ecc_state l.sp
  pub content : MessageOf supplied lib l.sp l.ecc_state 0 none message

module _ (supplied : Bool) (lib : Libcrypto) (s0 : Sp) (p_msg1 : Msg1)
    (group : ExtendedEpidGroup) where
  abbrev allocated : Locals → Locals
  allocated l = record l {
    sp = record (l.sp) { buffers = l.sp.buffers + 1 };
    msg2_full = some (msg2_response 0 (zero_msg2 0));
  }

  allocated-Balanced :
      (l : Locals) → Balanced s0 l → (l.msg2_full ≡ none) → Balanced s0 (allocated l)
  allocated-Balanced l b n = record {
    same_group = b.same_group;
    same_registered = b.same_registered;
    same_spid = b.same_spid;
    buffers = ground arith;
    contexts = b.contexts;
  }

  abbrev opened : Option ℕ
  opened = (lib.ecc256_open_context).1

  -- The end of the block, once the keys are derived.
  finish-Built :
      (l : Locals)
      → Balanced s0 l
      → (l.msg2_full ≡ none)
      → Exchanged supplied lib s0 p_msg1 l.ecc_state l.sp
      → Ensures
          ((allocate_msg2 lib 0 >> assemble_msg2 supplied lib 0 none) l)
          (λ _ t. Built supplied lib s0 p_msg1 t)
          (Aborted s0)
  finish-Built l b n x =
      Ensures-and_then _ (allocate_msg2 lib 0 l) _ (allocate_msg2-counts lib 0 l)
        (λ code t h. (h.0, subst (Balanced s0) (sym h.1) b))
        λ _ t h.
          subst
            (λ u.
              Ensures (assemble_msg2 supplied lib 0 none u) (λ _ v. Built supplied lib s0 p_msg1 v)
                (Aborted s0))
            (sym h)
            (Ensures-map (assemble_msg2 supplied lib 0 none (allocated l))
              (assemble_msg2-MessageOf supplied lib 0 none (allocated l))
              (λ code u h'. (h'.0, subst (Balanced s0) (sym h'.1) (allocated-Balanced l b n)))
              λ _ u (m, e, content). subst (Built supplied lib s0 p_msg1) (sym e) (record {
                balanced = record {
                  same_group = b.same_group;
                  same_registered = b.same_registered;
                  same_spid = b.same_spid;
                  buffers = (allocated-Balanced l b n).buffers;
                  contexts = b.contexts;
                };
                message = m;
                response = refl;
                exchanged = record {
                  priv_key = x.priv_key;
                  pub_key = x.pub_key;
                  dh_key = x.dh_key;
                  pair = x.pair;
                  secret = x.secret;
                  stored_g_a = x.stored_g_a;
                  stored_g_b = x.stored_g_b;
                  session_keys = x.session_keys;
                };
                content = content;
              }))

  pub msg1_body-Built :
      s0.sp_extended_epid_group_id ≡ some group
      → group.get_sigrl p_msg1.gid true true ≡ (pos 0, some (0, none))
      → Ensures
          (msg1_body supplied lib p_msg1 (entry s0))
          (λ _ t. Built supplied lib s0 p_msg1 t)
          (Aborted s0)
  unfolding msg1_body
  msg1_body-Built chosen answers =
      Ensures-and_then _ (save_g_a p_msg1.g_a (entry s0)) _
        (save_g_a-Exchanging s0 lib (entry s0) p_msg1.g_a (ground arith)) (aborts none)
        λ _ l1 (x1, ga1, gb1).
          Ensures-and_then _ (open_context lib l1) _ (open_context-Exchanging s0 lib l1 x1)
            (aborts opened)
            λ _ l2 (x2, db2).
              Ensures-and_then _ (create_key_pair lib l2) _
                (create_key_pair-Exchanging s0 lib l2 opened x2) (aborts opened)
                λ pair l3 (x3, db3, made).
                  Ensures-and_then _ (save_key_pair pair.0 pair.1 l3) _
                    (save_key_pair-Exchanging s0 lib l3 opened pair.0 pair.1 x3) (aborts opened)
                    λ _ l4 (x4, ga4, gb4, b4).
                      Ensures-and_then _ (compute_dh_key lib pair.0 p_msg1.g_a l4) _
                        (compute_dh_key-Exchanging s0 lib l4 opened pair.0 p_msg1.g_a x4)
                        (aborts opened)
                        λ dh_key l5 (x5, db5, shared).
                          Ensures-and_then _ (fetch_sigrl p_msg1.gid l5) _
                            (fetch_sigrl-Exchanging s0 lib l5 opened p_msg1.gid group chosen answers
                              x5)
                            (aborts opened)
                            λ sig l6 (x6, db6, empty).
                              Ensures-and_then _ (derive_session_keys supplied lib dh_key l6) _
                                (derive_session_keys-Keyed s0 lib opened dh_key supplied l6 x6)
                                (aborts opened)
                                λ _ l7 (x7, ga7, gb7, keys). rw empty (
                                  finish-Built l7 (Exchanging-Balanced s0 opened l7 x7)
                                    x7.no_response
                                    (record {
                                      priv_key = pair.0;
                                      pub_key = pair.1;
                                      dh_key = dh_key;
                                      pair = rw x7.context made;
                                      secret = rw x7.context shared;
                                      stored_g_a = ground arith;
                                      stored_g_b = ground arith;
                                      session_keys = keys;
                                    }))
    where
      aborts :
          (handle : Option ℕ) (code : ℤ) (t : Locals) → Failed s0 handle code t → Aborted s0 code t
      aborts handle code t failed = (failed.0, Exchanging-Balanced s0 handle t failed.1)
