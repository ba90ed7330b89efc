-- ===== src/Sp/Msg1/Answer.antt =====
-- What `sp_ra_proc_msg1_req` answers, on every path.
use sgx_experiments.Prelude.{
  ℕ, ◌+◌, ◌≡◌, refl, ◌⊎◌, ◌≢◌, subst, ap, inl, inr, ltb, length, ◌≤◌, Bool, true, false, Option,
  none, some, Bytes, take, drop, arith,
}
use sgx_experiments.Prelude.Int.{ℤ, pos}
use sgx_experiments.Prelude.Effects.{Outcome, done, stop, crash, Ensures}
use sgx_experiments.Codes.{is_nonzero, sp_code, sp_unsupported_extended_epid_group, minus_one}
use sgx_experiments.Crypto.{Libcrypto}
use sgx_experiments.Sp.State.{
  Sp, ExtendedEpidGroup, Msg1, Msg2, msg1_size, RaSampResponse, Written, null, buffer, untouched,
}
use sgx_experiments.Sp.Msg1.Keys.{Locals, entry}
use sgx_experiments.Sp.Msg1.Keys.Frame.{held}
use sgx_experiments.Sp.Msg1.Assemble.{msg2_response}
use sgx_experiments.Sp.Msg1.Assemble.Content.{MessageOf}
use sgx_experiments.Sp.Msg1.Handler.{Balanced, Aborted, Exchanged, Built, msg1_body-Built}
use sgx_experiments.Sp.Msg1.{
  msg1_body, free_msg2, close_context, msg2_pointer, msg1_cleanup, sp_ra_proc_msg1_req,
}

-- The registration of `t` is that of `s`, as many contexts are open, and `n` more buffers are held.
pub record Kept (n : ℕ) (s t : Sp) : Type 0 where
  pub same_group : t.sp_extended_epid_group_id ≡ s.sp_extended_epid_group_id
  pub same_registered : t.is_sp_registered ≡ s.is_sp_registered
  pub same_spid : t.spid ≡ s.spid
  pub buffers : t.buffers ≡ s.buffers + n
  pub contexts : t.contexts ≡ s.contexts

-- Success: one buffer more, with the message 2 that the key exchange with this App calls for.
pub record Accepted (supplied : Bool) (lib : Libcrypto) (s : Sp) (p_msg1 : Msg1)
    (answer : ℤ × Written) (t : Sp) : Type 0 where
  pub kept : Kept 1 s t
  pub message : Msg2
  pub handle : Option ℕ
  pub response : answer ≡ (pos 0, buffer (msg2_response 0 message))
  pub exchanged : Exchanged supplied lib s p_msg1 handle t
  pub content : MessageOf supplied lib t handle 0 none message

-- Failure: a code that is not 0, a NULL response, and nothing is held.
pub record Refused (s : Sp) (answer : ℤ × Written) (t : Sp) : Type 0 where
  pub kept : Kept 0 s t
  pub code : is_nonzero answer.0 ≡ true
  pub response : answer.1 ≡ null

module _ (supplied : Bool) (lib : Libcrypto) (s : Sp) (p_msg1 : Msg1) where
  abbrev pub Answer : ℤ × Written → Sp → Type 0
  Answer answer t = Accepted supplied lib s p_msg1 answer t ⊎ Refused s answer t

  module _ (sp : Sp) where
    closed-Kept :
        (e : Option ℕ) (m : Option RaSampResponse)
        → Balanced s (record { sp = sp; ecc_state = e; msg2_full = m })
        → Kept (held m) s (close_context e sp)
    closed-Kept none m b = record {
      same_group = b.same_group;
      same_registered = b.same_registered;
      same_spid = b.same_spid;
      buffers = b.buffers;
      contexts = ground (arith, b.contexts);
    }
    closed-Kept (some c) m b = record {
      same_group = b.same_group;
      same_registered = b.same_registered;
      same_spid = b.same_spid;
      buffers = b.buffers;
      contexts = ground (arith, b.contexts);
    }

    closed-Exchanged :
        (e h : Option ℕ)
        → Exchanged supplied lib s p_msg1 h sp
        → Exchanged supplied lib s p_msg1 h (close_context e sp)
    closed-Exchanged none h x = x
    closed-Exchanged (some c) h x = record {
      priv_key = x.priv_key;
      pub_key = x.pub_key;
      dh_key = x.dh_key;
      pair = x.pair;
      secret = x.secret;
      stored_g_a = x.stored_g_a;
      stored_g_b = x.stored_g_b;
      session_keys = x.session_keys;
    }

    closed-MessageOf :
        (e h : Option ℕ) (m : Msg2)
        → MessageOf supplied lib sp h 0 none m
        → MessageOf supplied lib (close_context e sp) h 0 none m
    closed-MessageOf none h m x = x
    closed-MessageOf (some c) h m x = record {
      key = x.key;
      service = x.service;
      linkable = x.linkable;
      kdf = x.kdf;
      signed = x.signed;
      tag = x.tag;
      maced = x.maced;
      tagged = x.tagged;
      list_size = x.list_size;
      list = x.list;
    }

  freed-Kept :
      (sp : Sp) (e : Option ℕ) (m : Option RaSampResponse)
      → Balanced s (record { sp = sp; ecc_state = e; msg2_full = m })
      → Kept 0 s (close_context e (free_msg2 m sp))
  freed-Kept sp e none b = closed-Kept sp e none b
  freed-Kept sp e (some m) b = closed-Kept (free_msg2 (some m) sp) e none (record {
    same_group = b.same_group;
    same_registered = b.same_registered;
    same_spid = b.same_spid;
    buffers = ground (arith, b.buffers);
    contexts = b.contexts;
  })

  msg1_cleanup-Answer :
      (o : Outcome (Unit {0})) (l : Locals)
      → Ensures (o, l) (λ _ t. Built supplied lib s p_msg1 t) (Aborted s)
      → Ensures (msg1_cleanup o l) Answer (λ _ _. ⊥)
  unfolding msg1_cleanup Ensures
  msg1_cleanup-Answer (done _) l h = inl (record {
    kept =
        subst (λ m. Kept (held m) s (close_context l.ecc_state l.sp)) h.response
          (closed-Kept l.sp l.ecc_state l.msg2_full h.balanced);
    message = h.message;
    handle = l.ecc_state;
    response = ap (λ m. (pos 0, msg2_pointer m)) h.response;
    exchanged = closed-Exchanged l.sp l.ecc_state l.ecc_state h.exchanged;
    content = closed-MessageOf l.sp l.ecc_state l.ecc_state h.message h.content;
  })
  msg1_cleanup-Answer (stop e) l h =
      inr
        (record { kept = freed-Kept l.sp l.ecc_state l.msg2_full h.1; code = h.0; response = refl })
  msg1_cleanup-Answer crash l h = elim h [ ]

-- The request that a registered service provider takes: a whole message 1 with the size that it
-- has, and a response pointer.
module _ (supplied : Bool) (lib : Libcrypto) (s : Sp) (body : Bytes)
    (group : ExtendedEpidGroup) where
  abbrev pub parsed : Msg1
  parsed = record { g_a = take 64 body; gid = take 4 (drop 64 body) }

  -- For a registered group whose revocation list is empty and a whole message 1, the handler
  -- either answers 0 with one buffer more, whose message 2 has the stored keys, SPID, constants,
  -- signature and MAC that the key exchange calls for, or answers a code that is not 0 with NULL
  -- and holds nothing; the registration and the number of open contexts stay.
  pub sp_ra_proc_msg1_req-Answer :
      s.is_sp_registered ≡ true
      → s.sp_extended_epid_group_id ≡ some group
      → ((gid : Bytes) → group.get_sigrl gid true true ≡ (pos 0, some (0, none)))
      → msg1_size ≤ length body
      → Ensures
          (sp_ra_proc_msg1_req supplied lib (some body) msg1_size true s)
          (Answer supplied lib s parsed)
          (λ _ _. ⊥)
  unfolding sp_ra_proc_msg1_req
  sp_ra_proc_msg1_req-Answer registered chosen answers whole =
      let long_enough : ltb (length body) msg1_size ≡ false = ground arith in
      let built = msg1_body-Built supplied lib s parsed group chosen (answers parsed.gid) in
      simp (registered, long_enough)
        (msg1_cleanup-Answer supplied lib s parsed ((msg1_body supplied lib parsed (entry s)).0)
          ((msg1_body supplied lib parsed (entry s)).1) built)

-- A request without a message, with another size or without the pointer is answered -1; the state
-- and the response pointer are left alone.
pub sp_ra_proc_msg1_req-invalid :
    (supplied : Bool) (lib : Libcrypto) (s : Sp) (body : Option Bytes) (size : ℕ) (pp_msg2 : Bool)
    → ((body ≡ none) ⊎ (size ≢ msg1_size) ⊎ (pp_msg2 ≡ false))
    → sp_ra_proc_msg1_req supplied lib body size pp_msg2 s ≡ (done (minus_one, untouched), s)
unfolding sp_ra_proc_msg1_req
sp_ra_proc_msg1_req-invalid supplied lib s body size pp_msg2 h = ground arith

-- Before registration a message 1 is answered SP_UNSUPPORTED_EXTENDED_EPID_GROUP, and nothing changes.
pub sp_ra_proc_msg1_req-unregistered :
    (supplied : Bool) (lib : Libcrypto) (s : Sp) (bytes : Bytes)
    → s.is_sp_registered ≡ false
    → sp_ra_proc_msg1_req supplied lib (some bytes) msg1_size true s
      ≡ (done (sp_code sp_unsupported_extended_epid_group, untouched), s)
unfolding sp_ra_proc_msg1_req
sp_ra_proc_msg1_req-unregistered supplied lib s bytes h = simp h
