-- ===== src/Sp/Msg1/Accept.antt =====
-- `sp_ra_proc_msg1_req` with a library whose calls succeed.
use sgx_experiments.Prelude.{
  ◌≤◌, ◌≡◌, refl, inl, inr, ltb, true, false, some, none, Bytes, length, arith,
}
use sgx_experiments.Prelude.Int.{pos}
use sgx_experiments.Prelude.Effects.{
  Outcome, done, stop, crash, Ensures, Ensures-and_then, Ensures-map, Ensures-pair,
}
use sgx_experiments.Codes.{is_nonzero}
use sgx_experiments.Crypto.{Libcrypto, Works}
use sgx_experiments.Sp.State.{Sp, ExtendedEpidGroup, Msg1, msg1_size}
use sgx_experiments.Sp.Msg1.Keys.{
  Locals, entry, save_g_a, open_context, create_key_pair, save_key_pair, compute_dh_key,
  fetch_sigrl, derive_session_keys,
}
use sgx_experiments.Sp.Msg1.Keys.Progress.{
  Chosen, Never, save_g_a-Chosen, open_context-Chosen, create_key_pair-Chosen, save_key_pair-Chosen,
  compute_dh_key-Chosen, fetch_sigrl-Chosen, derive_session_keys-Chosen,
}
use sgx_experiments.Sp.Msg1.Assemble.{allocate_msg2}
use sgx_experiments.Sp.Msg1.Assemble.Content.{allocate_msg2-succeeds, assemble_msg2-succeeds}
use sgx_experiments.Sp.Msg1.Answer.{Accepted, parsed, sp_ra_proc_msg1_req-Answer}
use sgx_experiments.Sp.Msg1.{msg1_body, msg1_cleanup, sp_ra_proc_msg1_req}

msg1_cleanup-succeeds :
    (o : Outcome (Unit {0})) (l : Locals)
    → Ensures (o, l) (λ _ _. Unit {0}) Never
    → Ensures (msg1_cleanup o l) (λ answer _. is_nonzero answer.0 ≡ false) (λ _ _. ⊥)
unfolding msg1_cleanup Ensures
msg1_cleanup-succeeds (done _) l h = refl
msg1_cleanup-succeeds (stop e) l h = elim h [ ]
msg1_cleanup-succeeds crash l h = elim h [ ]

module _ (lib : Libcrypto) (works : Works lib) (group : ExtendedEpidGroup) where
  msg1_body-succeeds :
      (p_msg1 : Msg1) (l : Locals)
      → Chosen group l
      → group.get_sigrl p_msg1.gid true true ≡ (pos 0, some (0, none))
      → Ensures (msg1_body false lib p_msg1 l) (λ _ _. Unit {0}) Never
  unfolding msg1_body
  msg1_body-succeeds p_msg1 l c answers =
      Ensures-and_then _ (save_g_a p_msg1.g_a l) _ (save_g_a-Chosen lib works group l c p_msg1.g_a)
        (λ _ _ h. h)
        λ _ l1 c1.
          Ensures-and_then _ (open_context lib l1) _ (open_context-Chosen lib works group l1 c1)
            (λ _ _ h. h)
            λ _ l2 c2.
              Ensures-and_then _ (create_key_pair lib l2) _
                (create_key_pair-Chosen lib works group l2 c2) (λ _ _ h. h)
                λ pair l3 c3.
                  Ensures-and_then _ (save_key_pair pair.0 pair.1 l3) _
                    (save_key_pair-Chosen lib works group l3 c3 pair.0 pair.1) (λ _ _ h. h)
                    λ _ l4 c4.
                      Ensures-and_then _ (compute_dh_key lib pair.0 p_msg1.g_a l4) _
                        (compute_dh_key-Chosen lib works group l4 c4 pair.0 p_msg1.g_a) (λ _ _ h. h)
                        λ dh_key l5 c5.
                          Ensures-and_then _ (fetch_sigrl p_msg1.gid l5) _
                            (fetch_sigrl-Chosen lib works group l5 c5 p_msg1.gid answers)
                            (λ _ _ h. h)
                            λ sig l6 c6.
                              Ensures-and_then _ (derive_session_keys false lib dh_key l6) _
                                (derive_session_keys-Chosen lib works group dh_key l6 c6.0)
                                (λ _ _ h. h)
                                λ _ l7 _.
                                  Ensures-and_then _ (allocate_msg2 lib sig.0 l7) _
                                    (allocate_msg2-succeeds lib sig.0 l7 works) (λ _ _ h. h)
                                    λ _ l8 _. assemble_msg2-succeeds false lib sig.0 sig.1 l8 works

  module _ (s : Sp) (body : Bytes) where
    succeeds :
        s.is_sp_registered ≡ true
        → s.sp_extended_epid_group_id ≡ some group
        → ((gid : Bytes) → group.get_sigrl gid true true ≡ (pos 0, some (0, none)))
        → msg1_size ≤ length body
        → Ensures
            (sp_ra_proc_msg1_req false lib (some body) msg1_size true s)
            (λ answer _. is_nonzero answer.0 ≡ false)
            (λ _ _. ⊥)
    unfolding sp_ra_proc_msg1_req
    succeeds registered chosen answers whole =
        let long_enough : ltb (length body) msg1_size ≡ false = ground arith in
        simp (registered, long_enough)
          (msg1_cleanup-succeeds _ _
            (msg1_body-succeeds (parsed false lib s body group) (entry s) chosen (answers _)))

    -- In the default build, with a registered group whose revocation list is empty and a library
    -- whose calls succeed, a whole message 1 is answered 0 with the message 2 that the key
    -- exchange calls for.
    pub sp_ra_proc_msg1_req-accepts :
        s.is_sp_registered ≡ true
        → s.sp_extended_epid_group_id ≡ some group
        → ((gid : Bytes) → group.get_sigrl gid true true ≡ (pos 0, some (0, none)))
        → msg1_size ≤ length body
        → Ensures
            (sp_ra_proc_msg1_req false lib (some body) msg1_size true s)
            (Accepted false lib s (parsed false lib s body group))
            (λ _ _. ⊥)
    sp_ra_proc_msg1_req-accepts registered chosen answers whole =
        Ensures-map _
          (Ensures-pair _ _ _ _ _
            (sp_ra_proc_msg1_req-Answer false lib s body group registered chosen answers whole)
            (succeeds registered chosen answers whole))
          (λ _ _ h. h.0)
          λ answer t (a, ok). elim a [
            | inl accepted ↦ accepted
            | inr refused ↦ absurd (ground (arith, refused.code))
          ]
