-- ===== src/Network/Handshake.antt =====
-- The two requests of the App, from the start of the service provider.
use sgx_experiments.Prelude.{
  ℕ, ◌≤◌, ◌≡◌, refl, ap, sym, subst, ◌∙◌, inl, true, false, List, [], ◌∷◌, Option, none, some,
  Bytes, take, length, u32_le,
}
use sgx_experiments.Prelude.Int.{ℤ, pos}
use sgx_experiments.Prelude.Effects.{
  Outcome, done, stop, crash, Ensures, Ensures-and_then, Ensures-done,
}
use sgx_experiments.Crypto.{Libcrypto, Works}
use sgx_experiments.Ias.{sim_spid}
use sgx_experiments.Sp.State.{Sp, init, Msg1, Msg2, Written, buffer}
use sgx_experiments.Sp.Msg0.{msg0_response}
use sgx_experiments.Sp.Msg0.Registration.{
  epid_group, enrolled, response_size, sp_ra_proc_msg0_req-answered,
}
use sgx_experiments.Sp.Msg1.Assemble.{msg2_response}
use sgx_experiments.Sp.Msg1.Assemble.Content.{MessageOf}
use sgx_experiments.Sp.Msg1.Answer.{Accepted, parsed}
use sgx_experiments.Sp.Msg1.Accept.{sp_ra_proc_msg1_req-accepts}
use sgx_experiments.Network.{RaSampRequest, deliver, ra_network_send_receive, exchange}
use sgx_experiments.Network.Exchange.{empty_sigrl}

-- Message 0 for group 0, and a message 1.
abbrev pub msg0_request : RaSampRequest
msg0_request = record { type = 0; size = 4; body = u32_le 0 }

abbrev pub msg1_request : Bytes → RaSampRequest
msg1_request body = record { type = 1; size = 68; body = body }

-- The state between the two.
abbrev pub enrolled_init : Sp
enrolled_init = record (enrolled init) { buffers = 1 }

-- Both requests were answered with a response, the second with a message 2 for this service.
pub record Completed (lib : Libcrypto) (answers : List (ℤ × Written)) (t : Sp) : Type 0 where
  pub message : Msg2
  pub handle : Option ℕ
  pub responses :
      answers ≡ (pos 0, buffer msg0_response) ∷ (pos 0, buffer (msg2_response 0 message)) ∷ []
  pub content : MessageOf false lib t handle 0 none message
  pub service : message.spid ≡ sim_spid
  pub buffers : t.buffers ≡ 2
  pub contexts : t.contexts ≡ 0

module _ (lib : Libcrypto) (works : Works lib) where
  pub msg0_exchanged :
      ra_network_send_receive false lib true (some msg0_request) true init
      ≡ (done (pos 0, buffer msg0_response), enrolled_init)
  unfolding ra_network_send_receive
  msg0_exchanged =
      rw
        (
          sp_ra_proc_msg0_req-answered lib init (u32_le 0) 0 (inl (refl, refl)) refl,
          works.room [] response_size,
        )
        refl

  deliver-Accepted :
      (p_msg1 : Msg1) (o : Outcome (ℤ × Written)) (s t : Sp)
      → Ensures (o, t) (Accepted false lib s p_msg1) (λ _ _. ⊥)
      → Ensures (deliver o, t) (Accepted false lib s p_msg1) (λ _ _. ⊥)
  unfolding Ensures
  deliver-Accepted p_msg1 (done answer) s t h =
      subst (λ a. Ensures (deliver (done a), t) (Accepted false lib s p_msg1) (λ _ _. ⊥))
        (sym h.response) (subst (λ a. Accepted false lib s p_msg1 a t) h.response h)
  deliver-Accepted p_msg1 (stop e) s t h = h
  deliver-Accepted p_msg1 crash s t h = h

  module _ (body : Bytes) where
    pub msg1_exchanged :
        68 ≤ length body
        → Ensures
            (ra_network_send_receive false lib true (some (msg1_request body)) true enrolled_init)
            (Accepted false lib enrolled_init (parsed false lib enrolled_init body epid_group))
            (λ _ _. ⊥)
    unfolding ra_network_send_receive
    msg1_exchanged whole = deliver-Accepted _ _ enrolled_init _ (
        sp_ra_proc_msg1_req-accepts lib works epid_group enrolled_init body refl refl empty_sigrl
          whole)

    -- In the default build, with a library whose calls succeed, a message 0 for group 0 and then a
    -- message 1 of at least 68 bytes, sent to a service provider that has just started, are both
    -- answered 0: the first with the list of keys, the second with the message 2 that belongs to
    -- the state and names the service; two buffers are held then and no context is open.
    pub exchange-Completed :
        68 ≤ length body
        → Ensures
            (exchange false lib (msg0_request ∷ msg1_request body ∷ []) init)
            (Completed lib)
            (λ _ _. ⊥)
    unfolding exchange
    exchange-Completed whole = rw msg0_exchanged (
        Ensures-and_then _ _ _
          (Ensures-and_then _ _ _ (msg1_exchanged whole) (λ _ _ h. h)
            (λ answer t a.
              Ensures-done (λ answers u. Completed lib ((pos 0, buffer msg0_response) ∷ answers) u)
                _ (answer ∷ []) t
                (record {
                  message = a.message;
                  handle = a.handle;
                  responses = ap (λ r. (pos 0, buffer msg0_response) ∷ r ∷ []) a.response;
                  content = a.content;
                  service = a.content.service ∙ ap (take 16) a.kept.same_spid;
                  buffers = a.kept.buffers;
                  contexts = a.kept.contexts;
                })))
          (λ _ _ h. h)
          (λ answers t c. Ensures-done _ _ ((pos 0, buffer msg0_response) ∷ answers) t c))
