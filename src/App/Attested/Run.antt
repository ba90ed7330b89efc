-- ===== src/App/Attested/Run.antt =====
-- The whole run.
use sgx_experiments.Prelude.{
  ℕ, ◌≤◌, ◌≡◌, refl, sym, ap, subst, ◌∙◌, true, false, [], length, arith, none, some, Bytes, take,
}
use sgx_experiments.Prelude.Int.{ℤ, pos}
use sgx_experiments.Prelude.Effects.{
  Ensures, Ensures-and_then, Ensures-map, and_then, Outcome, done, stop, crash,
}
use sgx_experiments.Crypto.{Libcrypto, Works}
use sgx_experiments.Sp.State.{Sp, init, RaSampResponse, Written, buffer}
use sgx_experiments.Sp.Msg0.Registration.{epid_group}
use sgx_experiments.Sp.Msg1.Assemble.Content.{MessageOf}
use sgx_experiments.Sp.Msg1.Answer.{Accepted, parsed}
use sgx_experiments.Network.{ra_network_send_receive}
use sgx_experiments.Network.Handshake.{enrolled_init, msg0_exchanged, msg1_exchanged}
use sgx_experiments.RaEnclave.{Sdk}
use sgx_experiments.App.{attest, finish, main}
use sgx_experiments.App.State.{Platform, App, start}
use sgx_experiments.App.Steps.{generate_msg0, select_key, receive_msg3, msg1_message}
use sgx_experiments.App.Loop.{send-Ensures}
use sgx_experiments.App.Attested.{Cooperates}
use sgx_experiments.App.Attested.{Attested}
use sgx_experiments.App.Attested.Calls.{
  Open, Enrolled, select_key-Enrolled, start_enclave-Open, generate_msg1-Open,
  receive_msg3-Received,
}
use sgx_experiments.App.Steps.{
  send_msg0 as app_send_msg0, send_msg1 as app_send_msg1, take_msg2, send,
}

module _ (lib : Libcrypto) (works : Works lib) where
  -- The service provider's side of message 0.
  msg0_answered :
      (a : App)
      → (a.sp ≡ init) × (a.enclaves ≡ []) × (a.sessions ≡ [])
      → Ensures
          (app_send_msg0 false lib a)
          (λ _ t. Enrolled t × (t.enclaves ≡ []) × (t.sessions ≡ []))
          (λ _ _. ⊥)
  unfolding app_send_msg0 send Ensures
  msg0_answered a (e, ne, ns) = rw (e, msg0_exchanged lib works) (refl, ne, ns)

  -- The service provider's side of message 1.
  module _ (body : Bytes) where
    abbrev Agreed : ℤ × Written → Sp → Type 0
    Agreed = Accepted false lib enrolled_init (parsed false lib enrolled_init body epid_group)

    abbrev Message : RaSampResponse → App → Type 0
    Message msg2 a = Agreed (pos 0, buffer msg2) a.sp × (a.msg2_full ≡ some msg2) × Open a

    take_msg2-Message :
        (answer : ℤ × Written) (a : App) (u : Sp)
        → Open a
        → Agreed answer u
        → Ensures (take_msg2 answer (record a { sp = u })) Message (λ _ _. ⊥)
    unfolding Ensures
    take_msg2-Message answer a u o accepted =
        simp accepted.response (subst (λ r. Agreed r u) accepted.response accepted, refl, o)

    msg1_answered :
        (a : App)
        → Enrolled a × Open a
        → 68 ≤ length body
        → Ensures (app_send_msg1 false lib (msg1_message body) a) Message (λ _ _. ⊥)
    unfolding app_send_msg1
    msg1_answered a (e, o) whole =
        Ensures-and_then _ _ _
          (send-Ensures false lib Agreed (msg1_message body) a (
            subst
              (λ u.
                Ensures (ra_network_send_receive false lib true (some (msg1_message body)) true u)
                  Agreed (λ _ _. ⊥))
              (sym e) (msg1_exchanged lib works body whole)))
          (λ _ _ z. z)
          λ answer t (u, same, accepted). rw same (take_msg2-Message answer a u o accepted)

    -- From message 1 to the end.
    attest_msg1 :
        (sdk : Sdk) (p : Platform) (busy1 busy2 : ℕ)
        → Cooperates sdk p busy1 busy2
        → (a : App) → Enrolled a × Open a
        → 68 ≤ length body
        → Ensures
            (and_then
              (app_send_msg1 false lib (msg1_message body) a).0
              (app_send_msg1 false lib (msg1_message body) a).1
              (receive_msg3 p))
            (Attested lib)
            (λ _ _. ⊥)
    attest_msg1 sdk p busy1 busy2 c a h whole =
        Ensures-and_then _ (app_send_msg1 false lib (msg1_message body) a) _
          (msg1_answered a h whole) (λ _ _ z. z)
          λ msg2 t (m, got, o).
            Ensures-map _ (receive_msg3-Received sdk p busy1 busy2 c lib msg2 t.sp t (refl, got, o))
              (λ _ _ z. z)
              λ ret u (r, there, (same, got', o')). record {
                code = r;
                message = m.message;
                handle = m.handle;
                received = got' ∙ ap some (ground (arith, m.response));
                content =
                    subst (λ v. MessageOf false lib v m.handle 0 none m.message) (sym same)
                      m.content;
                service = m.content.service ∙ ap (take 16) m.kept.same_spid;
                msg3_there = there;
                enclaves = o'.0;
                sessions = o'.1;
              }

  module _ (sdk : Sdk) (p : Platform) (busy1 busy2 : ℕ) (c : Cooperates sdk p busy1 busy2) where
    generate_msg0-init :
        Ensures
          (generate_msg0 p (start init))
          (λ _ t. (t.sp ≡ init) × (t.enclaves ≡ []) × (t.sessions ≡ []))
          (λ _ _. ⊥)
    unfolding generate_msg0 Ensures
    generate_msg0-init = simp (c.room 12) (refl, refl, refl)

    finish-Attested :
        (r : Outcome ℤ × App)
        → Ensures r (Attested lib) (λ _ _. ⊥)
        → Ensures (finish sdk p r) (Attested lib) (λ _ _. ⊥)
    unfolding Ensures
    finish-Attested (done ret, t) h = h
    finish-Attested (stop e, t) h = elim h [ ]
    finish-Attested (crash, t) h = h

    attest-Attested : Ensures (attest false lib sdk p (start init)) (Attested lib) (λ _ _. ⊥)
    unfolding attest
    attest-Attested =
        Ensures-and_then _ _ _
          (Ensures-and_then _ (generate_msg0 p (start init)) _ generate_msg0-init (λ _ _ z. z)
            (λ _ t q. msg0_answered t q))
          (λ _ _ z. z)
          λ resp t q.
            Ensures-and_then _ _ _
              (Ensures-and_then _ _ _
                (Ensures-and_then _ (select_key p resp t) _
                  (select_key-Enrolled sdk p busy1 busy2 c resp t q) (λ _ _ z. z)
                  (λ _ u k. start_enclave-Open sdk p busy1 busy2 c u k))
                (λ _ _ z. z) (λ _ u k. generate_msg1-Open sdk p busy1 busy2 c u k))
              (λ _ _ z. z)
              λ req u (e, o, (body, same, whole)).
                rw same (attest_msg1 body sdk p busy1 busy2 c u (e, o) whole)

    -- In the default build, with a crypto library whose calls succeed, a service provider at its
    -- start, and an SDK that cooperates (its calls succeed, those for message 1 and message 3
    -- after at most 4 and 2 busy answers), main ends with 0; it then holds the message 2 that
    -- belongs to the service provider's state and names the service, a message 3, one enclave that
    -- is not destroyed and one key context that is not closed.
    pub main-attests : Ensures (main false lib sdk p init) (Attested lib) (λ _ _. ⊥)
    unfolding main
    main-attests = finish-Attested (attest false lib sdk p (start init)) attest-Attested
