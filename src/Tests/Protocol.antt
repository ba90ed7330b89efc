-- ===== src/Tests/Protocol.antt =====
-- The theorems about the service provider and the network, at concrete requests.
use sgx_experiments.Prelude.{
  ℕ, ◌==◌, ◌≡◌, refl, ap, sym, length, inl, true, false, List, [], ◌∷◌, some, u32_le, arith,
}
use sgx_experiments.Prelude.Effects.{Ensures}
use sgx_experiments.Crypto.{Libcrypto}
use sgx_experiments.Sp.State.{init, msg0_size, msg1_size}
use sgx_experiments.Sp.Msg0.{sp_ra_proc_msg0_req}
use sgx_experiments.Sp.Msg0.Registration.{
  epid_group, registration, answered, sp_ra_proc_msg0_req-answered,
}
use sgx_experiments.Sp.Msg1.{sp_ra_proc_msg1_req}
use sgx_experiments.Sp.Msg1.Answer.{Accepted, Answer, parsed, sp_ra_proc_msg1_req-Answer}
use sgx_experiments.Sp.Msg1.Accept.{sp_ra_proc_msg1_req-accepts}
use sgx_experiments.Network.{RaSampRequest, session, exchange}
use sgx_experiments.Network.Exchange.{empty_sigrl}
use sgx_experiments.Network.Session.{Accounted, session-Accounted}
use sgx_experiments.Network.Protocol.{Phase, unregistered, Follows, PublicKeys}
use sgx_experiments.Network.Protocol.Phases.{Represents}
use sgx_experiments.Network.Protocol.Refinement.{exchange-Follows}
use sgx_experiments.Network.Handshake.{Completed, exchange-Completed}
use sgx_experiments.Tests.Data.{
  test_lib, test_lib-Works, msg0_request, msg1_bytes, msg1_request, registered,
}

-- A registration and a key exchange.
abbrev two_requests : List RaSampRequest
two_requests = msg0_request 0 ∷ msg1_request ∷ []

-- Nothing is left for the second request.
abbrev changing_lib : ℕ → Libcrypto
changing_lib n = record test_lib { malloc = λ label size. n == 0 }

session-Accounted_example :
    Ensures (session false changing_lib 0 two_requests init) (Accounted init 2) (λ _ _. ⊥)
session-Accounted_example =
    session-Accounted false changing_lib 0 two_requests init (inl (refl, refl))
      (omega arith, (omega arith, tt))

exchange-Completed_example :
    Ensures (exchange false test_lib two_requests init) (Completed test_lib) (λ _ _. ⊥)
exchange-Completed_example = exchange-Completed test_lib test_lib-Works msg1_bytes (omega arith)

test_lib-PublicKeys : PublicKeys test_lib
test_lib-PublicKeys = record { whole = λ handle priv_key pub_key e. ap (λ r. length r.2) (sym e) }

-- A group that is not supported, a key exchange all the same, and a registration.
abbrev long_session : List RaSampRequest
long_session = msg0_request 7 ∷ msg1_request ∷ msg0_request 0 ∷ msg1_request ∷ []

exchange-Follows_example :
    Ensures
      (exchange false test_lib long_session init)
      (λ answers t.
        (q : Phase) × Follows false test_lib unregistered long_session answers q × Represents q t)
      (λ _ _. ⊥)
exchange-Follows_example =
    exchange-Follows false test_lib test_lib-PublicKeys long_session unregistered init
      (refl, refl, refl) (omega arith, (omega arith, (omega arith, (omega arith, tt))))

sp_ra_proc_msg1_req-Answer_example :
    Ensures
      (sp_ra_proc_msg1_req true test_lib (some msg1_bytes) msg1_size true registered)
      (Answer true test_lib registered (parsed true test_lib registered msg1_bytes epid_group))
      (λ _ _. ⊥)
sp_ra_proc_msg1_req-Answer_example =
    sp_ra_proc_msg1_req-Answer true test_lib registered msg1_bytes epid_group refl refl empty_sigrl
      (omega arith)

sp_ra_proc_msg1_req-accepts_example :
    Ensures
      (sp_ra_proc_msg1_req false test_lib (some msg1_bytes) msg1_size true registered)
      (Accepted false test_lib registered (parsed false test_lib registered msg1_bytes epid_group))
      (λ _ _. ⊥)
sp_ra_proc_msg1_req-accepts_example =
    sp_ra_proc_msg1_req-accepts test_lib test_lib-Works epid_group registered msg1_bytes refl refl
      empty_sigrl (omega arith)

sp_ra_proc_msg0_req-answered_example :
    sp_ra_proc_msg0_req test_lib (some (u32_le 0)) msg0_size true init
    ≡ answered test_lib (registration 0 init)
sp_ra_proc_msg0_req-answered_example =
    sp_ra_proc_msg0_req-answered test_lib init (u32_le 0) 0 (inl (refl, refl)) refl
