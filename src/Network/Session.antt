-- ===== src/Network/Session.antt =====
-- Sequences of requests: what every session keeps.
use sgx_experiments.Prelude.{
  ℕ, suc, ◌+◌, ◌≡◌, refl, ◌∙◌, ap, Bool, true, List, [], ◌∷◌, some, length, arith,
}
use sgx_experiments.Prelude.Int.{ℤ}
use sgx_experiments.Prelude.Effects.{Ensures, Ensures-and_then, Ensures-done}
use sgx_experiments.Crypto.{Libcrypto}
use sgx_experiments.Sp.State.{Sp, Written}
use sgx_experiments.Sp.Msg0.Registration.{WellFormed}
use sgx_experiments.Network.{RaSampRequest, ra_network_send_receive, session}
use sgx_experiments.Network.Exchange.{delivered, IsWhole, ra_network_send_receive-Served}

-- The buffers that the answers hand over.
abbrev pub delivered_all : List (ℤ × Written) → ℕ
delivered_all [] = 0
delivered_all (answer ∷ answers) = delivered answer + delivered_all answers

abbrev pub AllWhole : List RaSampRequest → Type 0
AllWhole [] = Unit {0}
AllWhole (req ∷ reqs) = IsWhole req × AllWhole reqs

-- The state after a session and its answers: well formed, no context open that was not, one buffer
-- held for each response handed over, and every request answered.
pub record Accounted (s : Sp) (requests : ℕ) (answers : List (ℤ × Written)) (t : Sp) : Type 0 where
  pub well_formed : WellFormed t
  pub contexts : t.contexts ≡ s.contexts
  pub buffers : t.buffers ≡ s.buffers + delivered_all answers
  pub all_answered : length answers ≡ requests

module _ (supplied : Bool) (libs : ℕ → Libcrypto) where
  -- Whatever requests come whose bodies have the declared size, in whatever order, to a well-
  -- formed service provider, and whatever the crypto library and malloc give for each of them: no
  -- handler reads through a NULL pointer, through one that was not set, or behind the body of a
  -- request, every request is answered, the state stays well formed, no crypto context is left
  -- open, and one response buffer is held for each response handed over.
  pub session-Accounted :
      (n : ℕ) (reqs : List RaSampRequest) (s : Sp)
      → WellFormed s
      → AllWhole reqs
      → Ensures (session supplied libs n reqs s) (Accounted s (length reqs)) (λ _ _. ⊥)
  unfolding session
  session-Accounted n [] s w _ =
      Ensures-done _ _ [] s
        (record { well_formed = w; contexts = refl; buffers = omega arith; all_answered = refl })
  session-Accounted n (req ∷ reqs) s w (whole, wholes) =
      Ensures-and_then _ (ra_network_send_receive supplied (libs n) true (some req) true s) _
        (ra_network_send_receive-Served supplied (libs n) s req w whole) (λ _ _ h. h)
        λ answer t a.
          Ensures-and_then _ (session supplied libs (n + 1) reqs t) _
            (session-Accounted (n + 1) reqs t a.well_formed wholes) (λ _ _ h. h)
            λ answers u b. Ensures-done _ _ (answer ∷ answers) u (record {
              well_formed = b.well_formed;
              contexts = b.contexts ∙ a.contexts;
              buffers = ground (arith, b.buffers, a.buffers);
              all_answered = ap suc b.all_answered;
            })
