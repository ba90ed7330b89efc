-- ===== src/App/Loop.antt =====
-- The rule of the App's loops, and a request on the App's state.
use sgx_experiments.Prelude.{ℕ, zero, suc, ◌+◌, ◌≡◌, refl, inl, inr, Bool, true, Bool-cases, some}
use sgx_experiments.Prelude.Int.{ℤ}
use sgx_experiments.Prelude.Effects.{
  Outcome, done, stop, crash, M, Ensures, Ensures-and_then, Ensures-done,
}
use sgx_experiments.Crypto.{Libcrypto}
use sgx_experiments.Sp.State.{Sp, Written}
use sgx_experiments.Network.{RaSampRequest, ra_network_send_receive}
use sgx_experiments.RaEnclave.{SgxStatus}
use sgx_experiments.App.State.{App}
use sgx_experiments.App.Steps.{do_while, send}

-- A round takes `I` to `Q`, and `Q` gives `I` again when there is another round.
pub do_while-Ensures :
    {S : Type 0} {Q : SgxStatus → S → Type 0} (R : ℤ → S → Type 0) (I : S → Type 0)
    (again : SgxStatus → Bool) (round : ℕ → M S SgxStatus)
    → ((n : ℕ) (s : S) → I s → Ensures (round n s) Q R)
    → ((ret : SgxStatus) (s : S) → again ret ≡ true → Q ret s → I s)
    → (left n : ℕ) (s : S) → I s
    → Ensures (do_while again round left n s) Q R
unfolding do_while
do_while-Ensures R I again round rounds more zero n s h = rounds n s h
do_while-Ensures {Q = Q} R I again round rounds more (suc left) n s h =
    Ensures-and_then Q (round n s) _ (rounds n s h) (λ _ _ k. k)
      λ ret t q. elim (Bool-cases (again ret)) [
        | inl e ↦
            rw e (do_while-Ensures R I again round rounds more left (n + 1) t (more ret t e q))
        | inr e ↦ rw e (Ensures-done Q R ret t q)
      ]

-- What a step of the service provider ensures, on the App's state.
on_app :
    {A : Type 0} (Q : A → Sp → Type 0) (a : App) (r : Outcome A × Sp)
    → Ensures r Q (λ _ _. ⊥)
    → Ensures
        (r.0, record a { sp = r.1 })
        (λ x t. (u : Sp) × (t ≡ record a { sp = u }) × Q x u)
        (λ _ _. ⊥)
unfolding Ensures
on_app Q a (done x, u) h = (u, refl, h)
on_app Q a (stop e, u) h = h
on_app Q a (crash, u) h = h

pub send-Ensures :
    (supplied : Bool) (lib : Libcrypto) (Q : ℤ × Written → Sp → Type 0) (req : RaSampRequest)
    (a : App)
    → Ensures (ra_network_send_receive supplied lib true (some req) true a.sp) Q (λ _ _. ⊥)
    → Ensures
        (send supplied lib req a)
        (λ x t. (u : Sp) × (t ≡ record a { sp = u }) × Q x u)
        (λ _ _. ⊥)
unfolding send
send-Ensures supplied lib Q req a h = on_app Q a _ h
