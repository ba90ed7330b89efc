-- ===== src/App/Attested.antt =====
-- A run of `main` in which the calls of the SDK succeed, with the service provider at its start.
pub mod Calls
pub mod Run
use sgx_experiments.Prelude.{
  ℕ, zero, suc, ◌+◌, ◌≤◌, ◌<◌, ◌≡◌, ◌≢◌, inl, inr, Bool, true, false, [], ◌∷◌, length, arith,
  Option, none, some, Bytes, eq-cases,
}
use sgx_experiments.Prelude.Int.{ℤ, pos}
use sgx_experiments.Prelude.Effects.{M, Ensures, Ensures-and_then, Ensures-done, Ensures-map}
use sgx_experiments.Crypto.{Libcrypto}
use sgx_experiments.Ias.{sim_spid}
use sgx_experiments.Sp.State.{Msg2, Body}
use sgx_experiments.Sp.Msg1.Assemble.{msg2_response}
use sgx_experiments.Sp.Msg1.Assemble.Content.{MessageOf}
use sgx_experiments.RaEnclave.{SgxStatus, succeeded, Sdk, enclave_init_ra}
use sgx_experiments.App.State.{Platform, App, is_lost, is_busy}
use sgx_experiments.App.Steps.{create_enclave, do_while}

-- What the platform and the SDK have to do: every call succeeds, `sgx_ra_get_msg1_ex` and
-- `sgx_ra_proc_msg2_ex` after they were busy a few times, with what they are to leave.
pub record Cooperates (sdk : Sdk) (p : Platform) (busy1 busy2 : ℕ) : Type 0 where
  pub room : (size : ℕ) → p.malloc size ≡ true
  pub selects : (list : Body) (size : ℕ) → succeeded (p.select_att_key_id list size).0 ≡ true
  pub creates : succeeded (p.create_enclave 0).0 ≡ true
  pub enters : succeeded (p.enter_init 0) ≡ true
  pub inits : succeeded (enclave_init_ra false sdk 0 0).0 ≡ true
  pub busy1_few : busy1 ≤ 4
  pub msg1_busy :
      (n : ℕ) (key_id : Bytes) (context id : ℕ)
      → n < busy1
      → is_busy (p.ra_get_msg1_ex n key_id context id).0 ≡ true
  pub msg1_ready :
      (key_id : Bytes) (context id : ℕ)
      → (succeeded (p.ra_get_msg1_ex busy1 key_id context id).0 ≡ true)
        × (68 ≤ length (p.ra_get_msg1_ex busy1 key_id context id).1)
  pub busy2_few : busy2 ≤ 2
  pub msg2_busy :
      (n : ℕ) (key_id : Bytes) (context id : ℕ) (body : Body) (size : ℕ)
      → n < busy2
      → is_busy (p.ra_proc_msg2_ex n key_id context id body size).0 ≡ true
  pub msg2_ready :
      (key_id : Bytes) (context id : ℕ) (body : Body) (size : ℕ)
      → (succeeded (p.ra_proc_msg2_ex busy2 key_id context id body size).0 ≡ true)
        × ((p.ra_proc_msg2_ex busy2 key_id context id body size).1 ≢ none)

-- The end of such a run: message 2 and message 3 are there, one enclave and one key context in it.
pub record Attested (lib : Libcrypto) (ret : ℤ) (t : App) : Type 0 where
  pub code : ret ≡ pos 0
  pub message : Msg2
  pub handle : Option ℕ
  pub received : t.msg2_full ≡ some (msg2_response 0 message)
  pub content : MessageOf false lib t.sp handle 0 none message
  pub service : message.spid ≡ sim_spid
  pub msg3_there : t.msg3 ≢ none
  pub enclaves : t.enclaves ≡ t.enclave_id ∷ []
  pub sessions : t.sessions ≡ t.context ∷ []

pub not_busy : (ret : SgxStatus) → succeeded ret ≡ true → is_busy ret ≡ false
not_busy ret e = ground arith

pub not_lost : (ret : SgxStatus) → succeeded ret ≡ true → is_lost ret ≡ false
not_lost ret e = ground arith

-- A loop whose rounds before `k` ask for another one, and whose round `k` does not.
pub do_while-succeeds :
    {S : Type 0} (Q : SgxStatus → S → Type 0) (I : S → Type 0) (again : SgxStatus → Bool)
    (round : ℕ → M S SgxStatus) (k : ℕ)
    → ((n : ℕ) (s : S)
        → I s
        → n < k
        → Ensures (round n s) (λ ret t. (again ret ≡ true) × I t) (λ _ _. ⊥))
    → ((s : S) → I s → Ensures (round k s) (λ ret t. (again ret ≡ false) × Q ret t) (λ _ _. ⊥))
    → (left n : ℕ) (s : S) → n ≤ k
    → k ≤ n + left
    → I s
    → Ensures (do_while again round left n s) Q (λ _ _. ⊥)
unfolding do_while
do_while-succeeds Q I again round k more last zero n s low high h =
    let e : n ≡ k = omega arith in rw e (Ensures-map _ (last s h) (λ _ _ z. z) (λ ret t q. q.1))
do_while-succeeds Q I again round k more last (suc left) n s low high h = elim (eq-cases n k) [
  | inl e ↦ rw e (
      Ensures-and_then Q (round k s) _ (last s h) (λ _ _ z. z)
        (λ ret t (stays, q). rw stays (Ensures-done Q (λ _ _. ⊥) ret t q)))
  | inr d ↦
      Ensures-and_then Q (round n s) _ (more n s h (omega arith)) (λ _ _ z. z)
        (λ ret t (goes, i). rw goes (
          do_while-succeeds Q I again round k more last left (n + 1) t (omega arith) (omega arith)
            i))
]
