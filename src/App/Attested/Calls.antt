-- ===== src/App/Attested/Calls.antt =====
-- The calls of the SDK, one by one.
use sgx_experiments.Prelude.{
  ℕ, ◌+◌, ◌≤◌, ◌<◌, ◌≡◌, ◌≢◌, refl, true, false, [], ◌∷◌, length, arith, Option, none, some, Bytes,
}
use sgx_experiments.Prelude.Int.{pos}
use sgx_experiments.Prelude.Effects.{Ensures, Ensures-and_then}
use sgx_experiments.Crypto.{Libcrypto}
use sgx_experiments.Sp.State.{Sp, RaSampResponse}
use sgx_experiments.Network.{RaSampRequest}
use sgx_experiments.Network.Handshake.{enrolled_init}
use sgx_experiments.RaEnclave.{SgxStatus, succeeded, Sdk}
use sgx_experiments.App.State.{Platform, App, is_busy}
use sgx_experiments.App.Steps.{
  select_key, start_enclave, create_enclave, init_ra, generate_msg1, generated, get_msg1,
  receive_msg3, proc_msg2, check_msg3, put_msg3, do_while, msg1_message,
}
use sgx_experiments.App.Attested.{Cooperates, not_busy, not_lost, do_while-succeeds}

-- One enclave, and one key context in it.
abbrev pub Open : App → Type 0
Open a = (a.enclaves ≡ a.enclave_id ∷ []) × (a.sessions ≡ a.context ∷ [])

abbrev pub Enrolled : App → Type 0
Enrolled a = a.sp ≡ enrolled_init

module _ (sdk : Sdk) (p : Platform) (busy1 busy2 : ℕ) (c : Cooperates sdk p busy1 busy2) where
  pub start_enclave-Open :
      (a : App)
      → Enrolled a × (a.enclaves ≡ []) × (a.sessions ≡ [])
      → Ensures (start_enclave false sdk p a) (λ _ t. Enrolled t × Open t) (λ _ _. ⊥)
  unfolding start_enclave do_while create_enclave init_ra Ensures
  start_enclave-Open a (e, ne, ns) =
      simp (c.creates, c.enters, c.inits, not_lost _ c.enters) (e, (rw ne refl, rw ns refl))

  pub select_key-Enrolled :
      (resp : RaSampResponse) (a : App)
      → Enrolled a × (a.enclaves ≡ []) × (a.sessions ≡ [])
      → Ensures
          (select_key p resp a)
          (λ _ t. Enrolled t × (t.enclaves ≡ []) × (t.sessions ≡ []))
          (λ _ _. ⊥)
  unfolding select_key Ensures
  select_key-Enrolled resp a h = simp (c.selects resp.body resp.size) h

  -- A message 1 is there, and long enough.
  abbrev pub Whole : RaSampRequest → Type 0
  Whole req = (body : Bytes) × (req ≡ msg1_message body) × (68 ≤ length body)

  generated-Open :
      (ret : SgxStatus) (a : App)
      → (succeeded ret ≡ true)
        × Enrolled a
        × Open a
        × ((req : RaSampRequest) × (a.msg1_full ≡ some req) × Whole req)
      → Ensures (generated ret a) (λ req t. Enrolled t × Open t × Whole req) (λ _ _. ⊥)
  unfolding Ensures
  generated-Open ret a (ok, e, o, (req, there, whole)) = simp (ok, there) (e, o, whole)

  msg1_waits :
      (n : ℕ) (t : App)
      → Enrolled t × Open t
      → n < busy1
      → Ensures (get_msg1 p n t) (λ ret u. (is_busy ret ≡ true) × (Enrolled u × Open u)) (λ _ _. ⊥)
  unfolding Ensures
  msg1_waits n t (e, o) few = (c.msg1_busy n t.selected_key_id t.context t.enclave_id few, (e, o))

  abbrev Ready : SgxStatus → App → Type 0
  Ready ret a =
      (succeeded ret ≡ true)
      × Enrolled a
      × Open a
      × ((req : RaSampRequest) × (a.msg1_full ≡ some req) × Whole req)

  msg1_comes :
      (t : App)
      → Enrolled t × Open t
      → Ensures (get_msg1 p busy1 t) (λ ret u. (is_busy ret ≡ false) × (Ready ret u)) (λ _ _. ⊥)
  unfolding Ensures
  msg1_comes t (e, o) =
      let (ok, whole) = c.msg1_ready t.selected_key_id t.context t.enclave_id in
      (not_busy _ ok, (ok, e, o, (_, refl, (_, refl, whole))))

  pub generate_msg1-Open :
      (a : App)
      → Enrolled a × Open a
      → Ensures (generate_msg1 p a) (λ req t. Enrolled t × Open t × Whole req) (λ _ _. ⊥)
  unfolding generate_msg1
  generate_msg1-Open a (e, o) =
      let b = record a { msg1_full = some (msg1_message []); blocks = a.blocks + 1 } in
      rw (c.room 76) (
        Ensures-and_then _ (do_while is_busy (get_msg1 p) 4 0 b) _
          (do_while-succeeds Ready (λ t. Enrolled t × Open t) is_busy (get_msg1 p) busy1 msg1_waits
            msg1_comes 4 0 b (omega arith) (omega (arith, c.busy1_few)) (e, o))
          (λ _ _ z. z) (λ ret t q. generated-Open ret t q))

  -- Message 2 has come.
  module _ (lib : Libcrypto) (msg2 : RaSampResponse) (sp : Sp) where
    abbrev pub Received : App → Type 0
    Received a = (a.sp ≡ sp) × (a.msg2_full ≡ some msg2) × Open a

    put_msg3-Received : (msg3 : Option Bytes) (a : App) → Received a → Received (put_msg3 msg3 a)
    put_msg3-Received none a r = r
    put_msg3-Received (some body) a r = r

    put_msg3_there : (msg3 : Option Bytes) (a : App) → msg3 ≢ none → (put_msg3 msg3 a).msg3 ≢ none
    put_msg3_there none a n = absurd (n refl)
    put_msg3_there (some body) a n = n

    msg3_waits :
        (n : ℕ) (t : App)
        → Received t
        → n < busy2
        → Ensures (proc_msg2 p msg2 n t) (λ ret u. (is_busy ret ≡ true) × Received u) (λ _ _. ⊥)
    unfolding Ensures
    msg3_waits n t r few = (
      c.msg2_busy n t.selected_key_id t.context t.enclave_id msg2.body msg2.size few,
      put_msg3-Received _ t r,
    )

    msg3_comes :
        (t : App)
        → Received t
        → Ensures
            (proc_msg2 p msg2 busy2 t)
            (λ ret u.
              (is_busy ret ≡ false) × ((succeeded ret ≡ true) × (u.msg3 ≢ none) × Received u))
            (λ _ _. ⊥)
    unfolding Ensures
    msg3_comes t r =
        let (ok, there) =
          c.msg2_ready t.selected_key_id t.context t.enclave_id msg2.body msg2.size in
        (not_busy _ ok, (ok, put_msg3_there _ t there, put_msg3-Received _ t r))

    check_msg3-Received :
        (msg3 : Option Bytes) (ret : SgxStatus) (a : App)
        → a.msg3 ≡ msg3
        → (succeeded ret ≡ true) × (a.msg3 ≢ none) × Received a
        → Ensures
            (check_msg3 msg3 ret a)
            (λ ret t. (ret ≡ pos 0) × (t.msg3 ≢ none) × Received t)
            (λ _ _. ⊥)
    unfolding Ensures
    check_msg3-Received none ret a e (ok, there, r) = absurd (there e)
    check_msg3-Received (some body) ret a e (ok, there, r) = simp ok (refl, there, r)

    pub receive_msg3-Received :
        (a : App)
        → Received a
        → Ensures
            (receive_msg3 p msg2 a)
            (λ ret t. (ret ≡ pos 0) × (t.msg3 ≢ none) × Received t)
            (λ _ _. ⊥)
    unfolding receive_msg3
    receive_msg3-Received a r =
        Ensures-and_then _ (do_while is_busy (proc_msg2 p msg2) 2 0 a) _
          (do_while-succeeds (λ ret t. (succeeded ret ≡ true) × (t.msg3 ≢ none) × Received t)
            Received is_busy (proc_msg2 p msg2) busy2 msg3_waits msg3_comes 2 0 a (omega arith)
            (omega (arith, c.busy2_few)) r)
          (λ _ _ z. z) (λ ret t q. check_msg3-Received t.msg3 ret t refl q)
