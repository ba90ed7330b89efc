-- ===== src/App/Invariant/Whole.antt =====
-- The whole of `main` up to its end or CLEANUP.
use sgx_experiments.Prelude.{
  ℕ, ◌+◌, ◌≡◌, ◌≢◌, refl, inl, inr, Bool, true, Bool-cases, [], length, arith, Option, none, some,
  Bytes,
}
use sgx_experiments.Prelude.Int.{pos}
use sgx_experiments.Prelude.Effects.{Ensures, Ensures-and_then, Ensures-stop, Ensures-map}
use sgx_experiments.Codes.{minus_one}
use sgx_experiments.Crypto.{Libcrypto}
use sgx_experiments.Sp.State.{Sp, Body, RaSampResponse}
use sgx_experiments.Sp.Msg0.Registration.{WellFormed}
use sgx_experiments.Network.{RaSampRequest}
use sgx_experiments.Network.Exchange.{IsWhole, ra_network_send_receive-Served}
use sgx_experiments.RaEnclave.{SgxStatus, succeeded, Sdk}
use sgx_experiments.App.{attest}
use sgx_experiments.App.State.{Platform, App, start, is_busy}
use sgx_experiments.App.Steps.{
  generate_msg0, send_msg0, select_key, generate_msg1, generated, get_msg1, send_msg1, receive_msg3,
  proc_msg2, check_msg3, do_while, msg0_message, msg1_message,
}
use sgx_experiments.App.Loop.{do_while-Ensures, send-Ensures}
use sgx_experiments.App.Invariant.{Holding, start-Holding, NoMsg1, NoMsg2, NoEnclave}
use sgx_experiments.App.Invariant.Steps.{
  generate_msg0-Holding, take_msg0_resp-Holding, select_key-Holding, get_msg1-Holding,
  take_msg2-Holding, put_msg3-Holding,
}
use sgx_experiments.App.Invariant.Start.{Holding-weaken, given_up, start_enclave-Holding}

-- What the App relies on: every call for a message 1 leaves all its bytes, and a call for message 3
-- allocates one only when the device is not busy.
pub record Fills (p : Platform) : Type 0 where
  pub msg1_bytes :
      (n : ℕ) (key_id : Bytes) (context id : ℕ)
      → length (p.ra_get_msg1_ex n key_id context id).1 ≡ 68
  pub msg3_late :
      (n : ℕ) (key_id : Bytes) (context id : ℕ) (body : Body) (size : ℕ)
      → is_busy (p.ra_proc_msg2_ex n key_id context id body size).0 ≡ true
      → (p.ra_proc_msg2_ex n key_id context id body size).1 ≡ none

module _ (supplied : Bool) (lib : Libcrypto) (s : Sp) (lost : ℕ) (a : App)
    (h : Holding s lost a) where
  send_msg0-Holding :
      a.msg0_resp ≡ none
      → NoEnclave a
      → Ensures
          (send_msg0 supplied lib a)
          (λ _ t. Holding s lost t × NoEnclave t)
          (λ _ t. Holding s lost t)
  unfolding send_msg0
  send_msg0-Holding nr n1 =
      Ensures-and_then _ _ _
        (send-Ensures supplied lib _ msg0_message a (
          ra_network_send_receive-Served supplied lib a.sp msg0_message h.well_formed
            (omega arith)))
        (λ _ _ k. elim k [ ])
        λ answer t (u, e, served). rw e (take_msg0_resp-Holding s lost a h answer u nr n1 served)

  send_msg1-Holding :
      (req : RaSampRequest)
      → NoMsg2 a
      → IsWhole req
      → Ensures
          (send_msg1 supplied lib req a)
          (λ _ t. Holding s lost t × (t.msg3 ≡ none))
          (λ _ t. Holding s lost t)
  unfolding send_msg1
  send_msg1-Holding req n2 whole =
      Ensures-and_then _ _ _
        (send-Ensures supplied lib _ req a
          (ra_network_send_receive-Served supplied lib a.sp req h.well_formed whole))
        (λ _ _ k. elim k [ ])
        λ answer t (u, e, served). rw e (take_msg2-Holding s lost a h answer u n2 served)

module _ (p : Platform) (fills : Fills p) (s : Sp) (lost : ℕ) where
  -- A message 1 is there, and whole.
  abbrev Generated : App → Type 0
  Generated a =
      Holding s lost a × NoMsg2 a × ((req : RaSampRequest) × (a.msg1_full ≡ some req) × IsWhole req)

  generated-Holding :
      (ret : SgxStatus) (a : App)
      → Generated a
      → Ensures
          (generated ret a)
          (λ req t. Holding s lost t × NoMsg2 t × IsWhole req)
          (λ _ t. Holding s lost t)
  unfolding Ensures
  generated-Holding ret a (h, n2, (req, e, whole)) = elim (Bool-cases (succeeded ret)) [
    | inl b ↦ rw (b, e) (h, n2, whole)
    | inr b ↦ rw b h
  ]

  msg1_loop-Holding :
      (a : App)
      → Holding s lost a
      → (a.msg1_full ≢ none) × NoMsg2 a
      → Ensures (do_while is_busy (get_msg1 p) 4 0 a) (λ _ t. Generated t) (λ _ t. Holding s lost t)
  msg1_loop-Holding a h ready =
      do_while-Ensures (λ _ t. Holding s lost t)
        (λ t. Holding s lost t × (t.msg1_full ≢ none) × NoMsg2 t) is_busy (get_msg1 p)
        (λ n t (k, m, n2).
          Ensures-map _ (get_msg1-Holding s lost t k p n m n2 fills.msg1_bytes)
            (λ _ _ e. elim e [ ]) (λ _ _ q. q))
        (λ ret t e (k, n2, (req, f, whole)). (k, (λ z. ground arith), n2)) 4 0 a
        (h, ready.0, ready.1)

  put_msg3-held :
      (msg2 : RaSampResponse) (n : ℕ) (a : App)
      → Holding s lost a × (a.msg3 ≡ none)
      → Ensures
          (proc_msg2 p msg2 n a)
          (λ ret t. Holding s lost t × (is_busy ret ≡ true → t.msg3 ≡ none))
          (λ _ t. Holding s lost t)
  unfolding Ensures
  put_msg3-held msg2 n a (h, n3) =
      let msg3 =
        (p.ra_proc_msg2_ex n a.selected_key_id a.context a.enclave_id msg2.body msg2.size).1 in
      (
        put_msg3-Holding s lost a h msg3 n3,
        λ b.
            rw (fills.msg3_late n a.selected_key_id a.context a.enclave_id msg2.body msg2.size b)
              n3,
      )

  check_msg3-Holding :
      (msg3 : Option Bytes) (ret : SgxStatus) (a : App)
      → a.msg3 ≡ msg3
      → Holding s lost a
      → Ensures
          (check_msg3 msg3 ret a)
          (λ ret t. Holding s lost t × (ret ≡ pos 0) × (t.msg3 ≢ none))
          (λ _ t. Holding s lost t)
  unfolding Ensures
  check_msg3-Holding none ret a e h = h
  check_msg3-Holding (some body) ret a e h = elim (Bool-cases (succeeded ret)) [
    | inl b ↦ simp b (h, refl, λ z. ground arith)
    | inr b ↦ simp b h
  ]

  receive_msg3-Holding :
      (msg2 : RaSampResponse) (a : App)
      → Holding s lost a
      → a.msg3 ≡ none
      → Ensures
          (receive_msg3 p msg2 a)
          (λ ret t. Holding s lost t × (ret ≡ pos 0) × (t.msg3 ≢ none))
          (λ _ t. Holding s lost t)
  unfolding receive_msg3
  receive_msg3-Holding msg2 a h n3 =
      Ensures-and_then _ (do_while is_busy (proc_msg2 p msg2) 2 0 a) _
        (do_while-Ensures (λ _ t. Holding s lost t) (λ t. Holding s lost t × (t.msg3 ≡ none))
          is_busy (proc_msg2 p msg2) (put_msg3-held msg2) (λ ret t e (k, f). (k, f e)) 2 0 a
          (h, n3))
        (λ _ _ k. k) λ ret t (k, f). check_msg3-Holding t.msg3 ret t refl k

  generate_msg1-Holding :
      (a : App)
      → Holding s lost a
      → NoMsg1 a
      → Ensures
          (generate_msg1 p a)
          (λ req t. Holding s lost t × NoMsg2 t × IsWhole req)
          (λ _ t. Holding s lost t)
  unfolding generate_msg1
  generate_msg1-Holding a h (n1, n2) = elim (Bool-cases (p.malloc 76)) [
    | inl e ↦
        let b = record a { msg1_full = some (msg1_message []); blocks = a.blocks + 1 } in
        let k : Holding s lost b = record {
          well_formed = h.well_formed;
          contexts = h.contexts;
          buffers = h.buffers;
          blocks = ground (arith, h.blocks, n1);
          enclaves = h.enclaves;
          sessions = h.sessions;
        } in
        rw e (
          Ensures-and_then _ (do_while is_busy (get_msg1 p) 4 0 b) _
            (msg1_loop-Holding b k ((λ z. ground arith), n2)) (λ _ _ r. r)
            (λ ret t g. generated-Holding ret t g))
    | inr e ↦ rw e (Ensures-stop _ _ minus_one a h)
  ]

module _ (supplied : Bool) (lib : Libcrypto) (sdk : Sdk) (p : Platform) (fills : Fills p) where
  early : {s : Sp} (t : App) → Holding s 0 t → Holding s (given_up p) t
  early {s} t h = Holding-weaken s 0 (given_up p) t (omega arith) h

  -- At its end, and wherever it goes to CLEANUP.
  pub attest-Holding :
      (s : Sp)
      → WellFormed s
      → Ensures
          (attest supplied lib sdk p (start s))
          (λ ret t. Holding s (given_up p) t × (ret ≡ pos 0) × (t.msg3 ≢ none))
          (λ _ t. Holding s (given_up p) t)
  unfolding attest
  attest-Holding s w =
      Ensures-and_then _ _ _
        (Ensures-and_then _ (generate_msg0 p (start s)) _
          (generate_msg0-Holding s 0 (start s) (start-Holding s w) p
            (refl, refl, ((refl, (refl, refl)), refl, omega arith)))
          (λ _ t k. early t k)
          (λ _ t (h, nr, ne).
            Ensures-map _ (send_msg0-Holding supplied lib s 0 t h nr ne) (λ _ u k. early u k)
              (λ _ _ q. q)))
        (λ _ _ k. k)
        λ resp t (h, ne).
          Ensures-and_then _ _ _
            (Ensures-and_then _ _ _
              (Ensures-and_then _ (select_key p resp t) _ (select_key-Holding s 0 t h p resp ne)
                (λ _ u k. early u k) (λ _ u (k, e). start_enclave-Holding supplied sdk p s u k e))
              (λ _ _ k. k) (λ _ u (k, n1). generate_msg1-Holding p fills s (given_up p) u k n1))
            (λ _ _ k. k)
            λ req u (k, n2, whole).
              Ensures-and_then _ (send_msg1 supplied lib req u) _
                (send_msg1-Holding supplied lib s (given_up p) u k req n2 whole) (λ _ _ q. q)
                λ msg2 v (q, n3). receive_msg3-Holding p fills s (given_up p) msg2 v q n3
