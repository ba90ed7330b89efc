-- ===== src/App/Invariant/Steps.antt =====
-- The steps of `main` one by one: what the App holds after each.
use sgx_experiments.Prelude.{
  ℕ, ◌≡◌, ◌≢◌, refl, ◌∙◌, inl, inr, Bool-cases, Option, none, some, Bytes, length, arith, ◌==◌,
}
use sgx_experiments.Prelude.Int.{ℤ}
use sgx_experiments.Prelude.Effects.{Ensures}
use sgx_experiments.Codes.{is_nonzero}
use sgx_experiments.Sp.State.{Sp, Written, untouched, null, buffer, RaSampResponse}
use sgx_experiments.Network.{RaSampRequest}
use sgx_experiments.Network.Exchange.{IsWhole, Served, delivered}
use sgx_experiments.RaEnclave.{succeeded}
use sgx_experiments.App.State.{Platform, App}
use sgx_experiments.App.Steps.{
  generate_msg0, take_msg0_resp, select_key, get_msg1, take_msg2, msg1_message, put_msg3,
}
use sgx_experiments.App.Invariant.{Holding, NoMsg0, NoEnclave, NoMsg2}

-- A request that was answered, and the state that the service provider went to.
module _ (s : Sp) (lost : ℕ) (a : App) (h : Holding s lost a) where
  pub generate_msg0-Holding :
      (p : Platform)
      → NoMsg0 a
      → Ensures
          (generate_msg0 p a)
          (λ _ t. Holding s lost t × (t.msg0_resp ≡ none) × NoEnclave t)
          (λ _ t. Holding s lost t)
  unfolding Ensures generate_msg0
  generate_msg0-Holding p (n0, nr, n1) = elim (Bool-cases (p.malloc 12)) [
    | inl e ↦ simp e (
      record {
        well_formed = h.well_formed;
        contexts = h.contexts;
        buffers = h.buffers;
        blocks = ground (arith, h.blocks, n0);
        enclaves = h.enclaves;
        sessions = h.sessions;
      },
      nr,
      n1,
    )
    | inr e ↦ simp e h
  ]

  -- A request to the service provider that handed over no response.
  unanswered :
      (u : Sp) (answer : ℤ × Written)
      → Served a.sp answer u
      → delivered answer ≡ 0
      → Holding s lost (record a { sp = u })
  unanswered u answer served d = record {
    well_formed = served.well_formed;
    contexts = served.contexts ∙ h.contexts;
    buffers = omega (arith, served.buffers, h.buffers);
    blocks = h.blocks;
    enclaves = h.enclaves;
    sessions = h.sessions;
  }

  pub take_msg0_resp-Holding :
      (answer : ℤ × Written) (u : Sp)
      → a.msg0_resp ≡ none
      → NoEnclave a
      → Served a.sp answer u
      → Ensures
          (take_msg0_resp answer (record a { sp = u }))
          (λ _ t. Holding s lost t × NoEnclave t)
          (λ _ t. Holding s lost t)
  unfolding Ensures
  take_msg0_resp-Holding (ret, untouched) u nr n1 served = elim (Bool-cases (is_nonzero ret)) [
    | inl e ↦ simp e (unanswered u _ served refl)
    | inr e ↦ absurd (ground (arith, served.answered))
  ]
  take_msg0_resp-Holding (ret, null) u nr n1 served = elim (Bool-cases (is_nonzero ret)) [
    | inl e ↦ simp e (unanswered u _ served refl)
    | inr e ↦ absurd (ground (arith, served.answered))
  ]
  take_msg0_resp-Holding (ret, buffer resp) u nr n1 served =
      let kept : Holding s lost (record a { sp = u; msg0_resp = some resp }) = record {
        well_formed = served.well_formed;
        contexts = served.contexts ∙ h.contexts;
        buffers = ground (arith, served.buffers, h.buffers, nr);
        blocks = h.blocks;
        enclaves = h.enclaves;
        sessions = h.sessions;
      } in
      elim (Bool-cases (is_nonzero ret)) [ inl e ↦ simp e kept | inr e ↦ simp e (kept, n1) ]

  pub select_key-Holding :
      (p : Platform) (resp : RaSampResponse)
      → NoEnclave a
      → Ensures
          (select_key p resp a)
          (λ _ t. Holding s lost t × NoEnclave t)
          (λ _ t. Holding s lost t)
  unfolding Ensures select_key
  select_key-Holding p resp n1 =
      let key_id = (p.select_att_key_id resp.body resp.size).1 in
      let kept : Holding s lost (record a { selected_key_id = key_id }) = record {
        well_formed = h.well_formed;
        contexts = h.contexts;
        buffers = h.buffers;
        blocks = h.blocks;
        enclaves = h.enclaves;
        sessions = h.sessions;
      } in
      elim (Bool-cases (succeeded (p.select_att_key_id resp.body resp.size).0)) [
        | inl e ↦ simp e (kept, n1)
        | inr e ↦ simp e kept
      ]

  pub get_msg1-Holding :
      (p : Platform) (n : ℕ)
      → a.msg1_full ≢ none
      → NoMsg2 a
      → ((n : ℕ) (key : Bytes) (c e : ℕ) → length (p.ra_get_msg1_ex n key c e).1 ≡ 68)
      → Ensures
          (get_msg1 p n a)
          (λ _ t.
            Holding s lost t
            × NoMsg2 t
            × ((req : RaSampRequest) × (t.msg1_full ≡ some req) × IsWhole req))
          (λ _ _. ⊥)
  unfolding Ensures
  get_msg1-Holding p n some1 n2 whole =
      let body = (p.ra_get_msg1_ex n a.selected_key_id a.context a.enclave_id).1 in
      (
        record {
          well_formed = h.well_formed;
          contexts = h.contexts;
          buffers = h.buffers;
          blocks = ground (arith, h.blocks, some1);
          enclaves = h.enclaves;
          sessions = h.sessions;
        },
        n2,
        (msg1_message body, refl, omega (arith, whole n a.selected_key_id a.context a.enclave_id)),
      )

  pub take_msg2-Holding :
      (answer : ℤ × Written) (u : Sp)
      → NoMsg2 a
      → Served a.sp answer u
      → Ensures
          (take_msg2 answer (record a { sp = u }))
          (λ _ t. Holding s lost t × (t.msg3 ≡ none))
          (λ _ t. Holding s lost t)
  unfolding Ensures
  take_msg2-Holding (ret, untouched) u n2 served = unanswered u _ served refl
  take_msg2-Holding (ret, null) u n2 served = unanswered u _ served refl
  take_msg2-Holding (ret, buffer resp) u n2 served =
      let kept : Holding s lost (record a { sp = u; msg2_full = some resp }) = record {
        well_formed = served.well_formed;
        contexts = served.contexts ∙ h.contexts;
        buffers = ground (arith, served.buffers, h.buffers, n2);
        blocks = h.blocks;
        enclaves = h.enclaves;
        sessions = h.sessions;
      } in
      elim (Bool-cases (is_nonzero ret)) [
        | inl e ↦ simp e kept
        | inr e ↦ elim (Bool-cases (resp.type == 2)) [
          | inl e' ↦ simp (e, e') (kept, n2.1)
          | inr e' ↦ simp (e, e') kept
        ]
      ]

  pub put_msg3-Holding : (msg3 : Option Bytes) → a.msg3 ≡ none → Holding s lost (put_msg3 msg3 a)
  put_msg3-Holding none n3 = h
  put_msg3-Holding (some body) n3 = record {
    well_formed = h.well_formed;
    contexts = h.contexts;
    buffers = h.buffers;
    blocks = ground (arith, h.blocks, n3);
    enclaves = h.enclaves;
    sessions = h.sessions;
  }
