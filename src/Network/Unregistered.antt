-- ===== src/Network/Unregistered.antt =====
-- Sessions in which nothing enrols.
use sgx_experiments.Prelude.{
  ℕ, ◌≤◌, ◌≡◌, ◌≢◌, refl, ◌∙◌, ap, inl, inr, Bool, true, false, Bool-cases, eq-cases, ◌&&◌, ◌==◌,
  List, [], ◌∷◌, none, some, Bytes, length, arith,
}
use sgx_experiments.Prelude.Int.{ℤ}
use sgx_experiments.Prelude.Effects.{Ensures, Ensures-and_then, Ensures-done}
use sgx_experiments.Crypto.{Libcrypto}
use sgx_experiments.Sp.State.{Sp, Written, untouched, null, buffer, read_msg0, msg0_size, msg1_size}
use sgx_experiments.Sp.Msg0.{sp_ra_proc_msg0_req}
use sgx_experiments.Sp.Msg1.{sp_ra_proc_msg1_req}
use sgx_experiments.Sp.Msg0.Registration.{sp_ra_proc_msg0_req-answered, sp_ra_proc_msg0_req-invalid}
use sgx_experiments.Sp.Msg1.Answer.{sp_ra_proc_msg1_req-invalid, sp_ra_proc_msg1_req-unregistered}
use sgx_experiments.Network.{RaSampRequest, deliver, ra_network_send_receive, exchange}
use sgx_experiments.Network.Exchange.{IsWhole, read_msg0-whole}
use sgx_experiments.Network.Session.{AllWhole}

-- The request asks for group 0.
abbrev pub enrols : RaSampRequest → Bool
enrols req =
    req.type == 0 && (elim (read_msg0 req.body) [ none ↦ false | some wanted ↦ wanted == 0 ])

abbrev pub is_msg2 : ℤ × Written → Bool
is_msg2 (ret, untouched) = false
is_msg2 (ret, null) = false
is_msg2 (ret, buffer resp) = resp.type == 2

abbrev pub NoneEnrols : List RaSampRequest → Type 0
NoneEnrols [] = Unit {0}
NoneEnrols (req ∷ reqs) = (enrols req ≡ false) × NoneEnrols reqs

abbrev pub NoMsg2 : List (ℤ × Written) → Type 0
NoMsg2 [] = Unit {0}
NoMsg2 (answer ∷ answers) = (is_msg2 answer ≡ false) × NoMsg2 answers

abbrev pub IsFresh : Sp → Type 0
IsFresh s = (s.is_sp_registered ≡ false) × (s.sp_extended_epid_group_id ≡ none)

abbrev Silent : ℤ × Written → Sp → Type 0
Silent answer t = IsFresh t × (is_msg2 answer ≡ false)

module _ (lib : Libcrypto) (s : Sp) (fresh : IsFresh s) where
  msg0-Silent :
      (body : Bytes) (size : ℕ)
      → size ≤ length body
      → read_msg0 body ≢ some 0
      → Ensures
          (
            deliver (sp_ra_proc_msg0_req lib (some body) size true s).0,
            (sp_ra_proc_msg0_req lib (some body) size true s).1,
          )
          Silent
          (λ _ _. ⊥)
  unfolding Ensures
  msg0-Silent body size whole other = elim (eq-cases size msg0_size) [
    | inl e ↦
        let (wanted, read) = read_msg0-whole body (omega arith) in
        let n : wanted ≢ 0 = λ z. other (read ∙ ap some z) in
        rw (e, sp_ra_proc_msg0_req-answered lib s body wanted (inl fresh) read) (ground arith)
    | inr n ↦
        rw (sp_ra_proc_msg0_req-invalid lib s body 0 (some body) size true (inr (inl n)))
          (fresh, refl)
  ]

  msg1-Silent :
      (supplied : Bool) (body : Bytes) (size : ℕ)
      → Ensures
          (
            deliver (sp_ra_proc_msg1_req supplied lib (some body) size true s).0,
            (sp_ra_proc_msg1_req supplied lib (some body) size true s).1,
          )
          Silent
          (λ _ _. ⊥)
  unfolding Ensures
  msg1-Silent supplied body size = elim (eq-cases size msg1_size) [
    | inl e ↦ rw (e, sp_ra_proc_msg1_req-unregistered supplied lib s body fresh.0) (fresh, refl)
    | inr n ↦
        rw (sp_ra_proc_msg1_req-invalid supplied lib s (some body) size true (inr (inl n)))
          (fresh, refl)
  ]

names_other :
    (req : RaSampRequest) → req.type == 0 ≡ true → enrols req ≡ false → read_msg0 req.body ≢ some 0
names_other req e other z = ground arith

module _ (supplied : Bool) (lib : Libcrypto) where
  send-Silent :
      (s : Sp) (req : RaSampRequest)
      → IsFresh s
      → IsWhole req
      → enrols req ≡ false
      → Ensures (ra_network_send_receive supplied lib true (some req) true s) Silent (λ _ _. ⊥)
  unfolding ra_network_send_receive
  send-Silent s req fresh whole other = elim (Bool-cases (req.type == 0)) [
    | inl e ↦ simp e (msg0-Silent lib s fresh req.body req.size whole (names_other req e other))
    | inr n ↦ elim (Bool-cases (req.type == 1)) [
      | inl e ↦ simp (n, e) (msg1-Silent lib s fresh supplied req.body req.size)
      | inr n' ↦ simp (n, n') (Ensures-done _ _ _ s (fresh, refl))
    ]
  ]

  -- As long as nothing is registered and no whole request asks for group 0, no answer is a message
  -- 2, no handler reads through a NULL pointer or behind a body, and nothing is registered afterwards.
  pub exchange-unregistered :
      (reqs : List RaSampRequest) (s : Sp)
      → IsFresh s
      → AllWhole reqs
      → NoneEnrols reqs
      → Ensures (exchange supplied lib reqs s) (λ answers t. IsFresh t × NoMsg2 answers) (λ _ _. ⊥)
  unfolding exchange
  exchange-unregistered [] s fresh _ _ = Ensures-done _ _ [] s (fresh, tt)
  exchange-unregistered (req ∷ reqs) s fresh (whole, wholes) (other, others) =
      Ensures-and_then _ (ra_network_send_receive supplied lib true (some req) true s) _
        (send-Silent s req fresh whole other) (λ _ _ h. h)
        λ answer t a.
          Ensures-and_then _ (exchange supplied lib reqs t) _
            (exchange-unregistered reqs t a.0 wholes others) (λ _ _ h. h)
            λ answers u b. Ensures-done _ _ (answer ∷ answers) u (b.0, (a.1, b.1))
