-- ===== src/Network/Exchange.antt =====
-- A sequence of requests to one service provider.
use sgx_experiments.Prelude.{
  ℕ, ◌+◌, ◌≤◌, ◌≡◌, refl, ◌∙◌, subst, ap, sym, ◌⊎◌, inl, inr, Bool, true, Bool-cases, [], ◌∷◌, none,
  some, Bytes, length, ◌==◌, eq-cases, arith,
}
use sgx_experiments.Prelude.Int.{ℤ, pos}
use sgx_experiments.Prelude.Effects.{Outcome, done, stop, crash, Ensures, Ensures-map}
use sgx_experiments.Codes.{is_nonzero}
use sgx_experiments.Crypto.{Libcrypto}
use sgx_experiments.Ias.{ias_get_sigrl}
use sgx_experiments.Sp.State.{
  Sp, Msg1, read_msg0, msg0_size, msg1_size, Written, untouched, null, buffer,
}
use sgx_experiments.Sp.Msg0.{sp_ra_proc_msg0_req}
use sgx_experiments.Sp.Msg1.{sp_ra_proc_msg1_req}
use sgx_experiments.Sp.Msg0.Registration.{
  WellFormed, epid_group, registration, registration-WellFormed, answered, response_size,
  sp_ra_proc_msg0_req-answered, sp_ra_proc_msg0_req-invalid,
}
use sgx_experiments.Sp.Msg1.Answer.{
  Kept, Answer, sp_ra_proc_msg1_req-Answer, sp_ra_proc_msg1_req-invalid,
  sp_ra_proc_msg1_req-unregistered,
}
use sgx_experiments.Network.{RaSampRequest, deliver, ra_network_send_receive}

-- The buffers that an answer hands over.
abbrev pub delivered : ℤ × Written → ℕ
delivered (ret, untouched) = 0
delivered (ret, null) = 0
delivered (ret, buffer resp) = 1

-- The request has the bytes that its header declares.
abbrev pub IsWhole : RaSampRequest → Type 0
IsWhole req = req.size ≤ length req.body

-- What one request does: the answer is a code that is not 0 or a response, the state stays well
-- formed, no context is left open, and the buffers that are held are those handed over.
pub record Served (s : Sp) (answer : ℤ × Written) (t : Sp) : Type 0 where
  pub well_formed : WellFormed t
  pub contexts : t.contexts ≡ s.contexts
  pub buffers : t.buffers ≡ s.buffers + delivered answer
  pub answered :
      ((is_nonzero answer.0 ≡ true) × (delivered answer ≡ 0))
      ⊎ ((answer.0 ≡ pos 0) × (delivered answer ≡ 1))

-- A failure that leaves the service provider as well formed as it was.
failed :
    (s t : Sp) (answer : ℤ × Written)
    → WellFormed t
    → t.contexts ≡ s.contexts
    → t.buffers ≡ s.buffers
    → is_nonzero answer.0 ≡ true
    → delivered answer ≡ 0
    → Served s answer t
failed s t answer w c b n d = record {
  well_formed = w;
  contexts = c;
  buffers = omega arith;
  answered = inl (n, d);
}

delivered_lem :
    (answer : ℤ × Written) (s t : Sp)
    → Served s answer t
    → Ensures (deliver (done answer), t) (Served s) (λ _ _. ⊥)
unfolding Ensures
delivered_lem (ret, untouched) s t h = elim (Bool-cases (is_nonzero ret)) [
  | inl e ↦ simp e h
  | inr e ↦ absurd (ground (arith, h.answered))
]
delivered_lem (ret, null) s t h = elim (Bool-cases (is_nonzero ret)) [
  | inl e ↦ simp e (failed s t (ret, untouched) h.well_formed h.contexts (omega arith) e refl)
  | inr e ↦ absurd (ground (arith, h.answered))
]
delivered_lem (ret, buffer resp) s t h = elim h.answered [
  | inl (e, d) ↦ absurd (omega arith)
  | inr (e, d) ↦ simp e (subst (λ r. Served s (r, buffer resp) t) e h)
]

deliver-Ensures :
    (o : Outcome (ℤ × Written)) (s t : Sp)
    → Ensures (o, t) (Served s) (λ _ _. ⊥)
    → Ensures (deliver o, t) (Served s) (λ _ _. ⊥)
unfolding Ensures
deliver-Ensures (done answer) s t h = delivered_lem answer s t h
deliver-Ensures (stop e) s t h = h
deliver-Ensures crash s t h = h

-- Four bytes are a message 0.
pub read_msg0-whole : (body : Bytes) → 4 ≤ length body → (w : ℕ) × (read_msg0 body ≡ some w)
read_msg0-whole [] h = elim h [ ]
read_msg0-whole (a ∷ []) h = absurd (omega arith)
read_msg0-whole (a ∷ b ∷ []) h = absurd (omega arith)
read_msg0-whole (a ∷ b ∷ c ∷ []) h = absurd (omega arith)
read_msg0-whole (a ∷ b ∷ c ∷ d ∷ rest) h = (_, refl)

registration-counts :
    (s : Sp) (wanted : ℕ)
    → ((registration wanted s).contexts ≡ s.contexts)
      × ((registration wanted s).buffers ≡ s.buffers)
registration-counts s wanted = ground arith

-- The revocation list of the group is empty.
pub empty_sigrl : (gid : Bytes) → epid_group.get_sigrl gid true true ≡ (pos 0, some (0, none))
unfolding ias_get_sigrl
empty_sigrl gid = refl

Kept-WellFormed : (n : ℕ) (s t : Sp) → Kept n s t → WellFormed s → WellFormed t
Kept-WellFormed n s t k (inl (fresh, empty)) = inl (k.same_registered ∙ fresh, k.same_group ∙ empty)
Kept-WellFormed n s t k (inr (registered, chosen)) =
    inr (k.same_registered ∙ registered, k.same_group ∙ chosen)

Answer-Served :
    (supplied : Bool) (lib : Libcrypto) (s : Sp)
    → WellFormed s
    → (p_msg1 : Msg1) (answer : ℤ × Written) (t : Sp) → Answer supplied lib s p_msg1 answer t
    → Served s answer t
Answer-Served supplied lib s w p_msg1 answer t (inl a) = record {
  well_formed = Kept-WellFormed 1 s t a.kept w;
  contexts = a.kept.contexts;
  buffers = a.kept.buffers ∙ ap (λ r. s.buffers + delivered r) (sym a.response);
  answered = inr (ap (λ r. r.0) a.response, ap delivered a.response);
}
Answer-Served supplied lib s w p_msg1 (code, null) t (inr r) =
    failed s t (code, null) (Kept-WellFormed 0 s t r.kept w) r.kept.contexts
      (ground (arith, r.kept.buffers)) r.code refl
Answer-Served supplied lib s w p_msg1 (code, untouched) t (inr r) =
    absurd (ground (arith, r.response))
Answer-Served supplied lib s w p_msg1 (code, buffer b) t (inr r) =
    absurd (ground (arith, r.response))

module _ (lib : Libcrypto) (s : Sp) (w : WellFormed s) where
  -- The answer to a message 0, with memory or without.
  answered-Served :
      (t : Sp)
      → WellFormed t
      → t.contexts ≡ s.contexts
      → t.buffers ≡ s.buffers
      → Ensures (answered lib t) (Served s) (λ _ _. ⊥)
  unfolding Ensures
  answered-Served t wt c b = elim (Bool-cases (lib.malloc [] response_size)) [
    | inl e ↦ simp e (record {
      well_formed = wt;
      contexts = c;
      buffers = omega arith;
      answered = inr (refl, refl);
    })
    | inr e ↦ simp e (failed s t (pos 5, null) wt c b refl refl)
  ]

  unserved-Served :
      (code : ℤ)
      → is_nonzero code ≡ true
      → Ensures (done (code, untouched), s) (Served s) (λ _ _. ⊥)
  unfolding Ensures
  unserved-Served code n = failed s s (code, untouched) w refl refl n refl

  msg0-Served :
      (body : Bytes) (size : ℕ)
      → size ≤ length body
      → Ensures (sp_ra_proc_msg0_req lib (some body) size true s) (Served s) (λ _ _. ⊥)
  msg0-Served body size whole = elim (eq-cases size msg0_size) [
    | inl e ↦
        let (wanted, read) = read_msg0-whole body (omega arith) in
        rw (e, sp_ra_proc_msg0_req-answered lib s body wanted w read)
          (answered-Served (registration wanted s) (registration-WellFormed s wanted w)
            (registration-counts s wanted).0 (registration-counts s wanted).1)
    | inr n ↦
        rw (sp_ra_proc_msg0_req-invalid lib s body 0 (some body) size true (inr (inl n)))
          (unserved-Served _ refl)
  ]

  module _ (supplied : Bool) where
    msg1-Served :
        (body : Bytes) (size : ℕ)
        → size ≤ length body
        → Ensures (sp_ra_proc_msg1_req supplied lib (some body) size true s) (Served s) (λ _ _. ⊥)
    msg1-Served body size whole = elim (eq-cases size msg1_size) [
      | inl e ↦ rw e (elim w [
        | inl (fresh, _) ↦
            rw (sp_ra_proc_msg1_req-unregistered supplied lib s body fresh) (unserved-Served _ refl)
        | inr (registered, chosen) ↦
            Ensures-map _
              (sp_ra_proc_msg1_req-Answer supplied lib s body epid_group registered chosen
                empty_sigrl (omega arith))
              (λ _ _ h. h)
              (λ answer t h. Answer-Served supplied lib s (inr (registered, chosen)) _ answer t h)
      ])
      | inr n ↦
          rw (sp_ra_proc_msg1_req-invalid supplied lib s (some body) size true (inr (inl n)))
            (unserved-Served _ refl)
    ]

module _ (supplied : Bool) (lib : Libcrypto) where
  -- One request whose body is whole, to a well-formed service provider.
  pub ra_network_send_receive-Served :
      (s : Sp) (req : RaSampRequest)
      → WellFormed s
      → IsWhole req
      → Ensures (ra_network_send_receive supplied lib true (some req) true s) (Served s) (λ _ _. ⊥)
  unfolding ra_network_send_receive
  ra_network_send_receive-Served s req w whole = elim (Bool-cases (req.type == 0)) [
    | inl e ↦ simp e (deliver-Ensures _ s _ (msg0-Served lib s w req.body req.size whole))
    | inr n ↦ elim (Bool-cases (req.type == 1)) [
      | inl e ↦
          simp (n, e) (deliver-Ensures _ s _ (msg1-Served lib s w supplied req.body req.size whole))
      | inr n' ↦ simp (n, n') (unserved-Served lib s w _ refl)
    ]
  ]
