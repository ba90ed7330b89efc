-- ===== src/Network/Protocol/Refinement.antt =====
-- The handlers and the dispatch implement the abstract machine, over every sequence of requests.
use sgx_experiments.Prelude.{
  ℕ, ◌≤◌, ◌≡◌, refl, sym, inl, inr, Bool, true, false, Bool-cases, eq-cases, ltb, List, [], ◌∷◌,
  some, Bytes, take, drop, length, length-take, ◌==◌, subst, arith,
}
use sgx_experiments.Prelude.Int.{ℤ}
use sgx_experiments.Prelude.Effects.{
  Outcome, done, stop, crash, Ensures, Ensures-and_then, Ensures-done,
}
use sgx_experiments.Crypto.{Libcrypto}
use sgx_experiments.Sp.State.{Sp, Msg1, read_msg0, read_msg1, msg0_size, msg1_size, Written}
use sgx_experiments.Sp.Msg0.{sp_ra_proc_msg0_req}
use sgx_experiments.Sp.Msg0.Registration.{
  epid_group, registration, answered, response_size, sp_ra_proc_msg0_req-answered,
  sp_ra_proc_msg0_req-invalid,
}
use sgx_experiments.Sp.Msg1.{sp_ra_proc_msg1_req}
use sgx_experiments.Sp.Msg1.Answer.{
  Answer, sp_ra_proc_msg1_req-Answer, sp_ra_proc_msg1_req-invalid, sp_ra_proc_msg1_req-unregistered,
}
use sgx_experiments.Network.{RaSampRequest, deliver, ra_network_send_receive, exchange}
use sgx_experiments.Network.Exchange.{IsWhole, read_msg0-whole, empty_sigrl}
use sgx_experiments.Network.Session.{AllWhole}
use sgx_experiments.Network.Protocol.{
  Phase, unregistered, registered, Asked, key_list, key_exchange, asked_msg0, asked_msg1, asked,
  joined, Serves, lists, lacks_memory, too_early, exchanges, refuses, rejects, Follows, ends,
  then_serves, PublicKeys,
}
use sgx_experiments.Network.Protocol.Phases.{
  Represents, Represents-WellFormed, registration-Represents, Represents-buffers, Kept-Represents,
}
use sgx_experiments.Network.Protocol.Exchanges.{KeyExchange_lem}

-- The test on the length of a message, the other way round.
not_short : (n m : ℕ) → n ≤ m → ltb m n ≡ false
not_short n m h = ground arith

module _ (supplied : Bool) (lib : Libcrypto) where
  -- What the abstract machine says of one request.
  abbrev pub Allowed : Phase → Asked → ℤ × Written → Sp → Type 0
  Allowed p kind answer t = (q : Phase) × Serves supplied lib p kind answer q × Represents q t

  answered-Allowed :
      (p : Phase) (s : Sp) (wanted : ℕ)
      → Represents p s
      → Ensures
          (
            deliver (answered lib (registration wanted s)).0,
            (answered lib (registration wanted s)).1,
          )
          (Allowed p (key_list wanted))
          (λ _ _. ⊥)
  unfolding Ensures
  answered-Allowed p s wanted h =
      let after = registration-Represents p s wanted h in
      elim (Bool-cases (lib.malloc [] response_size)) [
        | inl e ↦ simp e (
          joined wanted p,
          lists p wanted e,
          Represents-buffers (joined wanted p) (registration wanted s) _ after,
        )
        | inr e ↦ simp e (joined wanted p, lacks_memory p wanted e, after)
      ]

  -- A handler's answer is delivered: `Q` of the answer gives `Q'` of what is handed over.
  deliver-Ensures :
      (Q Q' : ℤ × Written → Sp → Type 0) (o : Outcome (ℤ × Written)) (t : Sp)
      → Ensures (o, t) Q (λ _ _. ⊥)
      → ((answer : ℤ × Written) (t : Sp)
          → Q answer t
          → Ensures (deliver (done answer), t) Q' (λ _ _. ⊥))
      → Ensures (deliver o, t) Q' (λ _ _. ⊥)
  unfolding Ensures
  deliver-Ensures Q Q' (done answer) t h f = f answer t h
  deliver-Ensures Q Q' (stop e) t h f = h
  deliver-Ensures Q Q' crash t h f = h

  module _ (law : PublicKeys lib) (s : Sp) (h : Represents registered s) (p_msg1 : Msg1)
      (whole : length p_msg1.g_a ≡ 64) where
    Answer-Allowed :
        (answer : ℤ × Written) (t : Sp)
        → Answer supplied lib s p_msg1 answer t
        → Ensures (deliver (done answer), t) (Allowed registered (key_exchange p_msg1)) (λ _ _. ⊥)
    unfolding Ensures
    Answer-Allowed answer t (inl a) =
        let after = Kept-Represents 1 s t a.kept h in
        subst
          (λ r. Ensures (deliver (done r), t) (Allowed registered (key_exchange p_msg1)) (λ _ _. ⊥))
          (sym a.response)
          (
            registered,
            exchanges p_msg1 a.message (
                KeyExchange_lem supplied lib law s t p_msg1 a.handle a.message whole after.2
                  a.exchanged a.content),
            after,
          )
    Answer-Allowed (code, written) t (inr r) =
        subst
          (λ w.
            Ensures (deliver (done (code, w)), t) (Allowed registered (key_exchange p_msg1))
              (λ _ _. ⊥))
          (sym r.response)
          (rw r.code (registered, refuses p_msg1 code r.code, Kept-Represents 0 s t r.kept h))

  module _ (p : Phase) (s : Sp) (h : Represents p s) (body : Bytes) where
    msg0-Allowed :
        4 ≤ length body
        → Ensures
            (
              deliver (sp_ra_proc_msg0_req lib (some body) msg0_size true s).0,
              (sp_ra_proc_msg0_req lib (some body) msg0_size true s).1,
            )
            (Allowed p (asked_msg0 (read_msg0 body)))
            (λ _ _. ⊥)
    msg0-Allowed whole =
        let (wanted, read) = read_msg0-whole body whole in
        rw (read, sp_ra_proc_msg0_req-answered lib s body wanted (Represents-WellFormed p s h) read)
          (answered-Allowed p s wanted h)

  module _ (law : PublicKeys lib) (s : Sp) (body : Bytes) (whole : 68 ≤ length body) where
    abbrev msg1_of : Msg1
    msg1_of = record { g_a = take 64 body; gid = take 4 (drop 64 body) }

    read_whole : read_msg1 body ≡ some msg1_of
    read_whole = rw (not_short 68 (length body) whole) refl

    abbrev msg1_answered : Outcome (ℤ × Written) × Sp
    msg1_answered = (
      deliver (sp_ra_proc_msg1_req supplied lib (some body) msg1_size true s).0,
      (sp_ra_proc_msg1_req supplied lib (some body) msg1_size true s).1,
    )

    msg1-Allowed :
        (p : Phase)
        → Represents p s
        → Ensures msg1_answered (Allowed p (asked_msg1 (read_msg1 body))) (λ _ _. ⊥)
    unfolding Ensures
    msg1-Allowed unregistered (fresh, empty, size) =
        rw (read_whole, sp_ra_proc_msg1_req-unregistered supplied lib s body fresh)
          (unregistered, too_early msg1_of, (fresh, empty, size))
    msg1-Allowed registered (known, chosen, named) = rw read_whole (
        deliver-Ensures (Answer supplied lib s msg1_of) _ _ _
          (sp_ra_proc_msg1_req-Answer supplied lib s body epid_group known chosen empty_sigrl whole)
          (Answer-Allowed law s (known, chosen, named) msg1_of
            (omega (arith, length-take 64 body))))

  module _ (law : PublicKeys lib) where
    -- One request.
    send-Allowed :
        (p : Phase) (s : Sp) (req : RaSampRequest)
        → Represents p s
        → IsWhole req
        → Ensures
            (ra_network_send_receive supplied lib true (some req) true s)
            (Allowed p (asked req))
            (λ _ _. ⊥)
    unfolding ra_network_send_receive
    send-Allowed p s req h whole = elim (Bool-cases (req.type == 0)) [
      | inl e ↦ elim (eq-cases req.size 4) [
        | inl z ↦ simp e (rw z (msg0-Allowed p s h req.body (omega arith)))
        | inr n ↦
            let other : (req.size == 4) ≡ false = ground arith in
            simp (e, other)
              (rw
                (sp_ra_proc_msg0_req-invalid lib s req.body 0 (some req.body) req.size true
                  (inr (inl n)))
                (Ensures-done _ _ _ s (p, rejects p, h)))
      ]
      | inr e ↦ elim (Bool-cases (req.type == 1)) [
        | inl k ↦ elim (eq-cases req.size 68) [
          | inl z ↦ simp (e, k) (rw z (msg1-Allowed law s req.body (omega arith) p h))
          | inr n ↦
              let other : (req.size == 68) ≡ false = ground arith in
              simp (e, k, other)
                (rw
                  (sp_ra_proc_msg1_req-invalid supplied lib s (some req.body) req.size true
                    (inr (inl n)))
                  (Ensures-done _ _ _ s (p, rejects p, h)))
        ]
        | inr k ↦ simp (e, k) (Ensures-done _ _ _ s (p, rejects p, h))
      ]
    ]

    -- When the library makes public keys of 64 bytes: whatever requests come whose bodies have the
    -- declared size, in whatever order, the service provider answers as an abstract machine of two
    -- phases. Group 0 registers, and a request for a key list is answered with the list when there
    -- is memory; a key exchange is refused before, and afterwards refused with a code or answered
    -- with a message 2 for this very message 1, signed, with a MAC under the session key, that
    -- names the service; other requests are rejected and change nothing.
    pub exchange-Follows :
        (reqs : List RaSampRequest) (p : Phase) (s : Sp)
        → Represents p s
        → AllWhole reqs
        → Ensures
            (exchange supplied lib reqs s)
            (λ answers t. (q : Phase) × Follows supplied lib p reqs answers q × Represents q t)
            (λ _ _. ⊥)
    unfolding exchange
    exchange-Follows [] p s h _ = Ensures-done _ _ [] s (p, ends p, h)
    exchange-Follows (req ∷ reqs) p s h (whole, wholes) =
        Ensures-and_then _ (ra_network_send_receive supplied lib true (some req) true s) _
          (send-Allowed p s req h whole) (λ _ _ k. k)
          λ answer t (q, serves, after).
            Ensures-and_then _ (exchange supplied lib reqs t) _
              (exchange-Follows reqs q t after wholes) (λ _ _ k. k)
              λ answers u (r, follows, last).
                Ensures-done _ _ (answer ∷ answers) u
                  (r, then_serves p q r req reqs answer answers serves follows, last)
