-- ===== src/Thread/Monitor/Rounds.antt =====
-- Rounds of the buffer, as steps of a schedule.
use sgx_experiments.Prelude.{
  ℕ, zero, suc, ◌-◌, ◌<◌, ◌≡◌, refl, subst, ◌∙◌, inl, inr, false, List, [], ◌∷◌, ◌++◌, map, some,
  length, Option-cases, arith,
}
use sgx_experiments.Thread.Buffer.{
  CondBuffer, buffer, produced, consumed, produce, consume, Workers, workers, take_round, Choice,
  step, run,
}
use sgx_experiments.Thread.Buffer as Buffer
use sgx_experiments.Thread.Buffer.Progress.{run_skip, run-step}
use sgx_experiments.Thread.Monitor.{Worker, producer_loop, consumer_loop}
use sgx_experiments.Thread.Monitor.Standing.{whole}

-- A round whose test holds is a round of the buffer.
pub produces :
    (b : CondBuffer) → producer_loop.waits b ≡ false → produce b ≡ some (whole producer_loop b)
unfolding produce
produces b e = rw e refl

pub consumes :
    (b : CondBuffer) → consumer_loop.waits b ≡ false → consume b ≡ some (whole consumer_loop b)
unfolding consume
consumes b e = rw e refl

pub produce-step :
    (b b' : CondBuffer) (n n' : ℕ) (cs : List ℕ)
    → produce b ≡ some b'
    → 0 < n
    → n' ≡ n - 1
    → step Buffer.producing (b, record { producer = n; consumers = cs })
      ≡ some (b', record { producer = n'; consumers = cs })
unfolding step
produce-step b b' zero n' cs e h k = elim h [ ]
produce-step b b' (suc n) n' cs e h k = ground (arith, e, k)

take_round-head :
    (n n' : ℕ) (rest : List ℕ) → 0 < n → n' ≡ n - 1 → take_round 0 (n ∷ rest) ≡ some (n' ∷ rest)
unfolding take_round
take_round-head zero n' rest h e = elim h [ ]
take_round-head (suc n) n' rest h e = let same : n' ≡ n = omega arith in rw same refl

pub take_round-left :
    (front back : List Worker) (w v : Worker)
    → 0 < w.left
    → v.left ≡ w.left - 1
    → take_round (length front) (map (λ u. u.left) (front ++ (w ∷ back)))
      ≡ some (map (λ u. u.left) (front ++ (v ∷ back)))
unfolding take_round
take_round-left [] back w v h e = take_round-head w.left v.left (map (λ u. u.left) back) h e
take_round-left (u ∷ front) back w v h e = rw (take_round-left front back w v h e) refl

pub consume-round :
    (i : ℕ) (cs cs' : List ℕ) (b b' : CondBuffer) (n : ℕ)
    → take_round i cs ≡ some cs'
    → consume b ≡ some b'
    → step (Buffer.consuming i) (b, record { producer = n; consumers = cs })
      ≡ some (b', record { producer = n; consumers = cs' })
unfolding step
consume-round i cs cs' b b' n e e' = ground (arith, e, e')

-- A state that is reached is reached by rounds alone.
pub run-append :
    (schedule : List Choice) (choice : Choice) (s t : CondBuffer × Workers)
    → step choice (run schedule s) ≡ some t
    → run (schedule ++ (choice ∷ [])) s ≡ t
unfolding run
run-append [] choice s t e = run-step choice [] s t e
run-append (first ∷ schedule) choice s t e = elim (Option-cases (step first s)) [
  | inl skipped ↦
      run_skip first (schedule ++ (choice ∷ [])) s skipped
      ∙ run-append schedule choice s t
          (subst (λ u. step choice u ≡ some t) (run_skip first schedule s skipped) e)
  | inr (u, taken) ↦
      run-step first (schedule ++ (choice ∷ [])) s u taken
      ∙ run-append schedule choice u t
          (subst (λ v. step choice v ≡ some t) (run-step first schedule s u taken) e)
]
