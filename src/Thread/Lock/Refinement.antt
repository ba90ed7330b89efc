-- ===== src/Thread/Lock/Refinement.antt =====
-- The steps with the mutex against the steps of whole rounds.
use sgx_experiments.Prelude.{
  ℕ, ◌≡◌, refl, sym, ap, ap₂, ◌∙◌, ◌⊎◌, inl, inr, List, [], ◌∷◌, ◌++◌, map, length,
}
use sgx_experiments.Thread.Counter.{Adder, Counters, adder_step, step, run, adders, counters}
use sgx_experiments.Thread.Monitor.Balance.{bit}
use sgx_experiments.Thread.Lock.{Caller, Lock, Step, steps, Steps, here, next, lock, rounded}
use sgx_experiments.Thread.Lock.Rounds.{turn-Rounds}
use sgx_experiments.Thread.Lock.Invariant.{
  inside_all, Exclusive, stepping, Steps-Exclusive, lock-Exclusive,
}

abbrev pub rounds : Lock → Counters × List Adder
rounds m = (m.shared.counters, map rounded m.callers)

-- A step of the thread behind `front`.
step_behind :
    (k : Counters) (a : Adder) (front back : List Caller) (c : Caller)
    → rounded c ≡ a
    → step (length front) k (map rounded (front ++ (c ∷ back)))
      ≡ ((adder_step k a).0, map rounded front ++ ((adder_step k a).1 ∷ map rounded back))
unfolding step
step_behind k a [] back c e = rw e refl
step_behind k a (d ∷ front) back c e =
    ap (λ r. (r.0, rounded d ∷ r.1)) (step_behind k a front back c e)

map-append :
    (front back : List Caller) (c : Caller)
    → map rounded (front ++ (c ∷ back)) ≡ map rounded front ++ (rounded c ∷ map rounded back)
map-append [] back c = refl
map-append (d ∷ front) back c = ap (λ us. rounded d ∷ us) (map-append front back c)

run-snoc :
    (schedule : List ℕ) (i : ℕ) (k : Counters) (xs : List Adder)
    → run (schedule ++ (i ∷ [])) k xs ≡ step i (run schedule k xs).0 (run schedule k xs).1
unfolding run
run-snoc [] i k xs = refl
run-snoc (j ∷ schedule) i k xs = run-snoc schedule i (step j k xs).0 (step j k xs).1

Step-rounds :
    (m n : Lock)
    → Exclusive m
    → Step m n
    → (rounds n ≡ rounds m)
      ⊎ ((i : ℕ) × (step i m.shared.counters (map rounded m.callers) ≡ rounds n))
Step-rounds m n x (steps front back c s' c' same e) =
    let known = (stepping m front back c x same).2 in
    elim (turn-Rounds m.shared s' c' c.tmp c.adder c.point known e) [
      | inl (k, r) ↦ inl (
          ap₂ (λ u us. (u, us)) k
            (map-append front back c'
              ∙ ap (λ a. map rounded front ++ (a ∷ map rounded back)) r
              ∙ sym (map-append front back c)
              ∙ ap (map rounded) (sym same)))
      | inr r ↦ inr (
        length front,
        ap (λ cs. step (length front) m.shared.counters (map rounded cs)) same
            ∙ step_behind m.shared.counters (rounded c) front back c refl
            ∙ ap (λ r. (r.0, map rounded front ++ (r.1 ∷ map rounded back))) r
            ∙ ap (λ us. (s'.counters, us)) (sym (map-append front back c')),
      )
    ]

-- A schedule of whole rounds that leads to the same counters.
pub Steps-schedule :
    (m : Lock) → Steps lock m → (schedule : List ℕ) × (run schedule counters adders ≡ rounds m)
unfolding run
Steps-schedule m here = ([], refl)
Steps-schedule m (next {n = k} before last) =
    let (schedule, same) = Steps-schedule k before in
    elim (Step-rounds k m (Steps-Exclusive lock k lock-Exclusive before) last) [
      | inl e ↦ (schedule, same ∙ sym e)
      | inr (i, e) ↦ (
        schedule ++ (i ∷ []),
        run-snoc schedule i counters adders ∙ ap (λ r. step i r.0 r.1) same ∙ e,
      )
    ]

-- From the start of the four adders, whatever the order of their steps, each of which locks or
-- unlocks the mutex, or reads, writes or tests the counter: the counters, and the adders with the
-- rounds whose write is done, are those that some schedule of whole rounds leads to, and as many
-- threads are between lock and unlock as the mutex says, one or none.
pub Steps-rounds :
    (m : Lock)
    → Steps lock m
    → ((schedule : List ℕ) × (run schedule counters adders ≡ rounds m))
      × (inside_all m.callers ≡ bit m.shared.locked)
Steps-rounds m path = (Steps-schedule m path, (Steps-Exclusive lock m lock-Exclusive path).mutex)
