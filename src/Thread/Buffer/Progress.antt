-- ===== src/Thread/Buffer/Progress.antt =====
-- The producer and the consumers together.
use sgx_experiments.Prelude.{
  ℕ, zero, suc, ◌+◌, ◌-◌, ◌<◌, ◌≡◌, refl, ap, subst, ◌∙◌, inl, inr, Option-cases, eq-cases, List,
  [], ◌∷◌, none, some, length, arith,
}
use sgx_experiments.Thread.Buffer.{
  CondBuffer, buffer, produced, produce, consumed, consume, Workers, workers, take_round, Choice,
  producing, consuming, step, run,
}
use sgx_experiments.Thread.Buffer.Window.{
  IsWindow, buffer-IsWindow, produce-IsWindow, consume-IsWindow, produce-free, consume-used,
}

abbrev pub total : List ℕ → ℕ
total [] = 0
total (n ∷ others) = n + total others

-- The rounds that all threads still have to make.
abbrev pub work : Workers → ℕ
work w = w.producer + total w.consumers

-- The buffer is a window, and what is in it and what is still to come is what the consumers wait for.
pub record IsConsistent (s : CondBuffer × Workers) : Type 0 where
  pub window : IsWindow s.0
  pub balance : s.0.occupied + s.1.producer ≡ total s.1.consumers

take_round-total : (i : ℕ) (cs cs' : List ℕ) → take_round i cs ≡ some cs' → total cs' + 1 ≡ total cs
unfolding take_round
take_round-total i [] cs' h = ground arith
take_round-total zero (zero ∷ others) cs' h = ground arith
take_round-total zero (suc n ∷ others) cs' h = ground arith
take_round-total (suc i) (n ∷ others) cs' h = elim (Option-cases (take_round i others)) [
  | inl e ↦ absurd (ground arith)
  | inr (t, e) ↦
      let r = take_round-total i others t e in
      let same : n ∷ t ≡ cs' = ground arith in
      subst (λ u. total u + 1 ≡ n + total others) same (omega arith)
]

some_round : (cs : List ℕ) → 0 < total cs → (i : ℕ) × (cs' : List ℕ) × (take_round i cs ≡ some cs')
unfolding take_round
some_round [] h = elim h [ ]
some_round (suc n ∷ others) h = (0, n ∷ others, refl)
some_round (zero ∷ others) h =
    let (i, cs', e) = some_round others (omega arith) in (suc i, 0 ∷ cs', simp e)

-- A step keeps the state consistent and leaves one round less.
pub step-IsConsistent :
    (choice : Choice) (s t : CondBuffer × Workers)
    → IsConsistent s
    → step choice s ≡ some t
    → IsConsistent t × (work t.1 + 1 ≡ work s.1)
unfolding step
step-IsConsistent producing (b, w) t c h = elim (Option-cases (produce b)) [
  | inl e ↦ absurd (ground arith)
  | inr (b', e) ↦
      let (v, o) = produce-IsWindow b b' c.window e in
      let left : 0 < w.producer = ground arith in
      let same : (b', record w { producer = w.producer - 1 }) ≡ t = ground arith in
      subst (λ u. IsConsistent u × (work u.1 + 1 ≡ work w)) same
        (record { window = v; balance = omega (arith, c.balance) }, omega arith)
]
step-IsConsistent (consuming i) (b, w) t c h = elim (Option-cases (take_round i w.consumers)) [
  | inl e ↦ absurd (ground arith)
  | inr (cs, e) ↦ elim (Option-cases (consume b)) [
    | inl e' ↦ absurd (ground arith)
    | inr (b', e') ↦
        let (v, o) = consume-IsWindow b b' c.window e' in
        let r = take_round-total i w.consumers cs e in
        let same : (b', record w { consumers = cs }) ≡ t = ground arith in
        subst (λ u. IsConsistent u × (work u.1 + 1 ≡ work w)) same
          (record { window = v; balance = omega (arith, c.balance) }, omega arith)
  ]
]

-- A producer with rounds left and room, and a consumer with rounds left and something to take.
can_produce :
    (b : CondBuffer) (w : Workers)
    → b.occupied < 50
    → 0 < w.producer
    → step producing (b, w) ≡ some (produced b, record w { producer = w.producer - 1 })
unfolding step
can_produce b w room left = ground (arith, produce-free b room)

consume-step :
    (i : ℕ) (cs : List ℕ) (b b' : CondBuffer) (w : Workers)
    → take_round i w.consumers ≡ some cs
    → consume b ≡ some b'
    → step (consuming i) (b, w) ≡ some (b', record w { consumers = cs })
unfolding step
consume-step i cs b b' w e e' = ground arith

can_consume :
    (b : CondBuffer) (w : Workers)
    → 0 < b.occupied
    → 0 < total w.consumers
    → (choice : Choice) × (t : CondBuffer × Workers) × (step choice (b, w) ≡ some t)
can_consume b w used left =
    let (i, cs, e) = some_round w.consumers left in
    (
      consuming i,
      (consumed b, record w { consumers = cs }),
      consume-step i cs b (consumed b) w e (consume-used b used),
    )

-- In a consistent state with rounds left, some thread can take a step.
pub step-progress :
    (s : CondBuffer × Workers)
    → IsConsistent s
    → 0 < work s.1
    → (choice : Choice) × (t : CondBuffer × Workers) × (step choice s ≡ some t)
step-progress (b, w) c h = elim (eq-cases b.occupied 0) [
  | inl empty ↦ (producing, _, can_produce b w (omega arith) (omega (arith, c.balance)))
  | inr used ↦ can_consume b w (omega arith) (omega (arith, c.balance))
]

pub start-IsConsistent : IsConsistent (buffer, workers)
start-IsConsistent = record { window = buffer-IsWindow; balance = refl }

pub run_skip :
    (choice : Choice) (schedule : List Choice) (s : CondBuffer × Workers)
    → step choice s ≡ none
    → run (choice ∷ schedule) s ≡ run schedule s
unfolding run
run_skip choice schedule s e = rw (e, run) refl

pub run-step :
    (choice : Choice) (schedule : List Choice) (s t : CondBuffer × Workers)
    → step choice s ≡ some t
    → run (choice ∷ schedule) s ≡ run schedule t
unfolding run
run-step choice schedule s t e = rw (e, run) refl

-- Whatever the schedule, a consistent buffer stays a window of at most 50 slots that hold their
-- own numbers, the others zero, and what it holds and what is still to be produced is what the
-- consumers wait for.
pub run-IsConsistent :
    (schedule : List Choice) (s : CondBuffer × Workers)
    → IsConsistent s
    → IsConsistent (run schedule s)
unfolding run
run-IsConsistent [] s c = c
run-IsConsistent (choice ∷ schedule) s c = elim (Option-cases (step choice s)) [
  | inl e ↦ rw (run_skip choice schedule s e) (run-IsConsistent schedule s c)
  | inr (t, e) ↦
      rw (run-step choice schedule s t e)
        (run-IsConsistent schedule t (step-IsConsistent choice s t c e).0)
]

-- From every consistent state of the producer and the consumers there is a schedule of as many
-- steps as rounds are left after which no round is left and the buffer is empty.
pub run-completes :
    (rounds : ℕ) (s : CondBuffer × Workers)
    → IsConsistent s
    → work s.1 ≡ rounds
    → (schedule : List Choice) × (length schedule ≡ rounds)
      × (work (run schedule s).1 ≡ 0)
      × ((run schedule s).0.occupied ≡ 0)
unfolding run
run-completes zero s c h = ([], refl, h, omega (arith, c.balance))
run-completes (suc n) s c h =
    let (choice, t, e) = step-progress s c (omega arith) in
    let (c', less) = step-IsConsistent choice s t c e in
    let (schedule, l, done, empty) = run-completes n t c' (omega arith) in
    let same = run-step choice schedule s t e in
    (
      choice ∷ schedule,
      ap suc l,
      ap (λ u. work u.1) same ∙ done,
      ap (λ u. u.0.occupied) same ∙ empty,
    )
