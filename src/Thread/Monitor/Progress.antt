-- ===== src/Thread/Monitor/Progress.antt =====
-- Which thread can take the next step.
use sgx_experiments.Prelude.{
  pick, ℕ, zero, suc, ◌+◌, ◌<◌, ◌≡◌, refl, sym, subst, inl, inr, Bool, true, false, Bool-cases,
  eq-cases, List, map, ◌∷◌, ◌++◌, some, arith,
}
use sgx_experiments.Thread.Buffer.{CondBuffer}
use sgx_experiments.Thread.Buffer.Progress.{total, work}
use sgx_experiments.Thread.Monitor.{
  Place, before_lock, at_test, in_queue, woken, before_write, before_advance, before_wrap,
  before_count, before_signal, before_unlock, Loop, producer_loop, consumer_loop, Worker, Turn, to,
  wake, turn_at, turn, Monitor, monitor, queued, Signalled, no_signal, nobody, somebody, Step,
  producing, consuming, Steps, rounds,
}
use sgx_experiments.Thread.Monitor.Balance.{bit, holds}
use sgx_experiments.Thread.Monitor.Invariant.{
  Invariant, monitor-Invariant, Steps-Invariant, queueing,
}
use sgx_experiments.Thread.Monitor.Idle.{
  ready, readying, idle, all_idle, arriving_le, to_signal_le, signalling_le,
}
use sgx_experiments.Thread.Monitor.Refinement.{Steps-balance}

some_signal : (signals : Bool) (ws : List Worker) → (vs : List Worker) × Signalled signals ws vs
some_signal false ws = (ws, no_signal)
some_signal true ws = elim (eq-cases (queueing ws) 0) [
  | inl e ↦ (ws, nobody e)
  | inr n ↦
      let (front, back, w, e, k) = pick (λ w. queued w.place) ws (omega arith) in
      (
        front ++ (wake true w ∷ back),
        subst (λ us. Signalled true us (front ++ (wake true w ∷ back))) (sym e)
            (somebody front back w (waits w.place k)),
      )
]
  where
    waits : (place : Place) → 0 < queued place → place ≡ in_queue
    waits place h = ground arith

module _ (loop : Loop) (b : CondBuffer) where
  pub holder_turns :
      (l : Bool) (place : Place) (n : ℕ)
      → 0 < holds place
      → (t : Turn) × (turn_at loop b l place n ≡ some t)
  unfolding turn_at
  holder_turns l before_lock n h = elim h [ ]
  holder_turns l at_test n h = elim (Bool-cases (loop.waits b)) [
    | inl e ↦ (to b false in_queue n false, rw (e, turn_at) refl)
    | inr e ↦ (to b l before_write n false, rw (e, turn_at) refl)
  ]
  holder_turns l in_queue n h = elim h [ ]
  holder_turns l woken n h = elim h [ ]
  holder_turns l before_write n h = (_, refl)
  holder_turns l before_advance n h = (_, refl)
  holder_turns l before_wrap n h = (_, refl)
  holder_turns l before_count n h = (_, refl)
  holder_turns l before_signal n h = (to b l before_unlock n true, refl)
  holder_turns l before_unlock n h = (to b false before_lock n false, refl)

  ready_turns :
      (place : Place) (n : ℕ)
      → 0 < ready place n
      → (t : Turn) × (turn_at loop b false place n ≡ some t)
  unfolding turn_at
  ready_turns before_lock zero h = elim h [ ]
  ready_turns before_lock (suc n) h = (_, refl)
  ready_turns at_test n h = elim h [ ]
  ready_turns in_queue n h = elim h [ ]
  ready_turns woken n h = (_, refl)
  ready_turns before_write n h = elim h [ ]
  ready_turns before_advance n h = elim h [ ]
  ready_turns before_wrap n h = elim h [ ]
  ready_turns before_count n h = elim h [ ]
  ready_turns before_signal n h = elim h [ ]
  ready_turns before_unlock n h = elim h [ ]

module _ (m : Monitor) where
  pub producer_steps :
      (t : Turn)
      → turn_at producer_loop m.buffer m.locked m.producer.place m.producer.left ≡ some t
      → (n : Monitor) × Step m n
  unfolding turn
  producer_steps t e =
      let (ws, sig) = some_signal t.signals m.consumers in (_, producing t ws e sig)

  pub consumer_steps :
      (front back : List Worker) (w : Worker) (t : Turn)
      → m.consumers ≡ front ++ (w ∷ back)
      → turn_at consumer_loop m.buffer m.locked w.place w.left ≡ some t
      → (n : Monitor) × Step m n
  unfolding turn
  consumer_steps front back w t same e = (_, consuming front back w t same e)

  module _ (c : Invariant m) where
    locked_steps : m.locked ≡ true → (n : Monitor) × Step m n
    locked_steps e = elim (eq-cases (holds m.producer.place) 0) [
      | inl z ↦
          let one : bit m.locked ≡ 1 = rw e refl in
          let (front, back, w, same, h) =
            pick (λ v. holds v.place) m.consumers (omega (arith, c.mutex)) in
          let (t, k) = holder_turns consumer_loop m.buffer m.locked w.place w.left h in
          consumer_steps front back w t same k
      | inr n ↦
          let (t, k) =
            holder_turns producer_loop m.buffer m.locked m.producer.place m.producer.left
              (omega arith) in
          producer_steps t k
    ]

    ready_steps :
        m.locked ≡ false
        → 0 < ready m.producer.place m.producer.left + readying m.consumers
        → (n : Monitor) × Step m n
    ready_steps e some_ready = elim (eq-cases (ready m.producer.place m.producer.left) 0) [
      | inl z ↦
          let (front, back, w, same, h) =
            pick (λ v. ready v.place v.left) m.consumers (omega arith) in
          let (t, k) = ready_turns consumer_loop m.buffer w.place w.left h in
          consumer_steps front back w t same (rw e k)
      | inr n ↦
          let (t, k) =
            ready_turns producer_loop m.buffer m.producer.place m.producer.left (omega arith) in
          producer_steps t (rw e k)
    ]

    -- With the mutex free and no thread ready, no round is left.
    all_done :
        m.locked ≡ false
        → m.buffer.occupied + m.producer.left ≡ total (map (λ w. w.left) m.consumers)
        → ready m.producer.place m.producer.left ≡ 0
        → readying m.consumers ≡ 0
        → work (rounds m).1 ≡ 0
    all_done e consistent r rs =
        let free : bit m.locked ≡ 0 = rw e refl in
        elim c.empty [
          | inl nobody_waits ↦ omega (
            arith,
            c.mutex,
            consistent,
            all_idle m.consumers (omega (arith, c.mutex)) rs nobody_waits,
          )
          | inr few ↦ elim c.full [
            | inl moving ↦ omega (
              arith,
              c.mutex,
              consistent,
              arriving_le m.consumers,
              to_signal_le m.producer.place,
              idle m.producer.place m.producer.left (omega (arith, c.mutex)) r moving,
            )
            | inr many ↦ absurd (
                omega (
                  arith,
                  c.mutex,
                  arriving_le m.consumers,
                  to_signal_le m.producer.place,
                  signalling_le m.consumers,
                ))
          ]
        ]

  -- In every state that the producer and the four consumers reach from the start with rounds left,
  -- some thread can take a step: no wakeup is lost for good, although a signal wakes one thread of
  -- its queue only.
  pub monitor-progress : Steps monitor m → 0 < work (rounds m).1 → (n : Monitor) × Step m n
  monitor-progress path left =
      let c = Steps-Invariant monitor m monitor-Invariant path in
      let consistent = Steps-balance m path in
      elim (Bool-cases m.locked) [
        | inl e ↦ locked_steps c e
        | inr e ↦
            elim (eq-cases (ready m.producer.place m.producer.left + readying m.consumers) 0) [
              | inl z ↦ absurd (omega (arith, all_done c e consistent (omega arith) (omega arith)))
              | inr n ↦ ready_steps c e (omega arith)
            ]
      ]
