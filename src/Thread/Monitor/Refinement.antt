-- ===== src/Thread/Monitor/Refinement.antt =====
-- The steps of the monitor against the steps of whole rounds.
use sgx_experiments.Prelude.{
  count-append, ◌+◌, ◌≡◌, refl, sym, ap, subst, ◌∙◌, ◌⊎◌, inl, inr, Bool, true, false, List, [],
  ◌∷◌, ◌++◌, map, some, length, arith,
}
use sgx_experiments.Thread.Buffer.{
  CondBuffer, buffer, produced, consumed, produce, consume, Workers, workers, take_round, Choice,
  step, run,
}
use sgx_experiments.Thread.Buffer as Buffer
use sgx_experiments.Thread.Buffer.Progress.{
  IsConsistent, start-IsConsistent, run-IsConsistent, total,
}
use sgx_experiments.Thread.Monitor.{
  Place, Worker, producer_loop, consumer_loop, wake_to, Monitor, monitor, Step, producing,
  consuming, Steps, here, next, rounds,
}
use sgx_experiments.Thread.Monitor.Moves.{turn-Moves}
use sgx_experiments.Thread.Monitor.Balance.{bit, holds, overdue, wake_place-holds}
use sgx_experiments.Thread.Monitor.Invariant.{
  Invariant, monitor-Invariant, Steps-Invariant, Signalled-Kept, holding, late, map-append, bit_le,
}
use sgx_experiments.Thread.Monitor.Standing.{
  partly, whole, mid, Stands, Moves-Stands, Moves-alone, partly_none, mid_le, partly_all, mids,
  mids_le, partly_all_none, partly_all_one, partly_all-occupied, Refines,
}
use sgx_experiments.Thread.Monitor.Rounds.{
  produces, consumes, produce-step, take_round-left, consume-round, run-append,
}

-- The producer alone, and one consumer alone.
producer-Stands :
    (m : Monitor) (before : CondBuffer)
    → holding m.consumers ≡ 0
    → Refines m before
    → Stands producer_loop m.producer.place before m.buffer
producer-Stands m before h r = record {
  same = r.same ∙ partly_all_none m.consumers (partly producer_loop m.producer.place before) h;
  passed = r.produces;
}

producer-Refines :
    (m : Monitor) (before : CondBuffer)
    → holding m.consumers ≡ 0
    → Stands producer_loop m.producer.place before m.buffer
    → Refines m before
producer-Refines m before h s = record {
  same =
      s.same ∙ sym (partly_all_none m.consumers (partly producer_loop m.producer.place before) h);
  produces = s.passed;
  consumes = λ e. absurd (omega (arith, mids_le m.consumers));
}

module _ (front back : List Worker) (w : Worker) (alone : holding front + holding back ≡ 0) where
  mids_one : mids (front ++ (w ∷ back)) ≡ mid w.place
  mids_one =
      omega (arith, count-append (λ v. mid v.place) front back w, mids_le front, mids_le back)

  all_one :
      (place : Place) (b : CondBuffer)
      → holds place ≡ 0
      → partly_all (front ++ (w ∷ back)) (partly producer_loop place b)
        ≡ partly consumer_loop w.place b
  all_one place b h =
      ap (partly_all (front ++ (w ∷ back))) (partly_none producer_loop place b h)
      ∙ partly_all_one front back w b alone

  consumer-Stands :
      (m : Monitor) (before : CondBuffer)
      → m.consumers ≡ front ++ (w ∷ back)
      → holds m.producer.place ≡ 0
      → Refines m before
      → Stands consumer_loop w.place before m.buffer
  consumer-Stands m before same h r = record {
    same =
        subst (λ ws. m.buffer ≡ partly_all ws (partly producer_loop m.producer.place before)) same
          r.same
        ∙ all_one m.producer.place before h;
    passed = λ e. r.consumes (omega (arith, mids_one, ap mids same));
  }

  consumer-Refines :
      (m : Monitor) (before : CondBuffer)
      → m.consumers ≡ front ++ (w ∷ back)
      → holds m.producer.place ≡ 0
      → Stands consumer_loop w.place before m.buffer
      → Refines m before
  consumer-Refines m before same h s = record {
    same =
        subst (λ ws. m.buffer ≡ partly_all ws (partly producer_loop m.producer.place before))
          (sym same) (s.same ∙ sym (all_one m.producer.place before h));
    produces = λ e. absurd (omega (arith, mid_le m.producer.place));
    consumes = λ e. s.passed (omega (arith, mids_one, ap mids same));
  }

-- A step is part of a round, or the last of one.
Advances : Monitor → Monitor → CondBuffer → Type 0
Advances m n before =
    (Refines n before × ((rounds n).1 ≡ (rounds m).1))
    ⊎ ((choice : Choice) × (after : CondBuffer) × (step choice (before, (rounds m).1)
          ≡ some (after, (rounds n).1))
        × Refines n after)

Step-Advances :
    (m n : Monitor) (before : CondBuffer)
    → Invariant m
    → Refines m before
    → Step m n
    → Advances m n before
unfolding Advances
Step-Advances m n before c r (producing t ws e sig) =
    let k = Signalled-Kept t.signals m.consumers ws sig in
    let move = turn-Moves producer_loop m.buffer m.locked m.producer t e in
    let alone : holding m.consumers ≡ 0 =
      Moves-alone producer_loop m.buffer m.locked m.producer.place m.producer.left t
        (holding m.consumers) move c.mutex (bit_le m.locked) in
    elim (Moves-Stands producer_loop before m.buffer m.locked m.producer.place m.producer.left t
      move (omega (arith, c.in_round)) (producer-Stands m before alone r)) [
        | inl (s, left) ↦
            inl (producer-Refines n before (omega (arith, k.held)) s, rw (left, k.rounds) refl)
        | inr (free, some_left, left, s) ↦ inr (
          Buffer.producing,
          whole producer_loop before,
          rw k.rounds (
              produce-step before (whole producer_loop before) m.producer.left t.worker.left
                (map (λ u. u.left) m.consumers) (produces before free) some_left left),
          producer-Refines n (whole producer_loop before) (omega (arith, k.held)) s,
        )
      ]
Step-Advances m n before c r (consuming front back w t same e) =
    let on_time : overdue w.place w.left ≡ 0 =
      omega (
        arith,
        c.in_round,
        ap late same,
        count-append (λ u. overdue u.place u.left) front back w,
      ) in
    let move = turn-Moves consumer_loop m.buffer m.locked w t e in
    let held = count-append (λ u. holds u.place) front back w in
    let alone : holds m.producer.place + (holding front + holding back) ≡ 0 =
      Moves-alone consumer_loop m.buffer m.locked w.place w.left t
        (holds m.producer.place + (holding front + holding back)) move
        (omega (arith, c.mutex, ap holding same, held)) (bit_le m.locked) in
    let woken : holds (wake_to t.signals m.producer.place) ≡ 0 =
      wake_to-holds t.signals m.producer.place (omega arith) in
    elim (Moves-Stands consumer_loop before m.buffer m.locked w.place w.left t move on_time
      (consumer-Stands front back w (omega arith) m before same (omega arith) r)) [
        | inl (s, left) ↦ inl (
          consumer-Refines front back t.worker (omega arith) n before refl woken s,
          rw (map-append front back w t.worker left, same) refl,
        )
        | inr (free, some_left, left, s) ↦ inr (
          Buffer.consuming (length front),
          whole consumer_loop before,
          rw same (
              consume-round (length front) _ _ before (whole consumer_loop before) m.producer.left
                (take_round-left front back w t.worker some_left left) (consumes before free)),
          consumer-Refines front back t.worker (omega arith) n (whole consumer_loop before) refl
              woken s,
        )
      ]
  where
    wake_to-holds :
        (signals : Bool) (place : Place) → holds place ≡ 0 → holds (wake_to signals place) ≡ 0
    wake_to-holds true place h = wake_place-holds place ∙ h
    wake_to-holds false place h = h

-- The rounds that are made, and the buffer before the one that is under way.
pub Steps-Refines :
    (m : Monitor)
    → Steps monitor m
    → (schedule : List Choice) × (before : CondBuffer) × (run schedule (rounds monitor)
        ≡ (before, (rounds m).1))
      × Refines m before
unfolding run Advances
Steps-Refines m here = (
  [],
  buffer,
  refl,
  record { same = refl; produces = λ e. elim e [ ]; consumes = λ e. elim e [ ] },
)
Steps-Refines m (next {n = k} path last) =
    let (schedule, before, made, r) = Steps-Refines k path in
    elim (Step-Advances k m before (Steps-Invariant monitor k monitor-Invariant path) r last) [
      | inl (r', same) ↦ (schedule, before, made ∙ ap (λ w. (before, w)) (sym same), r')
      | inr (choice, after, e, r') ↦ (
        schedule ++ (choice ∷ []),
        after,
        run-append schedule choice (rounds monitor) (after, (rounds m).1)
            (subst (λ s. step choice s ≡ some (after, (rounds m).1)) (sym made) e),
        r',
      )
    ]

-- From the start, whatever the order of the steps, each of which is a call of a thread primitive,
-- the test of the while, or one assignment to the buffer: whenever the mutex is free, the buffer
-- and the rounds left are those that some schedule of whole rounds leads to.
pub Steps-run :
    (m : Monitor)
    → Steps monitor m
    → m.locked ≡ false
    → (schedule : List Choice) × (run schedule (rounds monitor) ≡ rounds m)
Steps-run m path free =
    let (schedule, before, made, r) = Steps-Refines m path in
    let c = Steps-Invariant monitor m monitor-Invariant path in
    let nobody : bit m.locked ≡ 0 = rw free refl in
    let s = producer-Stands m before (omega (arith, c.mutex)) r in
    let same : m.buffer ≡ before =
      s.same ∙ partly_none producer_loop m.producer.place before (omega (arith, c.mutex)) in
    (schedule, made ∙ ap (λ b. (b, (rounds m).1)) (sym same))

-- In every state that is reached from the start, what is in the buffer and what is still to come is
-- what the consumers wait for.
pub Steps-balance :
    (m : Monitor)
    → Steps monitor m
    → m.buffer.occupied + m.producer.left ≡ total (map (λ w. w.left) m.consumers)
Steps-balance m path =
    let (schedule, before, made, r) = Steps-Refines m path in
    let k : IsConsistent (before, (rounds m).1) =
      subst IsConsistent made (run-IsConsistent schedule (rounds monitor) start-IsConsistent) in
    omega (
      arith,
      k.balance,
      ap (λ b. b.occupied) r.same,
      partly_all-occupied m.producer.place m.consumers before,
    )
