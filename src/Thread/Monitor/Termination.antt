-- ===== src/Thread/Monitor/Termination.antt =====
-- What the threads can still do, as a number.
use sgx_experiments.Prelude.{
  count, count-append, ℕ, zero, suc, ◌+◌, ◌*◌, ◌≤◌, ◌<◌, ◌≡◌, ap, ◌⊎◌, inl, inr, Bool, true,
  eq-cases, List, arith,
}
use sgx_experiments.Thread.Buffer.{CondBuffer}
use sgx_experiments.Thread.Buffer.Progress.{work}
use sgx_experiments.Thread.Monitor.{
  Place, before_lock, at_test, in_queue, woken, before_write, before_advance, before_wrap,
  before_count, before_signal, before_unlock, Loop, producer_loop, consumer_loop, Worker, Turn,
  Monitor, monitor, wake, wake_to, Signalled, no_signal, nobody, somebody, Step, producing,
  consuming, Steps, here, next, rounds,
}
use sgx_experiments.Thread.Monitor.Moves.{
  Moves, locks, relocks, waits, passes, writes, advances, wraps, changes, signals, unlocks,
  turn-Moves,
}
use sgx_experiments.Thread.Monitor.Balance.{bit, overdue}
use sgx_experiments.Thread.Monitor.Invariant.{Invariant, monitor-Invariant, Steps-Invariant, late}
use sgx_experiments.Thread.Monitor.Refinement.{Steps-balance}
use sgx_experiments.Thread.Monitor.Progress.{monitor-progress}

-- What a thread can still do: a signal gives the thread that it wakes two more steps.
abbrev weight : Place → ℕ
weight before_lock = 6
weight at_test = 5
weight in_queue = 4
weight woken = 6
weight before_write = 4
weight before_advance = 3
weight before_wrap = 2
weight before_count = 1
weight before_signal = 10
weight before_unlock = 7

abbrev ahead : Worker → ℕ
ahead w = 10 * w.left + weight w.place

abbrev pub fuel : Monitor → ℕ
fuel m = ahead m.producer + count ahead m.consumers

Moves-ahead :
    (loop : Loop) (b : CondBuffer) (l : Bool) (place : Place) (n : ℕ) (t : Turn)
    → Moves loop b l place n t
    → overdue place n ≡ 0
    → ahead t.worker + 1 + 2 * bit t.signals ≤ 10 * n + weight place
Moves-ahead loop b l place n t (locks m) h = omega arith
Moves-ahead loop b l place n t (relocks m) h = omega arith
Moves-ahead loop b l place n t (waits k m e) h = omega arith
Moves-ahead loop b l place n t (passes k m e) h = omega arith
Moves-ahead loop b l place n t (writes k m) h = omega arith
Moves-ahead loop b l place n t (advances k m) h = omega arith
Moves-ahead loop b l place n t (wraps k m) h = omega arith
Moves-ahead loop b l place n t (changes k zero) h = absurd (omega arith)
Moves-ahead loop b l place n t (changes k (suc m)) h = omega arith
Moves-ahead loop b l place n t (signals k m) h = omega arith
Moves-ahead loop b l place n t (unlocks k m) h = omega arith

wake_to-weight :
    (signalled : Bool) (place : Place)
    → weight (wake_to signalled place) ≤ weight place + 2 * bit signalled
wake_to-weight signalled place = ground arith

Signalled-ahead :
    (signalled : Bool) (ws vs : List Worker)
    → Signalled signalled ws vs
    → count ahead vs ≤ count ahead ws + 2 * bit signalled
Signalled-ahead signalled ws vs no_signal = omega arith
Signalled-ahead signalled ws vs (nobody e) = omega arith
Signalled-ahead signalled ws vs (somebody front back w e) = omega (
  arith,
  count-append ahead front back w,
  count-append ahead front back (wake true w),
  wake_to-weight true w.place,
)

-- Every step leaves less to do.
pub Step-fuel : (m n : Monitor) → Invariant m → Step m n → fuel n < fuel m
Step-fuel m n c (producing t ws e sig) = omega (
  arith,
  Signalled-ahead t.signals m.consumers ws sig,
  Moves-ahead producer_loop m.buffer m.locked m.producer.place m.producer.left t
      (turn-Moves producer_loop m.buffer m.locked m.producer t e) (omega (arith, c.in_round)),
)
Step-fuel m n c (consuming front back w t same e) =
    let on_time : overdue w.place w.left ≡ 0 =
      omega (
        arith,
        c.in_round,
        ap late same,
        count-append (λ u. overdue u.place u.left) front back w,
      ) in
    omega (
      arith,
      wake_to-weight t.signals m.producer.place,
      ap (count ahead) same,
      count-append ahead front back w,
      count-append ahead front back t.worker,
      Moves-ahead consumer_loop m.buffer m.locked w.place w.left t
          (turn-Moves consumer_loop m.buffer m.locked w t e) on_time,
    )

abbrev pub steps : {m n : Monitor} → Steps m n → ℕ
steps here = 0
steps (next before last) = steps before + 1

Steps-fuel : (m n : Monitor) → Invariant m → (path : Steps m n) → steps path + fuel n ≤ fuel m
Steps-fuel m n c here = omega arith
Steps-fuel m n c (next {n = k} before last) =
    omega (arith, Steps-fuel m k c before, Step-fuel k n (Steps-Invariant m k c before) last)

-- Whatever the order of the steps, the producer and the four consumers take at most 40030 of them
-- from the start; in every state on the way either all rounds are made and the buffer is empty, or
-- some thread can take a step, although a signal wakes one thread of its queue only: no wakeup is
-- lost for good.
pub monitor-terminates :
    (m : Monitor) (path : Steps monitor m)
    → (steps path ≤ 40030)
      × (((work (rounds m).1 ≡ 0) × (m.buffer.occupied ≡ 0)) ⊎ ((n : Monitor) × Step m n))
monitor-terminates m path =
    let consistent = Steps-balance m path in
    (
      omega (arith, Steps-fuel monitor m monitor-Invariant path),
      elim (eq-cases (work (rounds m).1) 0) [
        | inl e ↦ inl (e, omega (arith, consistent))
        | inr n ↦ inr (monitor-progress m path (omega arith))
      ],
    )
