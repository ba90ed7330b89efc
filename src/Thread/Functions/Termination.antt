-- ===== src/Thread/Functions/Termination.antt =====
-- Every run of `ecall_thread_functions` comes to its end.
use sgx_experiments.Prelude.{ℕ, ◌+◌, ◌≤◌, ◌≡◌, ◌≢◌, refl, ◌⊎◌, inl, inr, subst, arith}
use sgx_experiments.Thread.Lock.{Lock, lock}
use sgx_experiments.Thread.Lock
use sgx_experiments.Thread.Lock.Invariant.{lock-Exclusive, Steps-Exclusive}
use sgx_experiments.Thread.Lock.Ending as Ending
use sgx_experiments.Thread.Monitor.{Monitor, monitor, Steps, here, next}
use sgx_experiments.Thread.Monitor.Invariant.{monitor-Invariant, Steps-Invariant}
use sgx_experiments.Thread.Monitor.Refinement.{Steps-balance}
use sgx_experiments.Thread.Monitor.Termination.{fuel, Step-fuel, monitor-terminates}
use sgx_experiments.Thread.Functions.{
  Stage, adding, buffering, finished, aborted, AppStep, adds, asserts, fails, buffers, joins, Run,
  start, then_step, length_of, Ended, AllEnded,
}
use sgx_experiments.Thread.Functions.Workers.{joined_or_steps, AllEnded-total}

-- The adders keep their balance; the producer and the consumers are in a state that they reach.
abbrev IsReached : Stage → Type 0
IsReached (adding m) = Lock.Steps lock m
IsReached (buffering m) = Steps monitor m
IsReached (finished m) = Steps monitor m × Ended m.producer × AllEnded m.consumers
IsReached aborted = ⊥

-- The steps that are left at most.
abbrev budget : Stage → ℕ
budget (adding m) = Ending.fuel m + 40032
budget (buffering m) = fuel m + 1
budget (finished m) = 0
budget aborted = 0

AppStep-IsReached :
    {s t : Stage} → AppStep s t → IsReached s → IsReached t × (budget t + 1 ≤ budget s)
AppStep-IsReached (adds m n st) path = (
  Lock.Steps.next path st,
  omega (arith, Ending.Step-fuel m n (Steps-Exclusive lock m lock-Exclusive path) st),
)
AppStep-IsReached (asserts m all e) path = (here, omega arith)
AppStep-IsReached (fails m all e) path = absurd (e (Ending.returned_counters m path all).1)
AppStep-IsReached (buffers m n st) path = (
  next path st,
  omega (arith, Step-fuel m n (Steps-Invariant monitor m monitor-Invariant path) st),
)
AppStep-IsReached (joins m e es) path = ((path, e, es), omega arith)

Run-IsReached : {s : Stage} (run : Run s) → IsReached s × (length_of run + budget s ≤ 50036)
Run-IsReached start = (Lock.Steps.here, omega arith)
Run-IsReached (then_step before last) =
    let (r, l) = Run-IsReached before in
    let (r', l') = AppStep-IsReached last r in (r', omega arith)

module _ (m : Monitor) (path : Steps monitor m) where
  -- The producer and the consumers can be joined, or one of them can take a step.
  buffering_goes_on : (t : Stage) × AppStep (buffering m) t
  buffering_goes_on = elim (monitor-terminates m path).1 [
    | inr (n, st) ↦ (_, buffers m n st)
    | inl (none_left, _) ↦
        elim (joined_or_steps m (Steps-Invariant monitor m monitor-Invariant path) none_left) [
          | inl (e, es) ↦ (_, joins m e es)
          | inr (n, st) ↦ (_, buffers m n st)
        ]
  ]

  joined_empty : Ended m.producer → AllEnded m.consumers → m.buffer.occupied ≡ 0
  joined_empty (place, l) es = omega (arith, AllEnded-total m.consumers es, Steps-balance m path)

-- Where the App is at its end, and where it can go on.
abbrev pub HasEnded : Stage → Type 0
HasEnded s =
    (m : Monitor) × (s ≡ finished m)
    × Ended m.producer
    × AllEnded m.consumers
    × (m.buffer.occupied ≡ 0)

goes_on : (s : Stage) → IsReached s → HasEnded s ⊎ ((t : Stage) × AppStep s t)
goes_on (adding m) path =
    elim (Ending.returned_or_steps m (Steps-Exclusive lock m lock-Exclusive path)) [
      | inl all ↦ inr (_, asserts m all (Ending.returned_counters m path all).1)
      | inr (n, st) ↦ inr (_, adds m n st)
    ]
goes_on (buffering m) path = inr (buffering_goes_on m path)
goes_on (finished m) (path, e, es) = inl (m, refl, e, es, joined_empty m path e es)
goes_on aborted h = absurd h

not_aborted : (s : Stage) → IsReached s → s ≢ aborted
not_aborted s h e = subst IsReached e h

-- Every run of ecall_thread_functions, whatever the order of the steps, has at most 50036 of them
-- and never fails the assertion on the counter; where it stands some step can be taken, or it is
-- at its end, where the producer and the consumers have made all their rounds and the buffer is
-- empty.
pub ecall_thread_functions-ends :
    (s : Stage) (run : Run s)
    → (length_of run ≤ 50036) × (s ≢ aborted) × (HasEnded s ⊎ ((t : Stage) × AppStep s t))
ecall_thread_functions-ends s run =
    let (r, l) = Run-IsReached run in (omega arith, not_aborted s r, goes_on s r)
