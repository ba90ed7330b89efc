-- ===== src/Tests/Threads.antt =====
-- The theorems about the threads of the basic enclave, at concrete schedules.
use sgx_experiments.Prelude.{ℕ, true, refl, ◌≡◌, ◌≤◌, ◌≢◌, ◌⊎◌, List, [], ◌∷◌}
use sgx_experiments.Thread.Counter.{adders, counters}
use sgx_experiments.Thread.Counter
use sgx_experiments.Thread.Buffer.{
  CondBuffer, buffer, produced, produce, consumed, consume, Workers, workers, Choice, producing,
  consuming, step,
}
use sgx_experiments.Thread.Buffer.Progress.{IsConsistent, start-IsConsistent, run-IsConsistent}
use sgx_experiments.Thread.Monitor.Balance.{bit}
use sgx_experiments.Thread.Lock.{
  Lock, lock, caller, before_read, turn, lock_turn, Step, steps, here, next,
}
use sgx_experiments.Thread.Lock.Invariant.{inside_all}
use sgx_experiments.Thread.Lock.Refinement.{rounds, Steps-rounds}
use sgx_experiments.Thread.Functions.Termination.{HasEnded, ecall_thread_functions-ends}
use sgx_experiments.Thread.Functions.{
  Stage, adding, aborted, AppStep, adds, Run, start, then_step, length_of,
}
use sgx_experiments.Thread.Buffer

-- The second adder locks the mutex first.
abbrev second_locked : Lock
second_locked = record {
  shared = record { counters = counters; locked = true };
  callers = caller ∷ record caller { point = before_read } ∷ caller ∷ caller ∷ [];
}

second_locks : Step lock second_locked
unfolding turn lock_turn
second_locks =
    steps (caller ∷ []) (caller ∷ caller ∷ []) caller second_locked.shared
      (record caller { point = before_read }) refl refl

Steps-rounds_example :
    ((schedule : List ℕ) × (Counter.run schedule counters adders ≡ rounds second_locked))
    × (inside_all second_locked.callers ≡ bit second_locked.shared.locked)
Steps-rounds_example = Steps-rounds second_locked (next here second_locks)

abbrev one_step : Run (adding second_locked)
one_step = then_step start (adds lock second_locked second_locks)

ecall_thread_functions-ends_example :
    (length_of one_step ≤ 50036)
    × (adding second_locked ≢ aborted)
    × (HasEnded (adding second_locked) ⊎ ((t : Stage) × AppStep (adding second_locked) t))
ecall_thread_functions-ends_example = ecall_thread_functions-ends (adding second_locked) one_step

abbrev some_schedule : List Choice
some_schedule = consuming 1 ∷ producing ∷ producing ∷ consuming 3 ∷ consuming 9 ∷ []

run-IsConsistent_example : IsConsistent (Buffer.run some_schedule (buffer, workers))
run-IsConsistent_example = run-IsConsistent some_schedule (buffer, workers) start-IsConsistent
