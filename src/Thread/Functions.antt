-- ===== src/Thread/Functions.antt =====
-- `ecall_thread_functions` of App/TrustedLibrary/Thread.cpp as a whole: four adders that are joined,
-- the assertion on their counter, and the producer with its four consumers, joined again. A step is
-- one of a thread, in Thread.Lock or in Thread.Monitor, or the App's own: the end of the joins. The
-- calls into the enclave succeed.
pub mod Workers
pub mod Termination
use sgx_experiments.Prelude.{ℕ, ◌+◌, ◌≡◌, ◌≢◌, List, [], ◌∷◌}
use sgx_experiments.Thread.Counter.{expected}
use sgx_experiments.Thread.Lock.{Lock, lock, AllJoinable}
use sgx_experiments.Thread.Lock
use sgx_experiments.Thread.Monitor.{before_lock, Worker, Monitor, monitor}
use sgx_experiments.Thread.Monitor

-- Where the App stands: it waits for the adders, or for the producer and the consumers, or it is at
-- its end, or its assertion has failed.
pub data Stage : Type 0 where
  adding : Lock → Stage
  buffering : Monitor → Stage
  finished : Monitor → Stage
  aborted : Stage

-- A thread has made all its rounds and has given the mutex up.
abbrev pub Ended : Worker → Type 0
Ended w = (w.place ≡ before_lock) × (w.left ≡ 0)

abbrev pub AllEnded : List Worker → Type 0
AllEnded [] = Unit {0}
AllEnded (w ∷ ws) = Ended w × AllEnded ws

-- One step of the threads, or of the App once it can join them.
pub data AppStep : Stage → Stage → Type 0 where
  adds : (m n : Lock) → Lock.Step m n → AppStep (adding m) (adding n)
  asserts :
      (m : Lock)
      → AllJoinable m.callers
      → m.shared.counters.counter ≡ expected
      → AppStep (adding m) (buffering monitor)
  fails :
      (m : Lock)
      → AllJoinable m.callers
      → m.shared.counters.counter ≢ expected
      → AppStep (adding m) aborted
  buffers : (m n : Monitor) → Monitor.Step m n → AppStep (buffering m) (buffering n)
  joins :
      (m : Monitor) → Ended m.producer → AllEnded m.consumers → AppStep (buffering m) (finished m)

-- Steps one after the other, from the start.
pub data Run : Stage → Type 0 where
  start : Run (adding lock)
  then_step : {s t : Stage} → Run s → AppStep s t → Run t

abbrev pub length_of : {s : Stage} → Run s → ℕ
length_of start = 0
length_of (then_step before last) = length_of before + 1
