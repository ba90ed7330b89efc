-- ===== src/Thread/Monitor.antt =====
-- The bounded buffer again, with its mutex and its conditions: each call of the thread primitives, the
-- test of the `while`, and each assignment to the buffer is a step of its own, between which the
-- other threads take theirs. A wait enters the queue of its condition and gives the mutex up at once; a
-- signal wakes one thread of the queue, if there is one, whichever; the thread woken locks the mutex
-- again before it goes on.
pub mod Moves
pub mod Balance
pub mod Invariant
pub mod Standing
pub mod Rounds
pub mod Refinement
pub mod Idle
pub mod Progress
pub mod Termination
use sgx_experiments.Prelude.{
  ℕ, zero, suc, ◌+◌, ◌-◌, ◌*◌, ◌≡◌, Bool, true, false, List, ◌∷◌, ◌++◌, map, Option, none, some,
  replicate, count, leb, set, ◌%◌, if◌then◌else◌,
}
use sgx_experiments.Thread.{loops_per_thread}
use sgx_experiments.Thread.Buffer.{CondBuffer, buffer, buffer_size, Workers}

-- Where a thread stands in its loop: before the lock, at the test of the `while`, in the queue of the
-- condition, woken, before the write of the slot, before the increment of the index, before its
-- reduction, before the change of `occupied`, before the signal, before the unlock.
pub data Place : Type 0 where
  before_lock at_test in_queue woken before_write before_advance before_wrap before_count
        before_signal before_unlock :
      Place

-- A thread, and the rounds whose change of the buffer is still to come.
pub record Worker : Type 0 where
  pub place : Place
  pub left : ℕ

-- A step of a thread: the buffer, whether the mutex is locked, and the thread after it, and whether
-- it signals.
pub record Turn : Type 0 where
  pub buffer : CondBuffer
  pub locked : Bool
  pub worker : Worker
  pub signals : Bool

abbrev pub to : CondBuffer → Bool → Place → ℕ → Bool → Turn
to b locked place left signals = record {
  buffer = b;
  locked = locked;
  worker = record { place = place; left = left };
  signals = signals;
}

-- The test of the `while`, and the assignments of a round.
pub record Loop : Type 0 where
  pub waits : CondBuffer → Bool
  pub write : CondBuffer → CondBuffer
  pub advance : CondBuffer → CondBuffer
  pub wrap : CondBuffer → CondBuffer
  pub change : CondBuffer → CondBuffer

-- `ecall_producer`
abbrev pub producer_loop : Loop
producer_loop = record {
  waits = λ b. leb buffer_size b.occupied;
  write = λ b. record b { buf = set b.buf b.nextin b.nextin };
  advance = λ b. record b { nextin = b.nextin + 1 };
  wrap = λ b. record b { nextin = b.nextin % buffer_size };
  change = λ b. record b { occupied = b.occupied + 1 };
}

-- `ecall_consumer`; `b->buf[b->nextout++] = 0` is two steps.
abbrev pub consumer_loop : Loop
consumer_loop = record {
  waits = λ b. leb b.occupied 0;
  write = λ b. record b { buf = set b.buf b.nextout 0 };
  advance = λ b. record b { nextout = b.nextout + 1 };
  wrap = λ b. record b { nextout = b.nextout % buffer_size };
  change = λ b. record b { occupied = b.occupied - 1 };
}

-- A step of a thread; `none` when it has ended or is blocked.
unfoldable pub turn_at : Loop → CondBuffer → Bool → Place → ℕ → Option Turn
turn_at loop b locked before_lock zero = none
turn_at loop b true before_lock (suc n) = none
turn_at loop b false before_lock (suc n) = some (to b true at_test (suc n) false)
turn_at loop b locked at_test n =
    if loop.waits b
    then some (to b false in_queue n false)
    else some (to b locked before_write n false)
turn_at loop b locked in_queue n = none
turn_at loop b true woken n = none
turn_at loop b false woken n = some (to b true at_test n false)
turn_at loop b locked before_write n = some (to (loop.write b) locked before_advance n false)
turn_at loop b locked before_advance n = some (to (loop.advance b) locked before_wrap n false)
turn_at loop b locked before_wrap n = some (to (loop.wrap b) locked before_count n false)
turn_at loop b locked before_count n = some (to (loop.change b) locked before_signal (n - 1) false)
turn_at loop b locked before_signal n = some (to b locked before_unlock n true)
turn_at loop b locked before_unlock n = some (to b false before_lock n false)

unfoldable pub turn : Loop → CondBuffer → Bool → Worker → Option Turn
unfolding turn_at
turn loop b locked w = turn_at loop b locked w.place w.left

-- The buffer with its mutex, and the threads; the producer is the only one that waits for `less`.
pub record Monitor : Type 0 where
  pub buffer : CondBuffer
  pub locked : Bool
  pub producer : Worker
  pub consumers : List Worker

-- `ecall_thread_functions`: one producer of 4*LOOPS_PER_THREAD rounds, four consumers.
abbrev pub monitor : Monitor
monitor = record {
  buffer = buffer;
  locked = false;
  producer = record { place = before_lock; left = 4 * loops_per_thread };
  consumers = replicate 4 (record { place = before_lock; left = loops_per_thread });
}

abbrev pub queued : Place → ℕ
queued in_queue = 1
queued _ = 0

abbrev pub wake_place : Place → Place
wake_place in_queue = woken
wake_place place = place

-- A signal, or none, to a thread that may wait.
abbrev pub wake_to : Bool → Place → Place
wake_to true place = wake_place place
wake_to false place = place

abbrev pub wake : Bool → Worker → Worker
wake signals w = record w { place = wake_to signals w.place }

-- A signal, to threads of which one may be woken.
pub data Signalled : Bool → List Worker → List Worker → Type 0 where
  no_signal : {ws : List Worker} → Signalled false ws ws
  nobody : {ws : List Worker} → count (λ w. queued w.place) ws ≡ 0 → Signalled true ws ws
  somebody :
      (front back : List Worker) (w : Worker)
      → w.place ≡ in_queue
      → Signalled true (front ++ (w ∷ back)) (front ++ (wake true w ∷ back))

-- A step of the producer, or of a consumer.
pub data Step (m : Monitor) : Monitor → Type 0 where
  producing :
      (t : Turn) (ws : List Worker)
      → turn producer_loop m.buffer m.locked m.producer ≡ some t
      → Signalled t.signals m.consumers ws
      → Step m
          (record { buffer = t.buffer; locked = t.locked; producer = t.worker; consumers = ws })
  consuming :
      (front back : List Worker) (w : Worker) (t : Turn)
      → m.consumers ≡ front ++ (w ∷ back)
      → turn consumer_loop m.buffer m.locked w ≡ some t
      → Step m (record {
        buffer = t.buffer;
        locked = t.locked;
        producer = wake t.signals m.producer;
        consumers = front ++ (t.worker ∷ back);
      })

-- Steps one after the other.
pub data Steps (m : Monitor) : Monitor → Type 0 where
  here : Steps m m
  next : {n o : Monitor} → Steps m n → Step n o → Steps m o

-- The buffer, and the rounds left.
abbrev pub rounds : Monitor → CondBuffer × Workers
rounds m =
    (m.buffer, record { producer = m.producer.left; consumers = map (λ w. w.left) m.consumers })
