-- ===== src/Thread/Buffer.antt =====
-- The bounded buffer: `ecall_producer` and `ecall_consumer`. A round of a loop is one step under the
-- mutex; a thread whose `while` condition holds waits, and its step does nothing. The `int`
-- fields are natural numbers here.
pub mod Window
pub mod Progress
use sgx_experiments.Prelude.{
  ℕ, zero, suc, ◌+◌, ◌-◌, ◌*◌, ◌%◌, List, [], ◌∷◌, Option, none, some, replicate, set, leb,
  if◌then◌else◌,
}
use sgx_experiments.Thread.{loops_per_thread}

abbrev pub buffer_size : ℕ
buffer_size = 50

-- `cond_buffer_t`, less the mutex and the conditions.
pub record CondBuffer : Type 0 where
  pub buf : List ℕ
  pub occupied : ℕ
  pub nextin : ℕ
  pub nextout : ℕ

-- `static cond_buffer_t buffer`
abbrev pub buffer : CondBuffer
buffer = record { buf = replicate buffer_size 0; occupied = 0; nextin = 0; nextout = 0 }

abbrev pub produced : CondBuffer → CondBuffer
produced b = record b {
  buf = set b.buf b.nextin b.nextin;
  nextin = (b.nextin + 1) % buffer_size;
  occupied = b.occupied + 1;
}

-- A round of the producer: nothing while the buffer is full.
unfoldable pub produce : CondBuffer → Option CondBuffer
produce b = if leb buffer_size b.occupied then none else some (produced b)

abbrev pub consumed : CondBuffer → CondBuffer
consumed b = record b {
  buf = set b.buf b.nextout 0;
  nextout = (b.nextout + 1) % buffer_size;
  occupied = b.occupied - 1;
}

-- A round of a consumer: nothing while the buffer is empty.
unfoldable pub consume : CondBuffer → Option CondBuffer
consume b = if leb b.occupied 0 then none else some (consumed b)

-- The rounds left: of the producer, and of each consumer.
pub record Workers : Type 0 where
  pub producer : ℕ
  pub consumers : List ℕ

-- `ecall_thread_functions`: one producer of 4*LOOPS_PER_THREAD rounds, four consumers.
abbrev pub workers : Workers
workers = record { producer = 4 * loops_per_thread; consumers = replicate 4 loops_per_thread }

-- The rounds left of consumer `i`, if it has one left, with one less.
unfoldable pub take_round : ℕ → List ℕ → Option (List ℕ)
take_round i [] = none
take_round zero (zero ∷ others) = none
take_round zero (suc n ∷ others) = some (n ∷ others)
take_round (suc i) (n ∷ others) =
    let rest = take_round i others in elim rest [ none ↦ none | some t ↦ some (n ∷ t) ]

-- A thread of the scheduler's choice: the producer, or consumer `i`.
pub data Choice : Type 0 where
  producing : Choice
  consuming : ℕ → Choice

-- A step of a thread; `none` when it has ended or waits.
unfoldable pub step : Choice → CondBuffer × Workers → Option (CondBuffer × Workers)
unfolding produce consume take_round
step producing (b, w) = elim w.producer [
  | zero ↦ none
  | suc n ↦ elim (produce b) [ none ↦ none | some b' ↦ some (b', record w { producer = n }) ]
]
step (consuming i) (b, w) = elim (take_round i w.consumers) [
  | none ↦ none
  | some cs ↦ elim (consume b) [ none ↦ none | some b' ↦ some (b', record w { consumers = cs }) ]
]

-- A schedule: a step that cannot be taken is skipped.
unfoldable pub run : List Choice → CondBuffer × Workers → CondBuffer × Workers
run [] s = s
run (choice ∷ schedule) s = elim (step choice s) [ none ↦ run schedule s | some t ↦ run schedule t ]
