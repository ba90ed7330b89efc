-- ===== src/Thread/Lock.antt =====
-- The shared counter again, with its mutex: the lock, the read of `global_counter`, the write, the
-- test and the unlock of a round of `ecall_increase_counter` are steps of their own, between which
-- the other threads take theirs.
pub mod Rounds
pub mod Invariant
pub mod Refinement
pub mod Ending
use sgx_experiments.Prelude.{
  ℕ, zero, suc, ◌+◌, ◌-◌, ◌≡◌, ◌^◌, ◌%◌, Bool, true, false, List, [], ◌∷◌, ◌++◌, map, Option, none,
  some, ◌==◌, if◌then◌else◌,
}
use sgx_experiments.Thread.Counter.{
  Adder, Counters, expected, increase_counter_return, adder, counters, AllReturned,
}

-- Where a thread stands in its round: before the lock, or, with the mutex, before the read, the
-- write, the test and the unlock.
pub data Point : Type 0 where
  before_lock before_read before_write before_test before_unlock : Point

-- A thread in `increase_counter`, with the local variable `tmp` of its round.
pub record Caller : Type 0 where
  pub point : Point
  pub tmp : ℕ
  pub adder : Adder

-- The counters, and whether `global_mutex` is locked.
pub record Shared : Type 0 where
  pub counters : Counters
  pub locked : Bool

-- A thread before the lock: it returns after its last round, and else locks the mutex.
unfoldable pub lock_turn : Shared → Caller → ℕ → Option (Shared × Caller)
unfolding increase_counter_return
lock_turn s c zero =
    if c.adder.returned
    then none
    else (let (counters, adder) = increase_counter_return s.counters c.adder in
        some (record s { counters = counters }, record c { adder = adder }))
lock_turn s c (suc n) =
    if s.locked then none else some (record s { locked = true }, record c { point = before_read })

-- `size_t` has 64 bits.
abbrev pub incremented : ℕ → ℕ
incremented tmp = (tmp + 1) % 2 ^ 64

-- One step of a thread; `none` when it has returned or waits for the mutex.
unfoldable pub turn : Shared → Caller → Point → Option (Shared × Caller)
unfolding lock_turn
turn s c before_lock = lock_turn s c c.adder.left
turn s c before_read = some (s, record c { point = before_write; tmp = s.counters.global_counter })
turn s c before_write = some (
  record s { counters = record s.counters { global_counter = incremented c.tmp } },
  record c { point = before_test; tmp = incremented c.tmp },
)
turn s c before_test = some (
  s,
  record c {
    point = before_unlock;
    adder = record c.adder {
      ret =
          if expected == s.counters.global_counter then s.counters.global_counter else c.adder.ret;
    };
  },
)
turn s c before_unlock = some (
  record s { locked = false },
  record c { point = before_lock; adder = record c.adder { left = c.adder.left - 1 } },
)

pub record Lock : Type 0 where
  pub shared : Shared
  pub callers : List Caller

-- A step of one thread among the others.
pub data Step (m : Lock) : Lock → Type 0 where
  steps :
      (front back : List Caller) (c : Caller) (s' : Shared) (c' : Caller)
      → m.callers ≡ front ++ (c ∷ back)
      → turn m.shared c c.point ≡ some (s', c')
      → Step m (record { shared = s'; callers = front ++ (c' ∷ back) })

-- Steps one after the other.
pub data Steps (m : Lock) : Lock → Type 0 where
  here : Steps m m
  next : {n o : Lock} → Steps m n → Step n o → Steps m o

abbrev pub caller : Caller
caller = record { point = before_lock; tmp = 0; adder = adder }

-- The four adders of `ecall_thread_functions`.
abbrev pub lock : Lock
lock = record {
  shared = record { counters = counters; locked = false };
  callers = caller ∷ caller ∷ caller ∷ caller ∷ [];
}

-- Every thread has returned, so that it can be joined.
abbrev pub AllJoinable : List Caller → Type 0
AllJoinable cs = AllReturned (map (λ c. c.adder) cs)

-- What the steps of whole rounds see: the write counts as the round.
abbrev pub rounded_at : Point → ℕ → Adder → Adder
rounded_at before_test tmp a = record a {
  left = a.left - 1;
  ret = if expected == tmp then tmp else a.ret;
}
rounded_at before_unlock tmp a = record a { left = a.left - 1 }
rounded_at point tmp a = a

abbrev pub rounded : Caller → Adder
rounded c = rounded_at c.point c.tmp c.adder
