-- ===== src/Thread/Counter.antt =====
-- The shared counter: `ecall_increase_counter`, and `increase_counter` of the App. A critical section
-- is one step, since the mutex keeps the other threads out of it; the scheduler is a list of the
-- threads that take a step, in order.
pub mod Exact
pub mod Finish
use sgx_experiments.Prelude.{
  ℕ, zero, suc, ◌+◌, ◌*◌, ◌≡◌, ◌^◌, ◌%◌, Bool, true, false, List, [], ◌∷◌, ◌==◌, if◌then◌else◌,
}
use sgx_experiments.Thread.{loops_per_thread}

-- A thread in `increase_counter`: the rounds left of the enclave's loop, its `ret`, and whether the
-- App has taken the result.
pub record Adder : Type 0 where
  pub left : ℕ
  pub ret : ℕ
  pub returned : Bool

-- `global_counter` of the enclave, and `counter` of the App.
pub record Counters : Type 0 where
  pub global_counter : ℕ
  pub counter : ℕ

abbrev pub expected : ℕ
expected = 4 * loops_per_thread

-- One round of the loop, under the mutex. `size_t` has 64 bits.
unfoldable pub ecall_increase_counter_round : ℕ → Counters → Adder → Counters × Adder
ecall_increase_counter_round left c a =
    let tmp = (c.global_counter + 1) % 2 ^ 64 in
    (
      record c { global_counter = tmp },
      record a { left = left; ret = if expected == tmp then tmp else a.ret },
    )

-- After the loop: `if (cnr != 0) counter = cnr;`
unfoldable pub increase_counter_return : Counters → Adder → Counters × Adder
increase_counter_return c a =
    ((if a.ret == 0 then c else record c { counter = a.ret }), record a { returned = true })

-- A step of one thread: a round, the return, or nothing once it has returned.
unfoldable pub adder_step : Counters → Adder → Counters × Adder
unfolding ecall_increase_counter_round increase_counter_return
adder_step c a = elim a.left [
  | zero ↦ if a.returned then (c, a) else increase_counter_return c a
  | suc left ↦ ecall_increase_counter_round left c a
]

-- A step of thread `i`; a number that is no thread does nothing.
unfoldable pub step : ℕ → Counters → List Adder → Counters × List Adder
unfolding adder_step
step i c [] = (c, [])
step zero c (a ∷ others) = let (c', a') = adder_step c a in (c', a' ∷ others)
step (suc i) c (a ∷ others) = let (c', others') = step i c others in (c', a ∷ others')

unfoldable pub run : List ℕ → Counters → List Adder → Counters × List Adder
unfolding step
run [] c adders = (c, adders)
run (i ∷ schedule) c adders = let (c', adders') = step i c adders in run schedule c' adders'

abbrev pub adder : Adder
adder = record { left = loops_per_thread; ret = 0; returned = false }

-- `ecall_thread_functions`: four adders on counters that are zero.
abbrev pub adders : List Adder
adders = adder ∷ adder ∷ adder ∷ adder ∷ []

abbrev pub counters : Counters
counters = record { global_counter = 0; counter = 0 }

-- The steps that an adder still takes: its rounds, and its return.
abbrev pub remaining : Adder → ℕ
remaining a = a.left + (if a.returned then 0 else 1)

abbrev pub remaining_at : ℕ → List Adder → ℕ
remaining_at j [] = 0
remaining_at zero (a ∷ others) = remaining a
remaining_at (suc j) (a ∷ others) = remaining_at j others

-- Every adder has returned, so that it can be joined.
abbrev pub AllReturned : List Adder → Type 0
AllReturned [] = Unit {0}
AllReturned (a ∷ others) = (a.returned ≡ true) × AllReturned others
