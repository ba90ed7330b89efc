-- ===== src/Thread/Lock/Rounds.antt =====
-- A step of a thread changes nothing that a round changes, or is a step of whole rounds.
use sgx_experiments.Prelude.{ℕ, zero, suc, ◌<◌, ◌≡◌, refl, ◌⊎◌, some, arith}
use sgx_experiments.Thread.Counter.{Adder, adder_step}
use sgx_experiments.Thread.Lock.{
  Point, before_lock, before_read, before_write, before_test, before_unlock, Caller, Shared,
  lock_turn, turn, rounded,
}

-- What a thread with the mutex knows: a round is left, and `tmp` is the counter from its read to its
-- test.
abbrev pub Knows : ℕ → Point → ℕ → ℕ → Type 0
Knows global before_lock tmp left = Unit {0}
Knows global before_read tmp left = 0 < left
Knows global before_write tmp left = (tmp ≡ global) × (0 < left)
Knows global before_test tmp left = (tmp ≡ global) × (0 < left)
Knows global before_unlock tmp left = 0 < left

abbrev pub Knowing : Shared → Caller → Type 0
Knowing s c = Knows s.counters.global_counter c.point c.tmp c.adder.left

abbrev pub Rounds : Shared → Caller → Shared → Caller → Type 0
Rounds s c s' c' =
    ((s'.counters ≡ s.counters) × (rounded c' ≡ rounded c))
    ⊎ (adder_step s.counters (rounded c) ≡ (s'.counters, rounded c'))

-- The thread, from its parts.
abbrev pub standing : Point → ℕ → Adder → Caller
standing point tmp a = record { point = point; tmp = tmp; adder = a }

module _ (s s' : Shared) (c' : Caller) (tmp : ℕ) where
  lock_turn-Rounds :
      (a : Adder) (left : ℕ)
      → a.left ≡ left
      → lock_turn s (standing before_lock tmp a) left ≡ some (s', c')
      → Rounds s (standing before_lock tmp a) s' c'
  unfolding lock_turn adder_step
  lock_turn-Rounds a zero l e = ground arith
  lock_turn-Rounds a (suc n) l e = ground arith

  pub turn-Rounds :
      (a : Adder) (point : Point)
      → Knows s.counters.global_counter point tmp a.left
      → turn s (standing point tmp a) point ≡ some (s', c')
      → Rounds s (standing point tmp a) s' c'
  unfolding turn adder_step
  turn-Rounds a before_lock k e = lock_turn-Rounds a a.left refl e
  turn-Rounds a before_read k e = ground arith
  turn-Rounds a before_write k e = ground arith
  turn-Rounds a before_test k e = ground arith
  turn-Rounds a before_unlock k e = ground arith
