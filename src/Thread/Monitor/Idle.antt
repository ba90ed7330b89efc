-- ===== src/Thread/Monitor/Idle.antt =====
-- Threads that can take no step, in numbers.
use sgx_experiments.Prelude.{count, ℕ, zero, suc, ◌+◌, ◌≤◌, ◌≡◌, refl, List, [], ◌∷◌, map, arith}
use sgx_experiments.Thread.Buffer.Progress.{total}
use sgx_experiments.Thread.Monitor.{
  Place, before_lock, at_test, in_queue, woken, before_write, before_advance, before_wrap,
  before_count, before_signal, before_unlock, Worker, queued,
}
use sgx_experiments.Thread.Monitor.Balance.{holds, coming, to_signal}
use sgx_experiments.Thread.Monitor.Invariant.{holding, signalling, queueing, arriving}

-- A thread that goes on as soon as the mutex is free.
abbrev pub ready : Place → ℕ → ℕ
ready before_lock zero = 0
ready before_lock (suc n) = 1
ready woken n = 1
ready _ n = 0

abbrev pub readying : List Worker → ℕ
readying = count (λ w. ready w.place w.left)

-- A thread that can take no step has ended or waits.
pub idle : (place : Place) (n : ℕ) → holds place ≡ 0 → ready place n ≡ 0 → queued place ≡ 0 → n ≡ 0
idle before_lock zero h r q = refl
idle before_lock (suc n) h r q = absurd (omega arith)
idle at_test n h r q = absurd (omega arith)
idle in_queue n h r q = absurd (omega arith)
idle woken n h r q = absurd (omega arith)
idle before_write n h r q = absurd (omega arith)
idle before_advance n h r q = absurd (omega arith)
idle before_wrap n h r q = absurd (omega arith)
idle before_count n h r q = absurd (omega arith)
idle before_signal n h r q = absurd (omega arith)
idle before_unlock n h r q = absurd (omega arith)

pub all_idle :
    (ws : List Worker)
    → holding ws ≡ 0
    → readying ws ≡ 0
    → queueing ws ≡ 0
    → total (map (λ w. w.left) ws) ≡ 0
all_idle [] h r q = refl
all_idle (w ∷ ws) h r q = omega (
  arith,
  idle w.place w.left (omega arith) (omega arith) (omega arith),
  all_idle ws (omega arith) (omega arith) (omega arith),
)

-- Numbers of consumers that bound each other.
coming_le : (place : Place) (n : ℕ) → coming place ≤ holds place + ready place n
coming_le place n = ground arith

pub arriving_le : (ws : List Worker) → arriving ws ≤ holding ws + readying ws
arriving_le [] = omega arith
arriving_le (w ∷ ws) = omega (arith, arriving_le ws, coming_le w.place w.left)

pub to_signal_le : (place : Place) → to_signal place ≤ holds place
to_signal_le place = ground arith

pub signalling_le : (ws : List Worker) → signalling ws ≤ holding ws
signalling_le [] = omega arith
signalling_le (w ∷ ws) = omega (arith, signalling_le ws, to_signal_le w.place)
