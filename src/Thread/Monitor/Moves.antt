-- ===== src/Thread/Monitor/Moves.antt =====
-- The steps of a thread, taken apart.
use sgx_experiments.Prelude.{
  ℕ, zero, suc, ◌-◌, ◌≡◌, subst, inl, inr, Bool, true, false, Bool-cases, some, arith,
}
use sgx_experiments.Thread.Buffer.{CondBuffer}
use sgx_experiments.Thread.Monitor.{
  Place, before_lock, at_test, in_queue, woken, before_write, before_advance, before_wrap,
  before_count, before_signal, before_unlock, Worker, Turn, Loop, to, turn_at, turn,
}

module _ (loop : Loop) (b : CondBuffer) where
  pub data Moves : Bool → Place → ℕ → Turn → Type 0 where
    locks : (n : ℕ) → Moves false before_lock (suc n) (to b true at_test (suc n) false)
    relocks : (n : ℕ) → Moves false woken n (to b true at_test n false)
    waits :
        (l : Bool) (n : ℕ) → loop.waits b ≡ true → Moves l at_test n (to b false in_queue n false)
    passes :
        (l : Bool) (n : ℕ) → loop.waits b ≡ false → Moves l at_test n (to b l before_write n false)
    writes :
        (l : Bool) (n : ℕ) → Moves l before_write n (to (loop.write b) l before_advance n false)
    advances :
        (l : Bool) (n : ℕ) → Moves l before_advance n (to (loop.advance b) l before_wrap n false)
    wraps : (l : Bool) (n : ℕ) → Moves l before_wrap n (to (loop.wrap b) l before_count n false)
    changes :
        (l : Bool) (n : ℕ)
        → Moves l before_count n (to (loop.change b) l before_signal (n - 1) false)
    signals : (l : Bool) (n : ℕ) → Moves l before_signal n (to b l before_unlock n true)
    unlocks : (l : Bool) (n : ℕ) → Moves l before_unlock n (to b false before_lock n false)

  moved :
      (l : Bool) (place : Place) (n : ℕ) (t u : Turn)
      → some t ≡ some u
      → Moves l place n t
      → Moves l place n u
  moved l place n t u e m = let same : t ≡ u = ground arith in subst (Moves l place n) same m

  turn_at-Moves :
      (l : Bool) (place : Place) (n : ℕ) (t : Turn)
      → turn_at loop b l place n ≡ some t
      → Moves l place n t
  unfolding turn_at
  turn_at-Moves l before_lock zero t e = absurd (ground arith)
  turn_at-Moves true before_lock (suc n) t e = absurd (ground arith)
  turn_at-Moves false before_lock (suc n) t e = moved false before_lock (suc n) _ t e (locks n)
  turn_at-Moves l at_test n t e = elim (Bool-cases (loop.waits b)) [
    | inl r ↦ moved l at_test n _ t (rw (r, turn_at) at e) (waits l n r)
    | inr r ↦ moved l at_test n _ t (rw (r, turn_at) at e) (passes l n r)
  ]
  turn_at-Moves l in_queue n t e = absurd (ground arith)
  turn_at-Moves true woken n t e = absurd (ground arith)
  turn_at-Moves false woken n t e = moved false woken n _ t e (relocks n)
  turn_at-Moves l before_write n t e = moved l before_write n _ t e (writes l n)
  turn_at-Moves l before_advance n t e = moved l before_advance n _ t e (advances l n)
  turn_at-Moves l before_wrap n t e = moved l before_wrap n _ t e (wraps l n)
  turn_at-Moves l before_count n t e = moved l before_count n _ t e (changes l n)
  turn_at-Moves l before_signal n t e = moved l before_signal n _ t e (signals l n)
  turn_at-Moves l before_unlock n t e = moved l before_unlock n _ t e (unlocks l n)

  pub turn-Moves :
      (l : Bool) (w : Worker) (t : Turn) → turn loop b l w ≡ some t → Moves l w.place w.left t
  unfolding turn
  turn-Moves l w t e = turn_at-Moves l w.place w.left t e
