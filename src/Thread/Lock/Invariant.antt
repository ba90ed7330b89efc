-- ===== src/Thread/Lock/Invariant.antt =====
-- Mutual exclusion, and what the thread with the mutex knows of the counter.
use sgx_experiments.Prelude.{
  count, count-append, ℕ, zero, suc, ◌+◌, ◌≤◌, ◌≡◌, refl, sym, subst, ◌⊎◌, inl, inr, Bool, List, [],
  ◌∷◌, ◌++◌, some, arith,
}
use sgx_experiments.Thread.Counter.{increase_counter_return}
use sgx_experiments.Thread.Monitor.Balance.{bit}
use sgx_experiments.Thread.Lock.{
  Point, before_lock, before_read, before_write, before_test, before_unlock, Caller, Shared,
  lock_turn, turn, Lock, Step, steps, Steps, here, next, lock,
}
use sgx_experiments.Thread.Lock.Rounds.{Knows, Knowing}

-- A thread that has the mutex.
abbrev pub inside : Point → ℕ
inside before_lock = 0
inside _ = 1

abbrev pub inside_all : List Caller → ℕ
inside_all = count (λ c. inside c.point)

abbrev pub AllKnowing : Shared → List Caller → Type 0
AllKnowing s [] = Unit {0}
AllKnowing s (c ∷ cs) = Knowing s c × AllKnowing s cs

pub record Exclusive (m : Lock) : Type 0 where
  pub mutex : inside_all m.callers ≡ bit m.shared.locked
  pub knowing : AllKnowing m.shared m.callers

-- What a step does to the mutex, and to what is known; only the thread with the mutex changes the
-- enclave's counter.
record Effects (s : Shared) (c : Caller) (s' : Shared) (c' : Caller) : Type 0 where
  moved : inside c'.point + bit s.locked ≡ inside c.point + bit s'.locked
  known : Knowing s' c'
  changed : (inside c.point ≡ 1) ⊎ (s'.counters.global_counter ≡ s.counters.global_counter)

module _ (s s' : Shared) (c c' : Caller) where
  lock_turn-Effects :
      (left : ℕ)
      → c.point ≡ before_lock
      → c.adder.left ≡ left
      → lock_turn s c left ≡ some (s', c')
      → Effects s c s' c'
  unfolding lock_turn increase_counter_return
  lock_turn-Effects zero p l e = ground arith
  lock_turn-Effects (suc n) p l e = ground arith

  turn-Effects :
      (point : Point)
      → c.point ≡ point
      → inside point ≤ bit s.locked
      → Knows s.counters.global_counter point c.tmp c.adder.left
      → turn s c point ≡ some (s', c')
      → Effects s c s' c'
  unfolding turn
  turn-Effects before_lock p i k e = lock_turn-Effects c.adder.left p refl e
  turn-Effects before_read p i k e = ground arith
  turn-Effects before_write p i k e = ground arith
  turn-Effects before_test p i k e = ground arith
  turn-Effects before_unlock p i k e = ground arith

module _ (s s' : Shared) where
  outside-Knowing : (c : Caller) → inside c.point ≡ 0 → Knowing s' c
  outside-Knowing c h = ground arith

  same-Knowing :
      (c : Caller)
      → s'.counters.global_counter ≡ s.counters.global_counter
      → Knowing s c
      → Knowing s' c
  same-Knowing c e k = subst (λ g. Knows g c.point c.tmp c.adder.left) (sym e) k

  -- The other threads.
  others-Knowing :
      (cs : List Caller)
      → ((inside_all cs ≡ 0) ⊎ (s'.counters.global_counter ≡ s.counters.global_counter))
      → AllKnowing s cs
      → AllKnowing s' cs
  others-Knowing [] h k = tt
  others-Knowing (c ∷ cs) (inl z) (k, ks) =
      (outside-Knowing c (omega arith), others-Knowing cs (inl (omega arith)) ks)
  others-Knowing (c ∷ cs) (inr e) (k, ks) = (same-Knowing c e k, others-Knowing cs (inr e) ks)

module _ (s : Shared) where
  AllKnowing-split :
      (front back : List Caller) (c : Caller)
      → AllKnowing s (front ++ (c ∷ back))
      → AllKnowing s front × Knowing s c × AllKnowing s back
  AllKnowing-split [] back c (k, ks) = (tt, k, ks)
  AllKnowing-split (d ∷ front) back c (k, ks) =
      let (fs, h, bs) = AllKnowing-split front back c ks in ((k, fs), h, bs)

  AllKnowing-append :
      (front back : List Caller) (c : Caller)
      → AllKnowing s front
      → Knowing s c
      → AllKnowing s back
      → AllKnowing s (front ++ (c ∷ back))
  AllKnowing-append [] back c fs h bs = (h, bs)
  AllKnowing-append (d ∷ front) back c (k, fs) h bs = (k, AllKnowing-append front back c fs h bs)

-- For the threads in front of the one that takes a step, and for those behind it.
unchanged_beside :
    (s s' : Shared) (c c' : Caller) (front back : List Caller)
    → Effects s c s' c'
    → inside_all front + inside_all back + inside c.point ≤ 1
    → let Unchanged = s'.counters.global_counter ≡ s.counters.global_counter in
      ((inside_all front ≡ 0) ⊎ Unchanged) × ((inside_all back ≡ 0) ⊎ Unchanged)
unchanged_beside s s' c c' front back f few = elim f.changed [
  | inl one ↦ (inl (omega arith), inl (omega arith))
  | inr e ↦ (inr e, inr e)
]

bit_le : (b : Bool) → bit b ≤ 1
bit_le b = ground arith

module _ (m : Lock) where
  -- The thread that takes a step has the mutex, or it is free, and knows what it needs.
  pub stepping :
      (front back : List Caller) (c : Caller)
      → Exclusive m
      → m.callers ≡ front ++ (c ∷ back)
      → (inside_all front + inside_all back + inside c.point ≡ bit m.shared.locked)
        × AllKnowing m.shared front
        × Knowing m.shared c
        × AllKnowing m.shared back
  stepping front back c x same =
      let count : inside_all (front ++ (c ∷ back)) ≡ bit m.shared.locked =
        subst (λ cs. inside_all cs ≡ bit m.shared.locked) same x.mutex in
      let (fs, k, bs) =
        AllKnowing-split m.shared front back c (subst (AllKnowing m.shared) same x.knowing) in
      (omega (arith, count-append (λ d. inside d.point) front back c), fs, k, bs)

pub Step-Exclusive : (m n : Lock) → Exclusive m → Step m n → Exclusive n
Step-Exclusive m n x (steps front back c s' c' same e) =
    let (count, fs, k, bs) = stepping m front back c x same in
    let f = turn-Effects m.shared s' c c' c.point refl (omega arith) k e in
    let (alone, beside) =
      unchanged_beside m.shared s' c c' front back f (omega (arith, bit_le m.shared.locked)) in
    record {
      mutex = omega (arith, count-append (λ d. inside d.point) front back c', f.moved);
      knowing =
          AllKnowing-append s' front back c' (others-Knowing m.shared s' front alone fs) f.known
            (others-Knowing m.shared s' back beside bs);
    }

pub Steps-Exclusive : (m n : Lock) → Exclusive m → Steps m n → Exclusive n
Steps-Exclusive m n x here = x
Steps-Exclusive m n x (next {n = k} before last) =
    Step-Exclusive k n (Steps-Exclusive m k x before) last

pub lock-Exclusive : Exclusive lock
lock-Exclusive = record { mutex = refl; knowing = (tt, (tt, (tt, (tt, tt)))) }
