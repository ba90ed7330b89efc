-- ===== src/Thread/Lock/Ending.antt =====
-- The adders come to their end, with the whole count.
use sgx_experiments.Prelude.{
  ℕ, zero, suc, ◌+◌, ◌-◌, ◌*◌, ◌<◌, ◌≡◌, refl, sym, ap, subst, ◌∙◌, ◌⊎◌, inl, inr, true, false,
  Bool-cases, eq-cases, List, [], ◌∷◌, map, count, count-append, pick, some, if◌then◌else◌, arith,
}
use sgx_experiments.Thread.Counter.{Adder, expected, increase_counter_return, AllReturned}
use sgx_experiments.Thread.Counter.Exact.{run-exact}
use sgx_experiments.Thread.Monitor.Balance.{bit}
use sgx_experiments.Thread.Lock.{
  Point, before_lock, before_read, before_write, before_test, before_unlock, Caller, Shared,
  lock_turn, turn, Lock, Step, steps, Steps, here, next, lock, rounded, AllJoinable,
}
use sgx_experiments.Thread.Lock.Rounds.{Knows}
use sgx_experiments.Thread.Lock.Invariant.{
  inside, Exclusive, stepping, Step-Exclusive, lock-Exclusive,
}
use sgx_experiments.Thread.Lock.Refinement.{Steps-schedule}

-- The steps of its round that a thread has made, and those that it can still make.
abbrev made : Point → ℕ
made before_lock = 0
made before_read = 1
made before_write = 2
made before_test = 3
made before_unlock = 4

abbrev ahead_at : Point → Adder → ℕ
ahead_at point a = 5 * a.left + (if a.returned then 0 else 1) - made point

abbrev ahead : Caller → ℕ
ahead c = ahead_at c.point c.adder

abbrev pub fuel : Lock → ℕ
fuel m = count ahead m.callers

lock_turn-ahead :
    (s s' : Shared) (c c' : Caller) (left : ℕ)
    → c.point ≡ before_lock
    → c.adder.left ≡ left
    → lock_turn s c left ≡ some (s', c')
    → ahead c' + 1 ≡ ahead c
unfolding lock_turn increase_counter_return
lock_turn-ahead s s' c c' zero p l e = ground arith
lock_turn-ahead s s' c c' (suc n) p l e = ground arith

turn-ahead :
    (s s' : Shared) (c c' : Caller) (point : Point)
    → c.point ≡ point
    → Knows s.counters.global_counter point c.tmp c.adder.left
    → turn s c point ≡ some (s', c')
    → ahead c' + 1 ≡ ahead c
unfolding turn
turn-ahead s s' c c' before_lock p k e = lock_turn-ahead s s' c c' c.adder.left p refl e
turn-ahead s s' c c' before_read p k e = ground arith
turn-ahead s s' c c' before_write p k e = ground arith
turn-ahead s s' c c' before_test p k e = ground arith
turn-ahead s s' c c' before_unlock p k e = ground arith

-- Every step leaves one less.
pub Step-fuel : (m n : Lock) → Exclusive m → Step m n → fuel n + 1 ≡ fuel m
Step-fuel m n x (steps front back c s' c' same e) = omega (
  arith,
  turn-ahead m.shared s' c c' c.point refl (stepping m front back c x same).2 e,
  ap (count ahead) same,
  count-append ahead front back c,
  count-append ahead front back c',
)

-- A thread with the mutex, and one that can lock it or return, can take a step.
inside_turns :
    (s : Shared) (c : Caller) (point : Point)
    → 0 < inside point
    → (t : Shared × Caller) × (turn s c point ≡ some t)
unfolding turn
inside_turns s c before_lock h = elim h [ ]
inside_turns s c before_read h = (_, refl)
inside_turns s c before_write h = (_, refl)
inside_turns s c before_test h = (_, refl)
inside_turns s c before_unlock h = (_, refl)

outside_turns :
    (s : Shared) (c : Caller) (left : ℕ)
    → s.locked ≡ false
    → 0 < left + (if c.adder.returned then 0 else 1)
    → (t : Shared × Caller) × (lock_turn s c left ≡ some t)
unfolding lock_turn
outside_turns s c zero free h = elim (Bool-cases c.adder.returned) [
  | inl e ↦ absurd (ground arith)
  | inr e ↦ (
    (
      record s { counters = (increase_counter_return s.counters c.adder).0 },
      record c { adder = (increase_counter_return s.counters c.adder).1 },
    ),
    rw e refl,
  )
]
outside_turns s c (suc n) free h =
    ((record s { locked = true }, record c { point = before_read }), rw free refl)

before_lock_lem : (point : Point) → inside point ≡ 0 → point ≡ before_lock
before_lock_lem before_lock h = refl
before_lock_lem before_read h = absurd (omega arith)
before_lock_lem before_write h = absurd (omega arith)
before_lock_lem before_test h = absurd (omega arith)
before_lock_lem before_unlock h = absurd (omega arith)

turn_outside :
    (s : Shared) (c : Caller)
    → c.point ≡ before_lock
    → turn s c c.point ≡ lock_turn s c c.adder.left
unfolding turn
turn_outside s c e = ap (turn s c) e

-- A thread that has rounds left or has not returned.
abbrev undone : Caller → ℕ
undone c = c.adder.left + (if c.adder.returned then 0 else 1)

rounded-returned : (c : Caller) → c.adder.returned ≡ true → (rounded c).returned ≡ true
rounded-returned c h = ground arith

none_undone : (cs : List Caller) → count undone cs ≡ 0 → AllJoinable cs
none_undone [] h = tt
none_undone (c ∷ cs) h = (ground arith, none_undone cs (omega arith))

AllJoinable-rounded : (cs : List Caller) → AllJoinable cs → AllReturned (map rounded cs)
AllJoinable-rounded [] h = tt
AllJoinable-rounded (c ∷ cs) (h, hs) = (rounded-returned c h, AllJoinable-rounded cs hs)

module _ (m : Lock) (x : Exclusive m) where
  locked_steps : m.shared.locked ≡ true → (n : Lock) × Step m n
  locked_steps e =
      let one : bit m.shared.locked ≡ 1 = rw e refl in
      let (front, back, c, same, h) =
        pick (λ c. inside c.point) m.callers (omega (arith, x.mutex)) in
      let (t, k) = inside_turns m.shared c c.point h in (_, steps front back c t.0 t.1 same k)

  free_steps : m.shared.locked ≡ false → 0 < count undone m.callers → (n : Lock) × Step m n
  free_steps e some_undone =
      let free : bit m.shared.locked ≡ 0 = rw e refl in
      let (front, back, c, same, h) = pick undone m.callers some_undone in
      let outside = before_lock_lem c.point (omega (arith, (stepping m front back c x same).0)) in
      let (t, k) = outside_turns m.shared c c.adder.left e h in
      (_, steps front back c t.0 t.1 same (turn_outside m.shared c outside ∙ k))

  -- All have returned, or one of them can take a step.
  pub returned_or_steps : AllJoinable m.callers ⊎ ((n : Lock) × Step m n)
  returned_or_steps = elim (Bool-cases m.shared.locked) [
    | inl e ↦ inr (locked_steps e)
    | inr e ↦ elim (eq-cases (count undone m.callers) 0) [
      | inl z ↦ inl (none_undone m.callers z)
      | inr n ↦ inr (free_steps e (omega arith))
    ]
  ]

-- When all have returned, both counters have the whole count.
pub returned_counters :
    (m : Lock)
    → Steps lock m
    → AllJoinable m.callers
    → (m.shared.counters.global_counter ≡ expected) × (m.shared.counters.counter ≡ expected)
returned_counters m path all =
    let (schedule, same) = Steps-schedule m path in
    subst (λ r. (r.0.global_counter ≡ expected) × (r.0.counter ≡ expected)) same
      (run-exact schedule
        (subst (λ r. AllReturned r.1) (sym same) (AllJoinable-rounded m.callers all)))

abbrev pub length_of : {m n : Lock} → Steps m n → ℕ
length_of here = 0
length_of (next before last) = length_of before + 1

pub Steps-fuel : (m : Lock) (path : Steps lock m) → (length_of path + fuel m ≡ 10004) × Exclusive m
Steps-fuel m here = (refl, lock-Exclusive)
Steps-fuel m (next {n = k} before last) =
    let (l, x) = Steps-fuel k before in
    (omega (arith, Step-fuel k m x last), Step-Exclusive k m x last)
