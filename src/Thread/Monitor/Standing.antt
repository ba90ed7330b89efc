-- ===== src/Thread/Monitor/Standing.antt =====
-- How far a round has come: the buffer in the middle of it against the buffer before it.
use sgx_experiments.Prelude.{
  count, ℕ, zero, suc, ◌+◌, ◌-◌, ◌<◌, ◌≤◌, ◌≡◌, refl, ap, subst, ◌∙◌, ◌⊎◌, inl, inr, Bool, false,
  List, [], ◌∷◌, ◌++◌, arith,
}
use sgx_experiments.Thread.Buffer.{CondBuffer}
use sgx_experiments.Thread.Monitor.{
  Place, before_lock, at_test, in_queue, woken, before_write, before_advance, before_wrap,
  before_count, before_signal, before_unlock, Worker, Turn, Loop, producer_loop, consumer_loop,
  Monitor,
}
use sgx_experiments.Thread.Monitor.Moves.{
  Moves, locks, relocks, waits, passes, writes, advances, wraps, changes, signals, unlocks,
}
use sgx_experiments.Thread.Monitor.Balance.{bit, holds, overdue}
use sgx_experiments.Thread.Monitor.Invariant.{holding}

-- The assignments that a thread has made, and those of a whole round.
abbrev pub partly : Loop → Place → CondBuffer → CondBuffer
partly loop before_advance b = loop.write b
partly loop before_wrap b = loop.advance (loop.write b)
partly loop before_count b = loop.wrap (loop.advance (loop.write b))
partly loop place b = b

abbrev pub whole : Loop → CondBuffer → CondBuffer
whole loop b = loop.change (loop.wrap (loop.advance (loop.write b)))

-- A thread behind its test.
abbrev pub mid : Place → ℕ
mid before_write = 1
mid before_advance = 1
mid before_wrap = 1
mid before_count = 1
mid _ = 0

-- A thread at `place` has taken the buffer from `before` to `b`, and its test holds in `before`.
pub record Stands (loop : Loop) (place : Place) (before b : CondBuffer) : Type 0 where
  pub same : b ≡ partly loop place before
  pub passed : 0 < mid place → loop.waits before ≡ false

-- A step goes on with the round, or ends it.
pub Moves-Stands :
    (loop : Loop) (before b : CondBuffer) (l : Bool) (place : Place) (n : ℕ) (t : Turn)
    → Moves loop b l place n t
    → overdue place n ≡ 0
    → Stands loop place before b
    → (Stands loop t.worker.place before t.buffer × (t.worker.left ≡ n))
      ⊎ ((loop.waits before ≡ false)
          × (0 < n)
          × (t.worker.left ≡ n - 1)
          × Stands loop t.worker.place (whole loop before) t.buffer)
Moves-Stands loop before b l place n t (locks m) h s =
    inl (record { same = s.same; passed = λ e. elim e [ ] }, refl)
Moves-Stands loop before b l place n t (relocks m) h s =
    inl (record { same = s.same; passed = λ e. elim e [ ] }, refl)
Moves-Stands loop before b l place n t (waits k m e) h s =
    inl (record { same = s.same; passed = λ e'. elim e' [ ] }, refl)
Moves-Stands loop before b l place n t (passes k m e) h s =
    inl (record { same = s.same; passed = λ e'. subst (λ c. loop.waits c ≡ false) s.same e }, refl)
Moves-Stands loop before b l place n t (writes k m) h s =
    inl (record { same = ap loop.write s.same; passed = s.passed }, refl)
Moves-Stands loop before b l place n t (advances k m) h s =
    inl (record { same = ap loop.advance s.same; passed = s.passed }, refl)
Moves-Stands loop before b l place n t (wraps k m) h s =
    inl (record { same = ap loop.wrap s.same; passed = s.passed }, refl)
Moves-Stands loop before b l place n t (changes k zero) h s = absurd (omega arith)
Moves-Stands loop before b l place n t (changes k (suc m)) h s = inr (
  s.passed (omega arith),
  omega arith,
  refl,
  record { same = ap loop.change s.same; passed = λ e. elim e [ ] },
)
Moves-Stands loop before b l place n t (signals k m) h s =
    inl (record { same = s.same; passed = λ e. elim e [ ] }, refl)
Moves-Stands loop before b l place n t (unlocks k m) h s =
    inl (record { same = s.same; passed = λ e. elim e [ ] }, refl)

-- A thread that takes a step has the mutex, or locks it while nobody has it.
pub Moves-alone :
    (loop : Loop) (b : CondBuffer) (l : Bool) (place : Place) (n : ℕ) (t : Turn) (others : ℕ)
    → Moves loop b l place n t
    → bit l ≡ holds place + others
    → bit l ≤ 1
    → others ≡ 0
Moves-alone loop b l place n t others (locks m) e h = omega arith
Moves-alone loop b l place n t others (relocks m) e h = omega arith
Moves-alone loop b l place n t others (waits k m _) e h = omega arith
Moves-alone loop b l place n t others (passes k m _) e h = omega arith
Moves-alone loop b l place n t others (writes k m) e h = omega arith
Moves-alone loop b l place n t others (advances k m) e h = omega arith
Moves-alone loop b l place n t others (wraps k m) e h = omega arith
Moves-alone loop b l place n t others (changes k m) e h = omega arith
Moves-alone loop b l place n t others (signals k m) e h = omega arith
Moves-alone loop b l place n t others (unlocks k m) e h = omega arith

-- Threads without the mutex.
pub partly_none :
    (loop : Loop) (place : Place) (b : CondBuffer) → holds place ≡ 0 → partly loop place b ≡ b
partly_none loop before_lock b h = refl
partly_none loop at_test b h = refl
partly_none loop in_queue b h = refl
partly_none loop woken b h = refl
partly_none loop before_write b h = refl
partly_none loop before_advance b h = absurd (omega arith)
partly_none loop before_wrap b h = absurd (omega arith)
partly_none loop before_count b h = absurd (omega arith)
partly_none loop before_signal b h = refl
partly_none loop before_unlock b h = refl

pub mid_le : (place : Place) → mid place ≤ holds place
mid_le place = ground arith

-- The same of all consumers.
abbrev pub partly_all : List Worker → CondBuffer → CondBuffer
partly_all [] b = b
partly_all (w ∷ ws) b = partly_all ws (partly consumer_loop w.place b)

abbrev pub mids : List Worker → ℕ
mids = count (λ w. mid w.place)

pub mids_le : (ws : List Worker) → mids ws ≤ holding ws
mids_le [] = omega arith
mids_le (w ∷ ws) = omega (arith, mids_le ws, mid_le w.place)

pub partly_all_none : (ws : List Worker) (b : CondBuffer) → holding ws ≡ 0 → partly_all ws b ≡ b
partly_all_none [] b h = refl
partly_all_none (w ∷ ws) b h =
    ap (partly_all ws) (partly_none consumer_loop w.place b (omega arith))
    ∙ partly_all_none ws b (omega arith)

pub partly_all_one :
    (front back : List Worker) (w : Worker) (b : CondBuffer)
    → holding front + holding back ≡ 0
    → partly_all (front ++ (w ∷ back)) b ≡ partly consumer_loop w.place b
partly_all_one [] back w b h = partly_all_none back (partly consumer_loop w.place b) (omega arith)
partly_all_one (v ∷ front) back w b h =
    ap (partly_all (front ++ (w ∷ back))) (partly_none consumer_loop v.place b (omega arith))
    ∙ partly_all_one front back w b (omega arith)

-- The count of the occupied slots changes at the end of a round only.
pub partly_all-occupied :
    (place : Place) (ws : List Worker) (b : CondBuffer)
    → (partly_all ws (partly producer_loop place b)).occupied ≡ b.occupied
partly_all-occupied place ws b = all ws (partly producer_loop place b) ∙ ground arith
  where
    all : (ws : List Worker) (b : CondBuffer) → (partly_all ws b).occupied ≡ b.occupied
    all [] b = refl
    all (w ∷ ws) b = all ws (partly consumer_loop w.place b) ∙ ground arith

-- The buffer before the round that is under way, if any.
pub record Refines (m : Monitor) (before : CondBuffer) : Type 0 where
  pub same : m.buffer ≡ partly_all m.consumers (partly producer_loop m.producer.place before)
  pub produces : 0 < mid m.producer.place → producer_loop.waits before ≡ false
  pub consumes : 0 < mids m.consumers → consumer_loop.waits before ≡ false
