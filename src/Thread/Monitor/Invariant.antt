-- ===== src/Thread/Monitor/Invariant.antt =====
-- The invariant of the monitor.
use sgx_experiments.Prelude.{
  count-append, count, ℕ, ◌+◌, ◌≤◌, ◌≡◌, refl, sym, ap, subst, inl, inr, Bool, true, List, [], ◌∷◌,
  ◌++◌, map, arith,
}
use sgx_experiments.Thread.Monitor.{
  Place, producer_loop, consumer_loop, Worker, Monitor, monitor, queued, wake, wake_to, wake_place,
  Signalled, no_signal, nobody, somebody, Step, producing, consuming, Steps, here, next,
}
use sgx_experiments.Thread.Monitor.Moves.{turn-Moves}
use sgx_experiments.Thread.Monitor.Balance.{
  bit, holds, coming, to_signal, overdue, Balance, Wakes, producer-Balance, consumer-Balance,
  wake_place-holds, wake_place-overdue, wake_place-to_signal, wake_place-queued,
}

-- The consumers of each kind.
abbrev pub holding : List Worker → ℕ
holding = count (λ w. holds w.place)

abbrev pub late : List Worker → ℕ
late = count (λ w. overdue w.place w.left)

abbrev pub signalling : List Worker → ℕ
signalling = count (λ w. to_signal w.place)

abbrev pub queueing : List Worker → ℕ
queueing = count (λ w. queued w.place)

abbrev pub arriving : List Worker → ℕ
arriving = count (λ w. coming w.place)

abbrev pub Invariant : Monitor → Type 0
Invariant m =
    Balance m.buffer.occupied m.locked m.producer.place m.producer.left (holding m.consumers)
      (late m.consumers) (signalling m.consumers) (queueing m.consumers) (arriving m.consumers)

-- A signal changes the numbers of those in the queue and of those on their way only.
pub record Kept (signals : Bool) (ws vs : List Worker) : Type 0 where
  pub held : holding vs ≡ holding ws
  pub overdue : late vs ≡ late ws
  pub signallers : signalling vs ≡ signalling ws
  pub rounds : map (λ w. w.left) vs ≡ map (λ w. w.left) ws
  pub woken : Wakes signals (queueing ws) (arriving ws) (queueing vs) (arriving vs)

pub map-append :
    (front back : List Worker) (w v : Worker)
    → v.left ≡ w.left
    → map (λ w. w.left) (front ++ (v ∷ back)) ≡ map (λ w. w.left) (front ++ (w ∷ back))
map-append [] back w v e = ap (λ n. n ∷ map (λ w. w.left) back) e
map-append (u ∷ front) back w v e = ap (λ ns. u.left ∷ ns) (map-append front back w v e)

pub Signalled-Kept :
    (signals : Bool) (ws vs : List Worker) → Signalled signals ws vs → Kept signals ws vs
Signalled-Kept signals ws vs no_signal = record {
  held = refl;
  overdue = refl;
  signallers = refl;
  rounds = refl;
  woken = (refl, refl);
}
Signalled-Kept signals ws vs (nobody e) = record {
  held = refl;
  overdue = refl;
  signallers = refl;
  rounds = refl;
  woken = inl (e, refl, refl);
}
Signalled-Kept signals ws vs (somebody front back w e) = record {
  held = split (λ w. holds w.place) (wake_place-holds w.place);
  overdue = split (λ w. overdue w.place w.left) (wake_place-overdue w.place w.left);
  signallers = split (λ w. to_signal w.place) (wake_place-to_signal w.place);
  rounds = map-append front back w (wake true w) refl;
  woken =
      let q : queued w.place ≡ 1 = rw e refl in
      let q' = wake_place-queued w.place in
      let a : coming w.place ≡ 0 = rw e refl in
      let a' : coming (wake_place w.place) ≡ 1 = rw e refl in
      inr (
        omega (
          arith,
          count-append (λ v. queued v.place) front back w,
          count-append (λ v. queued v.place) front back (wake true w),
        ),
        omega (
          arith,
          count-append (λ v. coming v.place) front back w,
          count-append (λ v. coming v.place) front back (wake true w),
        ),
      );
}
  where
    split :
        (f : Worker → ℕ)
        → f (wake true w) ≡ f w
        → count f (front ++ (wake true w ∷ back)) ≡ count f (front ++ (w ∷ back))
    split f same =
        omega (arith, count-append f front back w, count-append f front back (wake true w))

-- The same numbers, counted in another way.
recount :
    {o n h z s q a h' z' s' q' a' : ℕ} {l : Bool} {place : Place}
    → h' ≡ h
    → z' ≡ z
    → s' ≡ s
    → q' ≡ q
    → a' ≡ a
    → Balance o l place n h z s q a
    → Balance o l place n h' z' s' q' a'
recount eh ez es eq ea c = record {
  mutex = omega (arith, c.mutex);
  in_round = omega (arith, c.in_round);
  full = elim c.full [ inl e ↦ inl e | inr e ↦ inr (omega arith) ];
  empty = elim c.empty [ inl e ↦ inl (omega arith) | inr e ↦ inr (omega arith) ];
}

-- The numbers with one consumer apart.
module _ (o n : ℕ) (l : Bool) (place : Place) (front back : List Worker) (w : Worker) where
  Apart : Type 0
  Apart =
      Balance o l place n
        (count (λ v. holds v.place) front + count (λ v. holds v.place) back + holds w.place)
        (count (λ v. overdue v.place v.left) front
          + count (λ v. overdue v.place v.left) back
          + overdue w.place w.left)
        (count (λ v. to_signal v.place) front
          + count (λ v. to_signal v.place) back
          + to_signal w.place)
        (count (λ v. queued v.place) front + count (λ v. queued v.place) back + queued w.place)
        (count (λ v. coming v.place) front + count (λ v. coming v.place) back + coming w.place)

  Together : Type 0
  Together =
      let ws = front ++ (w ∷ back) in
      Balance o l place n (holding ws) (late ws) (signalling ws) (queueing ws) (arriving ws)

  apart : Together → Apart
  unfolding Together Apart
  apart c =
      recount (sym (count-append (λ v. holds v.place) front back w))
        (sym (count-append (λ v. overdue v.place v.left) front back w))
        (sym (count-append (λ v. to_signal v.place) front back w))
        (sym (count-append (λ v. queued v.place) front back w))
        (sym (count-append (λ v. coming v.place) front back w)) c

  together : Apart → Together
  unfolding Together Apart
  together c =
      recount (count-append (λ v. holds v.place) front back w)
        (count-append (λ v. overdue v.place v.left) front back w)
        (count-append (λ v. to_signal v.place) front back w)
        (count-append (λ v. queued v.place) front back w)
        (count-append (λ v. coming v.place) front back w) c

pub Step-Invariant : (m n : Monitor) → Invariant m → Step m n → Invariant n
unfolding Together Apart
Step-Invariant m n c (producing t ws e sig) =
    let k = Signalled-Kept t.signals m.consumers ws sig in
    recount k.held k.overdue k.signallers refl refl (
      producer-Balance m.buffer (holding m.consumers) (late m.consumers) (signalling m.consumers)
        (queueing m.consumers) (arriving m.consumers) _ _ m.locked m.producer.place m.producer.left
        t (turn-Moves producer_loop m.buffer m.locked m.producer t e) k.woken c)
Step-Invariant m n c (consuming front back w t same e) =
    together t.buffer.occupied m.producer.left t.locked (wake_to t.signals m.producer.place) front
      back t.worker
      (consumer-Balance m.buffer _ _ _ _ _ m.locked m.producer.place m.producer.left w.place w.left
        t (turn-Moves consumer_loop m.buffer m.locked w t e)
        (apart m.buffer.occupied m.producer.left m.locked m.producer.place front back w (
          subst
            (λ ws.
              Balance m.buffer.occupied m.locked m.producer.place m.producer.left (holding ws)
                (late ws) (signalling ws) (queueing ws) (arriving ws))
            same c)))

pub monitor-Invariant : Invariant monitor
monitor-Invariant = record { mutex = refl; in_round = refl; full = inl refl; empty = inl refl }

pub Steps-Invariant : (m n : Monitor) → Invariant m → Steps m n → Invariant n
Steps-Invariant m n c here = c
Steps-Invariant m n c (next {n = k} before last) =
    Step-Invariant k n (Steps-Invariant m k c before) last

pub bit_le : (locked : Bool) → bit locked ≤ 1
bit_le locked = ground arith

-- In every state that is reached from the start at most one thread is between its lock and its
-- unlock and not in the queue, and the mutex is locked exactly when one is.
pub Steps-exclusive :
    (m : Monitor)
    → Steps monitor m
    → (holds m.producer.place + holding m.consumers ≤ 1)
      × (bit m.locked ≡ holds m.producer.place + holding m.consumers)
Steps-exclusive m path =
    let c = Steps-Invariant monitor m monitor-Invariant path in
    (omega (arith, c.mutex, bit_le m.locked), c.mutex)
