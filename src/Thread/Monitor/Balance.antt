-- ===== src/Thread/Monitor/Balance.antt =====
-- What the mutex, the queues and the buffer keep to each other, in numbers.
use sgx_experiments.Prelude.{ℕ, zero, ◌+◌, ◌≤◌, ◌≡◌, refl, ◌⊎◌, inl, Bool, true, false, arith}
use sgx_experiments.Thread.Buffer.{CondBuffer}
use sgx_experiments.Thread.Monitor.{
  Place, at_test, in_queue, woken, before_write, before_advance, before_wrap, before_count,
  before_signal, before_unlock, Turn, producer_loop, consumer_loop, queued, wake_to, wake_place,
}
use sgx_experiments.Thread.Monitor.Moves.{
  Moves, locks, relocks, waits, passes, writes, advances, wraps, changes, signals, unlocks,
}

abbrev pub bit : Bool → ℕ
bit true = 1
bit false = 0

-- A thread that has the mutex, that is on its way to the change of `occupied`, that is to signal, and
-- one in the middle of a round with no round left.
abbrev pub holds : Place → ℕ
holds at_test = 1
holds before_write = 1
holds before_advance = 1
holds before_wrap = 1
holds before_count = 1
holds before_signal = 1
holds before_unlock = 1
holds _ = 0

abbrev pub coming : Place → ℕ
coming at_test = 1
coming before_write = 1
coming before_advance = 1
coming before_wrap = 1
coming before_count = 1
coming woken = 1
coming _ = 0

abbrev pub to_signal : Place → ℕ
to_signal before_signal = 1
to_signal _ = 0

abbrev pub overdue : Place → ℕ → ℕ
overdue at_test zero = 1
overdue in_queue zero = 1
overdue woken zero = 1
overdue before_write zero = 1
overdue before_advance zero = 1
overdue before_wrap zero = 1
overdue before_count zero = 1
overdue _ _ = 0

-- The producer stands at `place`; of the consumers `h` have the mutex, `z` are overdue, `s` are to
-- signal, `q` are in the queue and `a` on their way to the change of `occupied`.
pub record Balance (occupied : ℕ) (locked : Bool) (place : Place) (left h z s q a : ℕ)
    : Type 0 where
  pub mutex : bit locked ≡ holds place + h
  pub in_round : overdue place left + z ≡ 0
  pub full : (queued place ≡ 0) ⊎ (50 ≤ occupied + s)
  pub empty : (q ≡ 0) ⊎ (occupied ≤ a + to_signal place)

-- A thread that is woken.
pub wake_place-holds : (place : Place) → holds (wake_place place) ≡ holds place
wake_place-holds place = ground arith

pub wake_place-overdue :
    (place : Place) (left : ℕ) → overdue (wake_place place) left ≡ overdue place left
wake_place-overdue place left = ground arith

pub wake_place-to_signal : (place : Place) → to_signal (wake_place place) ≡ to_signal place
wake_place-to_signal place = ground arith

pub wake_place-queued : (place : Place) → queued (wake_place place) ≡ 0
wake_place-queued place = ground arith

-- What a signal does to the queue.
abbrev pub Wakes : Bool → ℕ → ℕ → ℕ → ℕ → Type 0
Wakes false q a q' a' = (q' ≡ q) × (a' ≡ a)
Wakes true q a q' a' = ((q ≡ 0) × (q' ≡ q) × (a' ≡ a)) ⊎ ((q' + 1 ≡ q) × (a' ≡ a + 1))

module _ (b : CondBuffer) (h z s q a : ℕ) where
  pub producer-Balance :
      (q' a' : ℕ) (l : Bool) (place : Place) (n : ℕ) (t : Turn)
      → Moves producer_loop b l place n t
      → Wakes t.signals q a q' a'
      → Balance b.occupied l place n h z s q a
      → Balance t.buffer.occupied t.locked t.worker.place t.worker.left h z s q' a'
  producer-Balance q' a' l place n t (locks m) w c = record {
    mutex = omega (arith, c.mutex);
    in_round = omega (arith, c.in_round);
    full = inl refl;
    empty = ground (arith, c.empty);
  }
  producer-Balance q' a' l place n t (relocks m) w c = record {
    mutex = omega (arith, c.mutex);
    in_round = ground (arith, c.in_round);
    full = inl refl;
    empty = ground (arith, c.empty);
  }
  producer-Balance q' a' l place n t (waits k m e) w c = record {
    mutex = ground (arith, c.mutex);
    in_round = ground (arith, c.in_round);
    full = ground (arith, e);
    empty = ground (arith, c.empty);
  }
  producer-Balance q' a' l place n t (passes k m e) w c = record {
    mutex = omega (arith, c.mutex);
    in_round = ground (arith, c.in_round);
    full = inl refl;
    empty = ground (arith, c.empty);
  }
  producer-Balance q' a' l place n t (writes k m) w c = record {
    mutex = omega (arith, c.mutex);
    in_round = ground (arith, c.in_round);
    full = inl refl;
    empty = ground (arith, c.empty);
  }
  producer-Balance q' a' l place n t (advances k m) w c = record {
    mutex = omega (arith, c.mutex);
    in_round = ground (arith, c.in_round);
    full = inl refl;
    empty = ground (arith, c.empty);
  }
  producer-Balance q' a' l place n t (wraps k m) w c = record {
    mutex = omega (arith, c.mutex);
    in_round = ground (arith, c.in_round);
    full = inl refl;
    empty = ground (arith, c.empty);
  }
  producer-Balance q' a' l place n t (changes k m) w c = record {
    mutex = omega (arith, c.mutex);
    in_round = ground (arith, c.in_round);
    full = inl refl;
    empty = ground (arith, c.empty);
  }
  producer-Balance q' a' l place n t (signals k m) w c = record {
    mutex = omega (arith, c.mutex);
    in_round = ground (arith, c.in_round);
    full = inl refl;
    empty = ground (arith, c.empty);
  }
  producer-Balance q' a' l place n t (unlocks k m) w c = record {
    mutex = ground (arith, c.mutex);
    in_round = ground (arith, c.in_round);
    full = inl refl;
    empty = ground (arith, c.empty);
  }

  -- The same for a consumer, which stands at `place`; the producer stands at `other`.
  pub consumer-Balance :
      (l : Bool) (other : Place) (left : ℕ) (place : Place) (n : ℕ) (t : Turn)
      → Moves consumer_loop b l place n t
      → Balance b.occupied l other left
          (h + holds place)
          (z + overdue place n)
          (s + to_signal place)
          (q + queued place)
          (a + coming place)
      → Balance t.buffer.occupied t.locked
          (wake_to t.signals other)
          left
          (h + holds t.worker.place)
          (z + overdue t.worker.place t.worker.left)
          (s + to_signal t.worker.place)
          (q + queued t.worker.place)
          (a + coming t.worker.place)
  consumer-Balance l other left place n t (locks m) c = record {
    mutex = omega (arith, c.mutex);
    in_round = omega (arith, c.in_round);
    full = ground (arith, c.full);
    empty = ground (arith, c.empty);
  }
  consumer-Balance l other left place n t (relocks m) c = record {
    mutex = omega (arith, c.mutex);
    in_round = ground (arith, c.in_round);
    full = ground (arith, c.full);
    empty = ground (arith, c.empty);
  }
  consumer-Balance l other left place n t (waits k m e) c = record {
    mutex = ground (arith, c.mutex);
    in_round = ground (arith, c.in_round);
    full = ground (arith, c.full);
    empty = ground (arith, e);
  }
  consumer-Balance l other left place n t (passes k m e) c = record {
    mutex = omega (arith, c.mutex);
    in_round = ground (arith, c.in_round);
    full = ground (arith, c.full);
    empty = ground (arith, c.empty);
  }
  consumer-Balance l other left place n t (writes k m) c = record {
    mutex = omega (arith, c.mutex);
    in_round = ground (arith, c.in_round);
    full = ground (arith, c.full);
    empty = ground (arith, c.empty);
  }
  consumer-Balance l other left place n t (advances k m) c = record {
    mutex = omega (arith, c.mutex);
    in_round = ground (arith, c.in_round);
    full = ground (arith, c.full);
    empty = ground (arith, c.empty);
  }
  consumer-Balance l other left place n t (wraps k m) c = record {
    mutex = omega (arith, c.mutex);
    in_round = ground (arith, c.in_round);
    full = ground (arith, c.full);
    empty = ground (arith, c.empty);
  }
  consumer-Balance l other left place n t (changes k m) c = record {
    mutex = omega (arith, c.mutex);
    in_round = ground (arith, c.in_round);
    full = ground (arith, c.full);
    empty = ground (arith, c.empty);
  }
  consumer-Balance l other left place n t (signals k m) c = record {
    mutex = omega (arith, c.mutex, wake_place-holds other);
    in_round = omega (arith, c.in_round, wake_place-overdue other left);
    full = inl (wake_place-queued other);
    empty = rw (wake_place-to_signal other) c.empty;
  }
  consumer-Balance l other left place n t (unlocks k m) c = record {
    mutex = ground (arith, c.mutex);
    in_round = ground (arith, c.in_round);
    full = ground (arith, c.full);
    empty = ground (arith, c.empty);
  }
