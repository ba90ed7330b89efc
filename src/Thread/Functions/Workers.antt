-- ===== src/Thread/Functions/Workers.antt =====
-- The producer and the consumers at their end.
use sgx_experiments.Prelude.{pick, ◌≡◌, refl, ◌⊎◌, inl, inr, eq-cases, List, [], ◌∷◌, map, arith}
use sgx_experiments.Thread.Buffer.Progress.{total, work}
use sgx_experiments.Thread.Monitor.{
  Place, before_lock, at_test, in_queue, woken, before_write, before_advance, before_wrap,
  before_count, before_signal, before_unlock, producer_loop, consumer_loop, Worker, Monitor, Step,
  rounds,
}
use sgx_experiments.Thread.Monitor.Balance.{holds, overdue}
use sgx_experiments.Thread.Monitor.Invariant.{Invariant, holding, late}
use sgx_experiments.Thread.Monitor.Progress.{holder_turns, producer_steps, consumer_steps}
use sgx_experiments.Thread.Functions.{Ended, AllEnded}

ended_place : (place : Place) → holds place ≡ 0 → overdue place 0 ≡ 0 → place ≡ before_lock
ended_place before_lock h o = refl
ended_place at_test h o = absurd (omega arith)
ended_place in_queue h o = absurd (omega arith)
ended_place woken h o = absurd (omega arith)
ended_place before_write h o = absurd (omega arith)
ended_place before_advance h o = absurd (omega arith)
ended_place before_wrap h o = absurd (omega arith)
ended_place before_count h o = absurd (omega arith)
ended_place before_signal h o = absurd (omega arith)
ended_place before_unlock h o = absurd (omega arith)

-- A thread with no round left that has no mutex and is not in the middle of a round.
ended_lem : (w : Worker) → w.left ≡ 0 → holds w.place ≡ 0 → overdue w.place w.left ≡ 0 → Ended w
ended_lem w l h o = (ended_place w.place h (rw l at o), l)

all_ended_lem :
    (ws : List Worker)
    → total (map (λ w. w.left) ws) ≡ 0
    → holding ws ≡ 0
    → late ws ≡ 0
    → AllEnded ws
all_ended_lem [] l h o = tt
all_ended_lem (w ∷ ws) l h o = (
  ended_lem w (omega arith) (omega arith) (omega arith),
  all_ended_lem ws (omega arith) (omega arith) (omega arith),
)

pub AllEnded-total : (ws : List Worker) → AllEnded ws → total (map (λ w. w.left) ws) ≡ 0
AllEnded-total [] h = refl
AllEnded-total (w ∷ ws) ((place, l), h) = omega (arith, AllEnded-total ws h)

-- When all rounds are made, all threads have ended, or one can take a step: it has the mutex, and
-- has to signal or to unlock.
pub joined_or_steps :
    (m : Monitor)
    → Invariant m
    → work (rounds m).1 ≡ 0
    → (Ended m.producer × AllEnded m.consumers) ⊎ ((n : Monitor) × Step m n)
joined_or_steps m c none_left = elim (eq-cases (holds m.producer.place) 0) [
  | inr n ↦
      let (t, k) =
        holder_turns producer_loop m.buffer m.locked m.producer.place m.producer.left
          (omega arith) in
      inr (producer_steps m t k)
  | inl z ↦ elim (eq-cases (holding m.consumers) 0) [
    | inr n ↦
        let (front, back, w, same, h) = pick (λ v. holds v.place) m.consumers (omega arith) in
        let (t, k) = holder_turns consumer_loop m.buffer m.locked w.place w.left h in
        inr (consumer_steps m front back w t same k)
    | inl zs ↦ inl (
      ended_lem m.producer (omega arith) z (omega (arith, c.in_round)),
      all_ended_lem m.consumers (omega arith) zs (omega (arith, c.in_round)),
    )
  ]
]
