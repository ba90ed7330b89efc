-- ===== src/Thread/Counter/Exact.antt =====
-- The App's assertion `counter == 4*LOOPS_PER_THREAD`, for every schedule.
use sgx_experiments.Prelude.{
  ℕ, zero, suc, ◌+◌, ◌<◌, ◌≡◌, refl, ◌⊎◌, inl, false, List, [], ◌∷◌, if◌then◌else◌, arith,
}
use sgx_experiments.Thread.Counter.{
  Adder, Counters, ecall_increase_counter_round, increase_counter_return, adder_step, step, run,
  adder, adders, counters, AllReturned,
}

abbrev pub rounds_left : List Adder → ℕ
rounds_left [] = 0
rounds_left (a ∷ others) = a.left + rounds_left others

-- What a thread still has to hand to the App.
abbrev pub owed : Adder → ℕ
owed a = if a.returned then 0 else a.ret

abbrev pub owed_all : List Adder → ℕ
owed_all [] = 0
owed_all (a ∷ others) = owed a + owed_all others

-- A result is zero or the whole count, and a thread that has returned has no rounds left.
abbrev pub IsSound : Adder → Type 0
IsSound a = ((a.ret ≡ 0) ⊎ (a.ret ≡ 2000)) × ((a.returned ≡ false) ⊎ (a.left ≡ 0))

abbrev pub AllSound : List Adder → Type 0
AllSound [] = Unit {0}
AllSound (a ∷ others) = IsSound a × AllSound others

-- The rounds that are done and those left make the whole count; before the last round nothing is
-- owed, and from then on exactly the whole count is owed or has arrived.
abbrev pub Balance : Counters → ℕ → ℕ → Type 0
Balance c left owing =
    (c.global_counter + left ≡ 2000)
    × (((c.global_counter < 2000) × (owing + c.counter ≡ 0))
        ⊎ ((c.global_counter ≡ 2000) × (owing + c.counter ≡ 2000)))

pub adder_step-Balance :
    (c : Counters) (a : Adder) (left owing : ℕ)
    → IsSound a
    → Balance c (a.left + left) (owed a + owing)
    → let (c', a') = adder_step c a in IsSound a' × Balance c' (a'.left + left) (owed a' + owing)
unfolding adder_step ecall_increase_counter_round increase_counter_return
adder_step-Balance c a left owing sound balance = ground arith

-- Sums with the other threads in front.
pub step-Balance :
    (i : ℕ) (c : Counters) (xs : List Adder) (left owing : ℕ)
    → AllSound xs
    → Balance c (rounds_left xs + left) (owed_all xs + owing)
    → let (c', xs') = step i c xs in
      AllSound xs' × Balance c' (rounds_left xs' + left) (owed_all xs' + owing)
unfolding step
step-Balance i c [] left owing sounds balance = (tt, balance)
step-Balance zero c (a ∷ xs) left owing (sound, sounds) balance =
    let (s, b) =
      adder_step-Balance c a (rounds_left xs + left) (owed_all xs + owing) sound (omega arith) in
    ((s, sounds), omega arith)
step-Balance (suc i) c (a ∷ xs) left owing (sound, sounds) balance =
    let (s, b) = step-Balance i c xs (a.left + left) (owed a + owing) sounds (omega arith) in
    ((sound, s), omega arith)

pub run-Balance :
    (schedule : List ℕ) (c : Counters) (xs : List Adder)
    → AllSound xs
    → Balance c (rounds_left xs + 0) (owed_all xs + 0)
    → let (c', xs') = run schedule c xs in
      AllSound xs' × Balance c' (rounds_left xs' + 0) (owed_all xs' + 0)
unfolding run
run-Balance [] c xs sounds balance = (sounds, balance)
run-Balance (i ∷ schedule) c xs sounds balance =
    let (s, b) = step-Balance i c xs 0 0 sounds balance in
    run-Balance schedule (step i c xs).0 (step i c xs).1 s b

pub all_returned_lem :
    (xs : List Adder) → AllSound xs → AllReturned xs → (rounds_left xs ≡ 0) × (owed_all xs ≡ 0)
all_returned_lem [] _ _ = (refl, refl)
all_returned_lem (a ∷ others) (sound, sounds) (returned, all) =
    let (l, o) = all_returned_lem others sounds all in ground arith

pub start-Balance :
    AllSound adders × Balance counters (rounds_left adders + 0) (owed_all adders + 0)
start-Balance = ((sound, (sound, (sound, (sound, tt)))), (refl, inl (omega arith, refl)))
  where
    sound : IsSound adder
    sound = (inl refl, inl refl)

-- When all four threads have returned, whatever the schedule was, the enclave has counted to 2000
-- and the App's counter is 2000.
pub run-exact :
    (schedule : List ℕ)
    → AllReturned (run schedule counters adders).1
    → ((run schedule counters adders).0.global_counter ≡ 2000)
      × ((run schedule counters adders).0.counter ≡ 2000)
run-exact schedule all =
    let (s, b) = run-Balance schedule counters adders start-Balance.0 start-Balance.1 in
    let (l, o) = all_returned_lem (run schedule counters adders).1 s all in ground arith
