-- ===== src/Thread/Counter/Finish.antt =====
-- The steps that a schedule gives to each adder.
use sgx_experiments.Prelude.{
  ℕ, zero, suc, ◌+◌, ◌-◌, ◌<◌, ◌≤◌, ◌≡◌, refl, ap, ◌∙◌, length, ◌⊎◌, inl, false, List, [], ◌∷◌,
  ◌==◌, if◌then◌else◌, arith,
}
use sgx_experiments.Thread.Counter.{
  Adder, Counters, ecall_increase_counter_round, increase_counter_return, adder_step, step, run,
  adder, adders, counters, remaining, remaining_at, AllReturned,
}
use sgx_experiments.Thread.Counter.Exact.{run-exact}

-- The steps that a schedule gives to thread `j`.
abbrev pub count : ℕ → List ℕ → ℕ
count j [] = 0
count j (i ∷ schedule) = (if i == j then 1 else 0) + count j schedule

-- A thread that has returned is done; one that has rounds left has not returned.
abbrev IsOpen : Adder → Type 0
IsOpen a = (a.returned ≡ false) ⊎ (a.left ≡ 0)

abbrev AllOpen : List Adder → Type 0
AllOpen [] = Unit {0}
AllOpen (a ∷ others) = IsOpen a × AllOpen others

adder_step-remaining :
    (c : Counters) (a : Adder)
    → IsOpen a
    → IsOpen (adder_step c a).1 × (remaining (adder_step c a).1 ≡ remaining a - 1)
unfolding adder_step ecall_increase_counter_round increase_counter_return
adder_step-remaining c a h = ground arith

step-remaining :
    (i j : ℕ) (c : Counters) (xs : List Adder)
    → AllOpen xs
    → AllOpen (step i c xs).1
      × (remaining_at j (step i c xs).1 ≡ remaining_at j xs - (if i == j then 1 else 0))
unfolding step
step-remaining i j c [] h = (tt, omega arith)
step-remaining zero zero c (a ∷ others) (h, hs) =
    let (o, e) = adder_step-remaining c a h in ((o, hs), e)
step-remaining zero (suc j) c (a ∷ others) (h, hs) =
    (((adder_step-remaining c a h).0, hs), ground arith)
step-remaining (suc i) zero c (a ∷ others) (h, hs) =
    ((h, (step-remaining i 0 c others hs).0), ground arith)
step-remaining (suc i) (suc j) c (a ∷ others) (h, hs) =
    let (o, e) = step-remaining i j c others hs in ((h, o), ground arith)

run-remaining :
    (schedule : List ℕ) (j : ℕ) (c : Counters) (xs : List Adder)
    → AllOpen xs
    → remaining_at j (run schedule c xs).1 ≡ remaining_at j xs - count j schedule
unfolding run
run-remaining [] j c xs h = omega arith
run-remaining (i ∷ schedule) j c xs h =
    let (o, e) = step-remaining i j c xs h in
    let rest = run-remaining schedule j (step i c xs).0 (step i c xs).1 o in ground arith

step-length : (i : ℕ) (c : Counters) (xs : List Adder) → length (step i c xs).1 ≡ length xs
unfolding step
step-length i c [] = refl
step-length zero c (a ∷ others) = refl
step-length (suc i) c (a ∷ others) = ap suc (step-length i c others)

run-length :
    (schedule : List ℕ) (c : Counters) (xs : List Adder) → length (run schedule c xs).1 ≡ length xs
unfolding run
run-length [] c xs = refl
run-length (i ∷ schedule) c xs =
    run-length schedule (step i c xs).0 (step i c xs).1 ∙ step-length i c xs

none_remaining :
    (xs : List Adder) → ((j : ℕ) → j < length xs → remaining_at j xs ≡ 0) → AllReturned xs
none_remaining [] h = tt
none_remaining (a ∷ others) h =
    (ground (arith, h 0 (omega arith)), none_remaining others (λ j l. h (suc j) (omega arith)))

-- A schedule with at least 501 steps of each of the four threads ends with the enclave's counter
-- and the App's counter at 2000.
pub run-counter :
    (schedule : List ℕ)
    → ((j : ℕ) → j < 4 → 501 ≤ count j schedule)
    → ((run schedule counters adders).0.global_counter ≡ 2000)
      × ((run schedule counters adders).0.counter ≡ 2000)
run-counter schedule fair = run-exact schedule (
    none_remaining (run schedule counters adders).1 λ j l.
      let small : j < 4 = omega (arith, run-length schedule counters adders) in
      let e = run-remaining schedule j counters adders open_all in
      let f = fair j small in let g = at_start j small in omega arith)
  where
    is_open : IsOpen adder
    is_open = inl refl

    open_all : AllOpen adders
    open_all = (is_open, (is_open, (is_open, (is_open, tt))))

    at_start : (j : ℕ) → j < 4 → remaining_at j adders ≡ 501
    at_start zero h = refl
    at_start (suc zero) h = refl
    at_start (suc (suc zero)) h = refl
    at_start (suc (suc (suc zero))) h = refl
    at_start (suc (suc (suc (suc j)))) h = absurd (omega arith)
