-- ===== src/Basic/Main/Description.antt =====
-- What `main` does, told by which calls succeed.
use sgx_experiments.Prelude.{
  ℕ, ◌≡◌, refl, inl, inr, Bool, true, false, Bool-cases, [], ◌∷◌, ◌++◌, map, none, some, ◌==◌,
  if◌then◌else◌,
}
use sgx_experiments.Prelude.Int.{ℤ, pos, negsuc}
use sgx_experiments.Prelude.Effects.{Outcome, done, stop, crash}
use sgx_experiments.Basic.Functions.{is_sgx_success}
use sgx_experiments.Basic.Errors.{LoadStatus, number, print_error_message, initialize_enclave-if}
use sgx_experiments.Basic.Main.{
  Stubs, Writes, adding, subtracting, multiplying, dividing, loading, result, returned, prompt,
  MainState, load, call, unload, main, fresh,
}

-- A value that is shown: the new one after a call that succeeds, and else the one before.
abbrev shown : Bool → ℤ → ℤ → ℤ
shown true new old = new
shown false new old = old

-- The state at the end, when the first call succeeds, by whether the other three do and whether the
-- enclave is destroyed.
abbrev pub calculated : Bool → Bool → Bool → Bool → MainState
calculated ok1 ok2 ok3 destroyed =
    let difference = shown ok1 (negsuc 1) (pos 8) in
    let product = shown ok2 (pos 15) difference in
    let quotient = shown ok3 (pos 0) product in
    record {
      r = some quotient;
      enclaves = if destroyed then 0 else 1;
      printed =
          result adding (pos 8)
          ∷ result subtracting difference
          ∷ result multiplying product
          ∷ result dividing quotient
          ∷ returned
          ∷ prompt
          ∷ [];
    }

-- The run of `main`, by the status of the load and of the calls.
abbrev pub described : LoadStatus → Bool → MainState → Outcome ℤ × MainState
described ret ok0 end =
    if number ret == 0
    then if ok0 then (done (pos 0), end) else (crash, record fresh { enclaves = 1 })
    else (
      stop (negsuc 0),
      record fresh { printed = map loading (print_error_message ret) ++ (prompt ∷ []) },
    )

module _ (p : Stubs) (w : Writes p) where
  -- What a later call leaves in `r`.
  later_result :
      (n : ℕ) (new old : ℤ)
      → p.result n (some new) (some old) ≡ some (shown (is_sgx_success (p.status n)) new old)
  later_result n new old = elim (Bool-cases (is_sgx_success (p.status n))) [
    | inl e ↦ rw e (w.written n new (some old) e)
    | inr e ↦ rw e (w.kept n (some new) (some old) e)
  ]

  -- When a call that succeeds writes its result and one that fails leaves the variable, main of
  -- the basic App ends with -1 and the lines of the error when the enclave is not created; runs
  -- into undefined behaviour when the first call fails, since it prints a variable that is not
  -- written; and else ends with 0, prints for each later call its result, or, when it fails, the
  -- value before, and holds no enclave when the destruction succeeds.
  pub main-described :
      main p fresh
      ≡ described p.create (is_sgx_success (p.status 0)) (
          calculated
            (is_sgx_success (p.status 1))
            (is_sgx_success (p.status 2))
            (is_sgx_success (p.status 3))
            (is_sgx_success p.destroy))
  unfolding main load call unload
  main-described = elim (Bool-cases (number p.create == 0)) [
    | inr e ↦ simp (initialize_enclave-if, e) refl
    | inl e ↦ elim (Bool-cases (is_sgx_success (p.status 0))) [
      | inr k ↦ simp (initialize_enclave-if, e, w.kept 0 (some (pos 8)) none k, k) refl
      | inl k ↦ simp (initialize_enclave-if, e, w.written 0 (pos 8) none k, k, later_result) refl
    ]
  ]
