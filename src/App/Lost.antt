-- ===== src/App/Lost.antt =====
-- The loop that creates the enclave, and what is left of an enclave that was lost.
use sgx_experiments.Prelude.{ℕ, ◌≡◌, Bool, true, ◌&&◌, List, ◌∷◌, arith, if◌then◌else◌}
use sgx_experiments.Prelude.Effects.{Outcome, done, stop}
use sgx_experiments.Codes.{minus_one}
use sgx_experiments.RaEnclave.{succeeded, Sdk, enclave_init_ra}
use sgx_experiments.App.State.{Platform, App, is_lost}
use sgx_experiments.App.Steps.{do_while, create_enclave, init_ra, start_enclave}

module _ (supplied : Bool) (sdk : Sdk) (p : Platform) where
  -- Round `n`: the enclave, whether it was created, and whether it was lost in the call.
  abbrev pub enclave_of : ℕ → ℕ
  enclave_of n = (p.create_enclave n).1

  abbrev pub created : ℕ → Bool
  created n = succeeded (p.create_enclave n).0

  abbrev pub lost : ℕ → Bool
  lost n = is_lost (p.enter_init n)

  abbrev pub context_of : ℕ → ℕ
  context_of n = (enclave_init_ra supplied sdk n 0).1

  -- The call reached the enclave and succeeded in it.
  abbrev pub initialised : ℕ → Bool
  initialised n = succeeded (p.enter_init n) && succeeded (enclave_init_ra supplied sdk n 0).0

  -- The first round is not the last one when its enclave was created and lost; the enclave stays.
  abbrev pub is_repeated : Bool
  is_repeated = created 0 && lost 0

  abbrev pub left_behind : List ℕ → List ℕ
  left_behind before = if is_repeated then enclave_of 0 ∷ before else before

  -- Round `k` decides, where the enclaves `before` are there: the result, the enclaves that are
  -- held, and what the App knows of them.
  pub record StartedIn (before : List ℕ) (k : ℕ) (r : Outcome (Unit {0}) × App) : Type 0 where
    pub outcome : r.0 ≡ (if created k && initialised k then done tt else stop minus_one)
    pub held : r.1.enclaves ≡ (if created k then enclave_of k ∷ before else before)
    pub known : created k ≡ true → r.1.enclave_id ≡ enclave_of k
    pub opened : created k && initialised k ≡ true → r.1.context ≡ context_of k

  -- Whatever the calls give: a first enclave that is created and lost in the call of
  -- enclave_init_ra stays, and the second round decides, else the first; the loop and the test
  -- behind it succeed exactly when the deciding round creates an enclave and its call reaches it
  -- and succeeds, and else main goes to CLEANUP with -1; the enclaves that exist are those before,
  -- the one that was lost, and the one of the deciding round if it was created, whose identifier
  -- is the one that main keeps; after a success main has the context of the deciding round.
  pub start_enclave-StartedIn :
      (a : App)
      → StartedIn
          (left_behind a.enclaves)
          (if is_repeated then 1 else 0)
          (start_enclave supplied sdk p a)
  unfolding start_enclave do_while create_enclave init_ra
  start_enclave-StartedIn a = record {
    outcome = ground arith;
    held = ground arith;
    known = λ e. ground arith;
    opened = λ e. ground arith;
  }
