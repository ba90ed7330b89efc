-- ===== src/Basic/Main.antt =====
-- `main` of code-experiments/basic-enclave/App/App.cpp, with its four calls of the arithmetic of
-- the enclave. The SDK is a parameter: the result of `sgx_create_enclave`, the generated stubs, and
-- the result of `sgx_destroy_enclave`.
pub mod Description
use sgx_experiments.Prelude.{
  ℕ, ◌+◌, ◌-◌, ◌≡◌, true, false, List, [], ◌∷◌, ◌++◌, map, Option, none, some, if◌then◌else◌,
}
use sgx_experiments.Prelude.Int.{ℤ, pos, negsuc, ltb_ℤ}
use sgx_experiments.Prelude.Effects.{done, stop, crash, M, ◌>>◌}
use sgx_experiments.Basic.Functions.{EcallStatus, is_sgx_success}
use sgx_experiments.Basic.Errors.{LoadStatus, Line, initialize_enclave}
use sgx_experiments.Basic.Arithmetic.{add, subtract, multiply, divide}

-- A stub is told how many calls were made before, what the function of the enclave gives (`none`
-- when it is undefined), and what `r` holds (`none` before it is written); it returns a status and
-- leaves `r`.
pub record Stubs : Type 0 where
  pub create : LoadStatus
  pub status : ℕ → EcallStatus
  pub result : ℕ → Option ℤ → Option ℤ → Option ℤ
  pub destroy : EcallStatus

-- What the documentation says of a call that returns an `int`: a call that succeeds writes the
-- result, and one that does not leaves the variable.
pub record Writes (p : Stubs) : Type 0 where
  pub written :
      (n : ℕ) (c : ℤ) (before : Option ℤ)
      → is_sgx_success (p.status n) ≡ true
      → p.result n (some c) before ≡ some c
  pub kept :
      (n : ℕ) (c : Option ℤ) (before : Option ℤ)
      → is_sgx_success (p.status n) ≡ false
      → p.result n c before ≡ before

pub data Operation : Type 0 where
  adding subtracting multiplying dividing : Operation

-- What `main` prints.
pub data Output : Type 0 where
  loading : Line → Output
  result : Operation → ℤ → Output
  returned : Output
  prompt : Output

-- The variable `r`, the enclaves that are not destroyed, and what is printed so far.
pub record MainState : Type 0 where
  pub r : Option ℤ
  pub enclaves : ℕ
  pub printed : List Output

abbrev pub print : List Output → MainState → MainState
print lines s = record s { printed = s.printed ++ lines }

-- `if (initialize_enclave() < 0) { …; return -1; }`
unfoldable pub load : Stubs → M MainState (Unit {0})
load p s =
    let (ret, lines) = initialize_enclave p.create in
    if ltb_ℤ ret (pos 0)
    then (stop (negsuc 0), print (map loading lines ++ (prompt ∷ [])) s)
    else (done tt, record s { enclaves = s.enclaves + 1 })

-- A call, whose status is not looked at, and the line with `r`: to read `r` before it is written is
-- undefined.
abbrev pub print_result : Operation → M MainState (Unit {0})
print_result op s = elim s.r [ none ↦ (crash, s) | some v ↦ (done tt, print (result op v ∷ []) s) ]

unfoldable pub call : Stubs → ℕ → Operation → Option ℤ → M MainState (Unit {0})
call p n op c s = print_result op (record s { r = p.result n c s.r })

-- The end: the enclave is destroyed, and two lines are printed.
unfoldable pub unload : Stubs → M MainState ℤ
unload p s = (
  done (pos 0),
  print (returned ∷ prompt ∷ [])
      (record s { enclaves = if is_sgx_success p.destroy then s.enclaves - 1 else s.enclaves }),
)

abbrev pub a : ℤ
a = pos 3

abbrev pub b : ℤ
b = pos 5

unfoldable pub main : Stubs → M MainState ℤ
unfolding load call unload add subtract multiply divide
main p =
    load p
    >> (call p 0 adding (add a b)
        >> (call p 1 subtracting (subtract a b)
            >> (call p 2 multiplying (multiply a b)
                >> (call p 3 dividing (divide a (some b)) >> unload p))))

abbrev pub fresh : MainState
fresh = record { r = none; enclaves = 0; printed = [] }
