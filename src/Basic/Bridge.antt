-- ===== src/Basic/Bridge.antt =====
-- The passage between the App and the enclave, which the stubs that the SDK generates from
-- Enclave/Edger8rSyntax/*.edl make: a parameter.
use sgx_experiments.Prelude.{ℕ, Bool, List, [], ◌∷◌, Option, none, some, if◌then◌else◌}

-- The attributes of a pointer or an array. With `user_check` the callee works on the buffer of the
-- caller; otherwise the stubs make a buffer of the same size, which they fill with `[in]` and copy
-- back with `[out]`.
pub data Direction : Type 0 where
  user_check in_only out_only in_out : Direction

-- A call on a buffer of the caller. The callee is given a buffer and whether it is the caller's own,
-- and leaves it changed, or aborts (`none`); the caller has its buffer after the call, or learns that
-- the call did not succeed (`none`).
pub record Bridge : Type 0 where
  pub transfer : Direction → (Bool → List ℕ → Option (List ℕ)) → List ℕ → Option (List ℕ)

-- A call that has to succeed (`abort` otherwise), and the assertion on the buffer after it.
abbrev pub expect : Option (List ℕ) → (List ℕ → Bool) → Option (Unit {0})
expect none ok = none
expect (some xs) ok = if ok xs then some tt else none

-- One after the other.
abbrev pub in_order : List (Option (Unit {0})) → Option (Unit {0})
in_order [] = some tt
in_order (none ∷ rest) = none
in_order (some u ∷ rest) = in_order rest
