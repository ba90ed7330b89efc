-- ===== src/Basic/Floats.antt =====
-- `almost_equal` and the two calls on floating-point numbers of Enclave/Edger8rSyntax/Types.cpp. The
-- arithmetic of `float` and of `double` is a parameter.
use sgx_experiments.Prelude.{Bool, Option, some, none, if◌then◌else◌}

-- One of the two types: its operations and comparison, the machine epsilon,
-- ULP, and the constant that the App passes.
pub record Floating : Type 1 where
  pub F : Type 0
  pub plus : F → F → F
  pub minus : F → F → F
  pub times : F → F → F
  pub abs : F → F
  pub at_most : F → F → Bool
  pub epsilon : F
  pub ulp : F
  pub constant : F

module _ (f : Floating) where
  unfoldable pub almost_equal : f.F → f.F → Bool
  almost_equal x y =
      f.at_most (f.abs (f.minus x y)) (f.times (f.times f.epsilon (f.abs (f.plus x y))) f.ulp)

  -- `ecall_type_float` and `ecall_type_double`
  unfoldable pub ecall_type_floating : f.F → Option (Unit {0})
  unfolding almost_equal
  ecall_type_floating val = if almost_equal val f.constant then some tt else none
