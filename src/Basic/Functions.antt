-- ===== src/Basic/Functions.antt =====
-- Enclave/Edger8rSyntax/Functions.cpp and App/Edger8rSyntax/Functions.cpp: a public call, and a
-- private one that is allowed only while the enclave waits in `ocall_function_allow`.
use sgx_experiments.Prelude.{
  ℕ, Bool, true, false, not, ◌&&◌, [], ◌∷◌, Option, none, some, ◌==◌, if◌then◌else◌,
}
use sgx_experiments.Basic.Bridge.{in_order}

-- `sgx_status_t`, as far as the source names it.
pub data EcallStatus : Type 0 where
  sgx_success : EcallStatus
  sgx_error_ecall_not_allowed : EcallStatus
  sgx_error_other : ℕ → EcallStatus

abbrev pub is_sgx_success : EcallStatus → Bool
is_sgx_success sgx_success = true
is_sgx_success sgx_error_ecall_not_allowed = false
is_sgx_success (sgx_error_other n) = false

abbrev pub is_not_allowed : EcallStatus → Bool
is_not_allowed sgx_success = false
is_not_allowed sgx_error_ecall_not_allowed = true
is_not_allowed (sgx_error_other n) = false

-- The generated stub of `ecall_function_private`, a parameter: whether the enclave waits in an OCALL
-- that allows the call, what the function returns, and the variable for its result before the call;
-- the status, and the variable afterwards.
pub record Gate : Type 0 where
  pub call_private : Bool → ℕ → ℕ → EcallStatus × ℕ

unfoldable pub ecall_function_private : ℕ
ecall_function_private = 1

-- `abort` is `none`.
unfoldable pub ocall_function_allow : Gate → Option (Unit {0})
unfolding ecall_function_private
ocall_function_allow g =
    let (ret, runned) = g.call_private true ecall_function_private 0 in
    if is_sgx_success ret && runned == 1 then some tt else none

unfoldable pub ecall_function_public : Gate → Option (Unit {0})
unfolding ocall_function_allow
ecall_function_public g = ocall_function_allow g

abbrev pub call_outside : Gate → Option (Unit {0})
call_outside g =
    let (ret, runned) = g.call_private false ecall_function_private 0 in
    if not (is_not_allowed ret) then none else if runned == 0 then some tt else none

unfoldable pub edger8r_function_attributes : Gate → Option (Unit {0})
unfolding ecall_function_public
edger8r_function_attributes g = in_order (ecall_function_public g ∷ call_outside g ∷ [])
