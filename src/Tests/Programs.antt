-- ===== src/Tests/Programs.antt =====
-- The theorems about `main` and the library calls of the basic enclave, at concrete calls.
use sgx_experiments.Prelude.{
  ℕ, ◌+◌, ◌<◌, ◌≡◌, true, false, some, replicate, length, ◌==◌, if◌then◌else◌, arith,
}
use sgx_experiments.Prelude.Int.{pos}
use sgx_experiments.Basic.Functions.{EcallStatus, sgx_success, sgx_error_other}
use sgx_experiments.Basic.Errors.{LoadStatus}
use sgx_experiments.Basic.Main.{Stubs, Writes, main, fresh}
use sgx_experiments.Basic.Main.Description.{described, calculated, main-described}
use sgx_experiments.Basic.Output.{printf, fitting, printf-fits}

-- The third call, of multiply, fails.
abbrev test_status : ℕ → EcallStatus
test_status n = if n == 2 then sgx_error_other 1 else sgx_success

abbrev test_stubs : Stubs
test_stubs = record {
  create = LoadStatus.sgx_success;
  status = test_status;
  result = λ n c before. if n == 2 then before else c;
  destroy = sgx_success;
}

test_stubs-Writes : Writes test_stubs
test_stubs-Writes = record {
  written = λ n c before h. ground arith;
  kept = λ n c before h. ground arith;
}

main-described_example :
    main test_stubs fresh ≡ described LoadStatus.sgx_success true (calculated true false true true)
main-described_example = main-described test_stubs test_stubs-Writes

-- Five bytes into a buffer of four.
printf-fits_example :
    (printf 4 (replicate 5 b'a')
      ≡ (some (pos (length (fitting 4 (replicate 5 b'a')) + 1)), fitting 4 (replicate 5 b'a')))
    × (length (fitting 4 (replicate 5 b'a')) < 4)
printf-fits_example = printf-fits 4 (replicate 5 b'a') (omega arith) (omega arith)
