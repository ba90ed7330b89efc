-- ===== src/Tests/Enclaves.antt =====
-- The theorems about the two enclaves, at concrete calls.
use sgx_experiments.Prelude.{
  ℕ, true, inl, List, ◌≡◌, ◌↔◌, refl, [], ◌∷◌, some, Bytes, get_elem?, replicate, arith,
}
use sgx_experiments.Prelude.Int.{negsuc}
use sgx_experiments.RaEnclave.{
  Sdk, sgx_success, sgx_error_unexpected, sgx_error_mac_mismatch, verify_att_result_mac,
  put_secret_data,
}
use sgx_experiments.RaEnclave.Verdict.{
  Authentic, verify_att_result_mac_iff, Delivered, put_secret_data_iff, put_secret_data-masks,
}
use sgx_experiments.Basic.Arrays.{upwards, downwards, ecall_array_isary, ecall_array_isary_iff}
use sgx_experiments.Basic.Checksum.{counted, ecall_pointer_count, ecall_pointer_count-get}
use sgx_experiments.Basic.Errors.{
  sgx_error_no_device, error_message, last_line, initialize_enclave, initialize_enclave-reports,
}
use sgx_experiments.Tests.Data.{test_mac, test_sdk}

abbrev message : Bytes
message = replicate 40 8

abbrev mac : Bytes
mac = test_mac (replicate 16 1) message

verify_att_result_mac_iff_example :
    (verify_att_result_mac test_sdk 3 message 40 mac 16 ≡ sgx_success)
    ↔ Authentic test_sdk 3 message 40 mac 16
verify_att_result_mac_iff_example = verify_att_result_mac_iff test_sdk 3 message 40 mac 16

abbrev expected_secret : Bytes
expected_secret = 0 ∷ 1 ∷ 2 ∷ 3 ∷ 4 ∷ 5 ∷ 6 ∷ 7 ∷ []

put_secret_data_iff_example :
    (put_secret_data test_sdk 3 expected_secret 8 mac (replicate 8 0)
      ≡ (sgx_success, expected_secret))
    ↔ Delivered test_sdk 3 expected_secret 8 mac (replicate 8 0) expected_secret
put_secret_data_iff_example =
    put_secret_data_iff test_sdk 3 expected_secret 8 mac (replicate 8 0) expected_secret

-- An SDK whose decryption always finds a wrong tag.
abbrev refusing_sdk : Sdk
refusing_sdk = record test_sdk {
  rijndael128_gcm_decrypt = λ key cipher before iv tag. (sgx_error_mac_mismatch, before);
}

put_secret_data-masks_example :
    put_secret_data refusing_sdk 3 expected_secret 8 mac (replicate 8 0)
    ≡ (sgx_error_unexpected, replicate 8 0)
put_secret_data-masks_example =
    put_secret_data-masks refusing_sdk 3 expected_secret mac (replicate 8 0) (replicate 8 0)
      (replicate 16 2) sgx_error_mac_mismatch refl refl (λ e. ground arith)

ecall_pointer_count-get_example :
    (out : List ℕ) × (ecall_pointer_count (replicate 10 0) 8 ≡ some out)
    × (get_elem? out 3 ≡ counted (replicate 10 0) 8 3)
ecall_pointer_count-get_example =
    ecall_pointer_count-get (replicate 10 0) 8 3 (inl (omega arith, omega arith))

ecall_array_isary_iff_example :
    (ecall_array_isary 4 true (0 ∷ 1 ∷ 2 ∷ 3 ∷ []) ≡ some (3 ∷ 2 ∷ 1 ∷ 0 ∷ []))
    ↔ ((0 ∷ 1 ∷ 2 ∷ 3 ∷ [] ≡ upwards 0 4) × (3 ∷ 2 ∷ 1 ∷ 0 ∷ [] ≡ downwards 4 0 4))
ecall_array_isary_iff_example =
    ecall_array_isary_iff 4 (0 ∷ 1 ∷ 2 ∷ 3 ∷ []) (3 ∷ 2 ∷ 1 ∷ 0 ∷ []) refl

initialize_enclave-reports_example :
    ((initialize_enclave sgx_error_no_device).0 ≡ negsuc 0)
    × (last_line (initialize_enclave sgx_error_no_device).1
        ≡ some (error_message sgx_error_no_device))
initialize_enclave-reports_example = initialize_enclave-reports sgx_error_no_device
