-- ===== src/Codes.antt =====
-- The message types and return codes that the parts of the remote-attestation sample share:
-- code-experiments/attestation/remote/service_provider/network_ra.h, service_provider.h and
-- ias_ra.h, and sample_libcrypto/sample_libcrypto.h. An `int` that holds a code is an integer.
use sgx_experiments.Prelude.{ℕ, zero, suc, Bool, true, false}
use sgx_experiments.Prelude.Int.{ℤ, pos, negsuc}

-- `ra_msg_type_t`
pub data RaMsgType : Type 0 where
  type_ra_msg0 type_ra_msg1 type_ra_msg2 type_ra_msg3 type_ra_att_result : RaMsgType

-- The value of an enumerator, as it stands in the `type` byte of a header.
abbrev pub ra_msg_code : RaMsgType → ℕ
ra_msg_code type_ra_msg0 = 0
ra_msg_code type_ra_msg1 = 1
ra_msg_code type_ra_msg2 = 2
ra_msg_code type_ra_msg3 = 3
ra_msg_code type_ra_att_result = 4

-- `sp_ra_msg_status_t`
pub data SpRaMsgStatus : Type 0 where
  sp_ok : SpRaMsgStatus
  sp_unsupported_extended_epid_group : SpRaMsgStatus
  sp_integrity_failed : SpRaMsgStatus
  sp_quote_verification_failed : SpRaMsgStatus
  sp_ias_failed : SpRaMsgStatus
  sp_internal_error : SpRaMsgStatus
  sp_protocol_error : SpRaMsgStatus
  sp_quote_version_error : SpRaMsgStatus

-- The value of an enumerator, as the handlers return it in an `int`.
abbrev pub sp_code : SpRaMsgStatus → ℤ
sp_code sp_ok = pos 0
sp_code sp_unsupported_extended_epid_group = pos 1
sp_code sp_integrity_failed = pos 2
sp_code sp_quote_verification_failed = pos 3
sp_code sp_ias_failed = pos 4
sp_code sp_internal_error = pos 5
sp_code sp_protocol_error = pos 6
sp_code sp_quote_version_error = pos 7

-- The other failure code, -1.
abbrev pub minus_one : ℤ
minus_one = negsuc 0

-- `if (ret)`
abbrev pub is_nonzero : ℤ → Bool
is_nonzero (pos zero) = false
is_nonzero (pos (suc n)) = true
is_nonzero (negsuc n) = true

-- `ias_quote_status_t`
pub data IasQuoteStatus : Type 0 where
  ias_quote_ok : IasQuoteStatus
  ias_quote_signature_invalid : IasQuoteStatus
  ias_quote_group_revoked : IasQuoteStatus
  ias_quote_signature_revoked : IasQuoteStatus
  ias_quote_key_revoked : IasQuoteStatus
  ias_quote_sigrl_version_mismatch : IasQuoteStatus
  ias_quote_group_out_of_date : IasQuoteStatus

-- `ias_pse_status_t`
pub data IasPseStatus : Type 0 where
  ias_pse_ok : IasPseStatus
  ias_pse_desc_type_not_supported : IasPseStatus
  ias_pse_isvsvn_out_of_date : IasPseStatus
  ias_pse_miscselect_invalid : IasPseStatus
  ias_pse_attributes_invalid : IasPseStatus
  ias_pse_mrsigner_invalid : IasPseStatus
  ias_ps_hw_gid_revoked : IasPseStatus
  ias_ps_hw_privkey_rlver_mismatch : IasPseStatus
  ias_ps_hw_sig_rlver_mismatch : IasPseStatus
  ias_ps_hw_ca_id_invalid : IasPseStatus
  ias_ps_hw_sec_info_invalid : IasPseStatus
  ias_ps_hw_psda_svn_out_of_date : IasPseStatus

-- `ias_revoc_reason_t`; the report keeps it in a `uint32_t`.
pub data IasRevocReason : Type 0 where
  ias_revoc_reason_none : IasRevocReason
  ias_revoc_reason_key_compromise : IasRevocReason
  ias_revoc_reason_ca_compromised : IasRevocReason
  ias_revoc_reason_superceded : IasRevocReason
  ias_revoc_reason_cessation_of_operation : IasRevocReason
  ias_revoc_reason_certificate_hold : IasRevocReason
  ias_revoc_reason_privilege_withdrawn : IasRevocReason
  ias_revoc_reason_aa_compromise : IasRevocReason

-- `sample_status_t`
pub data SampleStatus : Type 0 where
  sample_success : SampleStatus
  sample_error_unexpected : SampleStatus
  sample_error_invalid_parameter : SampleStatus
  sample_error_out_of_memory : SampleStatus

-- `SAMPLE_SUCCESS == status`
abbrev pub is_success : SampleStatus → Bool
is_success sample_success = true
is_success sample_error_unexpected = false
is_success sample_error_invalid_parameter = false
is_success sample_error_out_of_memory = false
