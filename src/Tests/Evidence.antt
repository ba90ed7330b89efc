-- ===== src/Tests/Evidence.antt =====
-- The theorems about the evidence of an enclave and the report on it, at a concrete quote.
use sgx_experiments.Prelude.{◌≡◌, ◌↔◌, refl, true, [], ◌∷◌, ◌++◌, reverse, some, replicate, arith}
use sgx_experiments.Prelude.Int.{pos}
use sgx_experiments.Codes.{ias_quote_ok, ias_pse_ok}
use sgx_experiments.Crypto.{words_le}
use sgx_experiments.Quote.{SampleReportBody, SampleQuote, report_bytes, quote_bytes, read_quote}
use sgx_experiments.Quote.Layout.{FitsReport, FitsQuote, read_quote-quote_bytes}
use sgx_experiments.Ias.{IasAttReport, closed, ias_verify_attestation_evidence}
use sgx_experiments.Ias.Report.{verify_evidence_answer, verify_evidence_signature}
use sgx_experiments.Tests.Data.{test_lib, words, signature}

abbrev body : SampleReportBody
body = record {
  cpu_svn = replicate 16 1;
  reserved1 = replicate 32 2;
  attributes = record { flags = 0x0102030405060708; xfrm = 3 };
  mr_enclave = replicate 32 4;
  reserved2 = replicate 32 5;
  mr_signer = replicate 32 6;
  reserved3 = replicate 32 7;
  mr_reserved1 = replicate 32 8;
  mr_reserved2 = replicate 32 9;
  isv_prod_id = 0x1011;
  isv_svn = 0x1213;
  reserved4 = replicate 60 10;
  report_data = replicate 64 11;
}

abbrev quote : SampleQuote
quote = record {
  version = 2;
  sign_type = 1;
  epid_group_id = replicate 4 0;
  qe_svn = 0x1415;
  reserved = replicate 6 0;
  basename = replicate 32 12;
  report_body = body;
  signature_len = 3;
  signature = 7 ∷ 8 ∷ 9 ∷ [];
}

body-FitsReport : FitsReport body
body-FitsReport = record {
  sized = refl;
  flags = omega arith;
  xfrm = omega arith;
  isv_prod_id = omega arith;
  isv_svn = omega arith;
}

quote-FitsQuote : FitsQuote quote
unfolding report_bytes
quote-FitsQuote = record {
  report = body-FitsReport;
  sized = refl;
  version = omega arith;
  sign_type = omega arith;
  qe_svn = omega arith;
  signature_len = omega arith;
  signature = refl;
}

read_quote-quote_bytes_example : read_quote (quote_bytes quote ++ (1 ∷ 2 ∷ [])) ≡ some quote
read_quote-quote_bytes_example = read_quote-quote_bytes quote (1 ∷ 2 ∷ []) quote-FitsQuote

abbrev report : IasAttReport
report = record {
  id = 0;
  status = ias_quote_ok;
  revocation_reason = 3;
  info_blob = record {
    sample_epid_group_status = 1;
    sample_tcb_evaluation_status = 1;
    pse_evaluation_status = 1;
    latest_equivalent_tcb_psvn = replicate 18 1;
    latest_pse_isvsvn = replicate 2 1;
    latest_psda_svn = replicate 4 1;
    performance_rekey_gid = replicate 4 1;
    signature = signature;
  };
  pse_status = ias_pse_ok;
  policy_report_size = 1;
}

verify_evidence_answer_example :
    (answer : IasAttReport) × ((ias_verify_attestation_evidence test_lib
        (some quote)
        (some report)).1
      ≡ some answer)
    × (answer.status ≡ ias_quote_ok)
    × (answer.pse_status ≡ ias_pse_ok)
    × (answer.revocation_reason ≡ 0)
    × ((ias_verify_attestation_evidence test_lib (some quote) (some report)).2 ≡ 5 ∷ [])
    × (((ias_verify_attestation_evidence test_lib (some quote) (some report)).0 ≡ pos 0)
        ↔ ((true ≡ true) × (true ≡ true)))
verify_evidence_answer_example = verify_evidence_answer test_lib quote report

verify_evidence_signature_example :
    (answer : IasAttReport) × (ias_verify_attestation_evidence test_lib (some quote) (some report)
      ≡ (pos 0, some answer, closed (some 5)))
    × (words_le answer.info_blob.signature.x ≡ reverse (words_le words))
    × (words_le answer.info_blob.signature.y ≡ reverse (words_le words))
verify_evidence_signature_example =
    verify_evidence_signature test_lib quote report (some 5) signature refl refl refl refl
