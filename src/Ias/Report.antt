-- ===== src/Ias/Report.antt =====
-- What the simulated attestation server of ias_ra.cpp answers.
use sgx_experiments.Prelude.{
  ℕ, ◌≡◌, refl, ◌↔◌, true, Option, none, some, Bytes, reverse, length, drop-all, replicate, arith,
}
use sgx_experiments.Prelude.Int.{pos}
use sgx_experiments.Quote.{SampleQuote}
use sgx_experiments.Codes.{sample_success, ias_quote_ok, ias_pse_ok, is_success}
use sgx_experiments.Crypto.{Libcrypto, EcSign256, words_le}
use sgx_experiments.Ias.{
  IasAttReport, rk_priv_key, swap_endian_32b, fill_report, put_signature, sign_report, closed,
  ias_verify_attestation_evidence, ias_enroll, sim_spid,
}
use sgx_experiments.Ias.Endian.{words_le-swap_endian_32b}

-- For a quote and a report that are not NULL the answer is quote OK and PSE OK with no revocation
-- reason, also where the signature fails; the return code is 0 exactly when the context opened and
-- the blob was signed; and an open context is closed once.
pub verify_evidence_answer :
    (lib : Libcrypto) (quote : SampleQuote) (report : IasAttReport)
    → (answer : IasAttReport) × ((ias_verify_attestation_evidence lib (some quote) (some report)).1
        ≡ some answer)
      × (answer.status ≡ ias_quote_ok)
      × (answer.pse_status ≡ ias_pse_ok)
      × (answer.revocation_reason ≡ 0)
      × ((ias_verify_attestation_evidence lib (some quote) (some report)).2
          ≡ closed (lib.ecc256_open_context).1)
      × (((ias_verify_attestation_evidence lib (some quote) (some report)).0 ≡ pos 0) ↔ (
          (is_success (lib.ecc256_open_context).0 ≡ true)
          × (is_success (lib.ecdsa_sign (replicate 33 0) rk_priv_key (lib.ecc256_open_context).1).0
              ≡ true)))
unfolding ias_verify_attestation_evidence
verify_evidence_answer lib quote report = (
  _,
  refl,
  ground arith,
  ground arith,
  ground arith,
  ground arith,
  (λ h. ground arith, λ h. ground arith),
)

-- When the context opens and the blob is signed with eight words in each half, the return code is
-- 0, the context is closed, and each half of the signature in the report is what the library wrote
-- with its 32 bytes reversed.
pub verify_evidence_signature :
    (lib : Libcrypto) (quote : SampleQuote) (report : IasAttReport) (handle : Option ℕ)
    (sign : EcSign256)
    → lib.ecc256_open_context ≡ (sample_success, handle)
    → lib.ecdsa_sign (replicate 33 0) rk_priv_key handle ≡ (sample_success, sign)
    → length sign.x ≡ 8
    → length sign.y ≡ 8
    → (answer : IasAttReport) × (ias_verify_attestation_evidence lib (some quote) (some report)
        ≡ (pos 0, some answer, closed handle))
      × (words_le answer.info_blob.signature.x ≡ reverse (words_le sign.x))
      × (words_le answer.info_blob.signature.y ≡ reverse (words_le sign.y))
unfolding ias_verify_attestation_evidence
verify_evidence_signature lib quote report handle sign opened signed lx ly = (
  record (put_signature (fill_report report)
      (record { x = swap_endian_32b sign.x; y = swap_endian_32b sign.y })) {
        pse_status = ias_pse_ok;
        policy_report_size = 0;
      },
  rw (opened, sign_report, signed),
  words_le-swap_endian_32b sign.x lx,
  words_le-swap_endian_32b sign.y ly,
)

-- Enrolment fills the 16 bytes of the SPID with the name of the service and returns 0; without a
-- place for it it returns 1.
pub ias_enroll_lem :
    (credentials : ℕ) (spid : Bytes)
    → length spid ≡ 16
    → (ias_enroll credentials (some spid) ≡ (pos 0, some sim_spid))
      × (ias_enroll credentials none ≡ (pos 1, none))
unfolding ias_enroll
ias_enroll_lem credentials spid h = (rw (drop-all 16 spid (omega arith)), refl)
