-- ===== src/Ias.antt =====
-- code-experiments/attestation/remote/service_provider/ias_ra.cpp, the simulated attestation
-- server, with the report types of ias_ra.h and remote_attestation_result.h. A pointer argument is
-- an option, `none` for NULL; an output parameter is a component of the result.
pub mod Endian
pub mod Report
use sgx_experiments.Prelude.{
  ℕ, ◌+◌, ◌*◌, ◌/◌, ◌%◌, ◌^◌, Bool, List, [], ◌∷◌, ◌++◌, Option, none, some, Bytes, u16_le,
  if◌then◌else◌, memcpy, get_or, set, replicate,
}
use sgx_experiments.Prelude.Int.{ℤ, pos}
use sgx_experiments.Quote.{SampleQuote}
use sgx_experiments.Codes.{
  IasQuoteStatus, ias_quote_ok, IasPseStatus, ias_pse_ok, minus_one, sp_code, sp_internal_error,
  is_success,
}
use sgx_experiments.Crypto.{Libcrypto, EcSign256}

-- `dw & (0xff << low)`, one byte of a 32-bit word, in place.
abbrev pub byte_field : ℕ → ℕ → ℕ
byte_field dw low = dw / 2 ^ low % 2 ^ 8 * 2 ^ low

-- SWAP_ENDIAN_DW: the masks are disjoint after the shifts, so `|` is a sum.
pub swap_endian_dw : ℕ → ℕ
swap_endian_dw dw =
    byte_field dw 0 * 2 ^ 24
    + byte_field dw 8 * 2 ^ 8
    + byte_field dw 16 / 2 ^ 8
    + byte_field dw 24 / 2 ^ 24

-- Three lines of SWAP_ENDIAN_32B: words `i` and `j` change places through `temp`.
abbrev pub swap_words : ℕ → ℕ → List ℕ → List ℕ
swap_words i j ptr =
    let temp = swap_endian_dw (get_or ptr i 0) in
    set (set ptr i (swap_endian_dw (get_or ptr j 0))) j temp

-- SWAP_ENDIAN_32B
pub swap_endian_32b : List ℕ → List ℕ
swap_endian_32b ptr = swap_words 3 4 (swap_words 2 5 (swap_words 1 6 (swap_words 0 7 ptr)))

-- `ias_platform_info_blob_t`
pub record IasPlatformInfoBlob : Type 0 where
  pub sample_epid_group_status : ℕ
  pub sample_tcb_evaluation_status : ℕ
  pub pse_evaluation_status : ℕ
  pub latest_equivalent_tcb_psvn : Bytes
  pub latest_pse_isvsvn : Bytes
  pub latest_psda_svn : Bytes
  pub performance_rekey_gid : Bytes
  pub signature : EcSign256

-- The bytes of the blob in front of its signature; the structure is packed.
abbrev pub unsigned_bytes : IasPlatformInfoBlob → Bytes
unsigned_bytes blob =
    (sample_epid_group_status ∷ [])
    ++ (u16_le sample_tcb_evaluation_status
        ++ (u16_le pse_evaluation_status
            ++ (latest_equivalent_tcb_psvn
                ++ (latest_pse_isvsvn ++ (latest_psda_svn ++ performance_rekey_gid)))))
  where
    open blob use {
      sample_epid_group_status, sample_tcb_evaluation_status, pse_evaluation_status,
      latest_equivalent_tcb_psvn, latest_pse_isvsvn, latest_psda_svn, performance_rekey_gid,
    }

-- `ias_att_report_t`; the flexible array `policy_report` is never filled.
pub record IasAttReport : Type 0 where
  pub id : ℕ
  pub status : IasQuoteStatus
  pub revocation_reason : ℕ
  pub info_blob : IasPlatformInfoBlob
  pub pse_status : IasPseStatus
  pub policy_report_size : ℕ

abbrev pub psvn_size : ℕ
psvn_size = 18

abbrev pub isvsvn_size : ℕ
isvsvn_size = 2

abbrev pub psda_svn_size : ℕ
psda_svn_size = 4

abbrev pub gid_size : ℕ
gid_size = 4

-- `g_rk_priv_key`
abbrev pub rk_priv_key : Bytes
rk_priv_key =
    0x63 ∷ 0x2c ∷ 0xd4 ∷ 0x02 ∷ 0x7a ∷ 0xdc ∷ 0x56 ∷ 0xa5 ∷ 0x59 ∷ 0x6c ∷ 0x44 ∷ 0x3e ∷ 0x43 ∷ 0xca
    ∷ 0x4e ∷ 0x0b ∷ 0x58 ∷ 0xcd ∷ 0x78 ∷ 0xcb ∷ 0x3c ∷ 0x7e ∷ 0xd5 ∷ 0xb9 ∷ 0xf2 ∷ 0x91 ∷ 0x5b
    ∷ 0x39 ∷ 0x0d ∷ 0xb3 ∷ 0xb5 ∷ 0xfb ∷ []

-- The fields that are set before anything is signed.
pub fill_report : IasAttReport → IasAttReport
fill_report report = record report {
  id = 0x12345678;
  status = ias_quote_ok;
  revocation_reason = 0;
  info_blob = record (report.info_blob) {
    sample_epid_group_status = 0;
    sample_tcb_evaluation_status = 0;
    pse_evaluation_status = 0;
    latest_equivalent_tcb_psvn = replicate psvn_size 0;
    latest_pse_isvsvn = replicate isvsvn_size 0;
    latest_psda_svn = replicate psda_svn_size 0;
    performance_rekey_gid = replicate gid_size 0;
  };
}

abbrev pub put_signature : IasAttReport → EcSign256 → IasAttReport
put_signature report sign = record report {
  info_blob = record (report.info_blob) { signature = sign };
}

-- The `do … while (0)` that signs the blob: the return code, the report, and the context.
pub sign_report : Libcrypto → IasAttReport → ℤ × IasAttReport × Option ℕ
sign_report lib report =
    let (opened, ecc_state) = lib.ecc256_open_context in
    let (signed, sign) = lib.ecdsa_sign (unsigned_bytes report.info_blob) rk_priv_key ecc_state in
    if is_success opened
    then if is_success signed
      then (
        pos 0,
        put_signature report (record { x = swap_endian_32b sign.x; y = swap_endian_32b sign.y }),
        ecc_state,
      )
      else (sp_code sp_internal_error, put_signature report sign, ecc_state)
    else (minus_one, report, ecc_state)

-- The contexts that are closed: the one that is open, if any.
abbrev pub closed : Option ℕ → List ℕ
closed none = []
closed (some handle) = handle ∷ []

-- `ias_verify_attestation_evidence`: the quote and the report, and the result with the report and
-- the list of contexts that were closed. The manifest is unused.
pub ias_verify_attestation_evidence :
    Libcrypto → Option SampleQuote → Option IasAttReport → ℤ × Option IasAttReport × List ℕ
unfolding fill_report sign_report
ias_verify_attestation_evidence lib p_isv_quote none = (minus_one, none, [])
ias_verify_attestation_evidence lib none (some report) = (minus_one, some report, [])
ias_verify_attestation_evidence lib (some quote) (some report) =
    let (ret, signed, ecc_state) = sign_report lib (fill_report report) in
    (
      ret,
      some (record signed { pse_status = ias_pse_ok; policy_report_size = 0 }),
      closed ecc_state,
    )

-- `ias_get_sigrl`: whether each output pointer is set, and what is written to them, the size and
-- the list (`none` for NULL).
unfoldable pub ias_get_sigrl : Bytes → Bool → Bool → ℤ × Option (ℕ × Option Bytes)
ias_get_sigrl gid p_sig_rl_size p_sig_rl =
    if p_sig_rl
    then if p_sig_rl_size then (pos 0, some (0, none)) else (minus_one, none)
    else (minus_one, none)

-- `g_sim_spid`: "Service X", padded with zeros to 16 bytes.
abbrev pub sim_spid : Bytes
sim_spid = b'S' ∷ b'e' ∷ b'r' ∷ b'v' ∷ b'i' ∷ b'c' ∷ b'e' ∷ 0x20 ∷ b'X' ∷ replicate 7 0

-- `ias_enroll`: the return code and what `*p_spid` is afterwards. The token is not written.
unfoldable pub ias_enroll : ℕ → Option Bytes → ℤ × Option Bytes
ias_enroll sp_credentials none = (pos 1, none)
ias_enroll sp_credentials (some spid) = (pos 0, some (memcpy spid sim_spid 16))
