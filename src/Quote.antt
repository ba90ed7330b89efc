-- ===== src/Quote.antt =====
-- The structures of code-experiments/attestation/remote/service_provider/ias_ra.h that hold the
-- evidence of an enclave, and their bytes in memory, read at the offsets that the comments of the
-- header give.
pub mod Members
pub mod Layout
use sgx_experiments.Prelude.{
  ℕ, zero, suc, ◌+◌, ◌*◌, ◌/◌, ◌%◌, List, [], ◌∷◌, ◌++◌, Option, none, some, Bytes, take, drop,
  length, ltb, if◌then◌else◌,
}

-- A word of `n` bytes, little-endian, and the word that some bytes are.
abbrev pub word_bytes : ℕ → ℕ → Bytes
word_bytes zero w = []
word_bytes (suc n) w = w % 256 ∷ word_bytes n (w / 256)

abbrev pub word : Bytes → ℕ
word [] = 0
word (b ∷ bs) = b + 256 * word bs

-- `sample_attributes_t`
pub record SampleAttributes : Type 0 where
  pub flags : ℕ
  pub xfrm : ℕ

-- `sample_report_body_t`
pub record SampleReportBody : Type 0 where
  pub cpu_svn : Bytes
  pub reserved1 : Bytes
  pub attributes : SampleAttributes
  pub mr_enclave : Bytes
  pub reserved2 : Bytes
  pub mr_signer : Bytes
  pub reserved3 : Bytes
  pub mr_reserved1 : Bytes
  pub mr_reserved2 : Bytes
  pub isv_prod_id : ℕ
  pub isv_svn : ℕ
  pub reserved4 : Bytes
  pub report_data : Bytes

-- `sample_quote_t`, with the bytes that stand behind it as its signature.
pub record SampleQuote : Type 0 where
  pub version : ℕ
  pub sign_type : ℕ
  pub epid_group_id : Bytes
  pub qe_svn : ℕ
  pub reserved : Bytes
  pub basename : Bytes
  pub report_body : SampleReportBody
  pub signature_len : ℕ
  pub signature : Bytes

abbrev pub concat : List Bytes → Bytes
concat [] = []
concat (x ∷ xs) = x ++ concat xs

-- The members in their order, with nothing between them.
abbrev pub report_fields : SampleReportBody → List Bytes
report_fields b =
    b.cpu_svn
    ∷ b.reserved1
    ∷ word_bytes 8 b.attributes.flags
    ∷ word_bytes 8 b.attributes.xfrm
    ∷ b.mr_enclave
    ∷ b.reserved2
    ∷ b.mr_signer
    ∷ b.reserved3
    ∷ b.mr_reserved1
    ∷ b.mr_reserved2
    ∷ word_bytes 2 b.isv_prod_id
    ∷ word_bytes 2 b.isv_svn
    ∷ b.reserved4
    ∷ b.report_data
    ∷ []

unfoldable pub report_bytes : SampleReportBody → Bytes
report_bytes b = concat (report_fields b)

abbrev pub quote_fields : SampleQuote → List Bytes
quote_fields q =
    word_bytes 2 q.version
    ∷ word_bytes 2 q.sign_type
    ∷ q.epid_group_id
    ∷ word_bytes 2 q.qe_svn
    ∷ q.reserved
    ∷ q.basename
    ∷ report_bytes q.report_body
    ∷ word_bytes 4 q.signature_len
    ∷ []

unfoldable pub quote_bytes : SampleQuote → Bytes
quote_bytes q = concat (quote_fields q) ++ q.signature

-- The sizes of the members, and their alignments.
abbrev pub report_sizes : List ℕ
report_sizes = 16 ∷ 32 ∷ 8 ∷ 8 ∷ 32 ∷ 32 ∷ 32 ∷ 32 ∷ 32 ∷ 32 ∷ 2 ∷ 2 ∷ 60 ∷ 64 ∷ []

abbrev pub report_alignments : List ℕ
report_alignments = 1 ∷ 1 ∷ 8 ∷ 8 ∷ 1 ∷ 1 ∷ 1 ∷ 1 ∷ 1 ∷ 1 ∷ 2 ∷ 2 ∷ 1 ∷ 1 ∷ []

abbrev pub quote_sizes : List ℕ
quote_sizes = 2 ∷ 2 ∷ 4 ∷ 2 ∷ 6 ∷ 32 ∷ 384 ∷ 4 ∷ []

-- The bytes of a member: `*(p + offset)`.
abbrev pub field : ℕ → ℕ → Bytes → Bytes
field offset size bs = take size (drop offset bs)

-- A pointer read as a `sample_report_body_t`, at the offsets of the comments.
unfoldable pub read_report : Bytes → SampleReportBody
read_report bs = record {
  cpu_svn = field 0 16 bs;
  reserved1 = field 16 32 bs;
  attributes = record { flags = word (field 48 8 bs); xfrm = word (field 56 8 bs) };
  mr_enclave = field 64 32 bs;
  reserved2 = field 96 32 bs;
  mr_signer = field 128 32 bs;
  reserved3 = field 160 32 bs;
  mr_reserved1 = field 192 32 bs;
  mr_reserved2 = field 224 32 bs;
  isv_prod_id = word (field 256 2 bs);
  isv_svn = word (field 258 2 bs);
  reserved4 = field 260 60 bs;
  report_data = field 320 64 bs;
}

-- A pointer read as a `sample_quote_t`: `none` when the read, or that of the signature, would leave
-- the memory.
unfoldable pub read_quote : Bytes → Option SampleQuote
unfolding read_report
read_quote bs =
    let signature_len = word (field 432 4 bs) in
    if ltb (length bs) (436 + signature_len)
    then none
    else some (record {
      version = word (field 0 2 bs);
      sign_type = word (field 2 2 bs);
      epid_group_id = field 4 4 bs;
      qe_svn = word (field 8 2 bs);
      reserved = field 10 6 bs;
      basename = field 16 32 bs;
      report_body = read_report (field 48 384 bs);
      signature_len = signature_len;
      signature = field 436 signature_len bs;
    })
