-- ===== src/Quote/Layout.antt =====
-- The evidence in memory: what is read at the offsets of the header's comments.
use mathlib.Core.List.{append-nil, append_assoc}
use sgx_experiments.Prelude.{
  ℕ, ◌+◌, ◌^◌, ◌<◌, ◌≡◌, refl, ap, sym, ◌∙◌, [], ◌++◌, some, Bytes, length, length-append, get_or,
  map, ltb, true, false, ltb→lt, drop-append_eq, arith,
}
use sgx_experiments.Quote.{
  SampleReportBody, SampleQuote, concat, report_fields, report_bytes, quote_fields, quote_bytes,
  report_sizes, report_alignments, quote_sizes, field, read_report, read_quote,
}
use sgx_experiments.Quote.Members.{
  offset, take-append_eq, Sized_lem, field-concat, le→ltb, aligned_offsets, packed_offsets,
  length-concat, word_field,
}

-- The report body stands before the `#pragma pack`, and yet there is nothing between its members.
report_sizes-aligned :
    aligned_offsets 0 report_alignments report_sizes ≡ packed_offsets 0 report_sizes
report_sizes-aligned = refl

-- The sizes of the arrays of a report body, and the bounds of its words.
pub record FitsReport (b : SampleReportBody) : Type 0 where
  pub sized : map length (report_fields b) ≡ report_sizes
  pub flags : b.attributes.flags < 256 ^ 8
  pub xfrm : b.attributes.xfrm < 256 ^ 8
  pub isv_prod_id : b.isv_prod_id < 256 ^ 2
  pub isv_svn : b.isv_svn < 256 ^ 2

module _ (b : SampleReportBody) (rest : Bytes) (fits : FitsReport b) where
  report_field :
      (i : ℕ)
      → ltb i 14 ≡ true
      → field (offset report_sizes i) (get_or report_sizes i 0) (report_bytes b ++ rest)
        ≡ get_or (report_fields b) i []
  unfolding report_bytes
  report_field i h =
      field-concat report_sizes (report_fields b) rest (Sized_lem (report_fields b) fits.sized) i
        (ltb→lt i 14 h) refl

  read_report-report_bytes : read_report (report_bytes b ++ rest) ≡ b
  unfolding read_report
  read_report-report_bytes =
      let f = report_field in
      rw (
        f 0 refl,
        f 1 refl,
        f 4 refl,
        f 5 refl,
        f 6 refl,
        f 7 refl,
        f 8 refl,
        f 9 refl,
        f 12 refl,
        f 13 refl,
        word_field 8 b.attributes.flags _ fits.flags (f 2 refl),
        word_field 8 b.attributes.xfrm _ fits.xfrm (f 3 refl),
        word_field 2 b.isv_prod_id _ fits.isv_prod_id (f 10 refl),
        word_field 2 b.isv_svn _ fits.isv_svn (f 11 refl),
      )

read_report_lem : (b : SampleReportBody) → FitsReport b → read_report (report_bytes b) ≡ b
read_report_lem b fits =
    ap read_report (sym (append-nil (report_bytes b))) ∙ read_report-report_bytes b [] fits

-- The sizes of the arrays of a quote, the bounds of its words, and the length of its signature.
pub record FitsQuote (q : SampleQuote) : Type 0 where
  pub report : FitsReport q.report_body
  pub sized : map length (quote_fields q) ≡ quote_sizes
  pub version : q.version < 256 ^ 2
  pub sign_type : q.sign_type < 256 ^ 2
  pub qe_svn : q.qe_svn < 256 ^ 2
  pub signature_len : q.signature_len < 256 ^ 4
  pub signature : length q.signature ≡ q.signature_len

module _ (q : SampleQuote) (rest : Bytes) (fits : FitsQuote q) where
  quote_field :
      (i : ℕ)
      → ltb i 8 ≡ true
      → field (offset quote_sizes i) (get_or quote_sizes i 0) (quote_bytes q ++ rest)
        ≡ get_or (quote_fields q) i []
  unfolding quote_bytes
  quote_field i h = rw (append_assoc (concat (quote_fields q)) q.signature rest) (
      field-concat quote_sizes (quote_fields q) (q.signature ++ rest)
        (Sized_lem (quote_fields q) fits.sized) i (ltb→lt i 8 h) refl)

  signature_field : field 436 q.signature_len (quote_bytes q ++ rest) ≡ q.signature
  unfolding quote_bytes
  signature_field =
      let size =
        length-concat quote_sizes (quote_fields q) (Sized_lem (quote_fields q) fits.sized) refl in
      rw
        (
          append_assoc (concat (quote_fields q)) q.signature rest,
          drop-append_eq 436 (concat (quote_fields q)) (q.signature ++ rest) size,
        )
        (take-append_eq q.signature_len q.signature rest fits.signature)

  quote_size : ltb (length (quote_bytes q ++ rest)) (436 + q.signature_len) ≡ false
  unfolding quote_bytes
  quote_size =
      let size =
        length-concat quote_sizes (quote_fields q) (Sized_lem (quote_fields q) fits.sized) refl in
      le→ltb _ _ (
        omega (
          arith,
          length-append (concat (quote_fields q) ++ q.signature) rest,
          length-append (concat (quote_fields q)) q.signature,
          size,
          fits.signature,
        ))

  -- A quote whose arrays have their sizes, whose words fit and whose signature has the length that
  -- the quote gives is read back from its bytes at the offsets that the header's comments give,
  -- whatever comes behind it.
  pub read_quote-quote_bytes : read_quote (quote_bytes q ++ rest) ≡ some q
  unfolding read_quote
  read_quote-quote_bytes =
      let f = quote_field in
      rw (
        word_field 4 q.signature_len _ fits.signature_len (f 7 refl),
        quote_size,
        f 2 refl,
        f 4 refl,
        f 5 refl,
        f 6 refl,
        read_report_lem q.report_body fits.report,
        word_field 2 q.version _ fits.version (f 0 refl),
        word_field 2 q.sign_type _ fits.sign_type (f 1 refl),
        word_field 2 q.qe_svn _ fits.qe_svn (f 3 refl),
        signature_field,
      )
