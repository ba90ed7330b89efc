-- ===== src/Sp/Msg1/Assemble.antt =====
-- The last steps of `sp_ra_proc_msg1_req`: the buffer of message 2, and its fields.
pub mod Content
use sgx_experiments.Prelude.{
  ℕ, ◌+◌, Bool, true, false, [], ◌∷◌, ◌++◌, Option, none, some, Bytes, replicate, if◌then◌else◌,
}
use sgx_experiments.Prelude.Int.{ℤ, pos}
use sgx_experiments.Prelude.Effects.{Outcome, done, stop, crash, M, ◌>>=◌, ◌>>◌, and_then}
use sgx_experiments.Codes.{
  type_ra_msg2, ra_msg_code, sp_code, sp_internal_error, is_nonzero, is_success,
}
use sgx_experiments.Crypto.{Libcrypto, EcSign256}
use sgx_experiments.Ecp.{memcpy_s}
use sgx_experiments.Sp.State.{
  Sp, SpDbItem, sp_priv_key, response_header_size, msg2_fixed_size, Msg2, cmaced_bytes, msg2,
  RaSampResponse,
}
use sgx_experiments.Sp.Msg1.Keys.{Locals}

abbrev pub zero_words : Bytes
zero_words = replicate 8 0

-- A message 2 that `memset` has cleared, with room for the revocation list.
abbrev pub zero_msg2 : ℕ → Msg2
zero_msg2 sig_rl_size = record {
  g_b = replicate 64 0;
  spid = replicate 16 0;
  quote_type = 0;
  kdf_id = 0;
  sign_gb_ga = record { x = zero_words; y = zero_words };
  mac = replicate 16 0;
  sig_rl_size = 0;
  sig_rl = replicate sig_rl_size 0;
}

abbrev pub msg2_response : ℕ → Msg2 → RaSampResponse
msg2_response sig_rl_size m = record {
  type = ra_msg_code type_ra_msg2;
  status0 = 0;
  status1 = 0;
  size = msg2_fixed_size + sig_rl_size;
  body = msg2 m;
}

pub allocate_msg2 : Libcrypto → ℕ → M Locals (Unit {0})
allocate_msg2 lib sig_rl_size l =
    if lib.malloc [] (msg2_fixed_size + sig_rl_size + response_header_size)
    then (
      done tt,
      record l {
        sp = record (l.sp) { buffers = l.sp.buffers + 1 };
        msg2_full = some (msg2_response sig_rl_size (zero_msg2 sig_rl_size));
      },
    )
    else (stop (sp_code sp_internal_error), l)

-- SAMPLE_QUOTE_LINKABLE_SIGNATURE
abbrev pub quote_linkable_signature : ℕ
quote_linkable_signature = 1

-- ISV_KDF_ID of the supplied build, SAMPLE_AES_CMAC_KDF_ID of the default.
abbrev pub kdf_id_of : Bool → ℕ
kdf_id_of true = 2
kdf_id_of false = 1

-- The private key, the public keys `g_b` and `g_a` one behind the other, and `sign_gb_ga`.
pub sign_keys : Libcrypto → Locals → Outcome EcSign256
unfolding memcpy_s
sign_keys lib l =
    let db = l.sp.sp_db in
    let (errno, gb) = memcpy_s (replicate 64 0) 64 db.g_b 64 in
    let (errno', ga) = memcpy_s (replicate 64 0) 64 db.g_a 64 in
    let (sample_ret, sign) = lib.ecdsa_sign (gb ++ ga) sp_priv_key l.ecc_state in
    if is_nonzero errno
    then stop (sp_code sp_internal_error)
    else if is_nonzero errno'
    then stop (sp_code sp_internal_error)
    else if is_success sample_ret
    then done sign
    else stop (sp_code sp_internal_error)

-- The fields up to the MAC, in the order of the code: `g_b` and the SPID by checked copies, the two
-- constants, and the signature.
pub fill_msg2 : Bool → Libcrypto → Msg2 → Locals → Outcome Msg2
unfolding memcpy_s
fill_msg2 supplied lib m l =
    let (errno, g_b) = memcpy_s m.g_b 64 l.sp.sp_db.g_b 64 in
    let (errno', spid) = memcpy_s m.spid 16 l.sp.spid 16 in
    if is_nonzero errno
    then stop (sp_code sp_internal_error)
    else if is_nonzero errno'
    then stop (sp_code sp_internal_error)
    else elim (sign_keys lib l) [
      | done sign ↦ done (record m {
        g_b = g_b;
        spid = spid;
        quote_type = quote_linkable_signature;
        kdf_id = kdf_id_of supplied;
        sign_gb_ga = sign;
      })
      | stop e ↦ stop e
      | crash ↦ crash
    ]

-- The MAC under SMK over the fields in front of it.
pub mac_msg2 : Libcrypto → Bytes → Msg2 → Outcome Msg2
unfolding memcpy_s
mac_msg2 lib smk_key m =
    let (sample_ret, mac) = lib.rijndael128_cmac_msg smk_key (cmaced_bytes m) in
    let (errno, dest) = memcpy_s m.mac 16 mac 16 in
    if is_success sample_ret
    then if is_nonzero errno
      then stop (sp_code sp_internal_error)
      else done (record m { mac = dest })
    else stop (sp_code sp_internal_error)

-- The bytes behind the pointer to the revocation list; none are read from NULL.
abbrev pub sigrl_bytes : Option Bytes → Bytes
sigrl_bytes none = []
sigrl_bytes (some bytes) = bytes

-- The revocation list, and its size behind it.
pub attach_sigrl : ℕ → Option Bytes → Msg2 → Outcome Msg2
unfolding memcpy_s
attach_sigrl sig_rl_size sig_rl m =
    let (errno, dest) = memcpy_s m.sig_rl sig_rl_size (sigrl_bytes sig_rl) sig_rl_size in
    if is_nonzero errno
    then stop (sp_code sp_internal_error)
    else done (record m { sig_rl = dest; sig_rl_size = sig_rl_size })

abbrev pub then_msg2 : Outcome Msg2 → (Msg2 → Outcome Msg2) → Outcome Msg2
then_msg2 (done m) f = f m
then_msg2 (stop e) f = stop e
then_msg2 crash f = crash

abbrev pub put_msg2 : ℕ → Outcome Msg2 → Locals → Outcome (Unit {0}) × Locals
put_msg2 sig_rl_size (done m) l =
    (done tt, record l { msg2_full = some (msg2_response sig_rl_size m) })
put_msg2 sig_rl_size (stop e) l = (stop e, l)
put_msg2 sig_rl_size crash l = (crash, l)

-- A failure leaves a buffer that the handler frees, so its contents are not followed there.
pub assemble_msg2 : Bool → Libcrypto → ℕ → Option Bytes → M Locals (Unit {0})
assemble_msg2 supplied lib sig_rl_size sig_rl l =
    put_msg2 sig_rl_size
      (then_msg2 (fill_msg2 supplied lib (zero_msg2 sig_rl_size) l)
        (λ m. then_msg2 (mac_msg2 lib l.sp.sp_db.smk_key m) (attach_sigrl sig_rl_size sig_rl)))
      l
