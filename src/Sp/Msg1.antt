-- ===== src/Sp/Msg1.antt =====
-- `sp_ra_proc_msg1_req`: message 1 is taken, and message 2 is built. The handler's one block
-- `do … while (0)` is cut into the steps between its comments; `break` stops with its code.
pub mod Keys
pub mod Assemble
pub mod Handler
pub mod Answer
pub mod Accept
use sgx_experiments.Prelude.{
  ℕ, ◌-◌, Bool, true, false, ◌&&◌, Option, none, some, Bytes, ◌==◌, if◌then◌else◌,
}
use sgx_experiments.Prelude.Int.{ℤ}
use sgx_experiments.Prelude.Effects.{Outcome, done, stop, crash, M, ◌>>=◌, ◌>>◌, and_then}
use sgx_experiments.Codes.{sp_code, sp_ok, sp_unsupported_extended_epid_group, minus_one}
use sgx_experiments.Crypto.{Libcrypto}
use sgx_experiments.Sp.State.{
  Sp, msg1_size, read_msg1, Msg1, RaSampResponse, Written, untouched, null, buffer,
}
use Keys.{
  Locals, entry, save_g_a, open_context, create_key_pair, save_key_pair, compute_dh_key,
  fetch_sigrl, derive_session_keys,
}
use Assemble.{allocate_msg2, assemble_msg2}

-- The block. `supplied` is the build with SUPPLIED_KEY_DERIVATION.
pub msg1_body : Bool → Libcrypto → Msg1 → M Locals (Unit {0})
msg1_body supplied lib p_msg1 = do
  save_g_a p_msg1.g_a
  open_context lib
  pair ← create_key_pair lib
  save_key_pair pair.0 pair.1
  dh_key ← compute_dh_key lib pair.0 p_msg1.g_a
  sig ← fetch_sigrl p_msg1.gid
  derive_session_keys supplied lib dh_key
  allocate_msg2 lib sig.0
  assemble_msg2 supplied lib sig.0 sig.1

-- SAFE_FREE of a response buffer, and `sample_ecc256_close_context` of a context that is open.
abbrev pub free_msg2 : Option RaSampResponse → Sp → Sp
free_msg2 none s = s
free_msg2 (some resp) s = record s { buffers = s.buffers - 1 }

abbrev pub close_context : Option ℕ → Sp → Sp
close_context none s = s
close_context (some handle) s = record s { contexts = s.contexts - 1 }

-- `*pp_msg2 = p_msg2_full`
abbrev pub msg2_pointer : Option RaSampResponse → Written
msg2_pointer none = null
msg2_pointer (some resp) = buffer resp

-- What follows the block: the response pointer, the buffer, and the context.
pub msg1_cleanup : Outcome (Unit {0}) → Locals → Outcome (ℤ × Written) × Sp
msg1_cleanup (done _) l =
    (done (sp_code sp_ok, msg2_pointer l.msg2_full), close_context l.ecc_state l.sp)
msg1_cleanup (stop ret) l =
    (done (ret, null), close_context l.ecc_state (free_msg2 l.msg2_full l.sp))
msg1_cleanup crash l = (crash, l.sp)

-- The whole handler, with its arguments as in `sp_ra_proc_msg0_req`.
pub sp_ra_proc_msg1_req : Bool → Libcrypto → Option Bytes → ℕ → Bool → M Sp (ℤ × Written)
unfolding msg1_body msg1_cleanup
sp_ra_proc_msg1_req supplied lib none size pp_msg2 s = (done (minus_one, untouched), s)
sp_ra_proc_msg1_req supplied lib (some body) size pp_msg2 s =
    if pp_msg2 && size == msg1_size
    then if s.is_sp_registered
      then elim (read_msg1 body) [
        | none ↦ (crash, s)
        | some p_msg1 ↦ let (o, l) = msg1_body supplied lib p_msg1 (entry s) in msg1_cleanup o l
      ]
      else (done (sp_code sp_unsupported_extended_epid_group, untouched), s)
    else (done (minus_one, untouched), s)
