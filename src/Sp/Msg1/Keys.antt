-- ===== src/Sp/Msg1/Keys.antt =====
-- The first steps of `sp_ra_proc_msg1_req`: the key exchange and the session keys.
pub mod Frame
pub mod Session
pub mod Progress
use sgx_experiments.Prelude.{ℕ, ◌+◌, Bool, true, false, Option, none, some, Bytes, if◌then◌else◌}
use sgx_experiments.Prelude.Int.{ℤ, pos}
use sgx_experiments.Prelude.Effects.{Outcome, done, stop, crash, M, ◌>>=◌, ◌>>◌, and_then, check}
use sgx_experiments.Codes.{
  sp_code, sp_ias_failed, sp_internal_error, minus_one, is_nonzero, is_success,
}
use sgx_experiments.Crypto.{Libcrypto}
use sgx_experiments.Ecp.{
  memcpy_s, derive_key, derive_key_pair, derive_key_smk, derive_key_sk, derive_key_mk,
  derive_key_vk,
}
use sgx_experiments.Sp.State.{Sp, SpDbItem, ExtendedEpidGroup, RaSampResponse}

-- The local variables that outlive the block, beside the static ones.
pub record Locals : Type 0 where
  pub sp : Sp
  pub ecc_state : Option ℕ
  pub msg2_full : Option RaSampResponse

-- Where the block starts: no context, no response.
abbrev pub entry : Sp → Locals
entry s = record { sp = s; ecc_state = none; msg2_full = none }

abbrev pub put_db : Locals → SpDbItem → Locals
put_db l db = record l { sp = record (l.sp) { sp_db = db } }

-- `if (memcpy_s(…)) { ret = SP_INTERNAL_ERROR; break; }`
abbrev pub check_copy : ℤ → Locals → Outcome (Unit {0}) × Locals
check_copy errno l =
    if is_nonzero errno then (stop (sp_code sp_internal_error), l) else (done tt, l)

-- The App's public key goes to `g_sp_db.g_a`.
pub save_g_a : Bytes → M Locals (Unit {0})
unfolding memcpy_s
save_g_a g_a l =
    let db = l.sp.sp_db in
    let (errno, dest) = memcpy_s db.g_a 64 g_a 64 in
    check_copy errno (put_db l (record db { g_a = dest }))

abbrev pub count_context : Option ℕ → Sp → Sp
count_context none s = s
count_context (some handle) s = record s { contexts = s.contexts + 1 }

pub open_context : Libcrypto → M Locals (Unit {0})
open_context lib l =
    let (sample_ret, handle) = lib.ecc256_open_context in
    check (is_success sample_ret) minus_one
      (record l { sp = count_context handle l.sp; ecc_state = handle })

-- The private and the public key of the service provider.
pub create_key_pair : Libcrypto → M Locals (Bytes × Bytes)
create_key_pair lib l =
    let (sample_ret, priv_key, pub_key) = lib.ecc256_create_key_pair l.ecc_state in
    if is_success sample_ret
    then (done (priv_key, pub_key), l)
    else (stop (sp_code sp_internal_error), l)

-- Both are stored; the second copy is made only if the first succeeds.
pub save_key_pair : Bytes → Bytes → M Locals (Unit {0})
unfolding memcpy_s
save_key_pair priv_key pub_key l =
    let db = l.sp.sp_db in
    let (errno, b) = memcpy_s db.b 32 priv_key 32 in
    let (errno', g_b) = memcpy_s db.g_b 64 pub_key 64 in
    if is_nonzero errno
    then (stop (sp_code sp_internal_error), put_db l (record db { b = b }))
    else check_copy errno' (put_db l (record db { b = b; g_b = g_b }))

pub compute_dh_key : Libcrypto → Bytes → Bytes → M Locals Bytes
compute_dh_key lib priv_key g_a l =
    let (sample_ret, dh_key) = lib.ecc256_compute_shared_dhkey priv_key g_a l.ecc_state in
    if is_success sample_ret then (done dh_key, l) else (stop (sp_code sp_internal_error), l)

-- The revocation list, through the group's function: its size, and the list, `none` for NULL. A
-- call through a NULL group is undefined, and so is a list that was not written.
pub fetch_sigrl : Bytes → M Locals (ℕ × Option Bytes)
fetch_sigrl gid l = elim l.sp.sp_extended_epid_group_id [
  | none ↦ (crash, l)
  | some group ↦
      let (ret, out) = group.get_sigrl gid true true in
      if is_nonzero ret
      then (stop (sp_code sp_ias_failed), l)
      else elim out [ none ↦ (crash, l) | some sig ↦ (done sig, l) ]
]

abbrev pub put_smk : Bytes → SpDbItem → SpDbItem
put_smk key db = record db { smk_key = key }

abbrev pub put_mk : Bytes → SpDbItem → SpDbItem
put_mk key db = record db { mk_key = key }

abbrev pub put_sk : Bytes → SpDbItem → SpDbItem
put_sk key db = record db { sk_key = key }

abbrev pub put_vk : Bytes → SpDbItem → SpDbItem
put_vk key db = record db { vk_key = key }

-- One `derive_key` of the default build, into the field that `put` names.
pub derive_one :
    Libcrypto → Bytes → ℕ → (SpDbItem → Bytes) → (Bytes → SpDbItem → SpDbItem) → M Locals (Unit {0})
derive_one lib dh_key key_id get put l =
    let (derive_ret, key) = derive_key lib dh_key key_id (get l.sp.sp_db) in
    check derive_ret (sp_code sp_internal_error) (put_db l (put key l.sp.sp_db))

-- One `derive_key` of the supplied build, into two fields.
pub derive_two :
    Libcrypto
    → Bytes
    → ℕ
    → (SpDbItem → Bytes)
    → (Bytes → SpDbItem → SpDbItem)
    → (SpDbItem → Bytes)
    → (Bytes → SpDbItem → SpDbItem)
    → M Locals (Unit {0})
derive_two lib dh_key key_id get put get' put' l =
    let (derive_ret, key, key') =
      derive_key_pair lib dh_key key_id (get l.sp.sp_db) (get' l.sp.sp_db) in
    check derive_ret (sp_code sp_internal_error) (put_db l (put' key' (put key l.sp.sp_db)))

-- SAMPLE_DERIVE_KEY_SMK_SK and SAMPLE_DERIVE_KEY_MK_VK of the supplied build.
abbrev pub derive_key_smk_sk : ℕ
derive_key_smk_sk = 0

abbrev pub derive_key_mk_vk : ℕ
derive_key_mk_vk = 1

-- The session keys, SMK first; the build chooses the derivation.
pub derive_session_keys : Bool → Libcrypto → Bytes → M Locals (Unit {0})
unfolding derive_one derive_two
derive_session_keys true lib dh_key = do
  derive_two lib dh_key derive_key_smk_sk (λ db. db.smk_key) put_smk (λ db. db.sk_key) put_sk
  derive_two lib dh_key derive_key_mk_vk (λ db. db.mk_key) put_mk (λ db. db.vk_key) put_vk
derive_session_keys false lib dh_key = do
  derive_one lib dh_key derive_key_smk (λ db. db.smk_key) put_smk
  derive_one lib dh_key derive_key_mk (λ db. db.mk_key) put_mk
  derive_one lib dh_key derive_key_sk (λ db. db.sk_key) put_sk
  derive_one lib dh_key derive_key_vk (λ db. db.vk_key) put_vk
