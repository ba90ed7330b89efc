-- ===== src/Sp/Msg0.antt =====
-- `sp_ra_proc_msg0_req`: the extended EPID group, and the list of attestation keys.
pub mod Registration
use sgx_experiments.Prelude.{
  ℕ, ◌+◌, Bool, true, false, not, ◌&&◌, ◌||◌, List, [], ◌∷◌, Option, none, some, Bytes, length,
  ◌==◌, if◌then◌else◌,
}
use sgx_experiments.Prelude.Int.{ℤ, pos}
use sgx_experiments.Prelude.Effects.{Outcome, done, stop, crash, M, ◌>>=◌, ◌>>◌, and_then, check}
use sgx_experiments.Codes.{
  type_ra_msg0, ra_msg_code, sp_code, sp_ok, sp_unsupported_extended_epid_group, sp_ias_failed,
  sp_internal_error, minus_one, is_nonzero,
}
use sgx_experiments.Crypto.{Libcrypto}
use sgx_experiments.Sp.State.{
  Sp, ExtendedEpidGroup, extended_epid_groups, ecdsa_p256_att_key_id_list, msg0_size,
  response_header_size, read_msg0, RaSampResponse, att_key_id_list, Written, untouched, null,
  buffer,
}

-- What the enrolment wrote through its pointer to `g_spid`.
abbrev pub put_spid : Option Bytes → Sp → Sp
put_spid none s = s
put_spid (some bytes) s = record s { spid = bytes }

-- The body of the `if` in the loop, for the group that matches: enrolment, by the function that
-- the group names. A failure leaves by `goto CLEANUP`.
pub enroll_group : ExtendedEpidGroup → M Sp (Unit {0})
enroll_group group s =
    let (ret, spid) = group.enroll s.sp_credentials (some s.spid) in
    let chosen = record s { sp_extended_epid_group_id = some group } in
    let named = put_spid spid chosen in
    if is_nonzero ret
    then (stop (sp_code sp_ias_failed), named)
    else (done tt, record named { is_sp_registered = true })

-- The loop over the groups: the first that matches ends it. None need match.
pub register_group : ℕ → List ExtendedEpidGroup → M Sp (Unit {0})
unfolding enroll_group
register_group wanted [] s = (done tt, s)
register_group wanted (group ∷ groups) s =
    let rest = register_group wanted groups s in
    if group.extended_epid_group_id == wanted then enroll_group group s else rest

-- Whether the group has to be looked up: nothing is registered, or another group is.
pub needs_registration : ℕ → Sp → Bool
needs_registration wanted s = not s.is_sp_registered || (elim s.sp_extended_epid_group_id [
  | none ↦ false
  | some group ↦ not (group.extended_epid_group_id == wanted)
])

-- The response, with the list of keys as its body.
abbrev pub msg0_response : RaSampResponse
msg0_response = record {
  type = ra_msg_code type_ra_msg0;
  status0 = 0;
  status1 = 0;
  size = length ecdsa_p256_att_key_id_list;
  body = att_key_id_list ecdsa_p256_att_key_id_list;
}

-- From the registration check to the response; what stops goes to CLEANUP with its code.
pub msg0_body : Libcrypto → ℕ → M Sp RaSampResponse
unfolding needs_registration register_group
msg0_body lib wanted s =
    let (registered, t) =
      (if needs_registration wanted s
        then register_group wanted extended_epid_groups s
        else (done tt, s)) in
    and_then registered t λ _ u.
      if lib.malloc [] (length ecdsa_p256_att_key_id_list + response_header_size)
      then (done msg0_response, record u { buffers = u.buffers + 1 })
      else (stop (sp_code sp_internal_error), u)

-- CLEANUP: with a failure code the response is NULL.
abbrev pub msg0_cleanup : Outcome RaSampResponse → Outcome (ℤ × Written)
msg0_cleanup (done resp) = done (sp_code sp_ok, buffer resp)
msg0_cleanup (stop ret) = done (ret, null)
msg0_cleanup crash = crash

-- The whole handler: the message, `none` for NULL; its size; whether the response pointer is set.
-- The result is the return code and what is left in the response pointer.
pub sp_ra_proc_msg0_req : Libcrypto → Option Bytes → ℕ → Bool → M Sp (ℤ × Written)
unfolding msg0_body
sp_ra_proc_msg0_req lib none size pp_msg0_resp s = (done (minus_one, untouched), s)
sp_ra_proc_msg0_req lib (some body) size pp_msg0_resp s =
    if pp_msg0_resp && size == msg0_size
    then elim (read_msg0 body) [
      | none ↦ (crash, s)
      | some wanted ↦ let (o, t) = msg0_body lib wanted s in (msg0_cleanup o, t)
    ]
    else (done (minus_one, untouched), s)
