-- ===== src/Sp/Msg0/Registration.antt =====
-- What `sp_ra_proc_msg0_req` registers and answers.
use sgx_experiments.Prelude.{
  [], ℕ, ◌+◌, ◌^◌, ◌<◌, ◌≡◌, ◌⊎◌, inl, ◌≢◌, ◌∙◌, Bool, true, false, Option, none, some, Bytes,
  memcpy, length, ap, u32_le, not, ◌&&◌, ◌==◌, if◌then◌else◌, arith,
}
use sgx_experiments.Prelude.Int.{ℤ}
use sgx_experiments.Prelude.Effects.{Outcome, done}
use sgx_experiments.Codes.{sp_code, sp_ok, sp_internal_error, minus_one}
use sgx_experiments.Crypto.{Libcrypto}
use sgx_experiments.Ias.{ias_enroll, ias_get_sigrl, sim_spid}
use sgx_experiments.Sp.State.{
  Sp, extended_epid_groups, ExtendedEpidGroup, msg0_size, read_msg0, ecdsa_p256_att_key_id_list,
  response_header_size, Written, untouched, null, buffer,
}
use sgx_experiments.Sp.Msg0.{
  needs_registration, enroll_group, register_group, msg0_response, msg0_body, sp_ra_proc_msg0_req,
}

-- The one group of the table.
abbrev pub epid_group : ExtendedEpidGroup
epid_group = record { extended_epid_group_id = 0; enroll = ias_enroll; get_sigrl = ias_get_sigrl }

-- The flag and the group agree: either nothing is registered and no group is chosen, or the group
-- of the table is.
abbrev pub WellFormed : Sp → Type 0
WellFormed s =
    ((s.is_sp_registered ≡ false) × (s.sp_extended_epid_group_id ≡ none))
    ⊎ ((s.is_sp_registered ≡ true) × (s.sp_extended_epid_group_id ≡ some epid_group))

-- The state after an enrolment in that group.
abbrev pub enrolled : Sp → Sp
enrolled s = record s {
  sp_extended_epid_group_id = some epid_group;
  is_sp_registered = true;
  spid = memcpy s.spid sim_spid 16;
}

abbrev pub response_size : ℕ
response_size = length ecdsa_p256_att_key_id_list + response_header_size

-- The state before the response: enrolled, if group 0 is asked for and nothing was registered.
abbrev pub registration : ℕ → Sp → Sp
registration wanted s = if wanted == 0 && not s.is_sp_registered then enrolled s else s

-- A group id below 2 ^ 32, written as a little-endian word, is read back from message 0.
pub read_msg0-u32_le : (w : ℕ) → w < 2 ^ 32 → read_msg0 (u32_le w) ≡ some w
read_msg0-u32_le w h = ap some (omega arith)

registration_lem :
    (s : Sp) (wanted : ℕ)
    → WellFormed s
    → (if needs_registration wanted s
        then register_group wanted extended_epid_groups s
        else (done tt, s))
      ≡ (done tt, registration wanted s)
unfolding needs_registration register_group enroll_group ias_enroll
registration_lem s wanted h = ground arith

-- The answer to a well-formed request.
abbrev pub answered : Libcrypto → Sp → Outcome (ℤ × Written) × Sp
answered lib t =
    if lib.malloc [] response_size
    then (done (sp_code sp_ok, buffer msg0_response), record t { buffers = t.buffers + 1 })
    else (done (sp_code sp_internal_error, null), t)

module _ (lib : Libcrypto) (s : Sp) (body : Bytes) (wanted : ℕ) where
  -- In a well-formed state a message 0 that names a group is answered with the list of keys and
  -- one buffer more, or with SP_INTERNAL_ERROR and NULL if there is no memory; it enrols when it
  -- names group 0 and nothing is registered, and else it changes nothing more.
  pub sp_ra_proc_msg0_req-answered :
      WellFormed s
      → read_msg0 body ≡ some wanted
      → sp_ra_proc_msg0_req lib (some body) msg0_size true s ≡ answered lib (registration wanted s)
  unfolding sp_ra_proc_msg0_req msg0_body
  sp_ra_proc_msg0_req-answered h parsed = simp (parsed, registration_lem s wanted h) (ground arith)

  -- Before registration a message 0 that names another group than 0 is answered, with memory, as
  -- if the group were supported: SP_OK and the list of keys, while nothing is registered.
  pub sp_ra_proc_msg0_req-unsupported :
      s.is_sp_registered ≡ false
      → s.sp_extended_epid_group_id ≡ none
      → wanted ≢ 0
      → lib.malloc [] response_size ≡ true
      → read_msg0 body ≡ some wanted
      → sp_ra_proc_msg0_req lib (some body) msg0_size true s
        ≡ (done (sp_code sp_ok, buffer msg0_response), record s { buffers = s.buffers + 1 })
  sp_ra_proc_msg0_req-unsupported fresh empty other room parsed =
      sp_ra_proc_msg0_req-answered (inl (fresh, empty)) parsed ∙ (simp room (ground arith))

  -- A request that is not well formed changes nothing, and its response pointer is left alone.
  pub sp_ra_proc_msg0_req-invalid :
      (message : Option Bytes) (size : ℕ) (pp_msg0_resp : Bool)
      → ((message ≡ none) ⊎ (size ≢ msg0_size) ⊎ (pp_msg0_resp ≡ false))
      → sp_ra_proc_msg0_req lib message size pp_msg0_resp s ≡ (done (minus_one, untouched), s)
  unfolding sp_ra_proc_msg0_req
  sp_ra_proc_msg0_req-invalid message size pp_msg0_resp h = ground arith

pub registration-WellFormed :
    (s : Sp) (wanted : ℕ) → WellFormed s → WellFormed (registration wanted s)
registration-WellFormed s wanted h = ground arith
