-- ===== src/Sp/State.antt =====
-- The static data and the state of service_provider.cpp, and the messages.
use sgx_experiments.Prelude.{
  ℕ, ◌+◌, ◌*◌, ◌^◌, Bool, false, List, [], ◌∷◌, ◌++◌, Option, none, some, Bytes, replicate, take,
  drop, length, u16_le, ltb, if◌then◌else◌,
}
use sgx_experiments.Prelude.Int.{ℤ}
use sgx_experiments.Crypto.{EcSign256, sign_bytes}
use sgx_experiments.Ias.{ias_enroll, ias_get_sigrl}

-- `sample_extended_epid_group`. The handlers never call `verify_attestation_evidence`: its one
-- call stands in code that is commented out.
pub record ExtendedEpidGroup : Type 0 where
  pub extended_epid_group_id : ℕ
  pub enroll : ℕ → Option Bytes → ℤ × Option Bytes
  pub get_sigrl : Bytes → Bool → Bool → ℤ × Option (ℕ × Option Bytes)

-- `g_extended_epid_groups`
abbrev pub extended_epid_groups : List ExtendedEpidGroup
extended_epid_groups =
    record { extended_epid_group_id = 0; enroll = ias_enroll; get_sigrl = ias_get_sigrl } ∷ []

-- `g_sp_priv_key`
abbrev pub sp_priv_key : Bytes
sp_priv_key =
    0x90 ∷ 0xe7 ∷ 0x6c ∷ 0xbb ∷ 0x2d ∷ 0x52 ∷ 0xa1 ∷ 0xce ∷ 0x3b ∷ 0x66 ∷ 0xde ∷ 0x11 ∷ 0x43 ∷ 0x9c
    ∷ 0x87 ∷ 0xec ∷ 0x1f ∷ 0x86 ∷ 0x6a ∷ 0x3b ∷ 0x65 ∷ 0xb6 ∷ 0xae ∷ 0xea ∷ 0xad ∷ 0x57 ∷ 0x34
    ∷ 0x53 ∷ 0xd1 ∷ 0x03 ∷ 0x8c ∷ 0x01 ∷ []

-- `g_ecdsa_p256_att_key_id_list`
pub ecdsa_p256_att_key_id_list : Bytes
ecdsa_p256_att_key_id_list =
    (0 ∷ 0 ∷ 0 ∷ 0 ∷ 0x01 ∷ 0 ∷ 0 ∷ 0 ∷ 0 ∷ 0 ∷ 0 ∷ 0 ∷ 0x20 ∷ 0 ∷ 0x8c ∷ 0x4f ∷ 0x57 ∷ 0x75 ∷ 0xd7
      ∷ 0x96 ∷ 0x50 ∷ 0x3e ∷ 0x96 ∷ 0x13 ∷ 0x7f ∷ 0x77 ∷ 0xc6 ∷ 0x8a ∷ 0x82 ∷ 0x9a ∷ 0 ∷ 0x56 ∷ 0xac
      ∷ 0x8d ∷ 0xed ∷ 0x70 ∷ 0x14 ∷ 0x0b ∷ 0x08 ∷ 0x1b ∷ 0x09 ∷ 0x44 ∷ 0x90 ∷ 0xc5 ∷ 0x7b ∷ 0xff
      ∷ [])
    ++ (replicate 16 0 ++ ((0x01 ∷ []) ++ (replicate 99 0 ++ ((0x02 ∷ []) ++ (replicate 101 0)))))

-- `sp_db_item_t`
pub record SpDbItem : Type 0 where
  pub g_a : Bytes
  pub g_b : Bytes
  pub vk_key : Bytes
  pub mk_key : Bytes
  pub sk_key : Bytes
  pub smk_key : Bytes
  pub b : Bytes
  pub ps_sec_prop : Bytes

-- The static variables, and two counts of what the handlers hold: the response buffers that are
-- allocated and the crypto contexts that are open.
pub record Sp : Type 0 where
  pub sp_db : SpDbItem
  pub sp_extended_epid_group_id : Option ExtendedEpidGroup
  pub is_sp_registered : Bool
  pub sp_credentials : ℕ
  pub authentication_token : ℕ
  pub spid : Bytes
  pub buffers : ℕ
  pub contexts : ℕ

-- The state at the start of the process: static variables are zero.
abbrev pub init : Sp
init = record {
  sp_db = record {
    g_a = replicate 64 0;
    g_b = replicate 64 0;
    vk_key = replicate 16 0;
    mk_key = replicate 16 0;
    sk_key = replicate 16 0;
    smk_key = replicate 16 0;
    b = replicate 32 0;
    ps_sec_prop = replicate 256 0;
  };
  sp_extended_epid_group_id = none;
  is_sp_registered = false;
  sp_credentials = 0;
  authentication_token = 0;
  spid = replicate 16 0;
  buffers = 0;
  contexts = 0;
}

-- `sizeof(sample_ra_msg0_t)` and `sizeof(sample_ra_msg1_t)`
abbrev pub msg0_size : ℕ
msg0_size = 4

abbrev pub msg1_size : ℕ
msg1_size = 68

-- `sizeof(ra_samp_response_header_t)`, packed
abbrev pub response_header_size : ℕ
response_header_size = 8

-- `sizeof(sample_ra_msg2_t)` without the flexible array
abbrev pub msg2_fixed_size : ℕ
msg2_fixed_size = 168

-- `sample_ra_msg1_t`
pub record Msg1 : Type 0 where
  pub g_a : Bytes
  pub gid : Bytes

-- A pointer to `body` read as a message: `none` when the read would leave the body.
abbrev pub read_msg0 : Bytes → Option ℕ
read_msg0 (b0 ∷ b1 ∷ b2 ∷ b3 ∷ rest) = some (b0 + b1 * 2 ^ 8 + b2 * 2 ^ 16 + b3 * 2 ^ 24)
read_msg0 body = none

abbrev pub read_msg1 : Bytes → Option Msg1
read_msg1 body =
    if ltb (length body) msg1_size
    then none
    else some (record { g_a = take 64 body; gid = take 4 (drop 64 body) })

-- `sample_ra_msg2_t`
pub record Msg2 : Type 0 where
  pub g_b : Bytes
  pub spid : Bytes
  pub quote_type : ℕ
  pub kdf_id : ℕ
  pub sign_gb_ga : EcSign256
  pub mac : Bytes
  pub sig_rl_size : ℕ
  pub sig_rl : Bytes

-- The bytes of a message 2 in front of its MAC: `offsetof(sample_ra_msg2_t, mac)` of them.
abbrev pub cmaced_bytes : Msg2 → Bytes
cmaced_bytes m =
    m.g_b ++ (m.spid ++ (u16_le m.quote_type ++ (u16_le m.kdf_id ++ sign_bytes m.sign_gb_ga)))

pub data Body : Type 0 where
  att_key_id_list : Bytes → Body
  msg2 : Msg2 → Body

-- `ra_samp_response_header_t`
pub record RaSampResponse : Type 0 where
  pub type : ℕ
  pub status0 : ℕ
  pub status1 : ℕ
  pub size : ℕ
  pub body : Body

-- What a handler leaves in the caller's response pointer.
pub data Written : Type 0 where
  untouched : Written
  null : Written
  buffer : RaSampResponse → Written
