-- ===== src/App/State.antt =====
-- The local variables of the App's `main`, and what its calls of the untrusted SDK give.
use sgx_experiments.Prelude.{
  ℕ, ◌-◌, Bool, true, false, List, [], ◌∷◌, Option, none, some, Bytes, replicate, ◌==◌,
  if◌then◌else◌,
}
use sgx_experiments.RaEnclave.{SgxStatus, sgx_success, sgx_error_enclave_lost, sgx_error_busy}
use sgx_experiments.Sp.State.{Sp, Body, RaSampResponse}
use sgx_experiments.Network.{RaSampRequest}

-- The calls of the untrusted SDK: each gives its status and what it leaves in its output buffers. A
-- call that is made in a loop is given the number of calls before it.
pub record Platform : Type 0 where
  -- whether there is room for a block of the size
  pub malloc : ℕ → Bool
  -- `sgx_select_att_key_id(list, size, &selected_key_id)`
  pub select_att_key_id : Body → ℕ → SgxStatus × Bytes
  -- `sgx_create_enclave(…, &enclave_id, 0)`; the identifier is written on success only
  pub create_enclave : ℕ → SgxStatus × ℕ
  -- whether the calls of `enclave_init_ra` and `enclave_ra_close` reach the enclave; their output
  -- is copied back only when they do
  pub enter_init : ℕ → SgxStatus
  pub enter_close : SgxStatus
  -- `sgx_ra_get_msg1_ex(&selected_key_id, context, enclave_id, sgx_ra_get_ga, p_msg1)`
  pub ra_get_msg1_ex : ℕ → Bytes → ℕ → ℕ → SgxStatus × Bytes
  -- `sgx_ra_proc_msg2_ex(&selected_key_id, context, enclave_id, …, p_msg2, size, &p_msg3, …)`: the
  -- message 3 that it allocates, if any
  pub ra_proc_msg2_ex : ℕ → Bytes → ℕ → ℕ → Body → ℕ → SgxStatus × Option Bytes

-- `ret == SGX_ERROR_ENCLAVE_LOST`
abbrev pub is_lost : SgxStatus → Bool
is_lost sgx_error_enclave_lost = true
is_lost _ = false

-- `ret == SGX_ERROR_BUSY`
abbrev pub is_busy : SgxStatus → Bool
is_busy sgx_error_busy = true
is_busy _ = false

abbrev pub int_max : ℕ
int_max = 0x7fffffff

-- The variables of `main`, the service provider, and what exists outside: the enclaves that were
-- created and not destroyed, the key contexts that are open in them, and the number of blocks of
-- the App that are allocated.
pub record App : Type 0 where
  pub sp : Sp
  pub enclave_id : ℕ
  pub context : ℕ
  pub status : SgxStatus
  pub selected_key_id : Bytes
  pub msg0_full : Option RaSampRequest
  pub msg0_resp : Option RaSampResponse
  pub msg1_full : Option RaSampRequest
  pub msg2_full : Option RaSampResponse
  pub msg3 : Option Bytes
  pub enclaves : List ℕ
  pub sessions : List ℕ
  pub blocks : ℕ

-- `sizeof(sgx_att_key_id_t)`
abbrev pub att_key_id_size : ℕ
att_key_id_size = 256

-- The initial values.
abbrev pub start : Sp → App
start s = record {
  sp = s;
  enclave_id = 0;
  context = int_max;
  status = sgx_success;
  selected_key_id = replicate att_key_id_size 0;
  msg0_full = none;
  msg0_resp = none;
  msg1_full = none;
  msg2_full = none;
  msg3 = none;
  enclaves = [];
  sessions = [];
  blocks = 0;
}

-- `sgx_destroy_enclave` and a close: the first of the list with that number goes; an unknown
-- number is refused.
unfoldable pub remove : ℕ → List ℕ → List ℕ
remove n [] = []
remove n (x ∷ xs) = let rest = remove n xs in if x == n then xs else x ∷ rest

-- `SAFE_FREE` of one pointer, on the count of blocks.
abbrev pub freed : {A : Type 0} → Option A → ℕ → ℕ
freed none n = n
freed (some a) n = n - 1
