-- ===== src/App/Steps.antt =====
-- The steps of the App's `main`, cut where its comments and its `goto CLEANUP` cut it.
use sgx_experiments.Prelude.{
  ℕ, zero, suc, ◌+◌, Bool, true, ◌&&◌, [], ◌∷◌, Option, none, some, Bytes, u32_le, ◌==◌,
  if◌then◌else◌,
}
use sgx_experiments.Prelude.Int.{ℤ, pos}
use sgx_experiments.Prelude.Effects.{done, stop, crash, M, ◌>>=◌, ◌>>◌, and_then}
use sgx_experiments.Codes.{
  type_ra_msg0, type_ra_msg1, type_ra_msg2, ra_msg_code, minus_one, is_nonzero,
}
use sgx_experiments.Crypto.{Libcrypto}
use sgx_experiments.Sp.State.{
  RaSampResponse, msg0_size, msg1_size, Written, untouched, null, buffer,
}
use sgx_experiments.Network.{RaSampRequest, ra_network_send_receive}
use sgx_experiments.RaEnclave.{SgxStatus, succeeded, Sdk, enclave_init_ra}
use sgx_experiments.App.State.{Platform, App, is_lost, is_busy}

-- `sizeof(ra_samp_request_header_t)`, packed
abbrev pub request_header_size : ℕ
request_header_size = 8

-- `do { ret = …; } while (again(ret) && left--);`: the body is given the number of rounds before it.
unfoldable pub do_while :
    {S : Type 0} → (SgxStatus → Bool) → (ℕ → M S SgxStatus) → ℕ → ℕ → M S SgxStatus
do_while again round zero n s = round n s
do_while again round (suc left) n s = and_then (round n s).0 (round n s).1 λ ret t.
    let rest = do_while again round left (n + 1) t in if again ret then rest else (done ret, t)

-- One request; the state of the service provider is part of the App's here.
unfoldable pub send : Bool → Libcrypto → RaSampRequest → M App (ℤ × Written)
send supplied lib req a =
    let (o, s) = ra_network_send_receive supplied lib true (some req) true a.sp in
    (o, record a { sp = s })

-- Message 0: the extended EPID group 0.
abbrev pub msg0_message : RaSampRequest
msg0_message = record { type = ra_msg_code type_ra_msg0; size = msg0_size; body = u32_le 0 }

unfoldable pub generate_msg0 : Platform → M App (Unit {0})
generate_msg0 p a =
    if p.malloc (request_header_size + msg0_size)
    then (done tt, record a { msg0_full = some msg0_message; blocks = a.blocks + 1 })
    else (stop minus_one, a)

-- A code that is not 0 stops. The response is read next, so that without one the NULL pointer is.
abbrev pub take_msg0_resp : ℤ × Written → M App RaSampResponse
take_msg0_resp (ret, untouched) a = if is_nonzero ret then (stop ret, a) else (crash, a)
take_msg0_resp (ret, null) a = if is_nonzero ret then (stop ret, a) else (crash, a)
take_msg0_resp (ret, buffer resp) a =
    let b = record a { msg0_resp = some resp } in
    if is_nonzero ret then (stop ret, b) else (done resp, b)

unfoldable pub send_msg0 : Bool → Libcrypto → M App RaSampResponse
unfolding send
send_msg0 supplied lib = send supplied lib msg0_message >>= take_msg0_resp

unfoldable pub select_key : Platform → RaSampResponse → M App (Unit {0})
select_key p resp a =
    let (ret, key_id) = p.select_att_key_id resp.body resp.size in
    let b = record a { selected_key_id = key_id } in
    if succeeded ret then (done tt, b) else (stop minus_one, b)

-- A round of the first loop: an enclave, and in it a key context.
unfoldable pub create_enclave : Platform → ℕ → M App (Unit {0})
create_enclave p n a =
    let (ret, id) = p.create_enclave n in
    if succeeded ret
    then (done tt, record a { enclave_id = id; enclaves = id ∷ a.enclaves })
    else (stop minus_one, a)

unfoldable pub init_ra : Bool → Sdk → Platform → ℕ → M App SgxStatus
init_ra supplied sdk p n a =
    let (status, context) = enclave_init_ra supplied sdk n 0 in
    if succeeded (p.enter_init n)
    then (
      done (p.enter_init n),
      record a {
        status = status;
        context = context;
        sessions = if succeeded status then context ∷ a.sessions else a.sessions;
      },
    )
    else (done (p.enter_init n), a)

-- `ret != SGX_SUCCESS || status`
abbrev pub check_init : SgxStatus → M App (Unit {0})
check_init ret a = if succeeded ret && succeeded a.status then (done tt, a) else (stop minus_one, a)

-- The loop, with `enclave_lost_retry_time` 1.
unfoldable pub start_enclave : Bool → Sdk → Platform → M App (Unit {0})
unfolding create_enclave init_ra do_while
start_enclave supplied sdk p =
    do_while is_lost (λ n. create_enclave p n >> init_ra supplied sdk p n) 1 0 >>= check_init

-- A message 1 without a body yet, and the call that fills it in.
abbrev pub msg1_message : Bytes → RaSampRequest
msg1_message body = record { type = ra_msg_code type_ra_msg1; size = msg1_size; body = body }

abbrev pub get_msg1 : Platform → ℕ → M App SgxStatus
get_msg1 p n a =
    let (ret, body) = p.ra_get_msg1_ex n a.selected_key_id a.context a.enclave_id in
    (done ret, record a { msg1_full = some (msg1_message body) })

-- The message that `p_msg1_full` points to.
abbrev pub generated : SgxStatus → M App RaSampRequest
generated ret a =
    if succeeded ret
    then elim a.msg1_full [ none ↦ (crash, a) | some req ↦ (done req, a) ]
    else (stop minus_one, a)

-- With `busy_retry_time` 4.
unfoldable pub generate_msg1 : Platform → M App RaSampRequest
unfolding do_while
generate_msg1 p a =
    if p.malloc (request_header_size + msg1_size)
    then (do_while is_busy (get_msg1 p) 4 0 >>= generated)
        (record a { msg1_full = some (msg1_message []); blocks = a.blocks + 1 })
    else (stop minus_one, a)

-- A code that is not 0, no response, or a response of another type stops with the code.
abbrev pub take_msg2 : ℤ × Written → M App RaSampResponse
take_msg2 (ret, untouched) a = (stop ret, a)
take_msg2 (ret, null) a = (stop ret, a)
take_msg2 (ret, buffer resp) a =
    let b = record a { msg2_full = some resp } in
    if is_nonzero ret
    then (stop ret, b)
    else if resp.type == ra_msg_code type_ra_msg2
    then (done resp, b)
    else (stop ret, b)

unfoldable pub send_msg1 : Bool → Libcrypto → RaSampRequest → M App RaSampResponse
unfolding send
send_msg1 supplied lib req = send supplied lib req >>= take_msg2

-- The pointer is left alone when nothing is allocated.
abbrev pub put_msg3 : Option Bytes → App → App
put_msg3 none a = a
put_msg3 (some body) a = record a { msg3 = some body; blocks = a.blocks + 1 }

abbrev pub proc_msg2 : Platform → RaSampResponse → ℕ → M App SgxStatus
proc_msg2 p msg2 n a =
    let (ret, msg3) =
      p.ra_proc_msg2_ex n a.selected_key_id a.context a.enclave_id msg2.body msg2.size in
    (done ret, put_msg3 msg3 a)

-- `if (!p_msg3)`, and then the code.
abbrev pub check_msg3 : Option Bytes → SgxStatus → M App ℤ
check_msg3 none ret a = (stop minus_one, a)
check_msg3 (some body) ret a = if succeeded ret then (done (pos 0), a) else (stop minus_one, a)

-- With `busy_retry_time` 2.
unfoldable pub receive_msg3 : Platform → RaSampResponse → M App ℤ
unfolding do_while
receive_msg3 p msg2 = do_while is_busy (proc_msg2 p msg2) 2 0 >>= λ ret a. check_msg3 a.msg3 ret a
