-- ===== src/App.antt =====
-- code-experiments/attestation/remote/app/app.cpp: `main` of the remote-attestation App, which
-- drives its enclave and talks to the service provider. The untrusted SDK, the passage into the
-- enclave and `malloc` are parameters. Output, `sleep` and `getchar` are left out.
pub mod State
pub mod Steps
pub mod Loop
pub mod Invariant
pub mod Release
pub mod Lost
pub mod Retry
pub mod Print
pub mod Attested
use sgx_experiments.Prelude.{Bool, none, ◌==◌, if◌then◌else◌}
use sgx_experiments.Prelude.Int.{ℤ, pos}
use sgx_experiments.Prelude.Effects.{Outcome, done, stop, crash, M, ◌>>=◌, ◌>>◌}
use sgx_experiments.Crypto.{Libcrypto}
use sgx_experiments.Sp.State.{Sp}
use sgx_experiments.Network.{ra_free_network_response_buffer}
use sgx_experiments.RaEnclave.{succeeded, Sdk, enclave_ra_close}
use sgx_experiments.App.State.{Platform, App, start, int_max, remove, freed}
use sgx_experiments.App.Steps.{
  generate_msg0, send_msg0, select_key, start_enclave, generate_msg1, send_msg1, receive_msg3,
}

-- From the first message to `return ret`; what stops goes to CLEANUP with its code.
pub attest : Bool → Libcrypto → Sdk → Platform → M App ℤ
unfolding generate_msg0 send_msg0 select_key start_enclave generate_msg1 send_msg1 receive_msg3
attest supplied lib sdk p = generate_msg0 p >> send_msg0 supplied lib >>= λ resp.
    select_key p resp >> start_enclave supplied sdk p >> generate_msg1 p >>= λ req.
    send_msg1 supplied lib req >>= λ msg2. receive_msg3 p msg2

-- The `if (context != INT_MAX)` of CLEANUP: the context is closed if the call reaches the enclave
-- and succeeds there.
pub close_key_context : Sdk → Platform → App → App
close_key_context sdk p a =
    let status = enclave_ra_close sdk a.context in
    if a.context == int_max
    then a
    else if succeeded p.enter_close
    then record a {
      status = status;
      sessions = if succeeded status then remove a.context a.sessions else a.sessions;
    }
    else a

-- `SAFE_FREE` of the four blocks.
abbrev pub free_blocks : App → App
free_blocks a = record a {
  msg3 = none;
  msg1_full = none;
  msg0_full = none;
  blocks = freed a.msg0_full (freed a.msg1_full (freed a.msg3 a.blocks));
}

-- The rest of CLEANUP. `p_msg3_full` and `p_att_result_msg_full` are always NULL: the code that
-- would set them stands in a comment.
pub release : App → App
release a =
    let destroyed = record a { enclaves = remove a.enclave_id a.enclaves } in
    free_blocks (record destroyed {
      sp =
          ra_free_network_response_buffer destroyed.msg2_full
            (ra_free_network_response_buffer destroyed.msg0_resp destroyed.sp);
      msg0_resp = none;
      msg2_full = none;
    })

pub cleanup : Sdk → Platform → App → App
unfolding close_key_context release
cleanup sdk p a = release (close_key_context sdk p a)

-- The end of `main`: `return ret` after a success; past CLEANUP control flows off the end, which in
-- `main` is `return 0`.
abbrev pub finish : Sdk → Platform → Outcome ℤ × App → Outcome ℤ × App
finish sdk p (done ret, a) = (done ret, a)
finish sdk p (stop e, a) = (done (pos 0), cleanup sdk p a)
finish sdk p (crash, a) = (crash, a)

-- `main`, from the state of the service provider at its start: the exit status, and what is held.
pub main : Bool → Libcrypto → Sdk → Platform → Sp → Outcome ℤ × App
unfolding attest cleanup
main supplied lib sdk p s = finish sdk p (attest supplied lib sdk p (start s))
