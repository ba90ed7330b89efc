-- ===== src/Network.antt =====
-- code-experiments/attestation/remote/service_provider/network_ra.cpp and network_ra.h: the
-- requests that the App sends, and the dispatch to the service provider's handlers.
pub mod Exchange
pub mod Session
pub mod Unregistered
pub mod Handshake
pub mod Protocol
use sgx_experiments.Prelude.{
  ℕ, ◌+◌, ◌-◌, Bool, true, ◌&&◌, List, [], ◌∷◌, Option, none, some, Bytes, ◌==◌, if◌then◌else◌,
}
use sgx_experiments.Prelude.Int.{ℤ, pos}
use sgx_experiments.Prelude.Effects.{Outcome, done, stop, crash, M, ◌>>=◌}
use sgx_experiments.Codes.{type_ra_msg0, type_ra_msg1, ra_msg_code, minus_one, is_nonzero}
use sgx_experiments.Crypto.{Libcrypto}
use sgx_experiments.Sp.State.{Sp, RaSampResponse, Written, untouched, null, buffer}
use sgx_experiments.Sp.Msg0.{sp_ra_proc_msg0_req}
use sgx_experiments.Sp.Msg1.{sp_ra_proc_msg1_req}

-- `ra_samp_request_header_t`, and the bytes behind it.
pub record RaSampRequest : Type 0 where
  pub type : ℕ
  pub size : ℕ
  pub body : Bytes

-- `*p_resp = p_resp_msg` when the handler returns 0: the local pointer is not initialised, so that a
-- handler that left it alone would have an indeterminate value copied.
abbrev pub deliver : Outcome (ℤ × Written) → Outcome (ℤ × Written)
deliver (done (ret, untouched)) = if is_nonzero ret then done (ret, untouched) else crash
deliver (done (ret, null)) = if is_nonzero ret then done (ret, untouched) else done (pos 0, null)
deliver (done (ret, buffer resp)) =
    if is_nonzero ret then done (ret, untouched) else done (pos 0, buffer resp)
deliver (stop e) = stop e
deliver crash = crash

abbrev pub answer : Outcome (ℤ × Written) × Sp → Outcome (ℤ × Written) × Sp
answer (o, t) = (deliver o, t)

-- The server's name, the request (`none` for NULL) and whether the response pointer is set.
pub ra_network_send_receive :
    Bool → Libcrypto → Bool → Option RaSampRequest → Bool → M Sp (ℤ × Written)
ra_network_send_receive supplied lib server_url none p_resp s = (done (minus_one, untouched), s)
ra_network_send_receive supplied lib server_url (some p_req) p_resp s =
    if server_url && p_resp
    then if p_req.type == ra_msg_code type_ra_msg0
      then answer (sp_ra_proc_msg0_req lib (some p_req.body) p_req.size true s)
      else if p_req.type == ra_msg_code type_ra_msg1
      then answer (sp_ra_proc_msg1_req supplied lib (some p_req.body) p_req.size true s)
      else (done (minus_one, untouched), s)
    else (done (minus_one, untouched), s)

-- `free` of a response; NULL is left alone.
unfoldable pub ra_free_network_response_buffer : Option RaSampResponse → Sp → Sp
ra_free_network_response_buffer none s = s
ra_free_network_response_buffer (some resp) s = record s { buffers = s.buffers - 1 }

-- Requests one after the other, with the answer to each. The calls of the library, and `malloc`, may
-- give something else for each request: those for request `n` are `libs n`.
pub session : Bool → (ℕ → Libcrypto) → ℕ → List RaSampRequest → M Sp (List (ℤ × Written))
session supplied libs n [] s = (done [], s)
session supplied libs n (req ∷ reqs) s =
    (ra_network_send_receive supplied (libs n) true (some req) true >>= λ answer.
    session supplied libs (n + 1) reqs >>= λ answers. λ t. (done (answer ∷ answers), t))
      s

-- The same with one library.
pub exchange : Bool → Libcrypto → List RaSampRequest → M Sp (List (ℤ × Written))
exchange supplied lib [] s = (done [], s)
exchange supplied lib (req ∷ reqs) s =
    (ra_network_send_receive supplied lib true (some req) true >>= λ answer.
    exchange supplied lib reqs >>= λ answers. λ t. (done (answer ∷ answers), t))
      s
