-- ===== src/Tests/Apps.antt =====
-- The theorems about the App, at concrete platforms.
use sgx_experiments.Prelude.{
  ℕ, suc, ◌&&◌, ◌+◌, ◌≡◌, ◌≢◌, refl, ◌⊎◌, inl, true, false, List, [], none, some, ◌∷◌, replicate,
  ◌==◌, arith, if◌then◌else◌,
}
use sgx_experiments.Prelude.Effects.{Ensures, done, stop}
use sgx_experiments.Prelude.Int.{pos}
use sgx_experiments.Codes.{minus_one}
use sgx_experiments.Sp.State.{init, RaSampResponse, att_key_id_list}
use sgx_experiments.RaEnclave.{
  sgx_success, sgx_error_enclave_lost, sgx_error_busy, succeeded, enclave_init_ra,
}
use sgx_experiments.App.{main}
use sgx_experiments.App.State.{Platform, is_busy, start, int_max}
use sgx_experiments.App.Steps.{generate_msg1, msg1_message, start_enclave, receive_msg3}
use sgx_experiments.App.Invariant.Whole.{Fills}
use sgx_experiments.App.Release.{Settled, main-settles, main-closes}
use sgx_experiments.App.Print.{Piece, opening, print_byte_array, Shows, print_byte_array-Shows}
use sgx_experiments.App.Lost.{StartedIn, start_enclave-StartedIn}
use sgx_experiments.App.Retry.{
  Decides, msg1_status, msg1_content, filled, generate_msg1-Decides, is_some, msg2_status, kept,
  processed, receive_msg3-Decides,
}
use sgx_experiments.App.Attested.{Cooperates, Attested}
use sgx_experiments.App.Attested.Run.{main-attests}
use sgx_experiments.Tests.Data.{test_lib, test_lib-Works, test_sdk, msg1_bytes}

-- The device is busy at the first call for each message.
abbrev ready_platform : Platform
ready_platform = record {
  malloc = λ size. true;
  select_att_key_id = λ list size. (sgx_success, replicate 256 1);
  create_enclave = λ n. (sgx_success, n + 1);
  enter_init = λ n. sgx_success;
  enter_close = sgx_success;
  ra_get_msg1_ex =
      λ n key_id context id. ((if n == 0 then sgx_error_busy else sgx_success), msg1_bytes);
  ra_proc_msg2_ex = λ n key_id context id body size.
      if n == 0 then (sgx_error_busy, none) else (sgx_success, some (replicate 436 5));
}

-- The first enclave is lost, and so is the second.
abbrev losing_platform : Platform
losing_platform = record ready_platform { enter_init = λ n. sgx_error_enclave_lost }

losing_platform-Fills : Fills losing_platform
losing_platform-Fills = record {
  msg1_bytes = λ n key_id context id. refl;
  msg3_late = λ n key_id context id body size b. ground arith;
}

main-settles_example :
    Ensures
      (main true test_lib test_sdk losing_platform init)
      (Settled test_sdk losing_platform init)
      (λ _ _. ⊥)
main-settles_example =
    main-settles test_sdk losing_platform losing_platform-Fills true test_lib init
      (inl (refl, refl))

main-closes_example :
    Ensures
      (main true test_lib test_sdk losing_platform init)
      (λ _ t. (t.msg3 ≢ none) ⊎ ((t.context ≡ int_max) ⊎ (t.sessions ≡ [])))
      (λ _ _. ⊥)
main-closes_example =
    main-closes test_sdk losing_platform losing_platform-Fills true test_lib init (inl (refl, refl))
      refl (λ context. refl)

ready_platform-Cooperates : Cooperates test_sdk ready_platform 1 1
unfolding enclave_init_ra
ready_platform-Cooperates = record {
  room = λ size. refl;
  selects = λ list size. refl;
  creates = refl;
  enters = refl;
  inits = refl;
  busy1_few = omega arith;
  msg1_busy = λ n key_id context id few. ground arith;
  msg1_ready = λ key_id context id. (refl, omega arith);
  busy2_few = omega arith;
  msg2_busy = λ n key_id context id body size few. ground arith;
  msg2_ready = λ key_id context id body size. (refl, λ e. ground arith);
}

main-attests_example :
    Ensures (main false test_lib test_sdk ready_platform init) (Attested test_lib) (λ _ _. ⊥)
main-attests_example =
    main-attests test_lib test_lib-Works test_sdk ready_platform 1 1 ready_platform-Cooperates

generate_msg1-Decides_example :
    (k : ℕ) × Decides (λ i. is_busy (msg1_status ready_platform (start init) i)) 0 4 k
    × (generate_msg1 ready_platform (start init) ≡ (
      (if succeeded (msg1_status ready_platform (start init) k)
          then done (msg1_message (msg1_content ready_platform (start init) k))
          else stop minus_one),
      record (filled ready_platform (start init) k) { blocks = 1 },
    ))
generate_msg1-Decides_example = generate_msg1-Decides ready_platform (start init) refl

-- A message 2 that the platform does not look at.
abbrev some_msg2 : RaSampResponse
some_msg2 = record { type = 0; size = 0; body = att_key_id_list []; status0 = 0; status1 = 0 }

receive_msg3-Decides_example :
    (k : ℕ) × Decides (λ i. is_busy (msg2_status ready_platform some_msg2 (start init) i)) 0 2 k
    × (receive_msg3 ready_platform some_msg2 (start init) ≡ (
      (if is_some (kept ready_platform some_msg2 (start init) (suc k))
            && succeeded (msg2_status ready_platform some_msg2 (start init) k)
          then done (pos 0)
          else stop minus_one),
      processed ready_platform some_msg2 (start init) (suc k),
    ))
receive_msg3-Decides_example = receive_msg3-Decides ready_platform some_msg2 (start init)

-- Ten bytes of twelve.
print_byte_array-Shows_example :
    (pieces : List Piece) × (print_byte_array (some (replicate 12 7)) 10
      ≡ some (opening 10 ∷ pieces))
    × Shows (replicate 10 7) 1 pieces
print_byte_array-Shows_example = print_byte_array-Shows (replicate 12 7) 9 (omega arith)

-- The first enclave is lost, and the second is not.
abbrev losing_once : Platform
losing_once = record ready_platform {
  enter_init = λ n. if n == 0 then sgx_error_enclave_lost else sgx_success;
}

start_enclave-StartedIn_example :
    StartedIn true test_sdk losing_once
      (1 ∷ [])
      1
      (start_enclave true test_sdk losing_once (start init))
start_enclave-StartedIn_example = start_enclave-StartedIn true test_sdk losing_once (start init)
