-- ===== src/App/Release.antt =====
-- What is left when `main` has ended.
use sgx_experiments.Prelude.{
  ℕ, ◌-◌, ◌≤◌, ◌≡◌, ◌≢◌, refl, ◌∙◌, ◌⊎◌, inl, inr, Bool, true, Bool-cases, List, [], ◌∷◌, length,
  arith, if◌then◌else◌, Option, none, some, ◌==◌,
}
use sgx_experiments.Prelude.Int.{ℤ, pos}
use sgx_experiments.Prelude.Effects.{Ensures, Outcome, done, stop, crash}
use sgx_experiments.Crypto.{Libcrypto}
use sgx_experiments.Sp.State.{Sp, RaSampResponse}
use sgx_experiments.Sp.Msg0.Registration.{WellFormed}
use sgx_experiments.Network.{ra_free_network_response_buffer}
use sgx_experiments.RaEnclave.{succeeded, Sdk, enclave_ra_close}
use sgx_experiments.App.{attest, close_key_context, release, cleanup, finish, main}
use sgx_experiments.App.State.{Platform, App, start, int_max, remove, freed}
use sgx_experiments.App.Invariant.{Holding, held}
use sgx_experiments.App.Invariant.Start.{given_up}
use sgx_experiments.App.Invariant.Whole.{Fills, attest-Holding}

-- The last enclave is destroyed; those that were given up are not.
remove_head :
    (id lost : ℕ) (ids : List ℕ)
    → (ids ≡ []) ⊎ ((older : List ℕ) × (ids ≡ id ∷ older) × (length older ≤ lost))
    → length (remove id ids) ≤ lost
unfolding remove
remove_head id lost ids (inl e) = rw e (omega arith)
remove_head id lost ids (inr (older, e, few)) = rw e (ground (arith, few))

freed_lem : {A : Type 0} (o : Option A) (n : ℕ) → freed o n ≡ n - held o
freed_lem none n = omega arith
freed_lem (some a) n = refl

-- What the release of a response changes.
released-buffers :
    (o : Option RaSampResponse) (s : Sp)
    → (ra_free_network_response_buffer o s).buffers ≡ s.buffers - held o
unfolding ra_free_network_response_buffer
released-buffers none s = omega arith
released-buffers (some resp) s = refl

released-contexts :
    (o : Option RaSampResponse) (s : Sp)
    → (ra_free_network_response_buffer o s).contexts ≡ s.contexts
unfolding ra_free_network_response_buffer
released-contexts none s = refl
released-contexts (some resp) s = refl

released-WellFormed :
    (o : Option RaSampResponse) (s : Sp)
    → WellFormed s
    → WellFormed (ra_free_network_response_buffer o s)
unfolding ra_free_network_response_buffer
released-WellFormed none s w = w
released-WellFormed (some resp) s w = w

-- What CLEANUP is to leave: no response and no block, and of the enclaves at most those given up.
pub record Released (s : Sp) (lost : ℕ) (a : App) : Type 0 where
  pub well_formed : WellFormed a.sp
  pub contexts : a.sp.contexts ≡ s.contexts
  pub buffers : a.sp.buffers ≡ s.buffers
  pub blocks : a.blocks ≡ 0
  pub enclaves : length a.enclaves ≤ lost

release-Released : (s : Sp) (lost : ℕ) (a : App) → Holding s lost a → Released s lost (release a)
unfolding release
release-Released s lost a h = record {
  well_formed =
      released-WellFormed a.msg2_full _ (released-WellFormed a.msg0_resp a.sp h.well_formed);
  contexts = released-contexts a.msg2_full _ ∙ released-contexts a.msg0_resp a.sp ∙ h.contexts;
  buffers = omega (
    arith,
    released-buffers a.msg2_full (ra_free_network_response_buffer a.msg0_resp a.sp),
    released-buffers a.msg0_resp a.sp,
    h.buffers,
  );
  blocks = omega (
    arith,
    freed_lem a.msg0_full (freed a.msg1_full (freed a.msg3 a.blocks)),
    freed_lem a.msg1_full (freed a.msg3 a.blocks),
    freed_lem a.msg3 a.blocks,
    h.blocks,
  );
  enclaves = remove_head a.enclave_id lost a.enclaves h.enclaves;
}

-- A context that is closed is the only one.
remove_only :
    (context : ℕ) (sessions : List ℕ)
    → (sessions ≡ []) ⊎ (sessions ≡ context ∷ [])
    → remove context sessions ≡ []
unfolding remove
remove_only context sessions (inl e) = rw e refl
remove_only context sessions (inr e) = rw e (ground arith)

module _ (sdk : Sdk) (p : Platform) where
  closed-Holding :
      (s : Sp) (lost : ℕ) (a : App) → Holding s lost a → Holding s lost (close_key_context sdk p a)
  unfolding close_key_context
  closed-Holding s lost a h =
      let ok = succeeded (enclave_ra_close sdk a.context) in
      let k : Holding s lost (record a {
        status = enclave_ra_close sdk a.context;
        sessions = if ok then remove a.context a.sessions else a.sessions;
      }) =
        record {
          well_formed = h.well_formed;
          contexts = h.contexts;
          buffers = h.buffers;
          blocks = h.blocks;
          enclaves = h.enclaves;
          sessions = elim (Bool-cases ok) [
            | inl e ↦ rw e (inl (remove_only a.context a.sessions h.sessions))
            | inr e ↦ rw e h.sessions
          ];
        } in
      elim (Bool-cases (a.context == int_max)) [
        | inl e ↦ simp e h
        | inr e ↦ elim (Bool-cases (succeeded p.enter_close)) [
          | inl b ↦ simp (e, b) k
          | inr b ↦ simp (e, b) h
        ]
      ]

  -- How `main` ends, when it gets to its end or to CLEANUP in such a state.
  abbrev pub Settled : Sp → ℤ → App → Type 0
  Settled s ret a =
      (ret ≡ pos 0)
      × (((a.msg3 ≢ none) × Holding s (given_up p) a)
          ⊎ ((a.msg3 ≡ none) × Released s (given_up p) a))

  finish-Settled :
      (s : Sp) (r : Outcome ℤ × App)
      → Ensures r
          (λ ret t. Holding s (given_up p) t × (ret ≡ pos 0) × (t.msg3 ≢ none))
          (λ _ t. Holding s (given_up p) t)
      → Ensures (finish sdk p r) (Settled s) (λ _ _. ⊥)
  unfolding Ensures cleanup release
  finish-Settled s (done ret, t) (h, r, there) = (r, inl (there, h))
  finish-Settled s (stop e, t) h =
      (refl, inr (refl, release-Released s (given_up p) _ (closed-Holding s (given_up p) t h)))
  finish-Settled s (crash, t) h = h

  module _ (fills : Fills p) (supplied : Bool) (lib : Libcrypto) where
    -- Whatever the calls of the SDK and of the crypto library give, where a call of the library
    -- gives the same for the same arguments, as long as a message 1 has all its bytes and a
    -- message 3 is not allocated by a busy call, main on a well-formed service provider never
    -- reads through a NULL pointer, through one that was not set, or behind the body of a request,
    -- and ends with 0: either with a message 3, and one block or response buffer held for each
    -- pointer that is set, or after CLEANUP, with no block and no response buffer held, no crypto
    -- context of the service provider opened and not closed, and no enclave left, or at most one
    -- when the first was reported lost.
    pub main-settles :
        (s : Sp) → WellFormed s → Ensures (main supplied lib sdk p s) (Settled s) (λ _ _. ⊥)
    unfolding main
    main-settles s w =
        finish-Settled s (attest supplied lib sdk p (start s))
          (attest-Holding supplied lib sdk p fills s w)

  -- What CLEANUP does to the key context when the calls that close it succeed.
  closed-sessions :
      (s : Sp) (lost : ℕ) (a : App)
      → succeeded p.enter_close ≡ true
      → ((context : ℕ) → succeeded (sdk.ra_close context) ≡ true)
      → Holding s lost a
      → ((close_key_context sdk p a).context ≡ int_max)
        ⊎ ((close_key_context sdk p a).sessions ≡ [])
  unfolding close_key_context enclave_ra_close
  closed-sessions s lost a enters closes h = elim (Bool-cases (a.context == int_max)) [
    | inl e ↦ simp e (inl (ground arith))
    | inr e ↦ simp (e, enters, closes a.context) (inr (remove_only a.context a.sessions h.sessions))
  ]

  finish-closes :
      (s : Sp) (r : Outcome ℤ × App)
      → succeeded p.enter_close ≡ true
      → ((context : ℕ) → succeeded (sdk.ra_close context) ≡ true)
      → Ensures r
          (λ ret t. Holding s (given_up p) t × (ret ≡ pos 0) × (t.msg3 ≢ none))
          (λ _ t. Holding s (given_up p) t)
      → Ensures
          (finish sdk p r)
          (λ _ t. (t.msg3 ≢ none) ⊎ ((t.context ≡ int_max) ⊎ (t.sessions ≡ [])))
          (λ _ _. ⊥)
  unfolding Ensures cleanup release
  finish-closes s (done ret, t) enters closes (h, r, there) = inl there
  finish-closes s (stop e, t) enters closes h =
      inr (closed-sessions s (given_up p) t enters closes h)
  finish-closes s (crash, t) enters closes h = h

  module _ (fills : Fills p) (supplied : Bool) (lib : Libcrypto) where
    -- On a well-formed service provider, under the same conditions on messages 1 and 3, when the
    -- calls that close a key context succeed, main ends with a message 3, or with the context
    -- variable at INT_MAX, or with no key context left open.
    pub main-closes :
        (s : Sp)
        → WellFormed s
        → succeeded p.enter_close ≡ true
        → ((context : ℕ) → succeeded (sdk.ra_close context) ≡ true)
        → Ensures
            (main supplied lib sdk p s)
            (λ _ t. (t.msg3 ≢ none) ⊎ ((t.context ≡ int_max) ⊎ (t.sessions ≡ [])))
            (λ _ _. ⊥)
    unfolding main
    main-closes s w enters closes =
        finish-closes s (attest supplied lib sdk p (start s)) enters closes
          (attest-Holding supplied lib sdk p fills s w)
