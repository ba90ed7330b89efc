-- ===== src/App/Retry.antt =====
-- The App's loops around a call that may be busy: which of its calls decides, and what the calls
-- before it leave.
use sgx_experiments.Prelude.{
  ℕ, zero, suc, ◌+◌, ◌≤◌, ◌<◌, ◌≡◌, refl, ap, ◌⊎◌, inl, inr, Bool, true, false, ◌&&◌, Bool-cases,
  eq-cases, Option, none, some, Bytes, [], arith, if◌then◌else◌,
}
use sgx_experiments.Prelude.Int.{pos}
use sgx_experiments.Prelude.Effects.{M, done, stop}
use sgx_experiments.Codes.{minus_one}
use sgx_experiments.Sp.State.{RaSampResponse}
use sgx_experiments.Network.{RaSampRequest}
use sgx_experiments.RaEnclave.{SgxStatus, succeeded}
use sgx_experiments.App.State.{Platform, App, is_busy}
use sgx_experiments.App.Steps.{
  do_while, generate_msg1, generated, get_msg1, msg1_message, put_msg3, proc_msg2, check_msg3,
  receive_msg3,
}

-- Call `k` decides: those from `n` on and before it are repeated, and it is not, or none was left.
pub record Decides (repeated : ℕ → Bool) (n limit k : ℕ) : Type 0 where
  pub first : n ≤ k
  pub within : k ≤ limit
  pub before : (i : ℕ) → n ≤ i → i < k → repeated i ≡ true
  pub last : (k ≡ limit) ⊎ (repeated k ≡ false)

abbrev pub is_some : Option Bytes → Bool
is_some none = false
is_some (some body) = true

-- A loop whose round `n` gives `ret n` and takes `state n` to `state (suc n)`.
module _ {S : Type 0} (again : SgxStatus → Bool) (round : ℕ → M S SgxStatus) (ret : ℕ → SgxStatus)
    (state : ℕ → S) (rounds : (n : ℕ) → round n (state n) ≡ (done (ret n), state (suc n))) where
  do_while-Decides :
      (left n : ℕ)
      → (k : ℕ) × Decides (λ i. again (ret i)) n (n + left) k
        × (do_while again round left n (state n) ≡ (done (ret k), state (suc k)))
  unfolding do_while
  do_while-Decides zero n = (
    n,
    record {
      first = omega arith;
      within = omega arith;
      before = λ i l h. absurd (omega arith);
      last = inl (omega arith);
    },
    rounds n,
  )
  do_while-Decides (suc left) n = elim (Bool-cases (again (ret n))) [
    | inl e ↦
        let (k, d, same) = do_while-Decides left (suc n) in
        let next : n + 1 ≡ suc n = omega arith in
        (
          k,
          record {
            first = omega (arith, d.first);
            within = omega (arith, d.within);
            before = λ i l h. elim (eq-cases i n) [
              | inl z ↦ rw z e
              | inr z ↦ d.before i (omega arith) h
            ];
            last = elim d.last [ inl z ↦ inl (omega arith) | inr z ↦ inr z ];
          },
          rw (rounds n, e, next) same,
        )
    | inr e ↦ (
      n,
      record {
        first = omega arith;
        within = omega arith;
        before = λ i l h. absurd (omega arith);
        last = inr e;
      },
      rw (rounds n, e) refl,
    )
  ]

generated_lem :
    (ret : SgxStatus) (a : App) (req : RaSampRequest)
    → a.msg1_full ≡ some req
    → generated ret a ≡ ((if succeeded ret then done req else stop minus_one), a)
generated_lem ret a req there = elim (Bool-cases (succeeded ret)) [
  | inl e ↦ simp (e, there) refl
  | inr e ↦ simp e refl
]

module _ (p : Platform) (a : App) where
  -- The `n`th call: its status and the body it leaves.
  abbrev pub msg1_status : ℕ → SgxStatus
  msg1_status n = (p.ra_get_msg1_ex n a.selected_key_id a.context a.enclave_id).0

  abbrev pub msg1_content : ℕ → Bytes
  msg1_content n = (p.ra_get_msg1_ex n a.selected_key_id a.context a.enclave_id).1

  abbrev pub filled : ℕ → App
  filled n = record a { msg1_full = some (msg1_message (msg1_content n)) }

  -- Before round `n`.
  abbrev before_call : ℕ → App
  before_call zero = record a { msg1_full = some (msg1_message []) }
  before_call (suc n) = filled n

  get_msg1_lem :
      (n : ℕ) → get_msg1 p n (before_call n) ≡ (done (msg1_status n), before_call (suc n))
  get_msg1_lem zero = refl
  get_msg1_lem (suc n) = refl

-- When there is room for message 1, one of the first five calls of sgx_ra_get_msg1_ex decides:
-- those before it were busy, and it was not, unless it is the fifth; main goes on with its message
-- 1 if it succeeded, and else goes to CLEANUP with -1.
pub generate_msg1-Decides :
    (p : Platform) (a : App)
    → p.malloc 76 ≡ true
    → (k : ℕ) × Decides (λ i. is_busy (msg1_status p a i)) 0 4 k
      × (generate_msg1 p a ≡ (
        (if succeeded (msg1_status p a k)
            then done (msg1_message (msg1_content p a k))
            else stop minus_one),
        record (filled p a k) { blocks = a.blocks + 1 },
      ))
unfolding generate_msg1
generate_msg1-Decides p a room =
    let b = record a { blocks = a.blocks + 1 } in
    let (k, d, same) =
      do_while-Decides is_busy (get_msg1 p) (msg1_status p b) (before_call p b) (get_msg1_lem p b) 4
        0 in
    (
      k,
      d,
      rw (room, same)
          (generated_lem (msg1_status p a k) (filled p b k) (msg1_message (msg1_content p a k))
            refl),
    )

-- `p_msg3` and the number of blocks after a call that may have allocated a message.
abbrev keep : Option Bytes → Option Bytes → Option Bytes
keep none m = m
keep (some body) m = some body

abbrev count_block : Option Bytes → ℕ → ℕ
count_block none n = n
count_block (some body) n = n + 1

put_msg3_lem :
    (new : Option Bytes) (a : App) (m : Option Bytes) (n : ℕ)
    → put_msg3 new (record a { msg3 = m; blocks = n })
      ≡ record a { msg3 = keep new m; blocks = count_block new n }
put_msg3_lem none a m n = refl
put_msg3_lem (some body) a m n = refl

module _ (p : Platform) (msg2 : RaSampResponse) (a : App) where
  -- The `n`th call: its status, and the message 3 that it allocates, if any.
  abbrev pub msg2_status : ℕ → SgxStatus
  msg2_status n =
      (p.ra_proc_msg2_ex n a.selected_key_id a.context a.enclave_id msg2.body msg2.size).0

  abbrev pub allocated : ℕ → Option Bytes
  allocated n = (p.ra_proc_msg2_ex n a.selected_key_id a.context a.enclave_id msg2.body msg2.size).1

  -- `p_msg3` and the number of blocks before call `n`.
  abbrev pub kept : ℕ → Option Bytes
  kept zero = a.msg3
  kept (suc n) = keep (allocated n) (kept n)

  abbrev pub blocks_before : ℕ → ℕ
  blocks_before zero = a.blocks
  blocks_before (suc n) = count_block (allocated n) (blocks_before n)

  abbrev pub processed : ℕ → App
  processed n = record a { msg3 = kept n; blocks = blocks_before n }

  proc_msg2_lem :
      (n : ℕ) → proc_msg2 p msg2 n (processed n) ≡ (done (msg2_status n), processed (suc n))
  proc_msg2_lem n =
      ap (λ b. (done (msg2_status n), b)) (put_msg3_lem (allocated n) a (kept n) (blocks_before n))

  check_msg3_lem :
      (m : Option Bytes) (ret : SgxStatus) (b : App)
      → check_msg3 m ret b
        ≡ ((if is_some m && succeeded ret then done (pos 0) else stop minus_one), b)
  check_msg3_lem none ret b = refl
  check_msg3_lem (some body) ret b = ground arith

  -- One of the first three calls of sgx_ra_proc_msg2_ex decides: those before it were busy, and it
  -- was not, unless it is the third; main goes on with 0 exactly when it succeeded and there is a
  -- message 3, from before the loop or from one of the calls up to it, and else goes to CLEANUP
  -- with -1; p_msg3 is the last message that was allocated, and every message that a call
  -- allocates takes a block.
  pub receive_msg3-Decides :
      (k : ℕ) × Decides (λ i. is_busy (msg2_status i)) 0 2 k
      × (receive_msg3 p msg2 a ≡ (
        (if is_some (kept (suc k)) && succeeded (msg2_status k)
            then done (pos 0)
            else stop minus_one),
        processed (suc k),
      ))
  unfolding receive_msg3
  receive_msg3-Decides =
      let (k, d, same) =
        do_while-Decides is_busy (proc_msg2 p msg2) msg2_status processed proc_msg2_lem 2 0 in
      (k, d, rw same (check_msg3_lem (kept (suc k)) (msg2_status k) (processed (suc k))))
