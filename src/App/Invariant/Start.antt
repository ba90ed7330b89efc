-- ===== src/App/Invariant/Start.antt =====
-- The loop that creates the enclave and a key context in it.
use sgx_experiments.Prelude.{
  ℕ, ◌+◌, ◌≤◌, ◌≡◌, refl, sym, subst, ◌⊎◌, inl, inr, Bool, true, Bool-cases, List, [], ◌∷◌, length,
  arith, if◌then◌else◌, ◌&&◌,
}
use sgx_experiments.Prelude.Effects.{
  Ensures, Ensures-and_then, Ensures-done, Ensures-map, done, ◌>>◌,
}
use sgx_experiments.Sp.State.{Sp}
use sgx_experiments.RaEnclave.{SgxStatus, succeeded, Sdk, enclave_init_ra}
use sgx_experiments.App.State.{Platform, App, is_lost}
use sgx_experiments.App.Steps.{start_enclave, create_enclave, init_ra, check_init, do_while}
use sgx_experiments.App.Invariant.{Holding, NoMsg1, NoEnclave}

not_lost : (ret : SgxStatus) → succeeded ret ≡ true → is_lost ret ≡ true → ⊥
not_lost ret e l = ground arith

opened :
    (status : Bool) (context : ℕ) (sessions : List ℕ)
    → sessions ≡ []
    → let opens = if status then context ∷ sessions else sessions in
      (opens ≡ []) ⊎ (opens ≡ context ∷ [])
opened status context sessions ns = ground arith

module _ (s : Sp) (lost : ℕ) (a : App) (h : Holding s lost a) where
  -- An enclave that is created stands in front of those there were.
  create_enclave-Holding :
      (p : Platform) (n : ℕ)
      → a.sessions ≡ []
      → NoMsg1 a
      → length a.enclaves ≤ n
      → Ensures
          (create_enclave p n a)
          (λ _ t. Holding s n t × (t.sessions ≡ []) × NoMsg1 t × (length t.enclaves ≤ n + 1))
          (λ _ t. Holding s lost t)
  unfolding Ensures create_enclave
  create_enclave-Holding p n ns n1 few = elim (Bool-cases (succeeded (p.create_enclave n).0)) [
    | inl e ↦ simp e (
      record {
        well_formed = h.well_formed;
        contexts = h.contexts;
        buffers = h.buffers;
        blocks = h.blocks;
        enclaves = inr (a.enclaves, refl, few);
        sessions = h.sessions;
      },
      ns,
      n1,
      omega arith,
    )
    | inr e ↦ simp e h
  ]

  init_ra-Holding :
      (supplied : Bool) (sdk : Sdk) (p : Platform) (n : ℕ)
      → a.sessions ≡ []
      → NoMsg1 a
      → Ensures
          (init_ra supplied sdk p n a)
          (λ ret t.
            Holding s lost t
            × NoMsg1 t
            × (t.enclaves ≡ a.enclaves)
            × (ret ≡ p.enter_init n)
            × (is_lost ret ≡ true → t.sessions ≡ []))
          (λ _ _. ⊥)
  unfolding Ensures init_ra
  init_ra-Holding supplied sdk p n ns n1 =
      let (status, context) = enclave_init_ra supplied sdk n 0 in
      let opens = if succeeded status then context ∷ a.sessions else a.sessions in
      let kept : Holding s lost
          (record a { status = status; context = context; sessions = opens }) =
        record {
          well_formed = h.well_formed;
          contexts = h.contexts;
          buffers = h.buffers;
          blocks = h.blocks;
          enclaves = h.enclaves;
          sessions = opened (succeeded status) context a.sessions ns;
        } in
      elim (Bool-cases (succeeded (p.enter_init n))) [
        | inl e ↦ simp e (kept, n1, refl, refl, λ l. absurd (not_lost (p.enter_init n) e l))
        | inr e ↦ simp e (h, n1, refl, refl, λ _. ns)
      ]

pub Holding-weaken :
    (s : Sp) (few many : ℕ) (a : App) → few ≤ many → Holding s few a → Holding s many a
Holding-weaken s few many a le h = record {
  well_formed = h.well_formed;
  contexts = h.contexts;
  buffers = h.buffers;
  blocks = h.blocks;
  enclaves = elim h.enclaves [ inl e ↦ inl e | inr (older, e, k) ↦ inr (older, e, omega arith) ];
  sessions = h.sessions;
}

-- How many enclaves are given up for a new one: one if the first is lost.
abbrev pub given_up : Platform → ℕ
given_up p = if is_lost (p.enter_init 0) then 1 else 0

module _ (supplied : Bool) (sdk : Sdk) (p : Platform) (s : Sp) where
  round-Holding :
      (n : ℕ) (a : App) (lost : ℕ)
      → Holding s lost a
      → (a.sessions ≡ []) × NoMsg1 a × (length a.enclaves ≤ n)
      → Ensures
          ((create_enclave p n >> init_ra supplied sdk p n) a)
          (λ ret t.
            Holding s n t
            × NoMsg1 t
            × (length t.enclaves ≤ n + 1)
            × (ret ≡ p.enter_init n)
            × (is_lost ret ≡ true → t.sessions ≡ []))
          (λ _ t. Holding s lost t)
  round-Holding n a lost h (ns, n1, few) =
      Ensures-and_then _ (create_enclave p n a) _ (create_enclave-Holding s lost a h p n ns n1 few)
        (λ _ _ k. k)
        λ _ t (k, ns', n1', few').
          Ensures-map _ (init_ra-Holding s n t k supplied sdk p n ns' n1') (λ _ _ e. elim e [ ])
            λ ret u (m, n1'', same, r, l).
              (m, n1'', subst (λ l. length l ≤ n + 1) (sym same) few', r, l)

  check_init-Holding :
      (lost : ℕ) (a : App) (ret : SgxStatus)
      → Holding s lost a
      → NoMsg1 a
      → Ensures (check_init ret a) (λ _ t. Holding s lost t × NoMsg1 t) (λ _ t. Holding s lost t)
  unfolding Ensures
  check_init-Holding lost a ret h n1 = elim (Bool-cases (succeeded ret && succeeded a.status)) [
    | inl e ↦ simp e (h, n1)
    | inr e ↦ simp e h
  ]

  after_round :
      (a : App) (ret : SgxStatus)
      → Holding s 0 a
        × NoMsg1 a
        × (length a.enclaves ≤ 1)
        × (ret ≡ p.enter_init 0)
        × (is_lost ret ≡ true → a.sessions ≡ [])
      → Ensures
          (if is_lost ret
            then (create_enclave p 1 >> init_ra supplied sdk p 1) a
            else (done ret, a))
          (λ _ t. Holding s (given_up p) t × NoMsg1 t)
          (λ _ t. Holding s (given_up p) t)
  after_round a ret (h, n1, few, r, l) = elim (Bool-cases (is_lost ret)) [
    | inl e ↦
        let second : given_up p ≡ 1 = rw (← r, e) refl in
        rw (e, second)
          (Ensures-map _ (round-Holding 1 a 0 h (l e, n1, few))
            (λ _ t k. Holding-weaken s 0 1 t (omega arith) k) (λ _ t k. (k.0, k.1)))
    | inr e ↦
        let first : given_up p ≡ 0 = rw (← r, e) refl in
        rw (e, first) (Ensures-done _ _ ret a (h, n1))
  ]

  loop-Holding :
      (a : App)
      → Holding s 0 a
      → NoEnclave a
      → Ensures
          (do_while is_lost (λ n. create_enclave p n >> init_ra supplied sdk p n) 1 0 a)
          (λ _ t. Holding s (given_up p) t × NoMsg1 t)
          (λ _ t. Holding s (given_up p) t)
  unfolding do_while
  loop-Holding a h (n1, ns, few) =
      Ensures-and_then _ ((create_enclave p 0 >> init_ra supplied sdk p 0) a) _
        (round-Holding 0 a 0 h (ns, n1, few))
        (λ _ t k. Holding-weaken s 0 (given_up p) t (omega arith) k)
        (λ ret t k. after_round t ret k)

  pub start_enclave-Holding :
      (a : App)
      → Holding s 0 a
      → NoEnclave a
      → Ensures
          (start_enclave supplied sdk p a)
          (λ _ t. Holding s (given_up p) t × NoMsg1 t)
          (λ _ t. Holding s (given_up p) t)
  unfolding start_enclave
  start_enclave-Holding a h ready =
      Ensures-and_then _ _ _ (loop-Holding a h ready) (λ _ _ k. k)
        λ ret t (k, n1). check_init-Holding (given_up p) t ret k n1
