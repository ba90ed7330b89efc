-- ===== src/Thread/Buffer/Window.antt =====
-- The occupied part of the bounded buffer, and what it holds.
use sgx_experiments.Prelude.{
  ℕ, zero, suc, ◌+◌, ◌-◌, ◌%◌, ◌<◌, ◌≤◌, ◌≡◌, ◌≢◌, refl, ap, subst, ◌∙◌, inl, inr, false,
  Bool-cases, eq-cases, some, replicate, length, set, length-set, get_elem?, get_elem?-set_self,
  get_elem?-set_ne, ltb, leb, if◌then◌else◌, arith,
}
use sgx_experiments.Thread.Buffer.{CondBuffer, buffer, produced, produce, consumed, consume}

-- The distance of slot `k` from the next one to consume.
abbrev pub ahead : CondBuffer → ℕ → ℕ
ahead b k = (k + 50 - b.nextout) % 50

-- The buffer is a window of `occupied` slots from `nextout` on, up to `nextin`; the slots in it hold
-- their own numbers, the others zero.
pub record IsWindow (b : CondBuffer) : Type 0 where
  pub slots : length b.buf ≡ 50
  pub bounded : b.occupied ≤ 50
  pub out_bounded : b.nextout < 50
  pub in_position : b.nextin ≡ (b.nextout + b.occupied) % 50
  pub contents :
      (k : ℕ) → k < 50 → get_elem? b.buf k ≡ some (if ltb (ahead b k) b.occupied then k else 0)

-- The arithmetic of the ring.
next_slot : (o n : ℕ) → o < 50 → n < 50 → ((o + n) % 50 + 50 - o) % 50 ≡ n
next_slot o n h k = omega arith

other_slot : (o n k : ℕ) → o < 50 → n < 50 → k < 50 → (o + n) % 50 ≢ k → (k + 50 - o) % 50 ≢ n
other_slot o n k h i j d = λ e. d (omega arith)

freed_slot : (o : ℕ) → o < 50 → (o + 50 - (o + 1) % 50) % 50 ≡ 49
freed_slot o h = omega arith

kept_slot :
    (o k : ℕ) → o < 50 → k < 50 → o ≢ k → (k + 50 - (o + 1) % 50) % 50 + 1 ≡ (k + 50 - o) % 50
kept_slot o k h j d = omega arith

-- What a slot shows, for two windows in which the distance is within or without alike.
shown :
    (a a' n n' k : ℕ) → a + n' ≡ a' + n → (if ltb a n then k else 0) ≡ (if ltb a' n' then k else 0)
shown a a' n n' k h = ground arith

not_shown : (a n : ℕ) → n ≤ a → ltb a n ≡ false
not_shown a n h = ground arith

get_elem?-replicate : (n k : ℕ) → k < n → get_elem? {A = ℕ} (replicate n 0) k ≡ some 0
get_elem?-replicate zero k h = elim h [ ]
get_elem?-replicate (suc n) zero h = refl
get_elem?-replicate (suc n) (suc k) h = get_elem?-replicate n k (omega arith)

module _ (b : CondBuffer) (w : IsWindow b) where
  produced-contents :
      b.occupied < 50
      → (k : ℕ) → k < 50
      → get_elem? (set b.buf b.nextin b.nextin) k
        ≡ some (if ltb (ahead b k) (b.occupied + 1) then k else 0)
  produced-contents free k small = elim (eq-cases b.nextin k) [
    | inl e ↦
        let p = next_slot b.nextout b.occupied w.out_bounded free in
        let q : ahead b k ≡ b.occupied = omega (arith, w.in_position) in
        rw (e, get_elem?-set_self b.buf k k (omega (arith, w.slots)), q) (ground arith)
    | inr n ↦
        let d =
          other_slot b.nextout b.occupied k w.out_bounded free small (λ z. n (w.in_position ∙ z)) in
        get_elem?-set_ne b.buf b.nextin n ∙ w.contents k small ∙ ground arith
  ]

  consumed-contents :
      0 < b.occupied
      → (k : ℕ) → k < 50
      → get_elem? (set b.buf b.nextout 0) k
        ≡ some (if ltb ((k + 50 - (b.nextout + 1) % 50) % 50) (b.occupied - 1) then k else 0)
  consumed-contents used k small = elim (eq-cases b.nextout k) [
    | inl e ↦
        let p : (k + 50 - (b.nextout + 1) % 50) % 50 ≡ 49 =
          subst (λ t. (t + 50 - (b.nextout + 1) % 50) % 50 ≡ 49) e
            (freed_slot b.nextout w.out_bounded) in
        let q : ltb ((k + 50 - (b.nextout + 1) % 50) % 50) (b.occupied - 1) ≡ false =
          not_shown _ _ (omega (arith, w.bounded)) in
        rw (q, e, get_elem?-set_self b.buf k 0 (omega (arith, w.slots))) refl
    | inr n ↦
        let p = kept_slot b.nextout k w.out_bounded small n in
        get_elem?-set_ne b.buf 0 n
        ∙ w.contents k small
        ∙ ap some (shown (ahead b k) _ b.occupied (b.occupied - 1) k (omega arith))
  ]

-- The buffer at the start is an empty window.
pub buffer-IsWindow : IsWindow buffer
buffer-IsWindow = record {
  slots = refl;
  bounded = omega arith;
  out_bounded = omega arith;
  in_position = refl;
  contents = λ k h. get_elem?-replicate 50 k h ∙ ground arith;
}

-- A round of the producer keeps the window and makes it one slot longer.
pub produce-IsWindow :
    (b b' : CondBuffer)
    → IsWindow b
    → produce b ≡ some b'
    → IsWindow b' × (b'.occupied ≡ b.occupied + 1)
unfolding produce
produce-IsWindow b b' w h = elim (Bool-cases (leb 50 b.occupied)) [
  | inl full ↦ absurd (ground arith)
  | inr free ↦
      let room : b.occupied < 50 = ground arith in
      let same_buffer : produced b ≡ b' = ground arith in
      subst (λ t. IsWindow t × (t.occupied ≡ b.occupied + 1)) same_buffer
        (
          record {
            slots = length-set b.buf b.nextin b.nextin ∙ w.slots;
            bounded = omega arith;
            out_bounded = w.out_bounded;
            in_position = omega (arith, w.in_position);
            contents = produced-contents b w room;
          },
          refl,
        )
]

-- A round of a consumer keeps the window and makes it one slot shorter.
pub consume-IsWindow :
    (b b' : CondBuffer)
    → IsWindow b
    → consume b ≡ some b'
    → IsWindow b' × (b'.occupied + 1 ≡ b.occupied)
unfolding consume
consume-IsWindow b b' w h = elim (Bool-cases (leb b.occupied 0)) [
  | inl empty ↦ absurd (ground arith)
  | inr used ↦
      let some_used : 0 < b.occupied = ground arith in
      let same_buffer : consumed b ≡ b' = ground arith in
      subst (λ t. IsWindow t × (t.occupied + 1 ≡ b.occupied)) same_buffer
        (
          record {
            slots = length-set b.buf b.nextout 0 ∙ w.slots;
            bounded = omega (arith, w.bounded);
            out_bounded = omega arith;
            in_position = omega (arith, w.in_position, w.bounded, w.out_bounded);
            contents = consumed-contents b w some_used;
          },
          omega arith,
        )
]

-- A round is refused only when the buffer is full, or empty.
pub produce-free : (b : CondBuffer) → b.occupied < 50 → produce b ≡ some (produced b)
unfolding produce
produce-free b h = ground arith

pub consume-used : (b : CondBuffer) → 0 < b.occupied → consume b ≡ some (consumed b)
unfolding consume
consume-used b h = ground arith
