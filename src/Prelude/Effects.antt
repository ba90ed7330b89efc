-- ===== src/Prelude/Effects.antt =====
-- Steps of C code on a state: a step goes on with a value, leaves its block by `break` or `return`
-- with a return code, or is undefined behaviour: a read through a NULL pointer, behind the body of a
-- request, or of a variable that was not written.
use mathlib.Core.Bool.{Bool, true, false}
use sgx_experiments.Prelude.Int.{ℤ}

pub data Outcome (A : Type 0) : Type 0 where
  done : A → Outcome A
  stop : ℤ → Outcome A
  crash : Outcome A

abbrev pub M : Type 0 → Type 0 → Type 0
M S A = S → Outcome A × S

-- What runs after a step that left the state `s`.
abbrev pub and_then : {S A B : Type 0} → Outcome A → S → (A → M S B) → Outcome B × S
and_then (done a) s f = f a s
and_then (stop e) s f = (stop e, s)
and_then crash s f = (crash, s)

infixl 5 ◌>>=◌ ◌>>◌
abbrev pub ◌>>=◌ : {S A B : Type 0} → M S A → (A → M S B) → M S B
◌>>=◌ m f s = and_then (m s).0 (m s).1 f

abbrev pub ◌>>◌ : {S B : Type 0} → M S (Unit {0}) → M S B → M S B
m >> k = m >>= λ _. k

-- `if (!ok) { ret = e; break; }`
abbrev pub check : {S : Type 0} → Bool → ℤ → M S (Unit {0})
check true e s = (done tt, s)
check false e s = (stop e, s)

-- What holds after a step: `Q` of its value and state, or `R` of its return code and state.
-- Undefined behaviour satisfies nothing.
unfoldable pub Ensures :
    {S A : Type 0} → Outcome A × S → (A → S → Type 0) → (ℤ → S → Type 0) → Type 0
Ensures (o, s) Q R = elim o [ done a ↦ Q a s | stop e ↦ R e s | crash ↦ ⊥ ]

-- The rule for a sequence: the first step ended with `r`.
pub Ensures-and_then :
    {S A B : Type 0} {Q : A → S → Type 0} (Q' : B → S → Type 0) {R R' : ℤ → S → Type 0}
    (r : Outcome A × S) (f : A → M S B)
    → Ensures r Q R
    → ((e : ℤ) (t : S) → R e t → R' e t)
    → ((a : A) (t : S) → Q a t → Ensures (f a t) Q' R')
    → Ensures (and_then r.0 r.1 f) Q' R'
unfolding Ensures
Ensures-and_then Q' (done a, t) f h fails rest = rest a t h
Ensures-and_then Q' (stop e, t) f h fails rest = fails e t h
Ensures-and_then Q' (crash, t) f h fails rest = h

-- A stronger postcondition gives a weaker one.
pub Ensures-map :
    {S A : Type 0} {Q Q' : A → S → Type 0} {R R' : ℤ → S → Type 0} (r : Outcome A × S)
    → Ensures r Q R
    → ((e : ℤ) (t : S) → R e t → R' e t)
    → ((a : A) (t : S) → Q a t → Q' a t)
    → Ensures r Q' R'
unfolding Ensures
Ensures-map (done a, t) h fails weaken = weaken a t h
Ensures-map (stop e, t) h fails weaken = fails e t h
Ensures-map (crash, t) h fails weaken = h

-- A step that goes on.
pub Ensures-done :
    {S A : Type 0} (Q : A → S → Type 0) (R : ℤ → S → Type 0) (a : A) (t : S)
    → Q a t
    → Ensures (done a, t) Q R
unfolding Ensures
Ensures-done Q R a t h = h

-- A step that stops.
pub Ensures-stop :
    {S A : Type 0} (Q : A → S → Type 0) (R : ℤ → S → Type 0) (e : ℤ) (t : S)
    → R e t
    → Ensures (stop e, t) Q R
unfolding Ensures
Ensures-stop Q R e t h = h

-- Two postconditions together.
pub Ensures-pair :
    {S A : Type 0} (Q Q' : A → S → Type 0) (R R' : ℤ → S → Type 0) (r : Outcome A × S)
    → Ensures r Q R
    → Ensures r Q' R'
    → Ensures r (λ a t. Q a t × Q' a t) (λ e t. R e t × R' e t)
unfolding Ensures
Ensures-pair Q Q' R R' (done a, t) h k = (h, k)
Ensures-pair Q Q' R R' (stop e, t) h k = (h, k)
Ensures-pair Q Q' R R' (crash, t) h k = h
