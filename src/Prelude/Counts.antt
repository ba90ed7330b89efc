-- ===== src/Prelude/Counts.antt =====
-- Numbers that the elements of a list add up to.
use Prim.Native.Nat.{ℕ, ◌+◌, ◌<◌}
use mathlib.Core.Path.{◌≡◌, refl, ap}
use mathlib.Core.Logic.{inl, inr}
use mathlib.Core.List.{List, [], ◌∷◌, ◌++◌}
use native.Mathlib.Omega.{arith}
use sgx_experiments.Prelude.Tests.{eq-cases}

module _ {ℓ} {A : Type ℓ} where
  abbrev pub count : (A → ℕ) → List A → ℕ
  count f [] = 0
  count f (x ∷ xs) = f x + count f xs

  pub count-append :
      (f : A → ℕ) (front back : List A) (x : A)
      → count f (front ++ (x ∷ back)) ≡ count f front + count f back + f x
  count-append f [] back x = omega arith
  count-append f (y ∷ front) back x = omega (arith, count-append f front back x)

  -- An element that counts.
  pub pick :
      (f : A → ℕ) (xs : List A)
      → 0 < count f xs
      → (front : List A) × (back : List A) × (x : A) × (xs ≡ front ++ (x ∷ back)) × (0 < f x)
  pick f [] h = elim h [ ]
  pick f (x ∷ xs) h = elim (eq-cases (f x) 0) [
    | inl z ↦
        let (front, back, v, e, k) = pick f xs (omega arith) in
        (x ∷ front, back, v, ap (λ us. x ∷ us) e, k)
    | inr n ↦ ([], xs, x, refl, omega arith)
  ]
