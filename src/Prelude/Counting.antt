-- ===== src/Prelude/Counting.antt =====
-- Weighted sums over a list of threads of which one changes at a time.
use native.Mathlib.Decide.{dec_lt}
use popcorn.Prelude.{
  ℕ, zero, suc, ◌+◌, ◌≤◌, ◌<◌, ◌≡◌, ◌≢◌, some, List, [], ◌∷◌, length, get_elem?, set, arith, refl,
  ap,
}

module _ {A : Type 0} (w : A → ℕ) where
  unfoldable pub total : List A → ℕ
  total [] = 0
  total (x ∷ xs) = w x + total xs

  -- Replacing one item trades its weight for the new one's.
  pub total-set :
      (xs : List A) (i : ℕ) (x y : A)
      → get_elem? xs i ≡ some x
      → total (set xs i y) + w x ≡ total xs + w y
  unfolding total
  total-set [] i x y e = cc
  total-set (z ∷ xs) zero x y e = ground arith
  total-set (z ∷ xs) (suc i) x y e = omega (arith, total-set xs i x y e)

  pub weight-le-total : (xs : List A) (i : ℕ) (x : A) → get_elem? xs i ≡ some x → w x ≤ total xs
  unfolding total
  weight-le-total [] i x e = cc
  weight-le-total (z ∷ xs) zero x e = ground arith
  weight-le-total (z ∷ xs) (suc i) x e = omega (arith, weight-le-total xs i x e)

  -- Two items at different places weigh no more than all.
  pub two-le-total :
      (xs : List A) (i j : ℕ) (x y : A)
      → i ≢ j
      → get_elem? xs i ≡ some x
      → get_elem? xs j ≡ some y
      → w x + w y ≤ total xs
  unfolding total
  two-le-total [] i j x y n e f = cc
  two-le-total (z ∷ xs) zero zero x y n e f = absurd (n refl)
  two-le-total (z ∷ xs) zero (suc j) x y n e f = ground (arith, weight-le-total xs j y f)
  two-le-total (z ∷ xs) (suc i) zero x y n e f = ground (arith, weight-le-total xs i x e)
  two-le-total (z ∷ xs) (suc i) (suc j) x y n e f =
      omega (arith, two-le-total xs i j x y (λ q. n (ap suc q)) e f)

  pub total-le-length : ((a : A) → w a ≤ 1) → (xs : List A) → total xs ≤ length xs
  unfolding total
  total-le-length small [] = omega arith
  total-le-length small (x ∷ xs) = omega (arith, small x, total-le-length small xs)

  -- What weighs something has an item that does.
  pub total-pos :
      (xs : List A) → 0 < total xs → (i : ℕ) × (x : A) × (get_elem? xs i ≡ some x) × (0 < w x)
  unfolding total
  total-pos [] h = absurd (omega arith)
  total-pos (x ∷ xs) h = elim (dec_lt 0 (w x)) [
    | yes heavy ↦ (0, x, refl, heavy)
    | no light ↦ let (i, y, at, heavy) = total-pos xs (omega arith) in (suc i, y, at, heavy)
  ]
