-- ===== src/Prelude/Checks.antt =====
-- A test of every element of a list, and what it shows of each.
use popcorn.Prelude.{ℕ, zero, suc, ◌≡◌, Bool, true, ◌&&◌, some, List, [], ◌∷◌}
use popcorn.Prelude.{get_elem?, arith}

unfoldable pub all_of {ℓ} : {A : Type ℓ} → (A → Bool) → List A → Bool
all_of p [] = true
all_of p (x ∷ xs) = p x && all_of p xs

pub all_of_sound {ℓ} :
    {A : Type ℓ} (p : A → Bool) (xs : List A) (i : ℕ) {x : A}
    → all_of p xs ≡ true
    → get_elem? xs i ≡ some x
    → p x ≡ true
unfolding all_of
all_of_sound p [] i h e = ground arith
all_of_sound p (y ∷ ys) zero h e = ground arith
all_of_sound p (y ∷ ys) (suc i) h e = all_of_sound p ys i (ground arith) e
