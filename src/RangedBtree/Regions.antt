-- ===== src/RangedBtree/Regions.antt =====
-- What `used_regions`, `first_key` and `last_key` say of a well-formed map, and empty ranges.
use popcorn.Prelude.{ℕ, zero, suc, ◌≤◌, ◌≡◌, ◌≢◌, true, none, some, [], ◌∷◌, arith, refl, get_elem?}
use popcorn.RangedBtree.{
  Range, contains, RangedBtreeMap, get_entry_at_point, used_regions, first_key, last_key,
}
use popcorn.RangedBtree.Lookup.{Fits, get_entry_at_point_outside}

module _ {V : Type 0} where
  -- The first key is where the ranges start, so the map fits from there on.
  pub first_key-Fits :
      (lo hi : ℕ) (m : RangedBtreeMap V) (k : ℕ)
      → Fits lo m hi
      → first_key m ≡ some k
      → (lo ≤ k) × Fits k m hi
  unfolding first_key
  first_key-Fits lo hi [] k f e = cc
  first_key-Fits lo hi ((s, w) ∷ m) k f e = ground arith

  -- The last key is where the ranges end, so the map fits up to there.
  pub last_key-Fits :
      (lo hi : ℕ) (m : RangedBtreeMap V) (k : ℕ)
      → Fits lo m hi
      → last_key m ≡ some k
      → (k ≤ hi) × Fits lo m k
  unfolding last_key
  last_key-Fits lo hi [] k f e = cc
  last_key-Fits lo hi ((s, w) ∷ []) k f e = ground arith
  last_key-Fits lo hi ((s, w) ∷ e' ∷ m) k f e =
      ground (arith, last_key-Fits s.end hi (e' ∷ m) k f.2 e)

  -- Both keys are there as soon as there is a range.
  pub keys_of_some :
      (m : RangedBtreeMap V) (k : ℕ) → first_key m ≡ some k → (j : ℕ) × (last_key m ≡ some j)
  unfolding first_key last_key
  keys_of_some [] k e = cc
  keys_of_some ((s, w) ∷ []) k e = (s.end, refl)
  keys_of_some ((s, w) ∷ e' ∷ m) k e = keys_of_some (e' ∷ m) e'.0.start refl

  -- The regions are listed in order and apart, and a point in one of them is mapped.
  pub used_regions-mapped :
      (lo hi : ℕ) (m : RangedBtreeMap V) (i : ℕ) (r : Range) (p : ℕ)
      → Fits lo m hi
      → get_elem? (used_regions m) i ≡ some r
      → contains r p ≡ true
      → get_entry_at_point p m ≢ none
  unfolding used_regions get_entry_at_point
  used_regions-mapped lo hi [] i r p f e c = ground arith
  used_regions-mapped lo hi ((s, w) ∷ m) zero r p f e c = ground arith
  used_regions-mapped lo hi ((s, w) ∷ m) (suc i) r p f e c = ground (
    arith,
    used_regions-mapped s.end hi m i r p f.2 e c,
    get_entry_at_point_outside s.end hi m p f.2,
  )
