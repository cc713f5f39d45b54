-- ===== src/RangedBtree/Lookup.antt =====
-- The map as a function from points: what `insert` and `remove` change at each point, and that
-- they keep the ranges sorted, inhabited and apart.
use popcorn.Prelude.{
  ℕ, ◌≤◌, ◌<◌, ◌≡◌, max, ◌≢◌, ◌↔◌, ◌⊎◌, inl, inr, Option-cases, true, none, some, [], ◌∷◌, arith,
  refl, if◌then◌else◌,
}
use native.Mathlib.Decide.{dec_le}
use popcorn.RangedBtree.{Range, contains, RangedBtreeMap, insert, get_entry_at_point, remove}

module _ {V : Type 0} where
  -- The ranges stand in order between `lo` and `hi`, none of them empty, none overlapping the next.
  abbrev pub Fits : ℕ → RangedBtreeMap V → ℕ → Type 0
  Fits lo [] hi = lo ≤ hi
  Fits lo ((s, w) ∷ m) hi = (lo ≤ s.start) × (s.start < s.end) × Fits s.end m hi

  pub lo-le-hi : (lo hi : ℕ) (m : RangedBtreeMap V) → Fits lo m hi → lo ≤ hi
  lo-le-hi lo hi [] f = f
  lo-le-hi lo hi ((s, w) ∷ m) f = omega (arith, lo-le-hi s.end hi m f.2)

  pub Fits-widen :
      (lo hi lo' hi' : ℕ) (m : RangedBtreeMap V)
      → lo' ≤ lo
      → hi ≤ hi'
      → Fits lo m hi
      → Fits lo' m hi'
  Fits-widen lo hi lo' hi' [] p q f = omega arith
  Fits-widen lo hi lo' hi' ((s, w) ∷ m) p q f =
      (omega arith, f.1, Fits-widen s.end hi s.end hi' m (omega arith) q f.2)

  -- Below the first range and from the last one's end on there is nothing.
  pub get_entry_at_point_outside :
      (lo hi : ℕ) (m : RangedBtreeMap V) (p : ℕ)
      → Fits lo m hi
      → (p < lo) ⊎ (hi ≤ p)
      → get_entry_at_point p m ≡ none
  unfolding get_entry_at_point
  get_entry_at_point_outside lo hi [] p f h = refl
  get_entry_at_point_outside lo hi ((s, w) ∷ m) p f h =
      ground (arith, lo-le-hi s.end hi m f.2, get_entry_at_point_outside s.end hi m p f.2)

  -- In a well-formed map, after `insert` of a range that is not empty has succeeded, a lookup at any
  -- point of the range finds its value, and at any other point what it found before.
  pub get_entry_at_point-insert :
      (lo hi : ℕ) (r : Range) (v : V) (m m' : RangedBtreeMap V) (p : ℕ)
      → Fits lo m hi
      → r.start < r.end
      → insert r v m ≡ some m'
      → get_entry_at_point p m' ≡ (if contains r p then some v else get_entry_at_point p m)
  unfolding get_entry_at_point insert
  get_entry_at_point-insert lo hi r v [] m' p f h e = ground arith
  get_entry_at_point-insert lo hi r v ((s, w) ∷ m) m' p f h e = elim (Option-cases (insert r v m)) [
    | inl full ↦ ground (arith, get_entry_at_point_outside s.end hi m p f.2)
    | inr (t, eq) ↦ ground (
      arith,
      get_entry_at_point_outside s.end hi m p f.2,
      get_entry_at_point-insert s.end hi r v m t p f.2 h eq,
    )
  ]

  -- `insert` keeps the ranges in order and apart.
  pub insert-Fits :
      (lo hi : ℕ) (r : Range) (v : V) (m m' : RangedBtreeMap V)
      → Fits lo m hi
      → lo ≤ r.start
      → r.start < r.end
      → r.end ≤ hi
      → insert r v m ≡ some m'
      → Fits lo m' hi
  unfolding insert
  insert-Fits lo hi r v [] m' f a h b e = ground arith
  insert-Fits lo hi r v ((s, w) ∷ m) m' f a h b e = elim (Option-cases (insert r v m)) [
    | inl full ↦ ground (arith, Fits-widen s.end hi s.end hi m)
    | inr (t, eq) ↦
        ground (arith, λ (q : s.end ≤ r.start). insert-Fits s.end hi r v m t f.2 q h b eq)
  ]

  Overlap : Range → RangedBtreeMap V → Type 0
  Overlap r m = (p : ℕ) × (contains r p ≡ true) × (get_entry_at_point p m ≢ none)

  insert-Overlap :
      (lo hi : ℕ) (r : Range) (v : V) (m : RangedBtreeMap V)
      → Fits lo m hi
      → r.start < r.end
      → insert r v m ≡ none
      → Overlap r m
  unfolding insert get_entry_at_point Overlap
  insert-Overlap lo hi r v [] f h e = cc
  insert-Overlap lo hi r v ((s, w) ∷ m) f h e = elim (dec_le s.end r.start) [
    | yes past ↦
        let (p, c, n) = insert-Overlap s.end hi r v m f.2 h (ground arith) in (p, c, ground arith)
    | no near ↦ (max r.start s.start, ground arith, ground arith)
  ]

  Overlap-insert :
      (lo hi : ℕ) (r : Range) (v : V) (m : RangedBtreeMap V)
      → Fits lo m hi
      → Overlap r m
      → insert r v m ≡ none
  unfolding insert get_entry_at_point Overlap
  Overlap-insert lo hi r v [] f (p, c, n) = absurd (n refl)
  Overlap-insert lo hi r v ((s, w) ∷ m) f (p, c, n) = elim (dec_le s.end r.start) [
    | yes past ↦ ground (arith, Overlap-insert s.end hi r v m f.2 (p, c, ground arith))
    | no near ↦ ground (arith, get_entry_at_point_outside s.end hi m p f.2)
  ]

  -- In a well-formed map, `insert` of a range that is not empty fails exactly if a lookup at one of
  -- the range's points finds something.
  pub insert-eq-none_iff :
      (lo hi : ℕ) (r : Range) (v : V) (m : RangedBtreeMap V)
      → Fits lo m hi
      → r.start < r.end
      → (insert r v m ≡ none) ↔ ((p : ℕ) × (contains r p ≡ true) × (get_entry_at_point p m ≢ none))
  unfolding Overlap
  insert-eq-none_iff lo hi r v m f h =
      (insert-Overlap lo hi r v m f h, Overlap-insert lo hi r v m f)

  -- In a well-formed map, after `insert` of a range has succeeded, `remove` at any point of the range
  -- returns its value and the map as it was before.
  pub remove-insert :
      (lo hi : ℕ) (r : Range) (v : V) (m m' : RangedBtreeMap V) (p : ℕ)
      → Fits lo m hi
      → insert r v m ≡ some m'
      → contains r p ≡ true
      → remove p m' ≡ (some v, m)
  unfolding remove insert
  remove-insert lo hi r v [] m' p f e c = ground arith
  remove-insert lo hi r v ((s, w) ∷ m) m' p f e c = elim (Option-cases (insert r v m)) [
    | inl full ↦ ground arith
    | inr (t, eq) ↦ ground (arith, remove-insert s.end hi r v m t p f.2 eq c)
  ]

  -- `remove` returns what a lookup at the point finds, and keeps the map well formed.
  pub remove-get_entry :
      (lo hi : ℕ) (m : RangedBtreeMap V) (p : ℕ)
      → Fits lo m hi
      → ((remove p m).0 ≡ get_entry_at_point p m) × Fits lo (remove p m).1 hi
  unfolding remove get_entry_at_point
  remove-get_entry lo hi [] p f = (refl, f)
  remove-get_entry lo hi ((s, w) ∷ m) p f =
      ground (arith, remove-get_entry s.end hi m p f.2, Fits-widen s.end hi lo hi m)
