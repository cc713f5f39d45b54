-- ===== src/BitmapAllocator/Setup.antt =====
-- The bitmap that the allocator starts with: the frames of the regions are free, and no other.
use mathlib.Core.Path.{subst}
use popcorn.Prelude.{
  ℕ, ◌+◌, ◌*◌, ◌/◌, ◌%◌, ◌≤◌, ◌<◌, ◌≡◌, ◌≢◌, ◌∙◌, ap, refl, sym, Bool, false, ◌&&◌, ◌||◌, List, [],
  ◌∷◌, map, arith, ltb, leb, ◌==◌, if◌then◌else◌, inl, inr, Bool-cases,
}
use popcorn.Prelude.Bits.{bit, bit-zero}
use popcorn.Prelude.Words.{usize_mod}
use popcorn.Prelude.Outcome.{ok, panic, ◌>>=◌}
use popcorn.Memory.{Frame, page_size, frame_diff}
use popcorn.RangedBtree.{Range}
use popcorn.BitmapAllocator.{
  word_size, allocated, free, BitmapAllocator, new, get_frame, set_frames, free_regions, sized_new,
}
use popcorn.BitmapAllocator.Frames.{covered, frame_at, IsValid, get_frame-at, word_of}
use popcorn.BitmapAllocator.Ranges.{
  WroteRange, set_frames-WroteRange, set_frames-outside, new-IsValid, covered-new,
  get_elem?-replicate,
}

-- The region of `region.1` frames from the frame `region.0` after `start` on.
abbrev pub region_from : Frame → ℕ × ℕ → Range
region_from start (i, n) = record {
  start = start + i * page_size;
  end = start + (i + n) * page_size;
}

abbrev pub in_regions : List (ℕ × ℕ) → ℕ → Bool
in_regions [] j = false
in_regions ((i, n) ∷ l) j = (leb i j && ltb j (i + n)) || in_regions l j

-- The regions end below the frame `top` after the start.
abbrev pub Below : ℕ → List (ℕ × ℕ) → Type 0
Below top [] = Unit
Below top ((i, n) ∷ l) = (i + n ≤ top) × Below top l

new-allocated :
    (start n j : ℕ)
    → start + n * page_size < usize_mod
    → j < covered (new start n)
    → get_frame (new start n) (start + j * page_size) ≡ ok allocated
unfolding new
new-allocated start n j h lt =
    let (w, e) = word_of (new start n) j lt in
    let zero_word : w ≡ 0 = get_elem?-replicate (n / word_size) (j / word_size) w e in
    let clear : bit w (j % word_size) ≡ 0 =
      ap (λ x. bit x (j % word_size)) zero_word ∙ bit-zero (j % word_size) in
    get_frame-at (new start n) j w (new-IsValid start n h) lt e
    ∙ ap (λ d. ok (if d == 0 then allocated else free)) clear

free_regions-cons :
    (a b : BitmapAllocator) (r : ℕ × ℕ) (l : List Range)
    → set_frames a (frame_at a r.0) 0 r.1 free ≡ ok b
    → free_regions a (region_from a.first_frame r ∷ l) ≡ free_regions b l
unfolding free_regions
free_regions-cons a b (i, n) l e =
    ap (λ k. set_frames a (frame_at a i) 0 k free >>= λ c. free_regions c l) (omega arith)
    ∙ ap (λ o. o >>= λ c. free_regions c l) e

states-cons :
    (a b c : BitmapAllocator) (i n : ℕ) (l : List (ℕ × ℕ)) (j : ℕ)
    → WroteRange a (i + 0) n free b
    → j < covered a
    → get_frame c (frame_at b j) ≡ (if in_regions l j then ok free else get_frame b (frame_at b j))
    → get_frame c (frame_at a j)
      ≡ (if in_regions ((i, n) ∷ l) j then ok free else get_frame a (frame_at a j))
states-cons a b c i n l j w h later =
    let first = w.states j h in
    let then_rest =
      subst
        (λ s.
          get_frame c (s + j * page_size)
          ≡ (if in_regions l j then ok free else get_frame b (s + j * page_size)))
        w.same_start later in
    elim (Bool-cases (in_regions l j)) [
      | inl t ↦ ground (arith, t, first, then_rest)
      | inr t ↦ ground (arith, t, first, then_rest)
    ]

free_regions_lem :
    (l : List (ℕ × ℕ)) (a : BitmapAllocator)
    → IsValid a
    → Below (covered a) l
    → (b : BitmapAllocator) × (free_regions a (map (region_from a.first_frame) l) ≡ ok b)
      × IsValid b
      × ((j : ℕ)
          → j < covered a
          → get_frame b (frame_at a j)
            ≡ (if in_regions l j then ok free else get_frame a (frame_at a j)))
unfolding free_regions
free_regions_lem [] a v below = (a, refl, v, λ j h. refl)
free_regions_lem ((i, n) ∷ l) a v (h, below) =
    let (b, e, w) = set_frames-WroteRange n a i 0 free v (omega arith) in
    let (c, f, valid, states) =
      free_regions_lem l b w.valid (subst (λ k. Below k l) (sym w.same_size) below) in
    (
      c,
      free_regions-cons a b (i, n) (map (region_from a.first_frame) l) e
          ∙ ap (λ s. free_regions b (map (region_from s) l)) (sym w.same_start)
          ∙ f,
      valid,
      λ j lt. states-cons a b c i n l j w lt (states j (omega (arith, w.same_size))),
    )

frame_diff-region_from :
    (start n : ℕ) → frame_diff (start + (0 + n) * page_size) (start + 0 * page_size) ≡ ok n
unfolding frame_diff
frame_diff-region_from start n = ground arith

sized_new-new :
    (start n : ℕ) (l : List Range)
    → sized_new (region_from start (0, n)) l ≡ free_regions (new start n) l
unfolding sized_new
sized_new-new start n l =
    ap (λ o. o >>= λ k. free_regions (new (start + 0 * page_size) k) l)
      (frame_diff-region_from start n)
    ∙ ap (λ s. free_regions (new s n) l) (omega arith)

free_regions-stop :
    (a : BitmapAllocator) (r : ℕ × ℕ) (l : List Range)
    → set_frames a (frame_at a r.0) 0 r.1 free ≡ panic
    → free_regions a (region_from a.first_frame r ∷ l) ≡ panic
unfolding free_regions
free_regions-stop a (i, n) l e =
    ap (λ k. set_frames a (frame_at a i) 0 k free >>= λ c. free_regions c l) (omega arith)
    ∙ ap (λ o. o >>= λ c. free_regions c l) e

-- Over a range of whole words that ends below the end of memory, and regions of frames within it,
-- the constructor makes a valid bitmap of the range's frames in which those of the regions are free
-- and the others allocated.
pub sized_new-whole_words :
    (start words : ℕ) (l : List (ℕ × ℕ))
    → start + words * word_size * page_size < usize_mod
    → Below (words * word_size) l
    → (b : BitmapAllocator) × (sized_new
          (region_from start (0, words * word_size))
          (map (region_from start) l)
        ≡ ok b)
      × IsValid b
      × ((j : ℕ)
          → j < words * word_size
          → get_frame b (start + j * page_size)
            ≡ (if in_regions l j then ok free else ok allocated))
unfolding new
sized_new-whole_words start words l h below =
    let n = words * word_size in
    let size : covered (new start n) ≡ n = covered-new start n ∙ omega arith in
    let (b, e, valid, states) =
      free_regions_lem l (new start n) (new-IsValid start n h)
        (subst (λ k. Below k l) (sym size) below) in
    (
      b,
      sized_new-new start n (map (region_from start) l) ∙ e,
      valid,
      λ j lt.
          states j (omega (arith, size))
          ∙ ap (λ o. if in_regions l j then ok free else o)
              (new-allocated start n j h (omega (arith, size))),
    )

-- Over a range that ends below the end of memory, is not a whole number of words, and is all free,
-- the constructor panics.
pub sized_new-partial_word :
    (start n : ℕ)
    → start + n * page_size < usize_mod
    → n % word_size ≢ 0
    → sized_new (region_from start (0, n)) (region_from start (0, n) ∷ []) ≡ panic
unfolding new
sized_new-partial_word start n h partial =
    sized_new-new start n (region_from start (0, n) ∷ [])
    ∙ free_regions-stop (new start n) (0, n) []
        (set_frames-outside n (new start n) 0 0 free (new-IsValid start n h) (omega arith)
          (omega (arith, covered-new start n)))
