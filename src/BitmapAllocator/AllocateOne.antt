-- ===== src/BitmapAllocator/AllocateOne.antt =====
-- `allocate_one` takes the first frame that is free.
use mathlib.Core.Path.{subst₂}
use native.Mathlib.Decide.{dec_lt, ℕ_discrete}
use popcorn.Prelude.{
  ℕ, ◌+◌, ◌*◌, ◌/◌, ◌%◌, ◌^◌, ◌<◌, ◌≡◌, ◌∙◌, ap, refl, ◌⊎◌, inl, inr, none, some, List, get_elem?,
  set, arith, lt_of_get_elem?,
}
use popcorn.Prelude.Bits.{bit, bit-below}
use popcorn.Prelude.Words.{usize_mod}
use popcorn.Prelude.Outcome.{ok, err}
use popcorn.Memory.{Frame, frame_add}
use popcorn.BitmapAllocator.{
  word_size, allocated, free, BitmapAllocator, write_bit, get_frame, find_first, allocate_one,
}
use popcorn.BitmapAllocator.Frames.{
  covered, frame_at, IsValid, get_frame-at, Wrote, Wrote-with_word, word_of,
}
use popcorn.BitmapAllocator.Search.{ClearBelow, FirstSet, NoneSet, Before, find_first_lem}

get_frame-clear :
    (a : BitmapAllocator) (j w : ℕ)
    → IsValid a
    → j < covered a
    → get_elem? a.bitmap (j / word_size) ≡ some w
    → bit w (j % word_size) ≡ 0
    → get_frame a (frame_at a j) ≡ ok allocated
get_frame-clear a j w v h e clear = ground (arith, get_frame-at a j w v h e)

all_allocated :
    (a : BitmapAllocator)
    → IsValid a
    → NoneSet a.bitmap
    → (j : ℕ) → j < covered a
    → get_frame a (frame_at a j) ≡ ok allocated
all_allocated a v none_set j h =
    let (w, e) = word_of a j h in
    get_frame-clear a j w v h e (none_set (j / word_size) w e (j % word_size) (omega arith))

-- What a call of `allocate_one` that gives out a frame has done.
pub record TookFirst (a : BitmapAllocator) (f : Frame) (b : BitmapAllocator) : Type 0 where
  pub index : ℕ
  pub inside : index < covered a
  pub frame : f ≡ frame_at a index
  pub was_free : get_frame a f ≡ ok free
  pub earlier : (j : ℕ) → j < index → get_frame a (frame_at a j) ≡ ok allocated
  pub wrote : Wrote a index allocated b

allocate_one-none : (a : BitmapAllocator) → find_first 0 a.bitmap ≡ none → allocate_one a ≡ err
unfolding allocate_one
allocate_one-none a e = ground (arith, e)

allocate_one-some :
    (a : BitmapAllocator) (k c : ℕ) (l : List ℕ)
    → find_first 0 a.bitmap ≡ some (k, c, l)
    → frame_at a (k * word_size + c) < usize_mod
    → allocate_one a ≡ ok (frame_at a (k * word_size + c), record a { bitmap = l })
unfolding allocate_one frame_add
allocate_one-some a k c l e fits = ground (arith, e)

narrow-bit : (w c : ℕ) → w < 2 ^ word_size → bit w c ≡ 1 → c < word_size
narrow-bit w c small set = elim (dec_lt c word_size) [
  | yes h ↦ h
  | no h ↦ absurd (omega (arith, bit-below word_size w c small (omega arith)))
]

earlier_allocated :
    (a : BitmapAllocator) (k c w : ℕ)
    → IsValid a
    → get_elem? a.bitmap k ≡ some w
    → ClearBelow c w
    → Before k a.bitmap
    → k * word_size + c < covered a
    → c < word_size
    → (j : ℕ) → j < k * word_size + c
    → get_frame a (frame_at a j) ≡ ok allocated
earlier_allocated a k c w v e clear before inside h j lt = elim (ℕ_discrete (j / word_size) k) [
  | yes same ↦
      get_frame-clear a j w v (omega arith) (ap (get_elem? a.bitmap) same ∙ e)
        (clear (j % word_size) (omega arith))
  | no other ↦
      let (x, f) = word_of a j (omega arith) in
      get_frame-clear a j x v (omega arith) f
        (before (j / word_size) x (omega arith) f (j % word_size) (omega arith))
]

TookFirst-Found :
    (a : BitmapAllocator) (k c w : ℕ)
    → IsValid a
    → get_elem? a.bitmap k ≡ some w
    → c < word_size
    → FirstSet 64 w c
    → Before k a.bitmap
    → TookFirst a
        (frame_at a (k * word_size + c))
        (record a { bitmap = set a.bitmap k (write_bit allocated w c) })
TookFirst-Found a k c w v e h (_, is_set, clear) before =
    let i = k * word_size + c in
    let quotient : i / word_size ≡ k = omega arith in
    let remainder : i % word_size ≡ c = omega arith in
    let at : get_elem? a.bitmap (i / word_size) ≡ some w = ap (get_elem? a.bitmap) quotient ∙ e in
    let inside : i < covered a = omega (arith, lt_of_get_elem? a.bitmap k e) in
    record {
      index = i;
      inside = inside;
      frame = refl;
      was_free = get_frame-at a i w v inside at ∙ ground (arith, ap (bit w) remainder, is_set);
      earlier = earlier_allocated a k c w v e clear before inside h;
      wrote =
          subst₂
            (λ q r.
              Wrote a i allocated (record a { bitmap = set a.bitmap q (write_bit allocated w r) }))
            quotient remainder (Wrote-with_word a i w allocated v inside at);
    }

-- On a valid bitmap `allocate_one` gives out the first frame that is free, and that frame's state
-- alone changes; it fails only if every frame is allocated.
pub allocate_one_lem :
    (a : BitmapAllocator)
    → IsValid a
    → ((allocate_one a ≡ err)
        × ((j : ℕ) → j < covered a → get_frame a (frame_at a j) ≡ ok allocated))
      ⊎ ((f : Frame) × (b : BitmapAllocator) × (allocate_one a ≡ ok (f, b)) × TookFirst a f b)
allocate_one_lem a v = elim (find_first_lem 0 a.bitmap) [
  | inl (e, none_set) ↦ inl (allocate_one-none a e, all_allocated a v none_set)
  | inr found ↦
      let narrow = narrow-bit found.w found.c (v.narrow found.k found.w found.word) found.first.1 in
      let l = set a.bitmap found.k (write_bit allocated found.w found.c) in
      inr (
        frame_at a (found.k * word_size + found.c),
        record a { bitmap = l },
        allocate_one-some a found.k found.c l
            (found.result ∙ ap (λ i. some (i, found.c, l)) (omega arith))
            (omega (arith, v.fits, lt_of_get_elem? a.bitmap found.k found.word)),
        TookFirst-Found a found.k found.c found.w v found.word narrow found.first found.before,
      )
]
