-- ===== src/BitmapAllocator/AllocateContiguous.antt =====
-- An allocation of any number of frames in a row takes a run of free frames, if there is one.
use mathlib.Core.Path.{subst}
use native.Mathlib.Decide.{ℕ_discrete}
use popcorn.Prelude.{
  ℕ, ◌+◌, ◌*◌, ◌/◌, ◌%◌, ◌≤◌, ◌<◌, ◌≡◌, ◌∙◌, ap, refl, sym, ◌⊎◌, inl, inr, some, true, false,
  length, get_elem?, get_or, arith, ◌==◌, if◌then◌else◌, get_or_of_get_elem?,
}
use popcorn.Prelude.Bits.{bit}
use popcorn.Prelude.Outcome.{ok, err}
use popcorn.Memory.{Frame, frame_add}
use popcorn.BitmapAllocator.{
  word_size, allocated, free, BitmapAllocator, get_frame, set_frames, allocate_one,
}
use popcorn.BitmapAllocator.Contiguous.{
  scan, scan_start, allocate_multiple_fast, allocate_multiple_slow, allocate_contiguous,
}
use popcorn.BitmapAllocator.Frames.{covered, frame_at, IsValid, get_frame-at, word_of}
use popcorn.BitmapAllocator.Ranges.{WroteRange, set_frames-WroteRange}
use popcorn.BitmapAllocator.AllocateAt.{SomeAllocated}
use popcorn.BitmapAllocator.AllocateOne.{TookFirst, allocate_one_lem}
use popcorn.BitmapAllocator.Runs.{TookRun, allocate_multiple_fast_lem}
use popcorn.BitmapAllocator.Scanning.{FoundRun}
use popcorn.BitmapAllocator.Slow.{scan_lem, scan_start-Scanned}

-- The bit of the `p`th frame.
abbrev frame_bit : BitmapAllocator → ℕ → ℕ
frame_bit a p = bit (get_or a.bitmap (p / word_size) 0) (p % word_size)

get_frame-frame_bit :
    (a : BitmapAllocator) (p : ℕ)
    → IsValid a
    → p < covered a
    → get_frame a (frame_at a p) ≡ ok (if frame_bit a p == 0 then allocated else free)
get_frame-frame_bit a p v h =
    let (w, e) = word_of a p h in
    get_frame-at a p w v h e
    ∙ ap (λ x. ok (if bit x (p % word_size) == 0 then allocated else free))
        (sym (get_or_of_get_elem? a.bitmap (p / word_size) 0 e))

frame_bit-word :
    (a : BitmapAllocator) (j w c : ℕ)
    → get_elem? a.bitmap j ≡ some w
    → c < word_size
    → frame_bit a ((0 + j) * word_size + c) ≡ bit w c
frame_bit-word a j w c e h =
    let word : ((0 + j) * word_size + c) / word_size ≡ j = omega arith in
    let place : ((0 + j) * word_size + c) % word_size ≡ c = omega arith in
    ap (λ k. bit (get_or a.bitmap k 0) (((0 + j) * word_size + c) % word_size)) word
    ∙ ap (bit (get_or a.bitmap j 0)) place
    ∙ ap (λ x. bit x c) (get_or_of_get_elem? a.bitmap j 0 e)

abbrev NoRun : BitmapAllocator → ℕ → Type 0
NoRun a n = (q : ℕ) → q + n ≤ covered a → SomeAllocated a q n

slow-found :
    (a b : BitmapAllocator) (n k t : ℕ)
    → IsValid a
    → 1 < n
    → (scan n a.bitmap 0 scan_start).found ≡ true
    → (scan n a.bitmap 0 scan_start).contiguous_frames_start ≡ some (k, t)
    → k * word_size + t + n ≤ covered a
    → set_frames a (frame_at a (k * word_size + t)) 0 n allocated ≡ ok b
    → allocate_multiple_slow a n ≡ ok (frame_at a (k * word_size + t), b)
unfolding allocate_multiple_slow frame_add
slow-found a b n k t v h e f inside g = ground (arith, e, f, g, v.fits)

slow-none :
    (a : BitmapAllocator) (n : ℕ)
    → 1 < n
    → (scan n a.bitmap 0 scan_start).found ≡ false
    → allocate_multiple_slow a n ≡ err
unfolding allocate_multiple_slow
slow-none a n h e = ground (arith, e)

slow-FoundRun :
    (a : BitmapAllocator) (n : ℕ)
    → IsValid a
    → 1 < n
    → FoundRun (frame_bit a) n ((0 + length a.bitmap) * word_size) (scan n a.bitmap 0 scan_start)
    → (f : Frame) × (b : BitmapAllocator) × (allocate_multiple_slow a n ≡ ok (f, b))
      × TookRun a n f b
slow-FoundRun a n v h found =
    let i = found.q / word_size * word_size + found.q % word_size in
    let same : i ≡ found.q = omega arith in
    let inside : i + n ≤ covered a = omega (arith, found.inside) in
    let (b, e, wrote) = set_frames-WroteRange n a i 0 allocated v (omega arith) in
    (
      frame_at a i,
      b,
      slow-found a b n (found.q / word_size) (found.q % word_size) v h found.found found.begin
          inside e,
      record {
        index = i;
        inside = inside;
        frame = refl;
        were_free = λ j low high.
            get_frame-frame_bit a j v (omega arith)
            ∙ ap (λ d. ok (if d == 0 then allocated else free))
                (found.all_set j (omega arith) (omega arith));
        wrote = subst (λ p. WroteRange a p n allocated b) (omega arith) wrote;
      },
    )

-- The slow path takes a run of free frames, or there is none and it fails.
pub allocate_multiple_slow_lem :
    (a : BitmapAllocator) (n : ℕ)
    → IsValid a
    → 1 < n
    → ((f : Frame) × (b : BitmapAllocator) × (allocate_multiple_slow a n ≡ ok (f, b))
        × TookRun a n f b)
      ⊎ ((allocate_multiple_slow a n ≡ err) × NoRun a n)
allocate_multiple_slow_lem a n v h =
    let pos : 0 < n = omega arith in
    elim (scan_lem (frame_bit a) n pos a.bitmap 0 scan_start (frame_bit-word a)
      (scan_start-Scanned (frame_bit a) n pos)) [
        | inl found ↦ inl (slow-FoundRun a n v h found)
        | inr scanned ↦ inr (
          slow-none a n h scanned.not_found,
          λ q inside.
              let (r, low, high, clear) = scanned.no_run q (omega arith) in
              (
                r,
                low,
                high,
                get_frame-frame_bit a r v (omega arith)
                    ∙ ap (λ d. ok (if d == 0 then allocated else free)) clear,
              ),
        )
      ]

TookRun-TookFirst :
    (a : BitmapAllocator) (f : Frame) (b : BitmapAllocator) → TookFirst a f b → TookRun a 1 f b
TookRun-TookFirst a f b t = record {
  index = t.index;
  inside = omega (arith, t.inside);
  frame = t.frame;
  were_free = λ j low high.
      let same : j ≡ t.index = omega arith in
      ap (λ k. get_frame a (frame_at a k)) same ∙ ap (get_frame a) (sym t.frame) ∙ t.was_free;
  wrote = record {
    valid = t.wrote.valid;
    same_start = t.wrote.same_start;
    same_size = t.wrote.same_size;
    states = λ j h. ground (arith, t.wrote.states j h);
  };
}

contiguous-one : (a : BitmapAllocator) → allocate_contiguous a 1 ≡ allocate_one a
unfolding allocate_contiguous
contiguous-one a = refl

contiguous-fast :
    (a b : BitmapAllocator) (n : ℕ) (f : Frame)
    → 1 < n
    → allocate_multiple_fast a n ≡ ok (f, b)
    → allocate_contiguous a n ≡ ok (f, b)
unfolding allocate_contiguous
contiguous-fast a b n f h e = ground (arith, e)

contiguous-slow :
    (a : BitmapAllocator) (n : ℕ)
    → 1 < n
    → allocate_multiple_fast a n ≡ err
    → allocate_contiguous a n ≡ allocate_multiple_slow a n
unfolding allocate_contiguous
contiguous-slow a n h e = ground (arith, e)

-- What a request of `n` frames does.
abbrev pub Answer : BitmapAllocator → ℕ → Type 0
Answer a n =
    ((f : Frame) × (b : BitmapAllocator) × (allocate_contiguous a n ≡ ok (f, b)) × TookRun a n f b)
    ⊎ ((allocate_contiguous a n ≡ err) × NoRun a n)

contiguous-single : (a : BitmapAllocator) → IsValid a → Answer a 1
contiguous-single a v = elim (allocate_one_lem a v) [
  | inr (f, b, e, took) ↦ inl (f, b, contiguous-one a ∙ e, TookRun-TookFirst a f b took)
  | inl (e, all) ↦
      inr (contiguous-one a ∙ e, λ q h. (q, omega arith, omega arith, all q (omega arith)))
]

-- A request for at least one frame to a valid bitmap gives out frames in a row that were all free, marks exactly
-- those as allocated and keeps the bitmap valid; or it fails, and then among as many frames in a
-- row as it asked for, wherever they lie, one is allocated.
pub allocate_contiguous_lem :
    (a : BitmapAllocator) (n : ℕ)
    → IsValid a
    → 0 < n
    → ((f : Frame) × (b : BitmapAllocator) × (allocate_contiguous a n ≡ ok (f, b))
        × TookRun a n f b)
      ⊎ ((allocate_contiguous a n ≡ err) × ((q : ℕ) → q + n ≤ covered a → SomeAllocated a q n))
allocate_contiguous_lem a n v pos = elim (ℕ_discrete n 1) [
  | yes one ↦ subst (Answer a) (sym one) (contiguous-single a v)
  | no more ↦
      let h : 1 < n = omega arith in
      elim (allocate_multiple_fast_lem a n v h) [
        | inr (f, b, e, took) ↦ inl (f, b, contiguous-fast a b n f h e, took)
        | inl fails ↦ elim (allocate_multiple_slow_lem a n v h) [
          | inl (f, b, e, took) ↦ inl (f, b, contiguous-slow a n h fails ∙ e, took)
          | inr (e, none_free) ↦ inr (contiguous-slow a n h fails ∙ e, none_free)
        ]
      ]
]
