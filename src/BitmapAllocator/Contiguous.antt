-- ===== src/BitmapAllocator/Contiguous.antt =====
-- bitmap_allocator/src/lib.rs: the allocation of several frames in a row, first within a word, then
-- across words.
use Prim.Native.Nat.{bit_and}
use popcorn.Prelude.{
  ℕ, zero, suc, ◌+◌, ◌-◌, ◌*◌, ◌/◌, ◌%◌, ◌^◌, Bool, false, Option, none, some, List, [], ◌∷◌, leb,
  ltb, ◌==◌, if◌then◌else◌,
}
use popcorn.Prelude.Bits.{not64}
use popcorn.Prelude.Outcome.{Outcome, ok, err, panic, ◌>>=◌, expect}
use popcorn.Memory.{Frame, frame_add}
use popcorn.BitmapAllocator.{
  word_size, allocated, BitmapAllocator, trailing_zeros, allocate_one, set_frames,
}

-- The loop over `slide` of `allocate_multiple_fast`, `n` steps from `slide` on: the first at which
-- all the frames of the mask are free.
unfoldable pub find_slide : ℕ → ℕ → ℕ → ℕ → Option ℕ
find_slide entry mask slide zero = none
find_slide entry mask slide (suc n) =
    let rest = find_slide entry mask (suc slide) n in
    if bit_and (entry / 2 ^ slide) mask == mask then some slide else rest

-- Its loop over the words, as in `find_first`: the word, the slide, and the words after it.
unfoldable pub find_multiple : ℕ → ℕ → ℕ → List ℕ → Option (ℕ × ℕ × List ℕ)
find_multiple mask frame_count i [] = none
find_multiple mask frame_count i (entry ∷ rest) =
    let first_set_bit = trailing_zeros 64 entry in
    let later = find_multiple mask frame_count (suc i) rest in
    elim (find_slide entry mask first_set_bit (word_size - frame_count - first_set_bit)) [
      | some slide ↦ some (i, slide, bit_and entry (not64 (mask * 2 ^ slide)) ∷ rest)
      | none ↦ elim later [ none ↦ none | some (j, s, l) ↦ some (j, s, entry ∷ l) ]
    ]

-- `(2 << (frame_count - 1)) - 1`
abbrev pub run_mask : ℕ → ℕ
run_mask frame_count = 2 * 2 ^ (frame_count - 1) - 1

unfoldable pub allocate_multiple_fast : BitmapAllocator → ℕ → Outcome (Frame × BitmapAllocator)
allocate_multiple_fast a frame_count =
    if leb frame_count 1
    then panic
    else if ltb word_size frame_count
    then err
    else elim (find_multiple (run_mask frame_count) frame_count 0 a.bitmap) [
      | none ↦ err
      | some (i, slide, words) ↦ do
        start ← frame_add a.first_frame (i * word_size)
        start' ← frame_add start slide
        ok (start', record a { bitmap = words })
    ]

-- The variables of the loops of `allocate_multiple_slow`.
pub record Scan : Type 0 where
  pub found_contiguous_frames : ℕ
  pub contiguous_frames_start : Option (ℕ × ℕ)
  pub found : Bool

-- The body of the inner loop.
unfoldable pub scan_bit : ℕ → ℕ → ℕ → ℕ → Scan → Scan
scan_bit frame_count entry word_idx bit_idx s =
    if entry / 2 ^ bit_idx % 2 == 1
    then record {
      found_contiguous_frames = s.found_contiguous_frames + 1;
      contiguous_frames_start =
          if s.found_contiguous_frames == 0
          then some (word_idx, bit_idx)
          else s.contiguous_frames_start;
      found = s.found_contiguous_frames + 1 == frame_count;
    }
    else record { found_contiguous_frames = 0; contiguous_frames_start = none; found = false }

-- The inner loop, `n` rounds from `bit_idx` on, and the outer one; `break 'outer` ends both.
unfoldable pub scan_word : ℕ → ℕ → ℕ → ℕ → ℕ → Scan → Scan
scan_word frame_count entry word_idx bit_idx zero s = s
scan_word frame_count entry word_idx bit_idx (suc n) s =
    let t = scan_bit frame_count entry word_idx bit_idx s in
    let rest = scan_word frame_count entry word_idx (suc bit_idx) n t in if t.found then t else rest

unfoldable pub scan : ℕ → List ℕ → ℕ → Scan → Scan
scan frame_count [] word_idx s = s
scan frame_count (entry ∷ l) word_idx s =
    let t = scan_word frame_count entry word_idx 0 word_size s in
    let rest = scan frame_count l (suc word_idx) t in if t.found then t else rest

abbrev pub scan_start : Scan
scan_start = record { found_contiguous_frames = 0; contiguous_frames_start = none; found = false }

unfoldable pub allocate_multiple_slow : BitmapAllocator → ℕ → Outcome (Frame × BitmapAllocator)
allocate_multiple_slow a frame_count =
    let s = scan frame_count a.bitmap 0 scan_start in
    if leb frame_count 1
    then panic
    else if s.found
    then (do
      (word_idx, bit_idx) ← expect s.contiguous_frames_start
      word_start ← frame_add a.first_frame (word_idx * word_size)
      start ← frame_add word_start bit_idx
      end ← frame_add start frame_count
      b ← set_frames a start 0 frame_count allocated
      ok (start, b))
    else err

-- `Frame::zero()` is the frame at address 0.
unfoldable pub allocate_contiguous : BitmapAllocator → ℕ → Outcome (Frame × BitmapAllocator)
allocate_contiguous a frame_count =
    let slow = allocate_multiple_slow a frame_count in
    if frame_count == 0
    then ok (0, a)
    else if frame_count == 1
    then allocate_one a
    else elim (allocate_multiple_fast a frame_count) [ ok r ↦ ok r | err ↦ slow | panic ↦ panic ]
