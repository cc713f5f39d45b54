-- ===== src/BitmapAllocator.antt =====
-- bitmap_allocator/src/lib.rs: the frame allocator, a bitmap in which a set bit is a free frame.
-- Each method of `Wrapped` holds the mutex throughout, so a call is one step. A word of the bitmap
-- has 64 bits, but `size_of::<usize>()`, which the code divides by, is 8: only 8 of them are used.
pub mod Frames
pub mod Search
pub mod AllocateOne
pub mod Ranges
pub mod Setup
pub mod AllocateAt
pub mod Contiguous
pub mod Fast
pub mod Runs
pub mod Scanning
pub mod Slow
pub mod AllocateContiguous
pub mod Clients
pub mod Ownership
pub mod Push
use Prim.Native.Nat.{bit_and, bit_or}
use popcorn.Prelude.{
  ℕ, zero, suc, ◌+◌, ◌-◌, ◌*◌, ◌/◌, ◌%◌, ◌^◌, Bool, true, false, ◌||◌, Option, none, some, List, [],
  ◌∷◌, length, get_elem?, set, replicate, leb, ltb, ◌==◌, if◌then◌else◌,
}
use popcorn.Prelude.Bits.{not64}
use popcorn.Prelude.Outcome.{Outcome, ok, err, panic, ◌>>=◌, expect}
use popcorn.Memory.{Frame, page_size, frame_add, frame_diff}
use popcorn.RangedBtree.{Range}

-- `mem::size_of::<usize>()`
abbrev pub word_size : ℕ
word_size = 8

pub data FrameState : Type 0 where
  allocated free : FrameState

pub record BitmapAllocator : Type 0 where
  pub first_frame : Frame
  pub bitmap : List ℕ

unfoldable pub new : Frame → ℕ → BitmapAllocator
new first_frame frame_count = record {
  first_frame = first_frame;
  bitmap = replicate (frame_count / word_size) 0;
}

unfoldable pub last_frame : BitmapAllocator → Outcome Frame
last_frame a = frame_add a.first_frame (length a.bitmap * word_size)

unfoldable pub frame_to_indices : BitmapAllocator → Frame → Outcome (ℕ × ℕ)
frame_to_indices a frame =
    if leb a.first_frame frame
    then (frame_diff frame a.first_frame >>= λ number_in_bitmap.
        ok (number_in_bitmap / word_size, number_in_bitmap % word_size))
    else panic

-- `word &= !(1 << bit)` and `word |= 1 << bit`
abbrev pub write_bit : FrameState → ℕ → ℕ → ℕ
write_bit allocated word bit_index = bit_and word (not64 (2 ^ bit_index))
write_bit free word bit_index = bit_or word (2 ^ bit_index)

-- `err` is `OutOfRangeError`. An index past the bitmap panics.
unfoldable pub set_frame : BitmapAllocator → Frame → FrameState → Outcome BitmapAllocator
set_frame a frame state = if ltb frame a.first_frame then err else do
  last ← last_frame a
  if leb last frame then err else do
    (bitmap_index, bit_index) ← frame_to_indices a frame
    word ← expect (get_elem? a.bitmap bitmap_index)
    ok (record a { bitmap = set a.bitmap bitmap_index (write_bit state word bit_index) })

unfoldable pub get_frame : BitmapAllocator → Frame → Outcome FrameState
get_frame a frame = if ltb frame a.first_frame then err else do
  last ← last_frame a
  if leb last frame then err else do
    (bitmap_index, bit_index) ← frame_to_indices a frame
    word ← expect (get_elem? a.bitmap bitmap_index)
    ok (if bit_and word (2 ^ bit_index) == 0 then allocated else free)

-- `usize::trailing_zeros`, on a word of `k` bits
unfoldable pub trailing_zeros : ℕ → ℕ → ℕ
trailing_zeros zero word = 0
trailing_zeros (suc k) word = if word % 2 == 1 then 0 else suc (trailing_zeros k (word / 2))

-- The loop of `allocate_one`: the index of the first word with a bit set, that bit, and the words
-- with the bit cleared; `i` counts the words passed.
unfoldable pub find_first : ℕ → List ℕ → Option (ℕ × ℕ × List ℕ)
find_first i [] = none
find_first i (entry ∷ rest) =
    let first_set_bit = trailing_zeros 64 entry in
    if first_set_bit == 64
    then elim (find_first (suc i) rest) [ none ↦ none | some (j, b, l) ↦ some (j, b, entry ∷ l) ]
    else some (i, first_set_bit, write_bit allocated entry first_set_bit ∷ rest)

unfoldable pub allocate_one : BitmapAllocator → Outcome (Frame × BitmapAllocator)
allocate_one a = elim (find_first 0 a.bitmap) [
  | none ↦ err
  | some (i, first_set_bit, words) ↦ do
    start ← frame_add a.first_frame (i * word_size)
    start' ← frame_add start first_set_bit
    ok (start', record a { bitmap = words })
]

-- `Result::unwrap` and `Result::expect`
abbrev pub unwrap {ℓ} : {A : Type ℓ} → Outcome A → Outcome A
unwrap (ok a) = ok a
unwrap err = panic
unwrap panic = panic

-- The loop of `deallocate_contiguous` from `i` on, and those over the frames of a range, which are
-- `start + i` in turn.
unfoldable pub set_frames : BitmapAllocator → Frame → ℕ → ℕ → FrameState → Outcome BitmapAllocator
set_frames a base i zero state = ok a
set_frames a base i (suc count) state = do
  frame ← frame_add base i
  b ← unwrap (set_frame a frame state)
  set_frames b base (suc i) count state

-- The release of `frame_count` frames, which is not zero.
unfoldable pub deallocate_contiguous : BitmapAllocator → Frame → ℕ → Outcome BitmapAllocator
deallocate_contiguous a base frame_count = set_frames a base 0 frame_count free

-- The loop of `SizedBackingAllocator::new` over the regions, each a range of frames.
unfoldable pub free_regions : BitmapAllocator → List Range → Outcome BitmapAllocator
free_regions a [] = ok a
free_regions a (region ∷ rest) = do
  b ← set_frames a region.start 0 ((region.end - region.start) / page_size) free
  free_regions b rest

-- `SizedBackingAllocator::new`
unfoldable pub sized_new : Range → List Range → Outcome BitmapAllocator
sized_new allocation_range regions = do
  frame_count ← frame_diff allocation_range.end allocation_range.start
  free_regions (new allocation_range.start frame_count) regions

-- The loop of `push` over the `n` frames of the region: a frame out of range is passed over.
unfoldable pub push_frames : BitmapAllocator → Frame → ℕ → ℕ → Outcome BitmapAllocator
push_frames a start i zero = ok a
push_frames a start i (suc n) = do
  frame ← frame_add start i
  b ← elim (set_frame a frame allocated) [ ok b ↦ ok b | err ↦ ok a | panic ↦ panic ]
  push_frames b start (suc i) n

unfoldable pub push : BitmapAllocator → Range → Outcome BitmapAllocator
push a region = push_frames a region.start 0 ((region.end - region.start) / page_size)

-- `(addr..end).all(…)` from the frame `i` on, which stops at the first that is not free
unfoldable pub all_free : BitmapAllocator → Frame → ℕ → ℕ → Outcome Bool
all_free a addr i zero = ok true
all_free a addr i (suc count) =
    let rest = all_free a addr (suc i) count in
    frame_add addr i >>= λ frame. elim (get_frame a frame) [
      | ok allocated ↦ ok false
      | ok free ↦ rest
      | err ↦ ok false
      | panic ↦ panic
    ]

-- `allocate_at` at the location `At(addr)`; the other locations are `todo!` there.
unfoldable pub allocate_at : BitmapAllocator → ℕ → Frame → Outcome (Frame × BitmapAllocator)
allocate_at a frame_count addr = if frame_count == 0 then ok (0, a) else do
  end ← frame_add addr frame_count
  is_free ← all_free a addr 0 frame_count
  if is_free then (set_frames a addr 0 frame_count allocated >>= λ b. ok (addr, b)) else err
