-- ===== src/Tests/FrameBitmap.antt =====
-- The bitmap allocator on sixteen frames.
use popcorn.Prelude.{
  ◌≤◌, ℕ, ◌+◌, ◌*◌, ◌<◌, ◌≡◌, ◌⊎◌, refl, arith, some, [], ◌∷◌, if◌then◌else◌, map, get_elem?, zero,
  suc,
}
use popcorn.Prelude.Outcome.{ok, err, panic}
use popcorn.Memory.{Frame, page_size, frame_add, frame_diff}
use popcorn.RangedBtree.{Range}
use popcorn.BitmapAllocator
use popcorn.BitmapAllocator.{
  FrameState, BitmapAllocator, last_frame, frame_to_indices, set_frame, get_frame, trailing_zeros,
  find_first, allocate_one, all_free, allocate_at, set_frames, deallocate_contiguous, free_regions,
  sized_new,
}
use popcorn.BitmapAllocator.Frames.{covered, frame_at, IsValid, Wrote, set_frame-Wrote}
use popcorn.BitmapAllocator.Ranges.{WroteRange, deallocate-WroteRange}
use popcorn.BitmapAllocator.AllocateAt.{AllFree, SomeAllocated, allocate_at_lem}
use popcorn.BitmapAllocator.Contiguous.{
  find_slide, find_multiple, allocate_multiple_fast, scan_bit, scan_word, scan,
  allocate_multiple_slow, allocate_contiguous,
}
use popcorn.BitmapAllocator.Runs.{TookRun}
use popcorn.BitmapAllocator.AllocateContiguous.{allocate_contiguous_lem}
use popcorn.BitmapAllocator.Clients.{Clients, Request, requests, IsSound}
use popcorn.BitmapAllocator.Ownership.{requests-IsSound}
use popcorn.BitmapAllocator.Push.{Marked, push-Marked}
use popcorn.BitmapAllocator.Setup.{
  region_from, in_regions, sized_new-whole_words, sized_new-partial_word,
}

-- Sixteen frames from 1 MiB on, of which those with the indices 3 and 8 to 15 are free.
abbrev bitmap16 : BitmapAllocator
bitmap16 = record { first_frame = 0x10_0000; bitmap = 8 ∷ 255 ∷ [] }

bitmap16_narrow : (i w : ℕ) → get_elem? (8 ∷ 255 ∷ []) i ≡ some w → w < 256
bitmap16_narrow zero w e = ground arith
bitmap16_narrow (suc zero) w e = ground arith
bitmap16_narrow (suc (suc i)) w e = ground arith

bitmap16-IsValid : IsValid bitmap16
bitmap16-IsValid = record { fits = omega arith; narrow = bitmap16_narrow }

-- The free frame of the first word is taken, then one of the second.
two_allocations :
    (allocate_one bitmap16 ≡ ok (0x10_3000, record bitmap16 { bitmap = 0 ∷ 255 ∷ [] }))
    × (allocate_one (record bitmap16 { bitmap = 0 ∷ 255 ∷ [] })
        ≡ ok (0x10_8000, record bitmap16 { bitmap = 0 ∷ 254 ∷ [] }))
unfolding allocate_one find_first trailing_zeros frame_add
two_allocations = (refl, refl)

initial :
    sized_new
      (region_from 0x10_0000 (0, 16))
      (region_from 0x10_0000 (3, 1) ∷ region_from 0x10_0000 (8, 8) ∷ [])
    ≡ ok bitmap16
unfolding sized_new frame_diff BitmapAllocator.new free_regions set_frames set_frame
    frame_to_indices last_frame frame_add
initial = refl

set_frame-Wrote_example :
    (b : BitmapAllocator) × (set_frame bitmap16 (frame_at bitmap16 9) FrameState.allocated ≡ ok b)
    × Wrote bitmap16 9 FrameState.allocated b
set_frame-Wrote_example =
    set_frame-Wrote bitmap16 9 FrameState.allocated bitmap16-IsValid (omega arith)

deallocate-WroteRange_example :
    (b : BitmapAllocator) × (deallocate_contiguous bitmap16 (frame_at bitmap16 4) 6 ≡ ok b)
    × WroteRange bitmap16 4 6 FrameState.free b
deallocate-WroteRange_example = deallocate-WroteRange bitmap16 4 6 bitmap16-IsValid (omega arith)

sized_new-whole_words_example :
    (b : BitmapAllocator) × (sized_new
        (region_from 0x10_0000 (0, 2 * 8))
        (map (region_from 0x10_0000) ((3, 1) ∷ (8, 8) ∷ []))
      ≡ ok b)
    × IsValid b
    × ((j : ℕ)
        → j < 2 * 8
        → get_frame b (0x10_0000 + j * page_size) ≡ (
            if in_regions ((3, 1) ∷ (8, 8) ∷ []) j
            then ok FrameState.free
            else ok FrameState.allocated))
sized_new-whole_words_example =
    sized_new-whole_words 0x10_0000 2 ((3, 1) ∷ (8, 8) ∷ []) (omega arith)
      (omega arith, (omega arith, tt))

sized_new-partial_word_example :
    sized_new (region_from 0x10_0000 (0, 10)) (region_from 0x10_0000 (0, 10) ∷ []) ≡ panic
sized_new-partial_word_example = sized_new-partial_word 0x10_0000 10 (omega arith) (omega arith)

-- Three free frames are taken; the next request needs one that is not free.
requests_at :
    (allocate_at bitmap16 3 0x10_8000 ≡ ok (0x10_8000, record bitmap16 { bitmap = 8 ∷ 248 ∷ [] }))
    × (allocate_at (record bitmap16 { bitmap = 8 ∷ 248 ∷ [] }) 2 0x10_A000 ≡ err)
unfolding allocate_at all_free get_frame set_frames set_frame frame_to_indices last_frame frame_add
    frame_diff
requests_at = (refl, refl)

allocate_at_lem_example :
    (AllFree bitmap16 8 3
      × ((b : BitmapAllocator) × (allocate_at bitmap16 3 (frame_at bitmap16 8)
            ≡ ok (frame_at bitmap16 8, b))
          × WroteRange bitmap16 8 3 FrameState.allocated b))
    ⊎ (SomeAllocated bitmap16 8 3 × (allocate_at bitmap16 3 (frame_at bitmap16 8) ≡ err))
allocate_at_lem_example = allocate_at_lem bitmap16 8 3 bitmap16-IsValid (omega arith) (omega arith)

-- Three frames fit within the second word. Nine need the first word's last frame, which is taken.
runs_of_frames :
    (allocate_contiguous bitmap16 3 ≡ ok (0x10_8000, record bitmap16 { bitmap = 8 ∷ 248 ∷ [] }))
    × (allocate_contiguous bitmap16 9 ≡ err)
unfolding allocate_contiguous allocate_multiple_fast find_multiple find_slide trailing_zeros
    allocate_multiple_slow scan scan_word scan_bit frame_add
runs_of_frames = (refl, refl)

-- Across the words: the fast path gives up, the slow one finds the frames 6 to 9.
across_words :
    allocate_contiguous (record { first_frame = 0x10_0000; bitmap = 192 ∷ 3 ∷ [] }) 4
    ≡ ok (0x10_6000, record { first_frame = 0x10_0000; bitmap = 0 ∷ 0 ∷ [] })
unfolding allocate_contiguous allocate_multiple_fast find_multiple find_slide trailing_zeros
    allocate_multiple_slow scan scan_word scan_bit set_frames set_frame frame_to_indices last_frame
    frame_add frame_diff
across_words = refl

allocate_contiguous_lem_example :
    ((f : Frame) × (b : BitmapAllocator) × (allocate_contiguous bitmap16 5 ≡ ok (f, b))
      × TookRun bitmap16 5 f b)
    ⊎ ((allocate_contiguous bitmap16 5 ≡ err)
        × ((q : ℕ) → q + 5 ≤ covered bitmap16 → SomeAllocated bitmap16 q 5))
allocate_contiguous_lem_example = allocate_contiguous_lem bitmap16 5 bitmap16-IsValid (omega arith)

-- Two frames below the bitmap and its first eleven.
abbrev from_below : Range
from_below = record { start = 0xf_e000; end = 0x10_b000 }

push-Marked_example :
    (b : BitmapAllocator) × (BitmapAllocator.push bitmap16 from_below ≡ ok b)
    × Marked bitmap16 0xf_e000 0x10_b000 b
push-Marked_example = push-Marked bitmap16 from_below bitmap16-IsValid refl refl refl (omega arith)

abbrev nobody : Clients
nobody = record { allocator = bitmap16; held = [] }

nobody-IsSound : IsSound nobody
nobody-IsSound = record { valid = bitmap16-IsValid; owned = tt; disjoint = tt }

requests-IsSound_example :
    (d : Clients) × (requests nobody
        (Request.allocate 2 ∷ Request.allocate 0 ∷ Request.release 1 ∷ Request.allocate 4 ∷ [])
      ≡ ok d)
    × IsSound d
requests-IsSound_example =
    requests-IsSound
      (Request.allocate 2 ∷ Request.allocate 0 ∷ Request.release 1 ∷ Request.allocate 4 ∷ []) nobody
      nobody-IsSound
