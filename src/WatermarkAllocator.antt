-- ===== src/WatermarkAllocator.antt =====
-- kernel/src/memory/watermark_allocator.rs: the allocator of the early boot, which hands frames out
-- downwards and never takes them back. A call holds the mutex throughout, and an error leaves the
-- changes that were made before it, so a call returns its outcome and the state after.
pub mod Takes
pub mod Faults
use popcorn.Prelude.{ℕ, Bool, Option, none, some, List, [], ◌∷◌, leb, ltb, ◌==◌, if◌then◌else◌}
use popcorn.Prelude.Outcome.{Outcome, ok, err, panic}
use popcorn.Memory.{Frame, frame_checked_sub}
use popcorn.RangedBtree.{Range}

-- `free_regions` is what the iterator has yet to yield from its front.
pub record Inner : Type 0 where
  pub free_regions : List Range
  pub last_in_current_region : Frame
  pub prev_frame : Frame
  pub top : Frame

-- `DoubleEndedIterator::next_back`: the last item and those before it.
unfoldable pub next_back : List Range → Option (Range × List Range)
next_back [] = none
next_back (r ∷ rs) = elim (next_back rs) [
  | none ↦ some (r, [])
  | some (l, init) ↦ some (l, r ∷ init)
]

unfoldable pub new : List Range → Outcome Inner
new regions = elim (next_back regions) [
  | none ↦ panic
  | some (last_free_section, rest) ↦ ok (record {
    free_regions = rest;
    last_in_current_region = last_free_section.start;
    prev_frame = last_free_section.end;
    top = last_free_section.end;
  })
]

-- The `loop`, with `regions` what is left of the iterator, and what follows it.
unfoldable pub search_regions : ℕ → Frame → Inner → List Range → Outcome Frame × Inner
search_regions count test_frame s [] =
    if leb s.last_in_current_region test_frame
    then (ok test_frame, record s { free_regions = []; prev_frame = test_frame })
    else (err, record s { free_regions = [] })
search_regions count test_frame s (new_region ∷ rest) =
    if leb s.last_in_current_region test_frame
    then (ok test_frame, record s { free_regions = new_region ∷ rest; prev_frame = test_frame })
    else elim (frame_checked_sub new_region.end count) [
      | ok (some t) ↦
          search_regions count t (record s { last_in_current_region = new_region.start }) rest
      | ok none ↦ (err, record s { free_regions = rest; last_in_current_region = new_region.start })
      | err ↦ (err, record s { free_regions = rest; last_in_current_region = new_region.start })
      | panic ↦ (panic, record s { free_regions = rest; last_in_current_region = new_region.start })
    ]

-- `Inner::allocate_contiguous`. A higher alignment is `todo!`.
unfoldable pub allocate_contiguous_in : Inner → ℕ → ℕ → Outcome Frame × Inner
allocate_contiguous_in s page_count alignment_log2 =
    if alignment_log2 == 0
    then elim (frame_checked_sub s.prev_frame page_count) [
      | ok (some test_frame) ↦ search_regions page_count test_frame s s.free_regions
      | ok none ↦ (err, s)
      | err ↦ (err, s)
      | panic ↦ (panic, s)
    ]
    else (panic, s)

-- `BackingAllocator` for `WatermarkAllocator`
unfoldable pub allocate_contiguous : Inner → ℕ → Outcome Frame × Inner
allocate_contiguous s frame_count =
    if frame_count == 0 then (ok 0, s) else allocate_contiguous_in s frame_count 0

unfoldable pub deallocate_contiguous : Inner → Frame → ℕ → Inner
deallocate_contiguous s base frame_count = s

-- The region that `drain_into` pushes into the next allocator as allocated.
unfoldable pub drain_region : Inner → Range
drain_region s = record { start = s.prev_frame; end = s.top }
