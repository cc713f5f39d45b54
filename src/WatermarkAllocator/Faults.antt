-- ===== src/WatermarkAllocator/Faults.antt =====
-- Two ways in which the boot allocator hands out, or leaves for others to hand out, frames that it
-- should not.
use popcorn.Prelude.{ℕ, ◌+◌, ◌-◌, ◌*◌, ◌≤◌, ◌<◌, ◌≡◌, [], ◌∷◌, arith, ap, ◌∙◌, false}
use popcorn.Prelude.Words.{usize_mod}
use popcorn.Prelude.Outcome.{ok, err}
use popcorn.Memory.{page_size}
use popcorn.Memory.Arithmetic.{frame_checked_sub_lem}
use popcorn.RangedBtree.{Range, contains}
use popcorn.WatermarkAllocator.{
  Inner, new, next_back, search_regions, allocate_contiguous_in, allocate_contiguous, drain_region,
}
use popcorn.WatermarkAllocator.Takes.{InSome}

-- Of two regions `low` and `high` that end below the end of memory, `low` not ending before it starts,
-- suppose that a request is larger than `high` but reaches no lower than address 0 from the end of
-- `high`, and does reach lower than 0 from the end of `low`. It fails. Then a request for at least
-- one frame that is larger than `high`, but does not reach below the end of `low` from the end of
-- `high`, succeeds with frames that end where `high` ends; the first lies below `high` and in neither
-- region.
pub error_then_gap :
    (low high : Range) (s : Inner) (count more : ℕ)
    → new (low ∷ high ∷ []) ≡ ok s
    → high.end < usize_mod
    → low.end < usize_mod
    → high.end < high.start + count * page_size
    → low.end < count * page_size
    → count * page_size ≤ high.end
    → count * page_size < usize_mod
    → 0 < more
    → high.end < high.start + more * page_size
    → low.end + more * page_size ≤ high.end
    → low.start ≤ low.end
    → let (refused, s1) = allocate_contiguous s count in
      let (given, s2) = allocate_contiguous s1 more in
      (refused ≡ err)
      × (given ≡ ok (high.end - more * page_size))
      × (high.end - more * page_size < high.start)
      × (¬ InSome (low ∷ high ∷ []) (high.end - more * page_size))
unfolding new next_back allocate_contiguous allocate_contiguous_in search_regions
error_then_gap low high s count more e hs ls big big' fits word pos across above sane =
    let after : Inner = record {
      free_regions = [];
      last_in_current_region = low.start;
      prev_frame = high.end;
      top = high.end;
    } in
    let first : allocate_contiguous s count ≡ (err, after) =
      ground
        (arith, frame_checked_sub_lem high.end count hs, frame_checked_sub_lem low.end count ls) in
    let second : (allocate_contiguous after more).0 ≡ ok (high.end - more * page_size) =
      ground (arith, frame_checked_sub_lem high.end more hs) in
    (
      ap (λ x. x.0) first,
      ap (λ x. (allocate_contiguous x.1 more).0) first ∙ second,
      omega arith,
      λ h. omega arith,
    )

-- Take three regions in ascending order, the last of which does not end before it starts and ends
-- below the end of memory. A first request, for at least one frame, is larger than the last region,
-- reaches no lower than address 0 from its end, and fits in the lowest; a second, for at least one
-- frame, then no longer fits in what is left of the lowest, reaches no lower than address 0 from
-- there, and fits in the middle region. The first is served from the end of the lowest region and
-- the second from the end of the middle one, and then the region that `drain_into` passes on as
-- allocated holds no address below the end of the lowest.
pub drain_misses_lowest :
    (low mid high : Range) (s : Inner) (first second : ℕ)
    → new (low ∷ mid ∷ high ∷ []) ≡ ok s
    → low.end ≤ mid.start
    → mid.end ≤ high.start
    → high.start ≤ high.end
    → high.end < usize_mod
    → 0 < first
    → high.end < high.start + first * page_size
    → low.start + first * page_size ≤ low.end
    → first * page_size ≤ high.end
    → 0 < second
    → low.end < low.start + (first + second) * page_size
    → (first + second) * page_size ≤ low.end
    → mid.start + second * page_size ≤ mid.end
    → let (given, s1) = allocate_contiguous s first in
      let (given', s2) = allocate_contiguous s1 second in
      (given ≡ ok (low.end - first * page_size))
      × (given' ≡ ok (mid.end - second * page_size))
      × ((p : ℕ) → p < low.end → contains (drain_region s2) p ≡ false)
unfolding new next_back allocate_contiguous allocate_contiguous_in search_regions drain_region
drain_misses_lowest low mid high s first second e lm mh hh hs pos big fits word pos' big' word'
      fits' =
    let after : Inner = record {
      free_regions = mid ∷ [];
      last_in_current_region = low.start;
      prev_frame = low.end - first * page_size;
      top = high.end;
    } in
    let after' : Inner = record {
      free_regions = [];
      last_in_current_region = mid.start;
      prev_frame = mid.end - second * page_size;
      top = high.end;
    } in
    let one : allocate_contiguous s first ≡ (ok (low.end - first * page_size), after) = ground (
      arith,
      frame_checked_sub_lem high.end first hs,
      frame_checked_sub_lem low.end first (omega arith),
    ) in
    let two : allocate_contiguous after second ≡ (ok (mid.end - second * page_size), after') =
      ground (
        arith,
        frame_checked_sub_lem (low.end - first * page_size) second (omega arith),
        frame_checked_sub_lem mid.end second (omega arith),
      ) in
    let both : allocate_contiguous (allocate_contiguous s first).1 second
        ≡ (ok (mid.end - second * page_size), after') =
      ap (λ x. allocate_contiguous x.1 second) one ∙ two in
    (
      ap (λ x. x.0) one,
      ap (λ x. x.0) both,
      λ p below. ap (λ x. contains (drain_region x.1) p) both ∙ ground arith,
    )
