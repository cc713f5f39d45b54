-- ===== src/Tests/BootAllocator.antt =====
-- The boot allocator on the memory layout of its own tests.
use popcorn.Prelude.{ℕ, ◌-◌, ◌*◌, ◌<◌, ◌≡◌, ◌↔◌, inl, inr, refl, arith, false, List, [], ◌∷◌}
use popcorn.Prelude.Outcome.{ok, err}
use popcorn.Memory.{page_size, frame_checked_sub}
use popcorn.RangedBtree.{Range, contains}
use popcorn.WatermarkAllocator.{
  Inner, new, next_back, search_regions, allocate_contiguous, allocate_contiguous_in, drain_region,
}
use popcorn.WatermarkAllocator.Takes.{
  InSome, Apart, Available, IsValid, Took, boot_allocation-Took, new-IsValid,
}
use popcorn.WatermarkAllocator.Faults.{error_then_gap, drain_misses_lowest}

abbrev span : ℕ → ℕ → Range
span a b = record { start = a; end = b }

abbrev layout : List Range
layout = span 0 0x2000 ∷ span 0x6000 0x7000 ∷ []

abbrev fresh : Inner
fresh = record {
  free_regions = span 0 0x2000 ∷ [];
  last_in_current_region = 0x6000;
  prev_frame = 0x7000;
  top = 0x7000;
}

abbrev full_above : Inner
full_above = record fresh { prev_frame = 0x6000 }

-- The test `jumps_between_areas`, as far as its second allocation.
jumps_between_areas :
    (new layout ≡ ok fresh)
    × (allocate_contiguous fresh 1 ≡ (ok 0x6000, full_above))
    × ((allocate_contiguous full_above 1).0 ≡ ok 0x1000)
unfolding new next_back allocate_contiguous allocate_contiguous_in search_regions frame_checked_sub
jumps_between_areas = (refl, refl, refl)

layout-Apart : Apart layout
layout-Apart = (
  λ p lo hi n. elim n [ inl h ↦ omega arith | inr h ↦ h ],
  omega arith,
  (λ p lo hi n. n, omega arith, tt),
)

new-IsValid_example : IsValid layout fresh × ((p : ℕ) → Available fresh p ↔ InSome layout p)
new-IsValid_example = new-IsValid layout fresh layout-Apart jumps_between_areas.0

boot_allocation-Took_example : Took layout fresh 1 0x6000 full_above
boot_allocation-Took_example =
    boot_allocation-Took layout fresh 1 0x6000 full_above new-IsValid_example.0 (omega arith)
      jumps_between_areas.1

-- Three pages fit in neither region; two more are then taken from below the upper one.
error_then_gap_example :
    let (refused, s1) = allocate_contiguous fresh 3 in
    let (given, s2) = allocate_contiguous s1 2 in
    (refused ≡ err)
    × (given ≡ ok (0x7000 - 2 * page_size))
    × (0x7000 - 2 * page_size < 0x6000)
    × (¬ InSome layout (0x7000 - 2 * page_size))
error_then_gap_example =
    error_then_gap (span 0 0x2000) (span 0x6000 0x7000) fresh 3 2 jumps_between_areas.0
      (omega arith) (omega arith) (omega arith) (omega arith) (omega arith) (omega arith)
      (omega arith) (omega arith) (omega arith) (omega arith)

abbrev three_regions : List Range
three_regions = span 0x2000 0x5000 ∷ span 0x6000 0x9000 ∷ span 0xa000 0xb000 ∷ []

abbrev on_three : Inner
on_three = record {
  free_regions = span 0x2000 0x5000 ∷ span 0x6000 0x9000 ∷ [];
  last_in_current_region = 0xa000;
  prev_frame = 0xb000;
  top = 0xb000;
}

new_three : new three_regions ≡ ok on_three
unfolding new next_back
new_three = refl

-- Two pages from the lowest region, then two from the middle one.
drain_misses_lowest_example :
    let (given, s1) = allocate_contiguous on_three 2 in
    let (given', s2) = allocate_contiguous s1 2 in
    (given ≡ ok (0x5000 - 2 * page_size))
    × (given' ≡ ok (0x9000 - 2 * page_size))
    × ((p : ℕ) → p < 0x5000 → contains (drain_region s2) p ≡ false)
drain_misses_lowest_example =
    drain_misses_lowest (span 0x2000 0x5000) (span 0x6000 0x9000) (span 0xa000 0xb000) on_three 2 2
      new_three (omega arith) (omega arith) (omega arith) (omega arith) (omega arith) (omega arith)
      (omega arith) (omega arith) (omega arith) (omega arith) (omega arith) (omega arith)
