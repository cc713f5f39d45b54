-- ===== src/Tests/PageAllocator.antt =====
-- The page allocator on the range of the crate's own tests.
use popcorn.Prelude.{ℕ, ◌+◌, ◌*◌, ◌<◌, ◌≡◌, ◌≢◌, ◌⊎◌, refl, arith, true, some, none, [], ◌∷◌}
use popcorn.Prelude.Outcome.{ok, err, panic}
use popcorn.Memory.{page_size, page_add, page_diff}
use popcorn.RangedBtree
use popcorn.RangedBtree.{
  Range, contains, get_entry_at_point, cmp, insert, first_key, last_key, remove,
}
use popcorn.RangedBtreeAllocator.{
  Meta, RangedBtreeAllocator, new, span, insert_region, insert_expected, allocate_contiguous,
  allocate_contiguous_at, deallocate_contiguous, add_allocation, add_allocations,
}
use popcorn.RangedBtreeAllocator.Allocate.{
  IsValid, pages, Took, allocate_contiguous-Took, allocate_contiguous_at_lem,
  allocate_contiguous_total, first_allocation_unchecked,
}
use popcorn.RangedBtreeAllocator.Release.{
  deallocate-allocate, deallocate_contiguous_lem, reserved_length_mismatch,
}

abbrev limits : Range
limits = span 0x1_0000 0x10_0000

abbrev meta : ℕ → Meta
meta n = record { len = n }

abbrev one_region : RangedBtreeAllocator
one_region = record { range = limits; map = (pages 0x1_0000 5, meta 5) ∷ [] }

abbrev two_regions : RangedBtreeAllocator
two_regions = record {
  range = limits;
  map = (pages 0x1_0000 5, meta 5) ∷ (pages 0x1_5000 5, meta 5) ∷ [];
}

-- The crate's test `allocate_multiple`, as far as its second allocation.
second_allocation : allocate_contiguous one_region 5 ≡ ok (0x1_5000, two_regions)
unfolding allocate_contiguous insert_expected insert_region page_add page_diff insert cmp first_key
    last_key
second_allocation = refl

-- The crate's test `allocate_and_deallocate`.
reallocation :
    (deallocate_contiguous two_regions 0x1_0000 5
      ≡ ok (record { range = limits; map = (pages 0x1_5000 5, meta 5) ∷ [] }))
    × (allocate_contiguous (record { range = limits; map = (pages 0x1_5000 5, meta 5) ∷ [] }) 5
        ≡ ok (0x1_0000, two_regions))
unfolding allocate_contiguous deallocate_contiguous insert_expected insert_region page_add page_diff
    insert cmp first_key last_key remove
reallocation = (refl, refl)

allocate_contiguous-Took_example : Took one_region 0x1_5000 5 two_regions
allocate_contiguous-Took_example =
    allocate_contiguous-Took one_region 5 0x1_5000 two_regions (omega arith) (omega arith)
      second_allocation

allocate_contiguous_at_lem_example :
    ((b : RangedBtreeAllocator) × (allocate_contiguous_at one_region 0x1_0000 3 ≡ ok (0x1_0000, b))
      × Took one_region 0x1_0000 3 b)
    ⊎ ((allocate_contiguous_at one_region 0x1_0000 3 ≡ err)
        × ((q : ℕ) × (contains (pages 0x1_0000 3) q ≡ true)
            × (get_entry_at_point q one_region.map ≢ none)))
allocate_contiguous_at_lem_example =
    allocate_contiguous_at_lem one_region 0x1_0000 3 (omega arith) (omega arith) (omega arith)

allocate_contiguous_total_example :
    ((p : ℕ) × (b : RangedBtreeAllocator) × (allocate_contiguous one_region 5 ≡ ok (p, b)))
    ⊎ ((allocate_contiguous one_region 5 ≡ panic)
        × (0x1_0000 < 0x1_0000 + 5 * page_size)
        × (0x10_0000 < 0x1_5000 + 5 * page_size))
unfolding first_key last_key
allocate_contiguous_total_example =
    allocate_contiguous_total one_region 5 0x1_0000 0x1_5000 (omega arith) (omega arith) refl refl
      (omega arith)

-- The range has 240 pages.
first_allocation_unchecked_example :
    (b : RangedBtreeAllocator) × (allocate_contiguous (new limits) 241 ≡ ok (0x1_0000, b))
    × (insert (pages 0x1_0000 241) (meta 241) [] ≡ some b.map)
first_allocation_unchecked_example =
    first_allocation_unchecked limits 241 (omega arith) (omega arith)

deallocate-allocate_example : deallocate_contiguous two_regions 0x1_5000 5 ≡ ok one_region
deallocate-allocate_example =
    deallocate-allocate one_region 5 0x1_5000 two_regions (omega arith) (omega arith)
      second_allocation

deallocate_contiguous_lem_example :
    ((b : RangedBtreeAllocator) × (deallocate_contiguous one_region 0x1_0000 3 ≡ ok b)
      × IsValid b
      × (get_entry_at_point 0x1_0000 one_region.map ≡ some (meta 3)))
    ⊎ ((deallocate_contiguous one_region 0x1_0000 3 ≡ panic)
        × (get_entry_at_point 0x1_0000 one_region.map ≢ some (meta 3)))
deallocate_contiguous_lem_example = deallocate_contiguous_lem one_region 0x1_0000 3 (omega arith)

-- Five pages of which four are within the range.
abbrev cut : RangedBtreeAllocator
cut = record { range = limits; map = (span 0xf000 0x1_4000, meta 4) ∷ [] }

reserved_length_mismatch_example :
    (m : ℕ) × (page_diff 0x1_4000 0x1_0000 ≡ ok m)
    × (m < 5)
    × (get_entry_at_point 0xf000 cut.map ≡ some (meta m))
    × (deallocate_contiguous cut 0xf000 5 ≡ panic)
    × (deallocate_contiguous cut 0xf000 m ≡ ok (new limits))
unfolding add_allocations add_allocation page_diff insert new RangedBtree.new
reserved_length_mismatch_example =
    reserved_length_mismatch limits (span 0xf000 0x1_4000) cut 5 (omega arith) (omega arith)
      (omega arith) refl refl
