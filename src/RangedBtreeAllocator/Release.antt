-- ===== src/RangedBtreeAllocator/Release.antt =====
-- Giving pages back, and regions that are reserved from outside.
use popcorn.Prelude.{
  ℕ, ◌+◌, ◌-◌, ◌/◌, ◌≤◌, ◌<◌, ◌≡◌, ◌≢◌, ◌⊎◌, inl, inr, Option-cases, Bool-cases, some, [], ◌∷◌,
  arith, ◌==◌,
}
use popcorn.Prelude.Words.{usize_mod}
use popcorn.Prelude.Outcome.{ok, panic}
use popcorn.Memory.{Page, page_size, page_diff}
use popcorn.RangedBtree
use popcorn.RangedBtree.{Range, contains, insert, get_entry_at_point, remove}
use popcorn.RangedBtree.Lookup.{remove-insert, remove-get_entry}
use popcorn.RangedBtreeAllocator.{
  RangedBtreeAllocator, new, allocate_contiguous, deallocate_contiguous, add_allocation,
  add_allocations,
}
use popcorn.RangedBtreeAllocator.Allocate.{IsValid, pages, allocate_contiguous-Took}

-- If the regions in use are in order, not empty and apart, then giving back an allocation of at
-- least one page, with the length that was asked for, leaves the allocator as it was before the
-- allocation.
pub deallocate-allocate :
    (a : RangedBtreeAllocator) (len : ℕ) (p : Page) (b : RangedBtreeAllocator)
    → IsValid a
    → 0 < len
    → allocate_contiguous a len ≡ ok (p, b)
    → deallocate_contiguous b p len ≡ ok a
unfolding deallocate_contiguous
deallocate-allocate a len p b v pos e =
    let t = allocate_contiguous-Took a len p b v pos e in
    ground (
      arith,
      t.range,
      remove-insert 0 usize_mod (pages p len) (record { len = len }) a.map b.map p v t.inserted,
    )

-- If the regions in use are in order, not empty and apart, giving back pages succeeds, with the region
-- of the first page recorded with that length and the regions in order, not empty and apart
-- afterwards, or it panics and no region of that length is recorded there.
pub deallocate_contiguous_lem :
    (a : RangedBtreeAllocator) (base : Page) (len : ℕ)
    → IsValid a
    → ((b : RangedBtreeAllocator) × (deallocate_contiguous a base len ≡ ok b)
        × IsValid b
        × (get_entry_at_point base a.map ≡ some (record { len = len })))
      ⊎ ((deallocate_contiguous a base len ≡ panic)
          × (get_entry_at_point base a.map ≢ some (record { len = len })))
unfolding deallocate_contiguous
deallocate_contiguous_lem a base len v =
    let (found, valid) = remove-get_entry 0 usize_mod a.map base v in
    elim (Option-cases (get_entry_at_point base a.map)) [
      | inl missing ↦ inr (ground arith, λ h. cc)
      | inr (meta, e) ↦ elim (Bool-cases (meta.len == len)) [
        | inl same ↦
            inl (record a { map = (remove base a.map).1 }, ground arith, valid, ground arith)
        | inr differs ↦ inr (ground arith, λ h. ground arith)
      ]
    ]

-- A region that is reserved alone in a fresh allocator, and starts at least a page below the range
-- and ends within it, is recorded under its first page with the number of pages of its part within
-- the range, which is less than its own number of pages; so giving back as many pages as it has
-- panics, and giving back as many as are recorded leaves the fresh allocator.
pub reserved_length_mismatch :
    (r x : Range) (a : RangedBtreeAllocator) (n : ℕ)
    → x.start + page_size ≤ r.start
    → r.start < x.end
    → x.end ≤ r.end
    → add_allocations (new r) (x ∷ []) ≡ ok a
    → page_diff x.end x.start ≡ ok n
    → (m : ℕ) × (page_diff x.end r.start ≡ ok m)
      × (m < n)
      × (get_entry_at_point x.start a.map ≡ some (record { len = m }))
      × (deallocate_contiguous a x.start n ≡ panic)
      × (deallocate_contiguous a x.start m ≡ ok (new r))
unfolding add_allocations add_allocation page_diff new RangedBtree.new insert deallocate_contiguous
    remove get_entry_at_point
reserved_length_mismatch r x a n below cut within e d = (
  (x.end - r.start) / page_size,
  ground arith,
  ground arith,
  ground arith,
  ground arith,
  ground arith,
)
