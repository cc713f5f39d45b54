-- ===== src/RangedBtreeAllocator.antt =====
-- ranged_btree_allocator/src/lib.rs: the allocator of virtual pages, over a `RangedBtreeMap` of the
-- pages in use. Each method holds the mutex from its first line to its last, so a call is one step
-- from the state before to the state after; a panic leaves no state to speak of.
pub mod Allocate
pub mod Release
use popcorn.Prelude.{
  ℕ, ◌+◌, ◌-◌, ◌*◌, Bool, true, false, Option, none, some, List, [], ◌∷◌, leb, ltb, ◌==◌, max, min,
  if◌then◌else◌,
}
use popcorn.Prelude.Outcome.{Outcome, ok, err, panic, ◌>>=◌, expect, ok_or_err}
use popcorn.Memory.{Page, page_add, page_diff}
use popcorn.RangedBtree
use popcorn.RangedBtree.{Range, RangedBtreeMap}

pub record Meta : Type 0 where
  pub len : ℕ

pub record RangedBtreeAllocator : Type 0 where
  pub range : Range
  pub map : RangedBtreeMap Meta

unfoldable pub new : Range → RangedBtreeAllocator
new r = record { range = r; map = RangedBtree.new }

-- `a..b`, and a new region of `n` pages at `at`
abbrev pub span : Page → Page → Range
span a b = record { start = a; end = b }

-- One round of the loop of `add_allocations`; a region that overlaps an earlier one is dropped.
unfoldable pub add_allocation : Range → RangedBtreeMap Meta → Range → Outcome (RangedBtreeMap Meta)
add_allocation limits m allocation =
    let isect = span (max allocation.start limits.start) (min allocation.end limits.end) in
    if RangedBtree.is_empty isect
    then ok m
    else page_diff isect.end isect.start >>= λ len.
        elim (RangedBtree.insert allocation (record { len = len }) m) [
          | none ↦ ok m
          | some m' ↦ ok m'
        ]

unfoldable pub add_allocations : RangedBtreeAllocator → List Range → Outcome RangedBtreeAllocator
add_allocations a [] = ok a
add_allocations a (r ∷ rs) = elim (add_allocation a.range a.map r) [
  | ok m ↦ add_allocations (record a { map = m }) rs
  | err ↦ err
  | panic ↦ panic
]

-- `guard.insert(at..(at + len), Meta { len })` and what each caller does with its result.
unfoldable pub insert_region :
    RangedBtreeAllocator → Page → ℕ → Outcome (Option RangedBtreeAllocator)
insert_region a at len = do
  end ← page_add at len
  elim (RangedBtree.insert (span at end) (record { len = len }) a.map) [
    | none ↦ ok none
    | some m ↦ ok (some (record a { map = m }))
  ]

-- An insertion whose failure the code excludes by `expect`.
unfoldable pub insert_expected :
    RangedBtreeAllocator → Page → ℕ → Outcome (Page × RangedBtreeAllocator)
insert_expected a at len = do inserted ← insert_region a at len; a' ← expect inserted; ok (at, a')

-- The gaps between regions are not searched: that arm is `todo!()`.
unfoldable pub allocate_contiguous :
    RangedBtreeAllocator → ℕ → Outcome (Page × RangedBtreeAllocator)
allocate_contiguous a len = elim (RangedBtree.first_key a.map) [
  | none ↦ insert_expected a a.range.start len
  | some first ↦ page_diff first a.range.start >>= λ below.
      if leb len below then insert_expected a a.range.start len else do
        last_used ← expect (RangedBtree.last_key a.map)
        above ← page_diff a.range.end last_used
        if leb len above then insert_expected a last_used len else panic
]

unfoldable pub allocate_contiguous_at :
    RangedBtreeAllocator → Page → ℕ → Outcome (Page × RangedBtreeAllocator)
allocate_contiguous_at a at len = do
  inserted ← insert_region a at len
  a' ← ok_or_err inserted
  ok (at, a')

-- `debug_assert_eq` and `unreachable!` panic.
unfoldable pub deallocate_contiguous :
    RangedBtreeAllocator → Page → ℕ → Outcome RangedBtreeAllocator
deallocate_contiguous a base len =
    let (removed, m) = RangedBtree.remove base a.map in
    elim removed [
      | none ↦ panic
      | some meta ↦ if meta.len == len then ok (record a { map = m }) else panic
    ]
