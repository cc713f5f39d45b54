-- ===== src/RangedBtreeAllocator/Allocate.antt =====
-- What an allocation that succeeds has done, and when it succeeds.
use popcorn.Prelude.{
  ℕ, ◌+◌, ◌*◌, ◌≤◌, ◌<◌, ◌≡◌, ◌≢◌, ◌⊎◌, inl, inr, Option-cases, true, none, some, [], ◌∷◌, arith,
  refl, sym, if◌then◌else◌,
}
use mathlib.Core.Path.{subst}
use native.Mathlib.Decide.{dec_le}
use popcorn.Prelude.Words.{usize_mod}
use popcorn.Prelude.Outcome.{ok, err, panic}
use popcorn.Memory.{Page, page_size, page_add, page_diff}
use popcorn.Memory.Arithmetic.{page_add_fits}
use popcorn.RangedBtree
use popcorn.RangedBtree.{Range, contains, insert, get_entry_at_point, first_key, last_key}
use popcorn.RangedBtree.Lookup.{
  Fits, lo-le-hi, get_entry_at_point_outside, insert-Fits, get_entry_at_point-insert,
  insert-eq-none_iff,
}
use popcorn.RangedBtree.Regions.{first_key-Fits, last_key-Fits, keys_of_some}
use popcorn.RangedBtreeAllocator.{
  RangedBtreeAllocator, new, span, insert_region, insert_expected, allocate_contiguous,
  allocate_contiguous_at,
}

-- The regions in use are in order, not empty, and apart.
abbrev pub IsValid : RangedBtreeAllocator → Type 0
IsValid a = Fits 0 a.map usize_mod

-- The pages of an allocation of `len` pages at `p`.
abbrev pub pages : Page → ℕ → Range
pages p len = span p (p + len * page_size)

-- From `a` to `b` exactly the `len` pages at `p` have been taken, which were free.
pub record Took (a : RangedBtreeAllocator) (p : Page) (len : ℕ) (b : RangedBtreeAllocator)
    : Type 0 where
  pub range : b.range ≡ a.range
  pub inserted : insert (pages p len) (record { len = len }) a.map ≡ some b.map
  pub valid : IsValid b
  pub mapped :
      (q : ℕ)
      → get_entry_at_point q b.map ≡ (
          if contains (pages p len) q
          then some (record { len = len })
          else get_entry_at_point q a.map)
  pub free : (q : ℕ) → contains (pages p len) q ≡ true → get_entry_at_point q a.map ≡ none

insert_region-inserted :
    (a : RangedBtreeAllocator) (p len : ℕ) (b : RangedBtreeAllocator)
    → insert_region a p len ≡ ok (some b)
    → (p + len * page_size < usize_mod)
      × (b.range ≡ a.range)
      × (insert (pages p len) (record { len = len }) a.map ≡ some b.map)
unfolding insert_region page_add
insert_region-inserted a p len b e =
    elim (Option-cases (insert (pages p len) (record { len = len }) a.map)) [
      | inl full ↦ ground arith
      | inr (m, eq) ↦ ground arith
    ]

insert-free :
    (a : RangedBtreeAllocator) (p len : ℕ) (b : RangedBtreeAllocator)
    → IsValid a
    → 0 < len
    → insert (pages p len) (record { len = len }) a.map ≡ some b.map
    → (q : ℕ) → contains (pages p len) q ≡ true
    → get_entry_at_point q a.map ≡ none
insert-free a p len b v pos i q c = elim (Option-cases (get_entry_at_point q a.map)) [
  | inl e ↦ e
  | inr (w, e) ↦
      let refused : insert (pages p len) (record { len = len }) a.map ≡ none =
        (insert-eq-none_iff 0 usize_mod (pages p len) (record { len = len }) a.map v
            (omega arith)).1
          (q, c, λ n. cc) in
      absurd (cc)
]

insert_region-Took :
    (a : RangedBtreeAllocator) (p len : ℕ) (b : RangedBtreeAllocator)
    → IsValid a
    → 0 < len
    → insert_region a p len ≡ ok (some b)
    → Took a p len b
insert_region-Took a p len b v pos e =
    let (fits, same, i) = insert_region-inserted a p len b e in
    record {
      range = same;
      inserted = i;
      valid =
          insert-Fits 0 usize_mod (pages p len) (record { len = len }) a.map b.map v (omega arith)
            (omega arith) (omega arith) i;
      mapped = λ q.
          get_entry_at_point-insert 0 usize_mod (pages p len) (record { len = len }) a.map b.map q v
            (omega arith) i;
      free = insert-free a p len b v pos i;
    }

insert_expected-inserted :
    (a : RangedBtreeAllocator) (at p len : ℕ) (b : RangedBtreeAllocator)
    → insert_expected a at len ≡ ok (p, b)
    → (p ≡ at) × (insert_region a at len ≡ ok (some b))
unfolding insert_expected
insert_expected-inserted a at p len b e = ground arith

-- In a map with regions an allocation goes to the start of the range, if there is room below the
-- first region, or else to the end of the last one.
allocate_contiguous_place :
    (a : RangedBtreeAllocator) (len p first last : ℕ) (b : RangedBtreeAllocator)
    → first_key a.map ≡ some first
    → last_key a.map ≡ some last
    → allocate_contiguous a len ≡ ok (p, b)
    → (insert_region a p len ≡ ok (some b))
      × (((p ≡ a.range.start) × (p + len * page_size ≤ first))
          ⊎ ((p ≡ last) × (p + len * page_size ≤ a.range.end)))
unfolding allocate_contiguous insert_expected page_diff
allocate_contiguous_place a len p first last b f l e = ground arith

allocate_contiguous_first :
    (a : RangedBtreeAllocator) (len p : ℕ) (b : RangedBtreeAllocator)
    → first_key a.map ≡ none
    → allocate_contiguous a len ≡ ok (p, b)
    → (insert_region a p len ≡ ok (some b)) × (p ≡ a.range.start)
unfolding allocate_contiguous insert_expected
allocate_contiguous_first a len p b f e = ground arith

allocate_contiguous-inserted :
    (a : RangedBtreeAllocator) (len p : ℕ) (b : RangedBtreeAllocator)
    → allocate_contiguous a len ≡ ok (p, b)
    → insert_region a p len ≡ ok (some b)
allocate_contiguous-inserted a len p b e = elim (Option-cases (first_key a.map)) [
  | inl none_yet ↦ (allocate_contiguous_first a len p b none_yet e).0
  | inr (first, f) ↦
      let (last, l) = keys_of_some a.map first f in
      (allocate_contiguous_place a len p first last b f l e).0
]

-- If the regions in use are in order, not empty and apart, then an allocation of at least one page
-- that succeeds takes pages of which none was in use, marks exactly those as in use with their
-- number, changes no other page, and keeps the regions in order, not empty and apart.
pub allocate_contiguous-Took :
    (a : RangedBtreeAllocator) (len : ℕ) (p : Page) (b : RangedBtreeAllocator)
    → IsValid a
    → 0 < len
    → allocate_contiguous a len ≡ ok (p, b)
    → Took a p len b
unfolding allocate_contiguous
allocate_contiguous-Took a len p b v pos e =
    insert_region-Took a p len b v pos (allocate_contiguous-inserted a len p b e)

-- If the regions in use are in order, not empty and apart, then an allocation of at least one page at
-- a given page, whose addresses do not overflow, succeeds and takes the pages, none of which was in
-- use, or returns the error and one of the pages was in use.
pub allocate_contiguous_at_lem :
    (a : RangedBtreeAllocator) (at : Page) (len : ℕ)
    → IsValid a
    → 0 < len
    → at + len * page_size < usize_mod
    → ((b : RangedBtreeAllocator) × (allocate_contiguous_at a at len ≡ ok (at, b))
        × Took a at len b)
      ⊎ ((allocate_contiguous_at a at len ≡ err)
          × ((q : ℕ) × (contains (pages at len) q ≡ true) × (get_entry_at_point q a.map ≢ none)))
unfolding allocate_contiguous_at insert_region
allocate_contiguous_at_lem a at len v pos fits =
    elim (Option-cases (insert (pages at len) (record { len = len }) a.map)) [
      | inl full ↦ inr (
        ground (arith, page_add_fits at len fits),
        (insert-eq-none_iff 0 usize_mod (pages at len) (record { len = len }) a.map v
              (omega arith)).0
            full,
      )
      | inr (m, eq) ↦
          let b : RangedBtreeAllocator = record a { map = m } in
          let done : insert_region a at len ≡ ok (some b) =
            ground (arith, page_add_fits at len fits) in
          inl
            (b, ground (arith, page_add_fits at len fits), insert_region-Took a at len b v pos done)
    ]

-- While there are regions, and all of them lie within the allocator's range, so does each
-- allocation that succeeds, and all regions still do.
pub allocate_contiguous-in_range :
    (a : RangedBtreeAllocator) (len : ℕ) (p : Page) (b : RangedBtreeAllocator) (first : ℕ)
    → Fits a.range.start a.map a.range.end
    → a.range.end ≤ usize_mod
    → first_key a.map ≡ some first
    → 0 < len
    → allocate_contiguous a len ≡ ok (p, b)
    → (a.range.start ≤ p)
      × (p + len * page_size ≤ a.range.end)
      × Fits b.range.start b.map b.range.end
allocate_contiguous-in_range a len p b first fits small f pos e =
    let (last, l) = keys_of_some a.map first f in
    let (i, place) = allocate_contiguous_place a len p first last b f l e in
    let (low, from_first) = first_key-Fits a.range.start a.range.end a.map first fits f in
    let (high, to_last) = last_key-Fits a.range.start a.range.end a.map last fits l in
    let up : first ≤ a.range.end = lo-le-hi first a.range.end a.map from_first in
    let down : a.range.start ≤ last = lo-le-hi a.range.start last a.map to_last in
    let lower : a.range.start ≤ p = omega arith in
    let upper : p + len * page_size ≤ a.range.end = omega arith in
    let (fit, same, inserted) = insert_region-inserted a p len b i in
    let fits' : Fits a.range.start b.map a.range.end =
      insert-Fits a.range.start a.range.end (pages p len) (record { len = len }) a.map b.map fits
        lower (omega arith) upper inserted in
    (lower, upper, subst (λ r. Fits r.start b.map r.end) (sym same) fits')

insert_region_beside :
    (a : RangedBtreeAllocator) (p len lo hi : ℕ)
    → Fits lo a.map hi
    → 0 < len
    → p + len * page_size < usize_mod
    → ((p + len * page_size ≤ lo) ⊎ (hi ≤ p))
    → (b : RangedBtreeAllocator) × (insert_region a p len ≡ ok (some b))
unfolding insert_region
insert_region_beside a p len lo hi fits pos small beside =
    elim (Option-cases (insert (pages p len) (record { len = len }) a.map)) [
      | inl full ↦
          let (q, c, n) =
            (insert-eq-none_iff lo hi (pages p len) (record { len = len }) a.map fits
                (omega arith)).0
              full in
          absurd (n (get_entry_at_point_outside lo hi a.map q fits (ground arith)))
      | inr (m, eq) ↦ (record a { map = m }, ground (arith, page_add_fits p len small))
    ]

-- While there are regions, and they are in order, not empty, apart and within the range, which ends
-- below the end of memory, an allocation of at least one page succeeds, or it panics and there is room
-- neither below the first region nor above the last.
pub allocate_contiguous_total :
    (a : RangedBtreeAllocator) (len first last : ℕ)
    → Fits a.range.start a.map a.range.end
    → a.range.end < usize_mod
    → first_key a.map ≡ some first
    → last_key a.map ≡ some last
    → 0 < len
    → ((p : Page) × (b : RangedBtreeAllocator) × (allocate_contiguous a len ≡ ok (p, b)))
      ⊎ ((allocate_contiguous a len ≡ panic)
          × (first < a.range.start + len * page_size)
          × (a.range.end < last + len * page_size))
unfolding allocate_contiguous insert_expected page_diff
allocate_contiguous_total a len first last fits small f l pos =
    let (low, from_first) = first_key-Fits a.range.start a.range.end a.map first fits f in
    let (high, to_last) = last_key-Fits a.range.start a.range.end a.map last fits l in
    let up : first ≤ a.range.end = lo-le-hi first a.range.end a.map from_first in
    elim (dec_le (a.range.start + len * page_size) first) [
      | yes room ↦
          let (b, done) =
            insert_region_beside a a.range.start len first a.range.end from_first pos (omega arith)
              (inl room) in
          inl (a.range.start, b, ground arith)
      | no full ↦ elim (dec_le (last + len * page_size) a.range.end) [
        | yes room ↦
            let (b, done) =
              insert_region_beside a last len a.range.start last to_last pos (omega arith)
                (inr (omega arith)) in
            inl (last, b, ground arith)
        | no full' ↦ inr (ground arith, omega arith, omega arith)
      ]
    ]

-- The first allocation of a fresh allocator, of any length of at least one page that does not
-- overflow, starts at the range's start and succeeds, even where it goes past the range's end.
pub first_allocation_unchecked :
    (r : Range) (len : ℕ)
    → 0 < len
    → r.start + len * page_size < usize_mod
    → (b : RangedBtreeAllocator) × (allocate_contiguous (new r) len ≡ ok (r.start, b))
      × (insert (pages r.start len) (record { len = len }) [] ≡ some b.map)
unfolding allocate_contiguous insert_expected insert_region new RangedBtree.new first_key insert
first_allocation_unchecked r len pos fits = (
  record { range = r; map = (pages r.start len, record { len = len }) ∷ [] },
  ground (arith, page_add_fits r.start len fits),
  refl,
)
