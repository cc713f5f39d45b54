-- ===== src/BootstrapPages/Order.antt =====
-- The blocks that the bootstrap allocator gives out.
use popcorn.Prelude.{ℕ, ◌+◌, ◌*◌, ◌%◌, ◌≤◌, ◌<◌, ◌≡◌, ◌⊎◌, List, [], ◌∷◌, arith, refl}
use popcorn.Prelude.Words.{usize_mod}
use popcorn.Prelude.Outcome.{Outcome, ok, err, panic}
use popcorn.Memory.{page_size, Page}
use popcorn.Memory.Align.{address_new_page, address_new-ok}
use popcorn.BootstrapPages.{
  page_at, allocate_contiguous, allocate_contiguous_at, deallocate_contiguous, Request, any,
  at_page, release, length_of, Block, given, serve,
}

-- All the pages that some calls ask for.
unfoldable pub pages : List Request → ℕ
pages [] = 0
pages (r ∷ rest) = length_of r + pages rest

-- Blocks in ascending order, none of which has an address in common with another, from `low` to
-- `high`.
unfoldable pub Ascending : ℕ → ℕ → List Block → Type 0
Ascending low high [] = low ≤ high
Ascending low high (b ∷ rest) = (low ≤ b.base) × Ascending (b.base + b.len * page_size) high rest

lower : (l low high : ℕ) (bs : List Block) → l ≤ low → Ascending low high bs → Ascending l high bs
unfolding Ascending
lower l low high [] h a = omega arith
lower l low high (b ∷ bs) h (below, rest) = (omega arith, rest)

-- With an aligned `start` and no overflow, `allocate_contiguous` succeeds exactly if `start` is not
-- past the limit, however many pages it is asked for; the pages begin at `start`. In either case
-- `start` moves past as many pages.
pub length_unchecked :
    (limit start len : ℕ)
    → start + len * page_size < usize_mod
    → start % page_size ≡ 0
    → ((allocate_contiguous limit start len).0 ≡ start + len * page_size)
      × (((start ≤ limit) × ((allocate_contiguous limit start len).1 ≡ ok start))
          ⊎ ((limit < start) × ((allocate_contiguous limit start len).1 ≡ err)))
unfolding allocate_contiguous page_at
length_unchecked limit start len h aligned =
    ground (arith, address_new_page start (omega arith) aligned)

any_moves :
    (limit start len : ℕ)
    → start + len * page_size < usize_mod
    → (allocate_contiguous limit start len).0 ≡ start + len * page_size
unfolding allocate_contiguous
any_moves limit start len h = ground arith

any_gives : (limit start len p : ℕ) → (allocate_contiguous limit start len).1 ≡ ok p → p ≡ start
unfolding allocate_contiguous page_at
any_gives limit start len p e = ground (arith, e, address_new-ok page_size start p)

at_moves :
    (limit current_end start at len : ℕ)
    → start + len * page_size < usize_mod
    → (start ≤ (allocate_contiguous_at limit current_end start at len).0)
      × ((allocate_contiguous_at limit current_end start at len).0 ≤ start + len * page_size)
      × (((allocate_contiguous_at limit current_end start at len).0 ≡ start)
          ⊎ ((allocate_contiguous_at limit current_end start at len).0 ≡ start + len * page_size))
unfolding allocate_contiguous_at
at_moves limit current_end start at len h = (ground arith, ground arith, ground arith)

at_gives :
    (limit current_end start at len p : ℕ)
    → start + len * page_size < usize_mod
    → (allocate_contiguous_at limit current_end start at len).1 ≡ ok p
    → (p ≡ start)
      × ((allocate_contiguous_at limit current_end start at len).0 ≡ start + len * page_size)
unfolding allocate_contiguous_at
at_gives limit current_end start at len p h e = ground (arith, e)

-- A call that gives out the pages between `start` and `next` puts them before the later blocks.
given-Ascending :
    (start next high len : ℕ) (o : Outcome Page) (bs : List Block)
    → start ≤ next
    → ((p : ℕ) → o ≡ ok p → (p ≡ start) × (next ≡ start + len * page_size))
    → Ascending next high bs
    → Ascending start high (given o len bs)
unfolding given Ascending
given-Ascending start next high len (ok p) bs h gives a =
    let (same, past) = gives p refl in
    (omega arith, lower (p + len * page_size) next high bs (omega arith) a)
given-Ascending start next high len err bs h gives a = lower start next high bs h a
given-Ascending start next high len panic bs h gives a = lower start next high bs h a

-- If the pages that some calls of all clients ask for fit after `start` without overflow, then
-- whatever the calls of `allocate_contiguous_at` have loaded, the blocks given out are in ascending
-- order between the first `start` and the last, with no address in common.
pub serve-Ascending :
    (limit start : ℕ) (reqs : List Request)
    → start + pages reqs * page_size < usize_mod
    → Ascending start (serve limit start reqs).0 (serve limit start reqs).1
unfolding serve pages length_of Ascending deallocate_contiguous
serve-Ascending limit start [] h = omega arith
serve-Ascending limit start (any len ∷ rest) h =
    let next = (allocate_contiguous limit start len).0 in
    let moves = any_moves limit start len (omega arith) in
    given-Ascending start next (serve limit next rest).0 len (allocate_contiguous limit start len).1
      (serve limit next rest).1 (omega arith) (λ p e. (any_gives limit start len p e, moves))
      (serve-Ascending limit next rest (omega arith))
serve-Ascending limit start (at_page current_end at len ∷ rest) h =
    let next = (allocate_contiguous_at limit current_end start at len).0 in
    let (above, below, either) = at_moves limit current_end start at len (omega arith) in
    given-Ascending start next (serve limit next rest).0 len
      (allocate_contiguous_at limit current_end start at len).1 (serve limit next rest).1 above
      (λ p e. at_gives limit current_end start at len p (omega arith) e)
      (serve-Ascending limit next rest (omega arith))
serve-Ascending limit start (release base len ∷ rest) h =
    serve-Ascending limit start rest (omega arith)
