-- ===== src/Tests/EarlyPages.antt =====
-- The bootstrap allocator of pages, with a limit of 0x5000.
use popcorn.Prelude.{◌+◌, ◌*◌, ◌≤◌, ◌<◌, ◌≡◌, ◌⊎◌, List, [], ◌∷◌, refl, arith}
use popcorn.Prelude.Outcome.{ok, err}
use popcorn.Memory.{page_size}
use popcorn.Memory.Align.{address_new, align_down}
use popcorn.BootstrapPages.{
  allocate_contiguous, allocate_contiguous_at, deallocate_contiguous, page_at, given, length_of,
  Request, any, at_page, release, Block, serve,
}
use popcorn.BootstrapPages.Order.{pages, Ascending, length_unchecked, serve-Ascending}

-- The second call has loaded a `start` that is out of date.
abbrev some_calls : List Request
some_calls =
    any 2 ∷ at_page 0x1000 0x1000 1 ∷ at_page 0x3000 0x3000 1 ∷ release 0x1000 2 ∷ any 1 ∷ []

abbrev some_blocks : List Block
some_blocks =
    record { base = 0x1000; len = 2 }
    ∷ record { base = 0x3000; len = 1 }
    ∷ record { base = 0x4000; len = 1 }
    ∷ []

serve-some_calls : serve 0x5000 0x1000 some_calls ≡ (0x5000, some_blocks)
unfolding serve allocate_contiguous given deallocate_contiguous page_at allocate_contiguous_at
    address_new align_down
serve-some_calls = refl

serve-Ascending_example :
    Ascending 0x1000 (serve 0x5000 0x1000 some_calls).0 (serve 0x5000 0x1000 some_calls).1
unfolding pages length_of
serve-Ascending_example = serve-Ascending 0x5000 0x1000 some_calls (omega arith)

length_unchecked_example :
    ((allocate_contiguous 0x5000 0x1000 100).0 ≡ 0x1000 + 100 * page_size)
    × (((0x1000 ≤ 0x5000) × ((allocate_contiguous 0x5000 0x1000 100).1 ≡ ok 0x1000))
        ⊎ ((0x5000 < 0x1000) × ((allocate_contiguous 0x5000 0x1000 100).1 ≡ err)))
length_unchecked_example = length_unchecked 0x5000 0x1000 100 (omega arith) refl
