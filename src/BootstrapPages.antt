-- ===== src/BootstrapPages.antt =====
-- kernel/src/memory/virtual.rs: `Bootstrap`, which gives out virtual pages before the page allocator
-- is there. It keeps the address `start` of the next page in an atomic; `limit` is the address
-- `VMEM_BOOTSTRAP_END`, which the linker sets. Every method changes the atomic in one access.
pub mod Order
use popcorn.Prelude.{
  ℕ, ◌+◌, ◌*◌, ◌%◌, Option, none, some, List, [], ◌∷◌, ◌==◌, ltb, not, if◌then◌else◌,
}
use popcorn.Prelude.Words.{usize_mod, checked_mul}
use popcorn.Prelude.Outcome.{Outcome, ok, err, panic}
use popcorn.Memory.{page_size, Page}
use popcorn.Memory.Align.{address_new}

unfoldable pub page_at : ℕ → ℕ → Outcome Page
page_at limit old = if ltb limit old then err else address_new page_size old

-- `allocate_contiguous`: the next `start`, which also moves on an error, and the result.
unfoldable pub allocate_contiguous : ℕ → ℕ → ℕ → ℕ × Outcome Page
unfolding checked_mul
allocate_contiguous limit start len =
    if len == 0 then (start, page_at limit start) else elim (checked_mul len page_size) [
      | none ↦ (start, panic)
      | some bytes ↦ ((start + bytes) % usize_mod, page_at limit start)
    ]

-- `allocate_contiguous_at`: `current_end` is what was loaded, `start` what the exchange finds.
unfoldable pub allocate_contiguous_at : ℕ → ℕ → ℕ → ℕ → ℕ → ℕ × Outcome Page
unfolding checked_mul
allocate_contiguous_at limit current_end start at len =
    if not (current_end == at)
    then (start, err)
    else if ltb limit current_end
    then (start, err)
    else elim (checked_mul len page_size) [
      | none ↦ (start, panic)
      | some bytes ↦
          if start == current_end then ((current_end + bytes) % usize_mod, ok at) else (start, err)
    ]

-- `deallocate_contiguous` keeps nothing.
unfoldable pub deallocate_contiguous : ℕ → ℕ → ℕ → ℕ
deallocate_contiguous start base len = start

-- A call by one of the clients: of `allocate_contiguous`, of `allocate_contiguous_at` with what it
-- loaded, the page and the length, or of `deallocate_contiguous`.
pub data Request : Type 0 where
  any : ℕ → Request
  at_page : ℕ → Page → ℕ → Request
  release : Page → ℕ → Request

unfoldable pub length_of : Request → ℕ
length_of (any len) = len
length_of (at_page current_end at len) = len
length_of (release base len) = 0

pub record Block : Type 0 where
  pub base : Page
  pub len : ℕ

unfoldable pub given : Outcome Page → ℕ → List Block → List Block
given (ok p) len rest = record { base = p; len = len } ∷ rest
given _ len rest = rest

-- The calls one after the other: the last `start` and the blocks that were given out, in order.
unfoldable pub serve : ℕ → ℕ → List Request → ℕ × List Block
serve limit start [] = (start, [])
serve limit start (any len ∷ rest) =
    let (next, result) = allocate_contiguous limit start len in
    let (last, blocks) = serve limit next rest in (last, given result len blocks)
serve limit start (at_page current_end at len ∷ rest) =
    let (next, result) = allocate_contiguous_at limit current_end start at len in
    let (last, blocks) = serve limit next rest in (last, given result len blocks)
serve limit start (release base len ∷ rest) =
    serve limit (deallocate_contiguous start base len) rest
