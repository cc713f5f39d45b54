-- ===== src/Memory.antt =====
-- kernel_api/src/memory/{mod,type_ops}.rs: frames and pages and their arithmetic. A `Frame`, a
-- `Page` and an address are each a number, the `addr` that they wrap; that a frame's or a page's
-- is a multiple of `page_size` is stated where it is needed. Overflow panics.
pub mod Align
pub mod Arithmetic
use popcorn.Prelude.{ℕ, ◌+◌, ◌-◌, ◌*◌, ◌/◌, Option, none, some, leb, if◌then◌else◌}
use popcorn.Prelude.Words.{usize_mod, checked_add, checked_mul, checked_sub}
use popcorn.Prelude.Outcome.{Outcome, ok, panic, ◌>>=◌, expect}

abbrev pub page_size : ℕ
page_size = 4096

abbrev pub page_map_offset : ℕ
page_map_offset = 0xffff_8000_0000_0000

abbrev pub Frame : Type 0
Frame = ℕ

abbrev pub Page : Type 0
Page = ℕ

-- `Page + usize` and `Frame + usize`
unfoldable pub page_add : Page → ℕ → Outcome Page
unfolding checked_add checked_mul
page_add p n = do offset ← expect (checked_mul n page_size); expect (checked_add p offset)

unfoldable pub frame_add : Frame → ℕ → Outcome Frame
unfolding checked_add checked_mul
frame_add f n = do offset ← expect (checked_mul n page_size); expect (checked_add f offset)

-- `Page - Page` and `Frame - Frame`, a number of pages
unfoldable pub page_diff : Page → Page → Outcome ℕ
unfolding checked_sub
page_diff a b = do bytes ← expect (checked_sub a b); ok (bytes / page_size)

unfoldable pub frame_diff : Frame → Frame → Outcome ℕ
unfolding checked_sub
frame_diff a b = do bytes ← expect (checked_sub a b); ok (bytes / page_size)

-- `Frame::checked_sub`: the product may overflow, and then it panics. The difference is aligned if
-- the frame is, so the check in `PhysicalAddress::new` passes (`Arithmetic`).
unfoldable pub frame_checked_sub : Frame → ℕ → Outcome (Option Frame)
unfolding checked_sub checked_mul
frame_checked_sub f n = do bytes ← expect (checked_mul n page_size); ok (checked_sub f bytes)

-- `Step` of `Frame` and of `Page`
unfoldable pub steps_between : ℕ → ℕ → Option ℕ
unfolding checked_sub
steps_between start end = elim (checked_sub end start) [
  | none ↦ none
  | some diff ↦ some (diff / page_size)
]

unfoldable pub forward_checked : ℕ → ℕ → Option ℕ
unfolding checked_add checked_mul
forward_checked start count = elim (checked_mul count page_size) [
  | none ↦ none
  | some offset ↦ checked_add start offset
]

unfoldable pub backward_checked : ℕ → ℕ → Option ℕ
unfolding checked_sub checked_mul
backward_checked start count = elim (checked_mul count page_size) [
  | none ↦ none
  | some offset ↦ checked_sub start offset
]
