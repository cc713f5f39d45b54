-- ===== src/Tests/PageArithmetic.antt =====
-- Page arithmetic at concrete pages.
use popcorn.Prelude.{ℕ, ◌+◌, ◌-◌, ◌*◌, ◌/◌, ◌%◌, ◌^◌, ◌≤◌, ◌<◌, ◌≡◌, ◌⊎◌, refl, some, arith}
use popcorn.Prelude.Outcome.{ok, panic}
use popcorn.Prelude.Words.{usize_mod}
use popcorn.Memory.Align.{align_down, align_up, align_lem}
use popcorn.Memory.{
  page_size, page_add, page_diff, frame_checked_sub, steps_between, forward_checked,
  backward_checked,
}
use popcorn.Memory.Arithmetic.{page_diff-page_add, backward-forward, frame_checked_sub-aligned}

page_diff-page_add_example : page_diff 0x1_5000 0x1_0000 ≡ ok 5
unfolding page_add
page_diff-page_add_example = page_diff-page_add 0x1_0000 5 0x1_5000 refl

backward-forward_example :
    (backward_checked 0x6000 2 ≡ some 0x4000) × (steps_between 0x4000 0x6000 ≡ some 2)
unfolding forward_checked
backward-forward_example = backward-forward 0x4000 2 0x6000 refl

frame_checked_sub-aligned_example : (0x4000 % page_size ≡ 0) × (0x4000 + 2 * page_size ≡ 0x6000)
unfolding frame_checked_sub
frame_checked_sub-aligned_example = frame_checked_sub-aligned 0x6000 2 0x4000 refl refl

align_lem_example :
    (align_down (2 ^ 12) 0x1567 ≡ ok (0x1567 / 2 ^ 12 * 2 ^ 12))
    × (((up : ℕ) × (align_up (2 ^ 12) 0x1567 ≡ ok up)
          × (up ≡ (0x1567 + 2 ^ 12 - 1) / 2 ^ 12 * 2 ^ 12)
          × (0x1567 ≤ up)
          × (up < 0x1567 + 2 ^ 12))
        ⊎ ((usize_mod ≤ 0x1567 + 2 ^ 12) × (align_up (2 ^ 12) 0x1567 ≡ panic)))
align_lem_example = align_lem 12 0x1567 (omega arith) (omega arith)

align_up-0x1567 : align_up 0x1000 0x1567 ≡ ok 0x2000
unfolding align_up align_down
align_up-0x1567 = refl

align_up-0x2000 : align_up 0x1000 0x2000 ≡ ok 0x2000
unfolding align_up align_down
align_up-0x2000 = refl
