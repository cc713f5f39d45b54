-- ===== src/Memory/Arithmetic.antt =====
-- Laws of the page and frame arithmetic.
use popcorn.Prelude.{
  ℕ, ◌+◌, ◌*◌, ◌%◌, ◌≤◌, ◌<◌, ◌≡◌, ◌-◌, some, none, arith, leb, ltb, if◌then◌else◌,
}
use popcorn.Prelude.Words.{usize_mod}
use popcorn.Prelude.Outcome.{ok, panic}
use popcorn.Memory.{
  page_size, page_add, page_diff, frame_checked_sub, steps_between, forward_checked,
  backward_checked,
}

pub page_add-ok : (p n q : ℕ) → page_add p n ≡ ok q → (q ≡ p + n * page_size) × (q < usize_mod)
unfolding page_add
page_add-ok p n q e = ground arith

pub page_add_fits :
    (p n : ℕ) → p + n * page_size < usize_mod → page_add p n ≡ ok (p + n * page_size)
unfolding page_add
page_add_fits p n h = ground arith

pub page_diff-ok :
    (a b n : ℕ)
    → page_diff a b ≡ ok n
    → (b ≤ a) × (b + n * page_size ≤ a) × (a < b + (n + 1) * page_size)
unfolding page_diff
page_diff-ok a b n e = ground arith

-- The distance from a page to the page `n` further on is `n`, unless that overflows.
pub page_diff-page_add : (p n q : ℕ) → page_add p n ≡ ok q → page_diff q p ≡ ok n
unfolding page_add page_diff
page_diff-page_add p n q e = ground arith

-- Going back as many frames as one went forward leads to the start.
pub backward-forward :
    (start count end : ℕ)
    → forward_checked start count ≡ some end
    → (backward_checked end count ≡ some start) × (steps_between start end ≡ some count)
unfolding forward_checked backward_checked steps_between
backward-forward start count end e = ground arith

-- Between two aligned addresses in order, as many steps forward as `steps_between` counts lead
-- from the first to the second.
pub forward-steps_between :
    (start end count : ℕ)
    → end < usize_mod
    → start % page_size ≡ 0
    → end % page_size ≡ 0
    → steps_between start end ≡ some count
    → forward_checked start count ≡ some end
unfolding forward_checked steps_between
forward-steps_between start end count h a b e = ground arith

-- The difference that `checked_sub` builds an address from is aligned, if the frame was.
pub frame_checked_sub-aligned :
    (f n g : ℕ)
    → f % page_size ≡ 0
    → frame_checked_sub f n ≡ ok (some g)
    → (g % page_size ≡ 0) × (g + n * page_size ≡ f)
unfolding frame_checked_sub
frame_checked_sub-aligned f n g a e = ground arith

-- `checked_sub` gives `None` exactly if there are fewer frames below, and panics if the number of
-- bytes to go back overflows.
pub frame_checked_sub_lem :
    (f n : ℕ)
    → f < usize_mod
    → frame_checked_sub f n ≡ (
        if ltb (n * page_size) usize_mod
        then ok (if leb (n * page_size) f then some (f - n * page_size) else none)
        else panic)
unfolding frame_checked_sub
frame_checked_sub_lem f n h = ground arith
