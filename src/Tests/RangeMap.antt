-- ===== src/Tests/RangeMap.antt =====
-- The range map on the ranges of the crate's own tests.
use popcorn.Prelude.{ℕ, ◌≡◌, ◌≢◌, ◌↔◌, refl, arith, true, some, none, [], ◌∷◌, if◌then◌else◌}
use popcorn.RangedBtree.{Range, contains, RangedBtreeMap, insert, get_entry_at_point, remove, cmp}
use popcorn.RangedBtree.Lookup.{
  Fits, insert-Fits, get_entry_at_point-insert, insert-eq-none_iff, remove-insert,
}

abbrev foo : Range
foo = record { start = 0; end = 5 }

abbrev bar : Range
bar = record { start = 5; end = 255 }

abbrev overlapping : Range
overlapping = record { start = 3; end = 255 }

abbrev one_range : RangedBtreeMap ℕ
one_range = (foo, 10) ∷ []

abbrev two_ranges : RangedBtreeMap ℕ
two_ranges = (foo, 10) ∷ (bar, 20) ∷ []

add_and_retrieve :
    (insert bar 20 one_range ≡ some two_ranges)
    × (get_entry_at_point 3 two_ranges ≡ some 10)
    × (get_entry_at_point 5 two_ranges ≡ some 20)
    × (get_entry_at_point 58 two_ranges ≡ some 20)
    × (insert overlapping 20 one_range ≡ none)
unfolding insert get_entry_at_point cmp
add_and_retrieve = (refl, refl, refl, refl, refl)

insert-Fits_example : Fits 0 two_ranges 255
unfolding insert cmp
insert-Fits_example =
    insert-Fits 0 255 bar 20 one_range two_ranges (omega arith) (omega arith) (omega arith)
      (omega arith) refl

get_entry_at_point-insert_example :
    get_entry_at_point 58 two_ranges
    ≡ (if contains bar 58 then some 20 else get_entry_at_point 58 one_range)
unfolding insert cmp
get_entry_at_point-insert_example =
    get_entry_at_point-insert 0 255 bar 20 one_range two_ranges 58 (omega arith) (omega arith) refl

insert-eq-none_iff_example :
    (insert overlapping 20 one_range ≡ none)
    ↔ ((p : ℕ) × (contains overlapping p ≡ true) × (get_entry_at_point p one_range ≢ none))
insert-eq-none_iff_example =
    insert-eq-none_iff 0 255 overlapping 20 one_range (omega arith) (omega arith)

remove-insert_example : remove 58 two_ranges ≡ (some 20, one_range)
unfolding insert cmp
remove-insert_example = remove-insert 0 255 bar 20 one_range two_ranges 58 (omega arith) refl refl
