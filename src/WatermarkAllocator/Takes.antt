-- ===== src/WatermarkAllocator/Takes.antt =====
-- An allocation that succeeds takes frames of the memory map that were still available, and makes no
-- other frame available.
use mathlib.Core.Path.{subst, subst₂}
use native.Mathlib.Decide.{dec_le}
use popcorn.Prelude.{
  ℕ, ◌+◌, ◌-◌, ◌*◌, ◌≤◌, ◌<◌, ◌≡◌, ◌≢◌, ◌↔◌, ◌⊎◌, inl, inr, none, some, List, [], ◌∷◌, arith, refl,
  sym, Option-cases,
}
use popcorn.Prelude.Words.{usize_mod}
use popcorn.Prelude.Outcome.{ok}
use popcorn.Memory.{Frame, page_size, frame_checked_sub}
use popcorn.Memory.Arithmetic.{frame_checked_sub_lem}
use popcorn.RangedBtree.{Range}
use popcorn.WatermarkAllocator.{
  Inner, next_back, new, search_regions, allocate_contiguous_in, allocate_contiguous,
}

-- Some region of the list has the address.
abbrev pub InSome : List Range → ℕ → Type 0
InSome [] p = ⊥
InSome (r ∷ rs) p = ((r.start ≤ p) × (p < r.end)) ⊎ InSome rs p

-- The regions do not overlap, and each lies below the end of memory.
abbrev pub Apart : List Range → Type 0
Apart [] = Unit
Apart (r ∷ rs) =
    ((p : ℕ) → r.start ≤ p → p < r.end → ¬ InSome rs p) × (r.end < usize_mod) × Apart rs

-- An address that the allocator may still hand out: from `last_in_current_region` to the watermark,
-- or in a region that is still to come. That these lie in the memory map is a part of `IsValid`.
abbrev pub Available : Inner → ℕ → Type 0
Available s p = ((s.last_in_current_region ≤ p) × (p < s.prev_frame)) ⊎ InSome s.free_regions p

-- For the memory map `regions`: all that is available lies in its regions, and the rest of the
-- current region and the regions to come do not overlap.
pub record IsValid (regions : List Range) (s : Inner) : Type 0 where
  pub in_memory : (p : ℕ) → Available s p → InSome regions p
  pub apart : Apart s.free_regions
  pub current :
      (p : ℕ) → s.last_in_current_region ≤ p → p < s.prev_frame → ¬ InSome s.free_regions p
  pub small : s.prev_frame < usize_mod

abbrev pub Block : Frame → ℕ → ℕ → Type 0
Block t count p = (t ≤ p) × (p < t + count * page_size)

-- What a successful call has done.
pub record Took (regions : List Range) (s : Inner) (count : ℕ) (t : Frame) (s' : Inner)
    : Type 0 where
  pub in_memory : (p : ℕ) → Block t count p → InSome regions p
  pub available : (p : ℕ) → Block t count p → Available s p
  pub rest : (p : ℕ) → Available s' p → Available s p × ¬ Block t count p
  pub valid : IsValid regions s'
  pub top : s'.top ≡ s.top

Took-here :
    (regions : List Range) (s : Inner) (count t : ℕ)
    → IsValid regions s
    → s.last_in_current_region ≤ t
    → t + count * page_size ≡ s.prev_frame
    → Took regions s count t (record s { prev_frame = t })
Took-here regions s count t v low fits = record {
  in_memory = λ p b. v.in_memory p (inl (omega arith));
  available = λ p b. inl (omega arith);
  rest = λ p a. elim a [
    | inl (l, u) ↦ (inl (omega arith), λ b. omega arith)
    | inr later ↦ (inr later, λ b. v.current p (omega arith) (omega arith) later)
  ];
  valid = record {
    in_memory = λ p a. elim a [
      | inl (l, u) ↦ v.in_memory p (inl (omega arith))
      | inr later ↦ v.in_memory p (inr later)
    ];
    apart = v.apart;
    current = λ p l u. v.current p l (omega arith);
    small = omega (arith, v.small);
  };
  top = refl;
}

-- Opening the next region, and leaving what is left of the current one.
open_region : Inner → Range → List Range → Inner
open_region s r rest = record s {
  free_regions = rest;
  last_in_current_region = r.start;
  prev_frame = r.end;
}

open_region-IsValid :
    (regions : List Range) (s : Inner) (r : Range) (rest : List Range)
    → s.free_regions ≡ r ∷ rest
    → IsValid regions s
    → IsValid regions (open_region s r rest)
unfolding open_region
open_region-IsValid regions s r rest e v =
    let a : Apart (r ∷ rest) = subst (λ l. Apart l) e v.apart in
    record {
      in_memory = λ p h.
          v.in_memory p
            (inr (subst (λ l. InSome l p) (sym e) (elim h [ inl i ↦ inl i | inr i ↦ inr i ])));
      apart = a.2;
      current = a.0;
      small = a.1;
    }

Took-open :
    (regions : List Range) (s : Inner) (r : Range) (rest : List Range) (count t : ℕ) (s' : Inner)
    → s.free_regions ≡ r ∷ rest
    → Took regions (open_region s r rest) count t s'
    → Took regions s count t s'
unfolding open_region
Took-open regions s r rest count t s' e k = record {
  in_memory = k.in_memory;
  available = λ p b. wider p (k.available p b);
  rest = λ p a. let (before, out) = k.rest p a in (wider p before, out);
  valid = k.valid;
  top = k.top;
}
  where
    wider : (p : ℕ) → Available (open_region s r rest) p → Available s p
    wider p (inl h) = inr (subst (λ l. InSome l p) (sym e) (inl h))
    wider p (inr h) = inr (subst (λ l. InSome l p) (sym e) (inr h))

-- From inside the loop: the frame under test is `count` frames below `limit`, the watermark or the
-- end of the region just opened.
search_regions-Took :
    (regions : List Range) (count t : ℕ) (s : Inner) (left : List Range) (limit : ℕ) (r : Frame)
    (s' : Inner)
    → IsValid regions (record s { free_regions = left; prev_frame = limit })
    → t + count * page_size ≡ limit
    → search_regions count t s left ≡ (ok r, s')
    → Took regions (record s { free_regions = left; prev_frame = limit }) count r s'
unfolding search_regions open_region
search_regions-Took regions count t s [] limit r s' v below e =
    elim (dec_le s.last_in_current_region t) [
      | yes stay ↦
          let at : t ≡ r = ground arith in
          let after : record s { free_regions = []; prev_frame = t } ≡ s' = ground arith in
          subst₂ (Took regions (record s { free_regions = []; prev_frame = limit }) count) at after
            (Took-here regions (record s { free_regions = []; prev_frame = limit }) count t v stay
              below)
      | no move ↦ ground arith
    ]
search_regions-Took regions count t s (n ∷ rest) limit r s' v below e =
    let before : Inner = record s { free_regions = n ∷ rest; prev_frame = limit } in
    elim (dec_le s.last_in_current_region t) [
      | yes stay ↦
          let at : t ≡ r = ground arith in
          let after : record s { free_regions = n ∷ rest; prev_frame = t } ≡ s' = ground arith in
          subst₂ (Took regions before count) at after
            (Took-here regions before count t v stay below)
      | no move ↦ elim (dec_le (count * page_size) n.end) [
        | yes fits ↦
            let t' : ℕ = n.end - count * page_size in
            let step : frame_checked_sub n.end count ≡ ok (some t') =
              ground (arith, frame_checked_sub_lem n.end count v.apart.1, v.apart.1) in
            let s1 : Inner = record s { last_in_current_region = n.start } in
            Took-open regions before n rest count r s' refl (
              search_regions-Took regions count t' s1 rest n.end r s'
                (open_region-IsValid regions before n rest refl v) (omega arith) (ground arith))
        | no short ↦ ground (arith, frame_checked_sub_lem n.end count v.apart.1)
      ]
    ]

-- From a state in which all that is available lies in the regions of the memory map, and the rest of
-- the current region and the regions to come do not overlap, a call for at least one frame that
-- succeeds takes frames that lie in the regions and were all available; afterwards nothing is
-- available that was not before, nor any of those frames, and the state is again such a state.
pub boot_allocation-Took :
    (regions : List Range) (s : Inner) (count : ℕ) (t : Frame) (s' : Inner)
    → IsValid regions s
    → 0 < count
    → allocate_contiguous s count ≡ (ok t, s')
    → Took regions s count t s'
unfolding allocate_contiguous allocate_contiguous_in
boot_allocation-Took regions s count t s' v pos e =
    let lower = frame_checked_sub_lem s.prev_frame count v.small in
    elim (dec_le (count * page_size) s.prev_frame) [
      | yes fits ↦
          search_regions-Took regions count (s.prev_frame - count * page_size) s s.free_regions
            s.prev_frame t s' v (omega arith) (ground (arith, v.small))
      | no short ↦ ground arith
    ]

-- What `next_back` takes off is a region like the others, and those left are as they were.
record Split (rs : List Range) (l : Range) (init : List Range) : Type 0 where
  apart : Apart init
  last_apart : (p : ℕ) → l.start ≤ p → p < l.end → ¬ InSome init p
  small : l.end < usize_mod
  there : (p : ℕ) → InSome rs p → ((l.start ≤ p) × (p < l.end)) ⊎ InSome init p
  back : (p : ℕ) → ((l.start ≤ p) × (p < l.end)) ⊎ InSome init p → InSome rs p

next_back-ne-none : (r : Range) (rs : List Range) → next_back (r ∷ rs) ≢ none
unfolding next_back
next_back-ne-none r rs = ground arith

next_back-Split :
    (rs : List Range) (l : Range) (init : List Range)
    → Apart rs
    → next_back rs ≡ some (l, init)
    → Split rs l init
unfolding next_back
next_back-Split [] l init a e = cc
next_back-Split (r ∷ []) l init a e =
    let at : r ≡ l = ground arith in
    let before : [] ≡ init = ground arith in
    subst₂ (Split (r ∷ [])) at before (record {
      apart = tt;
      last_apart = λ p lo hi n. n;
      small = a.1;
      there = λ p h. h;
      back = λ p h. h;
    })
next_back-Split (r ∷ x ∷ rs) l init a e = elim (Option-cases (next_back (x ∷ rs))) [
  | inl none_left ↦ absurd (next_back-ne-none x rs none_left)
  | inr ((l', init'), more) ↦
      let k = next_back-Split (x ∷ rs) l' init' a.2 more in
      let at : l' ≡ l = ground arith in
      let before : r ∷ init' ≡ init = ground arith in
      subst₂ (Split (r ∷ x ∷ rs)) at before (record {
        apart = (λ p lo hi n. a.0 p lo hi (k.back p (inr n)), a.1, k.apart);
        last_apart = λ p lo hi n. elim n [
          | inl h ↦ a.0 p h.0 h.1 (k.back p (inl (lo, hi)))
          | inr h ↦ k.last_apart p lo hi h
        ];
        small = k.small;
        there = λ p h. elim h [
          | inl h' ↦ inr (inl h')
          | inr h' ↦ elim (k.there p h') [ inl i ↦ inl i | inr i ↦ inr (inr i) ]
        ];
        back = λ p h. elim h [
          | inl i ↦ inr (k.back p (inl i))
          | inr h' ↦ elim h' [ inl i ↦ inl i | inr i ↦ inr (k.back p (inr i)) ]
        ];
      })
]

-- If the regions do not overlap and end below the end of memory, then in the state that `new` makes
-- exactly the addresses in some region are available, and the rest of the current region and the
-- regions to come do not overlap.
pub new-IsValid :
    (regions : List Range) (s : Inner)
    → Apart regions
    → new regions ≡ ok s
    → IsValid regions s × ((p : ℕ) → Available s p ↔ InSome regions p)
unfolding new
new-IsValid regions s a e = elim (Option-cases (next_back regions)) [
  | inl empty ↦ ground arith
  | inr ((l, init), got) ↦
      let k = next_back-Split regions l init a got in
      let made : Inner = record {
        free_regions = init;
        last_in_current_region = l.start;
        prev_frame = l.end;
        top = l.end;
      } in
      let same : made ≡ s = ground arith in
      subst (λ x. IsValid regions x × ((p : ℕ) → Available x p ↔ InSome regions p)) same
        (
          record { in_memory = k.back; apart = k.apart; current = k.last_apart; small = k.small },
          λ p. (k.back p, k.there p),
        )
]
