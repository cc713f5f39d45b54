-- ===== src/BitmapAllocator/Search.antt =====
-- The search of the bitmap for the first bit that is set.
use native.Mathlib.Decide.{ℕ_discrete}
use popcorn.Prelude.{
  ℕ, zero, suc, ◌+◌, ◌/◌, ◌%◌, ◌<◌, ◌≡◌, ◌∙◌, ap, refl, ◌⊎◌, inl, inr, none, some, List, [], ◌∷◌,
  get_elem?, set, arith,
}
use popcorn.Prelude.Bits.{bit}
use popcorn.BitmapAllocator.{allocated, write_bit, trailing_zeros, find_first}

-- The bits of `w` below `k` are clear.
abbrev pub ClearBelow : ℕ → ℕ → Type 0
ClearBelow k w = (c : ℕ) → c < k → bit w c ≡ 0

abbrev pub FirstSet : ℕ → ℕ → ℕ → Type 0
FirstSet k w t = (t < k) × (bit w t ≡ 1) × ClearBelow t w

ClearBelow-half : (k w : ℕ) → w % 2 ≡ 0 → ClearBelow k (w / 2) → ClearBelow (suc k) w
unfolding bit
ClearBelow-half k w even clear zero h = even
ClearBelow-half k w even clear (suc c) h = clear c (omega arith)

trailing_zeros-odd : (k w : ℕ) → w % 2 ≡ 1 → trailing_zeros (suc k) w ≡ 0
unfolding trailing_zeros
trailing_zeros-odd k w odd = ground arith

trailing_zeros-even :
    (k w : ℕ) → w % 2 ≡ 0 → trailing_zeros (suc k) w ≡ suc (trailing_zeros k (w / 2))
unfolding trailing_zeros
trailing_zeros-even k w even = ground arith

-- The word has no bit set, or the count is the place of its lowest bit that is set.
pub trailing_zeros_lem :
    (k w : ℕ)
    → ((trailing_zeros k w ≡ k) × ClearBelow k w)
      ⊎ ((t : ℕ) × (trailing_zeros k w ≡ t) × FirstSet k w t)
unfolding trailing_zeros bit
trailing_zeros_lem zero w = inl (refl, λ c h. absurd (omega arith))
trailing_zeros_lem (suc k) w = elim (ℕ_discrete (w % 2) 1) [
  | yes odd ↦ inr (0, trailing_zeros-odd k w odd, (omega arith, odd, λ c h. absurd (omega arith)))
  | no even ↦
      let e : w % 2 ≡ 0 = omega arith in
      elim (trailing_zeros_lem k (w / 2)) [
        | inl (all, clear) ↦
            inl (trailing_zeros-even k w e ∙ ap suc all, ClearBelow-half k w e clear)
        | inr (t, f, (lt, set, clear)) ↦ inr (
          suc t,
          trailing_zeros-even k w e ∙ ap suc f,
          (omega arith, set, ClearBelow-half t w e clear),
        )
      ]
]

-- No word holds a free frame.
abbrev pub NoneSet : List ℕ → Type 0
NoneSet l = (i w : ℕ) → get_elem? l i ≡ some w → ClearBelow 64 w

-- Nor do the first `k` words.
abbrev pub Before : ℕ → List ℕ → Type 0
Before k l = (i x : ℕ) → i < k → get_elem? l i ≡ some x → ClearBelow 64 x

Before-cons : (w : ℕ) (l : List ℕ) (k : ℕ) → ClearBelow 64 w → Before k l → Before (suc k) (w ∷ l)
Before-cons w l k clear rest zero x h e = ground (arith, clear)
Before-cons w l k clear rest (suc i) x h e = rest i x (omega arith) e

-- What `find_first` has found: the `k`th word of the list, and its lowest bit `c` that is set.
pub record Found (n : ℕ) (l : List ℕ) : Type 0 where
  pub k : ℕ
  pub c : ℕ
  pub w : ℕ
  pub result : find_first n l ≡ some (n + k, c, set l k (write_bit allocated w c))
  pub word : get_elem? l k ≡ some w
  pub first : FirstSet 64 w c
  pub before : Before k l

find_first-here :
    (n w t : ℕ) (l : List ℕ)
    → trailing_zeros 64 w ≡ t
    → t < 64
    → find_first n (w ∷ l) ≡ some (n, t, write_bit allocated w t ∷ l)
unfolding find_first
find_first-here n w t l e h = ground (arith, e)

find_first-passed :
    (n w : ℕ) (l : List ℕ)
    → trailing_zeros 64 w ≡ 64
    → find_first (suc n) l ≡ none
    → find_first n (w ∷ l) ≡ none
unfolding find_first
find_first-passed n w l e rest = ground (arith, e, rest)

find_first-later :
    (n w j c : ℕ) (l m : List ℕ)
    → trailing_zeros 64 w ≡ 64
    → find_first (suc n) l ≡ some (j, c, m)
    → find_first n (w ∷ l) ≡ some (j, c, w ∷ m)
unfolding find_first
find_first-later n w j c l m e rest = ground (arith, e, rest)

NoneSet-cons : (w : ℕ) (l : List ℕ) → ClearBelow 64 w → NoneSet l → NoneSet (w ∷ l)
NoneSet-cons w l clear rest zero x e = ground (arith, clear)
NoneSet-cons w l clear rest (suc i) x e = rest i x e

pub find_first_lem : (n : ℕ) (l : List ℕ) → ((find_first n l ≡ none) × NoneSet l) ⊎ Found n l
unfolding find_first
find_first_lem n [] = inl (refl, λ i w e. ground arith)
find_first_lem n (w ∷ l) = elim (trailing_zeros_lem 64 w) [
  | inr (t, e, first) ↦ inr (record {
    k = 0;
    c = t;
    w = w;
    result =
        find_first-here n w t l e first.0
        ∙ ap (λ i. some (i, t, write_bit allocated w t ∷ l)) (omega arith);
    word = refl;
    first = first;
    before = λ i x h f. absurd (omega arith);
  })
  | inl (e, clear) ↦ elim (find_first_lem (suc n) l) [
    | inl (f, none_set) ↦ inl (find_first-passed n w l e f, NoneSet-cons w l clear none_set)
    | inr found ↦ inr (record {
      k = suc found.k;
      c = found.c;
      w = found.w;
      result =
          find_first-later n w (suc n + found.k) found.c l
            (set l found.k (write_bit allocated found.w found.c)) e found.result
          ∙ ap (λ i. some (i, found.c, w ∷ set l found.k (write_bit allocated found.w found.c)))
              (omega arith);
      word = found.word;
      first = found.first;
      before = Before-cons w l found.k clear found.before;
    })
  ]
]
