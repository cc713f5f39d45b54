-- ===== src/BitmapAllocator/Fast.antt =====
-- The search of the fast path: a run of set bits within one word.
use mathlib.Core.Path.{subst₂}
use Prim.Native.Nat.{bit_and}
use popcorn.Prelude.{
  ℕ, zero, suc, ◌+◌, ◌-◌, ◌*◌, ◌/◌, ◌^◌, ◌≤◌, ◌<◌, ◌≡◌, ◌∙◌, ap, refl, sym, inl, inr, none, some,
  Option-cases, List, [], ◌∷◌, get_elem?, set, arith,
}
use popcorn.Prelude.Bits.{not64}
use popcorn.BitmapAllocator.{word_size, trailing_zeros}
use popcorn.BitmapAllocator.Contiguous.{find_slide, find_multiple}

-- The word `w` has a run of set bits where the mask, shifted, has its bits.
abbrev pub Masked : ℕ → ℕ → ℕ → Type 0
Masked mask w t = bit_and (w / 2 ^ t) mask ≡ mask

find_slide-some :
    (n entry mask slide t : ℕ)
    → find_slide entry mask slide n ≡ some t
    → (slide ≤ t) × (t < slide + n) × Masked mask entry t
unfolding find_slide
find_slide-some zero entry mask slide t e = ground arith
find_slide-some (suc n) entry mask slide t e =
    ground (arith, find_slide-some n entry mask (suc slide) t)

-- What `find_multiple` has found: in the `k`th word of the list, at `t`.
pub record Found (mask count n : ℕ) (l : List ℕ) (j t : ℕ) (m : List ℕ) : Type 0 where
  pub k : ℕ
  pub w : ℕ
  pub place : j ≡ n + k
  pub word : get_elem? l k ≡ some w
  pub fits : t + count ≤ word_size
  pub masked : Masked mask w t
  pub after : m ≡ set l k (bit_and w (not64 (mask * 2 ^ t)))

find_multiple-here :
    (mask count n entry t : ℕ) (l : List ℕ)
    → find_slide entry mask (trailing_zeros 64 entry) (word_size - count - trailing_zeros 64 entry)
      ≡ some t
    → find_multiple mask count n (entry ∷ l) ≡ some (n, t, bit_and entry (not64 (mask * 2 ^ t)) ∷ l)
unfolding find_multiple
find_multiple-here mask count n entry t l e = ground (arith, e)

find_multiple-later :
    (mask count n entry : ℕ) (l : List ℕ)
    → find_slide entry mask (trailing_zeros 64 entry) (word_size - count - trailing_zeros 64 entry)
      ≡ none
    → find_multiple mask count n (entry ∷ l) ≡ elim (find_multiple mask count (suc n) l) [
      | none ↦ none
      | some (j, s, m) ↦ some (j, s, entry ∷ m)
    ]
unfolding find_multiple
find_multiple-later mask count n entry l e = ground (arith, e)

Found-later :
    (mask count n entry : ℕ) (l : List ℕ) (j t : ℕ) (m m' : List ℕ)
    → Found mask count (suc n) l j t m
    → m' ≡ entry ∷ m
    → Found mask count n (entry ∷ l) j t m'
Found-later mask count n entry l j t m m' f e = record {
  k = suc f.k;
  w = f.w;
  place = omega (arith, f.place);
  word = f.word;
  fits = f.fits;
  masked = f.masked;
  after = e ∙ ap (λ x. entry ∷ x) f.after;
}

pub find_multiple-Found :
    (mask count n : ℕ) (l : List ℕ) (j t : ℕ) (m : List ℕ)
    → count ≤ word_size
    → find_multiple mask count n l ≡ some (j, t, m)
    → Found mask count n l j t m
unfolding find_multiple
find_multiple-Found mask count n [] j t m h e = absurd (ground arith)
find_multiple-Found mask count n (entry ∷ l) j t m h e =
    let tz = trailing_zeros 64 entry in
    elim (Option-cases (find_slide entry mask tz (word_size - count - tz))) [
      | inr (s, found) ↦
          let same = sym (find_multiple-here mask count n entry s l found) ∙ e in
          let slide = find_slide-some (word_size - count - tz) entry mask tz s found in
          record {
            k = 0;
            w = entry;
            place = ground (arith, same);
            word = refl;
            fits = ground (arith, same, slide);
            masked = ground (arith, same, slide);
            after = ground (arith, same);
          }
      | inl passed ↦
          let same = sym (find_multiple-later mask count n entry l passed) ∙ e in
          elim (Option-cases (find_multiple mask count (suc n) l)) [
            | inl nothing ↦ absurd (ground (arith, same, nothing))
            | inr ((j', t', m'), found) ↦
                let at : j' ≡ j = ground (arith, same, found) in
                let slide : t' ≡ t = ground (arith, same, found) in
                let rest : m ≡ entry ∷ m' = ground (arith, same, found) in
                subst₂ (λ x y. Found mask count n (entry ∷ l) x y m) at slide
                  (Found-later mask count n entry l j' t' m' m
                    (find_multiple-Found mask count (suc n) l j' t' m' h found) rest)
          ]
    ]
