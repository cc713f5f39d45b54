-- ===== src/BitmapAllocator/Runs.antt =====
-- The fast path of an allocation of several frames takes a run of free frames.
use mathlib.Core.Path.{subst}
use native.Mathlib.Decide.{ℕ_discrete, dec_le}
use native.Mathlib.Nat.{pow-succ'}
use Prim.Native.Nat.{bit_and}
use popcorn.Prelude.{
  ℕ, zero, suc, ◌+◌, ◌-◌, ◌*◌, ◌/◌, ◌%◌, ◌^◌, ◌≤◌, ◌<◌, ◌≡◌, ◌∙◌, ap, refl, sym, ◌⊎◌, inl, inr,
  none, some, Option-cases, ◌&&◌, List, get_elem?, set, arith, ltb, leb, ◌==◌, if◌then◌else◌,
  lt_of_get_elem?, length-set, get_elem?-set_self, get_elem?-set_ne,
}
use popcorn.Prelude.Bits.{
  bit, bit-below, bit-le-one, bit-bit_and, bit-shr, bit-shl, bit-mask, bit-complement, lt_of_bits,
  not64,
}
use popcorn.Prelude.Words.{usize_mod}
use popcorn.Prelude.Outcome.{ok, err}
use popcorn.Memory.{Frame, frame_add}
use popcorn.BitmapAllocator.{word_size, allocated, free, BitmapAllocator, get_frame}
use popcorn.BitmapAllocator.Contiguous.{find_multiple, run_mask, allocate_multiple_fast}
use popcorn.BitmapAllocator.Frames.{
  covered, frame_at, IsValid, get_frame-at, state_of_word, word_of,
}
use popcorn.BitmapAllocator.Ranges.{WroteRange}
use popcorn.BitmapAllocator.Fast.{Masked, Found, find_multiple-Found}
use popcorn.BitmapAllocator.AllocateAt.{AllFree}

-- A frame whose bit of the mask is set is free.
Masked-bit : (count w t j : ℕ) → Masked (2 ^ count - 1) w t → j < count → bit w (t + j) ≡ 1
Masked-bit count w t j masked h = ground (
  arith,
  bit-shr t w j,
  bit-bit_and (w / 2 ^ t) (2 ^ count - 1) j,
  bit-mask count j,
  ap (λ x. bit x j) masked,
  bit-le-one w (t + j),
)

shifted-bit :
    (count t j : ℕ)
    → bit ((2 ^ count - 1) * 2 ^ t) j ≡ (if leb t j && ltb j (t + count) then 1 else 0)
shifted-bit count t j = ground (arith, bit-shl t (2 ^ count - 1) j, bit-mask count (j - t))

shifted-small : (count t : ℕ) → t + count ≤ word_size → (2 ^ count - 1) * 2 ^ t < 2 ^ 64
shifted-small count t h =
    lt_of_bits ((2 ^ count - 1) * 2 ^ t) ((2 ^ count - 1) * 2 ^ t) 64 (omega arith)
      (λ j le. ground (arith, shifted-bit count t j))

abbrev pub cleared : ℕ → ℕ → ℕ → ℕ
cleared count w t = bit_and w (not64 ((2 ^ count - 1) * 2 ^ t))

cleared-bit :
    (count w t j : ℕ)
    → t + count ≤ word_size
    → j < 64
    → bit (cleared count w t) j ≡ (if leb t j && ltb j (t + count) then 0 else bit w j)
cleared-bit count w t j h lt = ground (
  arith,
  bit-bit_and w (not64 ((2 ^ count - 1) * 2 ^ t)) j,
  bit-complement 64 ((2 ^ count - 1) * 2 ^ t) j (shifted-small count t h) lt,
  shifted-bit count t j,
  bit-le-one w j,
)

cleared-narrow : (count w t : ℕ) → w < 2 ^ word_size → cleared count w t < 2 ^ word_size
cleared-narrow count w t small =
    lt_of_bits (cleared count w t) (cleared count w t) word_size (omega arith) (λ j h.
      ground
        (arith, bit-bit_and w (not64 ((2 ^ count - 1) * 2 ^ t)) j, bit-below word_size w j small h))

module _ (a : BitmapAllocator) (k w x : ℕ) (v : IsValid a) (e : get_elem? a.bitmap k ≡ some w) where
  replaced : BitmapAllocator
  replaced = record a { bitmap = set a.bitmap k x }

  replaced-IsValid : x < 2 ^ word_size → IsValid replaced
  unfolding replaced
  replaced-IsValid small = record {
    fits = omega (arith, v.fits, length-set a.bitmap k x);
    narrow = λ j y f. elim (ℕ_discrete k j) [
      | yes same ↦
          ground (arith, small, get_elem?-set_self a.bitmap k x (lt_of_get_elem? a.bitmap k e))
      | no other ↦ v.narrow j y (sym (get_elem?-set_ne a.bitmap x other) ∙ f)
    ];
  }

  -- The frames of the word are as in the new one, the others as before.
  get_frame-replaced :
      (j : ℕ)
      → x < 2 ^ word_size
      → j < covered a
      → get_frame replaced (frame_at a j) ≡ (
          if j / word_size == k
          then ok (state_of_word x (j % word_size))
          else get_frame a (frame_at a j))
  unfolding replaced
  get_frame-replaced j small h =
      let b = replaced in
      let size = length-set a.bitmap k x in
      let valid = replaced-IsValid small in
      elim (ℕ_discrete k (j / word_size)) [
        | yes same ↦ ground (
          arith,
          get_frame-at b j x valid (omega (arith, size)) (
              ap (get_elem? b.bitmap) (sym same)
              ∙ get_elem?-set_self a.bitmap k x (lt_of_get_elem? a.bitmap k e)),
        )
        | no other ↦
            let (y, f) = word_of a j h in
            ground (
              arith,
              get_frame-at b j y valid (omega (arith, size))
                  (get_elem?-set_ne a.bitmap x other ∙ f),
              get_frame-at a j y v h f,
            )
      ]

-- Clearing a run of bits allocates its frames.
pub cleared-WroteRange :
    (a : BitmapAllocator) (k w t count : ℕ)
    → IsValid a
    → get_elem? a.bitmap k ≡ some w
    → t + count ≤ word_size
    → WroteRange a
        (k * word_size + t)
        count
        allocated
        (record a { bitmap = set a.bitmap k (cleared count w t) })
unfolding replaced
cleared-WroteRange a k w t count v e h =
    let x = cleared count w t in
    let small = cleared-narrow count w t (v.narrow k w e) in
    record {
      valid = replaced-IsValid a k w x v e small;
      same_start = refl;
      same_size = omega (arith, length-set a.bitmap k x);
      states = λ j lt. elim (ℕ_discrete (j / word_size) k) [
        | yes same ↦ ground (
          arith,
          get_frame-replaced a k w x v e j small lt,
          cleared-bit count w t (j % word_size) h (omega arith),
          get_frame-at a j w v lt (ap (get_elem? a.bitmap) same ∙ e),
        )
        | no other ↦ ground (arith, get_frame-replaced a k w x v e j small lt)
      ];
    }

pub Masked-AllFree :
    (a : BitmapAllocator) (k w t count : ℕ)
    → IsValid a
    → get_elem? a.bitmap k ≡ some w
    → t + count ≤ word_size
    → Masked (2 ^ count - 1) w t
    → AllFree a (k * word_size + t) count
Masked-AllFree a k w t count v e h masked j low high =
    let same : j / word_size ≡ k = omega arith in
    let place : t + (j % word_size - t) ≡ j % word_size = omega arith in
    let is_set =
      ap (bit w) (sym place) ∙ Masked-bit count w t (j % word_size - t) masked (omega arith) in
    get_frame-at a j w v (omega (arith, lt_of_get_elem? a.bitmap k e))
      (ap (get_elem? a.bitmap) same ∙ e)
    ∙ ap (λ d. ok (if d == 0 then allocated else free)) is_set

-- What an allocation of `n` frames promises: they were free, they and no others change their
-- state, and they are allocated afterwards.
pub record TookRun (a : BitmapAllocator) (n : ℕ) (f : Frame) (b : BitmapAllocator) : Type 0 where
  pub index : ℕ
  pub inside : index + n ≤ covered a
  pub frame : f ≡ frame_at a index
  pub were_free : AllFree a index n
  pub wrote : WroteRange a index n allocated b

run_mask_lem : (n : ℕ) → 1 ≤ n → run_mask n ≡ 2 ^ n - 1
run_mask_lem zero h = absurd (omega arith)
run_mask_lem (suc n) h =
    let before : suc n - 1 ≡ n = omega arith in
    ap (λ k. 2 * 2 ^ k - 1) before ∙ ap (λ x. x - 1) (sym (pow-succ' 2 n))

allocate_multiple_fast-none :
    (a : BitmapAllocator) (n : ℕ)
    → 1 < n
    → find_multiple (run_mask n) n 0 a.bitmap ≡ none
    → allocate_multiple_fast a n ≡ err
unfolding allocate_multiple_fast
allocate_multiple_fast-none a n h e = ground (arith, e)

allocate_multiple_fast-some :
    (a : BitmapAllocator) (n k t : ℕ) (l : List ℕ)
    → 1 < n
    → n ≤ word_size
    → find_multiple (run_mask n) n 0 a.bitmap ≡ some (k, t, l)
    → frame_at a (k * word_size + t) < usize_mod
    → allocate_multiple_fast a n ≡ ok (frame_at a (k * word_size + t), record a { bitmap = l })
unfolding allocate_multiple_fast frame_add
allocate_multiple_fast-some a n k t l h le e fits = ground (arith, e)

allocate_multiple_fast-large :
    (a : BitmapAllocator) (n : ℕ) → word_size < n → allocate_multiple_fast a n ≡ err
unfolding allocate_multiple_fast
allocate_multiple_fast-large a n h = ground arith

TookRun-Found :
    (a : BitmapAllocator) (n k t : ℕ) (l : List ℕ)
    → IsValid a
    → 1 ≤ n
    → Found (run_mask n) n 0 a.bitmap k t l
    → TookRun a n (frame_at a (k * word_size + t)) (record a { bitmap = l })
TookRun-Found a n k t l v pos found =
    let mask = run_mask_lem n pos in
    let place : k ≡ found.k = omega (arith, found.place) in
    let word : get_elem? a.bitmap k ≡ some found.w = ap (get_elem? a.bitmap) place ∙ found.word in
    let masked : Masked (2 ^ n - 1) found.w t = subst (λ m. Masked m found.w t) mask found.masked in
    let after : set a.bitmap k (cleared n found.w t) ≡ l = sym (
      found.after
      ∙ ap (λ i. set a.bitmap i (bit_and found.w (not64 (run_mask n * 2 ^ t)))) (sym place)
      ∙ ap (λ m. set a.bitmap k (bit_and found.w (not64 (m * 2 ^ t)))) mask) in
    record {
      index = k * word_size + t;
      inside = omega (arith, found.fits, lt_of_get_elem? a.bitmap k word);
      frame = refl;
      were_free = Masked-AllFree a k found.w t n v word found.fits masked;
      wrote =
          subst (λ m. WroteRange a (k * word_size + t) n allocated (record a { bitmap = m })) after
            (cleared-WroteRange a k found.w t n v word found.fits);
    }

-- The fast path takes a run of free frames, or it fails and changes nothing.
pub allocate_multiple_fast_lem :
    (a : BitmapAllocator) (n : ℕ)
    → IsValid a
    → 1 < n
    → (allocate_multiple_fast a n ≡ err)
      ⊎ ((f : Frame) × (b : BitmapAllocator) × (allocate_multiple_fast a n ≡ ok (f, b))
          × TookRun a n f b)
allocate_multiple_fast_lem a n v h = elim (dec_le n word_size) [
  | no large ↦ inl (allocate_multiple_fast-large a n (omega arith))
  | yes small ↦ elim (Option-cases (find_multiple (run_mask n) n 0 a.bitmap)) [
    | inl e ↦ inl (allocate_multiple_fast-none a n h e)
    | inr ((k, t, l), e) ↦
        let found = find_multiple-Found (run_mask n) n 0 a.bitmap k t l small e in
        let took = TookRun-Found a n k t l v (omega arith) found in
        inr (
          frame_at a (k * word_size + t),
          record a { bitmap = l },
          allocate_multiple_fast-some a n k t l h small e (omega (arith, v.fits, took.inside)),
          took,
        )
  ]
]
