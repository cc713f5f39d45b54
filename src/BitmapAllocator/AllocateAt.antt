-- ===== src/BitmapAllocator/AllocateAt.antt =====
-- Allocation at a given frame: all the frames asked for, or none.
use mathlib.Core.Path.{subst}
use native.Mathlib.Decide.{ℕ_discrete}
use popcorn.Prelude.{
  ℕ, zero, suc, ◌+◌, ◌≤◌, ◌<◌, ◌≡◌, ◌∙◌, ap, refl, ◌⊎◌, inl, inr, true, false, arith,
}
use popcorn.Prelude.Outcome.{ok, err}
use popcorn.Memory.{Frame, frame_add}
use popcorn.BitmapAllocator.{
  allocated, free, BitmapAllocator, get_frame, set_frames, all_free, allocate_at,
}
use popcorn.BitmapAllocator.Frames.{covered, frame_at, IsValid, word_of, get_frame-at}
use popcorn.BitmapAllocator.Ranges.{WroteRange, set_frames-WroteRange, frame_add-frame_at}

-- Every frame that the bitmap covers is free or allocated.
get_frame-cases :
    (a : BitmapAllocator) (i : ℕ)
    → IsValid a
    → i < covered a
    → (get_frame a (frame_at a i) ≡ ok free) ⊎ (get_frame a (frame_at a i) ≡ ok allocated)
get_frame-cases a i v h = let (w, e) = word_of a i h in ground (arith, get_frame-at a i w v h e)

abbrev pub AllFree : BitmapAllocator → ℕ → ℕ → Type 0
AllFree a i n = (j : ℕ) → i ≤ j → j < i + n → get_frame a (frame_at a j) ≡ ok free

-- One of the `n` frames from the `i`th on is allocated.
abbrev pub SomeAllocated : BitmapAllocator → ℕ → ℕ → Type 0
SomeAllocated a i n = (j : ℕ) × (i ≤ j) × (j < i + n) × (get_frame a (frame_at a j) ≡ ok allocated)

all_free-step :
    (a : BitmapAllocator) (addr f : Frame) (i n : ℕ)
    → frame_add addr i ≡ ok f
    → ((get_frame a f ≡ ok free) → all_free a addr i (suc n) ≡ all_free a addr (suc i) n)
      × ((get_frame a f ≡ ok allocated) → all_free a addr i (suc n) ≡ ok false)
unfolding all_free
all_free-step a addr f i n e = (λ g. ground (arith, e, g), λ g. ground (arith, e, g))

all_free_lem :
    (n : ℕ) (a : BitmapAllocator) (i k : ℕ)
    → IsValid a
    → i + k + n ≤ covered a
    → ((all_free a (frame_at a i) k n ≡ ok true) × AllFree a (i + k) n)
      ⊎ ((all_free a (frame_at a i) k n ≡ ok false) × SomeAllocated a (i + k) n)
unfolding all_free
all_free_lem zero a i k v h = inl (refl, λ j low high. absurd (omega arith))
all_free_lem (suc n) a i k v h =
    let (next, stop) =
      all_free-step a (frame_at a i) (frame_at a (i + k)) k n
        (frame_add-frame_at a i k (omega (arith, v.fits))) in
    elim (get_frame-cases a (i + k) v (omega arith)) [
      | inr g ↦ inr (stop g, (i + k, omega arith, omega arith, g))
      | inl g ↦ elim (all_free_lem n a i (suc k) v (omega arith)) [
        | inl (e, rest) ↦ inl (
          next g ∙ e,
          λ j low high. elim (ℕ_discrete j (i + k)) [
            | yes same ↦ ap (λ x. get_frame a (frame_at a x)) same ∙ g
            | no later ↦ rest j (omega arith) (omega arith)
          ],
        )
        | inr (e, (j, low, high, taken)) ↦ inr (next g ∙ e, (j, omega arith, omega arith, taken))
      ]
    ]

allocate_at-free :
    (a b : BitmapAllocator) (n : ℕ) (addr end : Frame)
    → 0 < n
    → frame_add addr n ≡ ok end
    → all_free a addr 0 n ≡ ok true
    → set_frames a addr 0 n allocated ≡ ok b
    → allocate_at a n addr ≡ ok (addr, b)
unfolding allocate_at
allocate_at-free a b n addr end pos e f g = ground (arith, e, f, g)

allocate_at-taken :
    (a : BitmapAllocator) (n : ℕ) (addr end : Frame)
    → 0 < n
    → frame_add addr n ≡ ok end
    → all_free a addr 0 n ≡ ok false
    → allocate_at a n addr ≡ err
unfolding allocate_at
allocate_at-taken a n addr end pos e f = ground (arith, e, f)

-- A request for at least one frame at a frame of a valid bitmap, all of whose frames the bitmap
-- covers, either finds all of them free, and then exactly they are allocated afterwards, or finds
-- one of them allocated and fails.
pub allocate_at_lem :
    (a : BitmapAllocator) (i n : ℕ)
    → IsValid a
    → 0 < n
    → i + n ≤ covered a
    → (AllFree a i n
        × ((b : BitmapAllocator) × (allocate_at a n (frame_at a i) ≡ ok (frame_at a i, b))
            × WroteRange a i n allocated b))
      ⊎ (SomeAllocated a i n × (allocate_at a n (frame_at a i) ≡ err))
allocate_at_lem a i n v pos h =
    let end = frame_add-frame_at a i n (omega (arith, v.fits)) in
    let first : i + 0 ≡ i = omega arith in
    elim (all_free_lem n a i 0 v (omega arith)) [
      | inl (e, all) ↦
          let (b, f, wrote) = set_frames-WroteRange n a i 0 allocated v (omega arith) in
          inl (
            subst (λ p. AllFree a p n) first all,
            (
              b,
              allocate_at-free a b n (frame_at a i) (frame_at a (i + n)) pos end e f,
              subst (λ p. WroteRange a p n allocated b) first wrote,
            ),
          )
      | inr (e, taken) ↦ inr (
        subst (λ p. SomeAllocated a p n) first taken,
        allocate_at-taken a n (frame_at a i) (frame_at a (i + n)) pos end e,
      )
    ]
