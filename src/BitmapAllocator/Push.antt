-- ===== src/BitmapAllocator/Push.antt =====
-- What the boot allocator has given out is told to the bitmap by `push`.
use native.Mathlib.Decide.{dec_le, dec_lt}
use popcorn.Prelude.{
  ℕ, zero, suc, ◌+◌, ◌-◌, ◌*◌, ◌/◌, ◌%◌, ◌≤◌, ◌<◌, ◌≡◌, ◌∙◌, ◌⊎◌, refl, ap, inl, inr, arith, ltb,
  leb, ◌&&◌, if◌then◌else◌,
}
use mathlib.Core.Path.{subst, subst₂}
use popcorn.Prelude.Words.{usize_mod}
use popcorn.Prelude.Outcome.{ok, err}
use popcorn.Memory.{Frame, page_size, frame_add}
use popcorn.RangedBtree.{Range}
use popcorn.BitmapAllocator.{allocated, BitmapAllocator, set_frame, get_frame, push_frames, push}
use popcorn.BitmapAllocator.Frames.{
  covered, frame_at, IsValid, Wrote, set_frame-Wrote, set_frame-get_frame-outside,
}
use popcorn.BitmapAllocator.Ranges.{frame_at-Wrote}

-- What marking the frames from `low` to `high` as allocated has done to the frames of the bitmap.
pub record Marked (a : BitmapAllocator) (low high : Frame) (b : BitmapAllocator) : Type 0 where
  pub valid : IsValid b
  pub same_start : b.first_frame ≡ a.first_frame
  pub same_size : covered b ≡ covered a
  pub states :
      (j : ℕ)
      → j < covered a
      → get_frame b (frame_at a j) ≡ (
          if leb low (frame_at a j) && ltb (frame_at a j) high
          then ok allocated
          else get_frame a (frame_at a j))

push_frames-inside :
    (a b : BitmapAllocator) (base f : Frame) (i n : ℕ)
    → frame_add base i ≡ ok f
    → set_frame a f allocated ≡ ok b
    → push_frames a base i (suc n) ≡ push_frames b base (suc i) n
unfolding push_frames
push_frames-inside a b base f i n e g = ground (arith, e, g)

push_frames-outside :
    (a : BitmapAllocator) (base f : Frame) (i n : ℕ)
    → frame_add base i ≡ ok f
    → set_frame a f allocated ≡ err
    → push_frames a base i (suc n) ≡ push_frames a base (suc i) n
unfolding push_frames
push_frames-outside a base f i n e g = ground (arith, e, g)

frame_add_fits :
    (base k : ℕ) → base + k * page_size < usize_mod → frame_add base k ≡ ok (base + k * page_size)
unfolding frame_add
frame_add_fits base k h = ground arith

Marked-cons :
    (a b c : BitmapAllocator) (i : ℕ) (low high : Frame)
    → low ≡ frame_at a i
    → low + page_size ≤ high
    → Wrote a i allocated b
    → Marked b (low + page_size) high c
    → Marked a low high c
Marked-cons a b c i low high at le w r = record {
  valid = r.valid;
  same_start = r.same_start ∙ w.same_start;
  same_size = r.same_size ∙ w.same_size;
  states = λ j h.
      let first = w.states j h in
      let then_rest =
        subst
          (λ f.
            get_frame c f
            ≡ (if leb (low + page_size) f && ltb f high then ok allocated else get_frame b f))
          (frame_at-Wrote a b i allocated w j) (r.states j (omega (arith, w.same_size))) in
      ground (arith, first, then_rest);
}

-- A frame that the bitmap does not cover.
Marked-outside :
    (a c : BitmapAllocator) (low high : Frame)
    → low % page_size ≡ 0
    → a.first_frame % page_size ≡ 0
    → (low < a.first_frame) ⊎ (frame_at a (covered a) ≤ low)
    → Marked a (low + page_size) high c
    → Marked a low high c
Marked-outside a c low high al af out r = record {
  valid = r.valid;
  same_start = r.same_start;
  same_size = r.same_size;
  states = λ j h. ground (arith, r.states j h);
}

-- An aligned frame is one that the bitmap covers, or lies outside it.
place :
    (a : BitmapAllocator) (low : Frame)
    → a.first_frame % page_size ≡ 0
    → low % page_size ≡ 0
    → ((low < a.first_frame) ⊎ (frame_at a (covered a) ≤ low))
      ⊎ ((i : ℕ) × (low ≡ frame_at a i) × (i < covered a))
place a low af al = elim (dec_lt low a.first_frame) [
  | yes below ↦ inl (inl below)
  | no from_first ↦ elim (dec_lt low (frame_at a (covered a))) [
    | yes inside ↦ inr ((low - a.first_frame) / page_size, omega arith, omega arith)
    | no past ↦ inl (inr (omega arith))
  ]
]

push_frames-Marked :
    (n : ℕ) (a : BitmapAllocator) (base : Frame) (k : ℕ)
    → IsValid a
    → a.first_frame % page_size ≡ 0
    → base % page_size ≡ 0
    → base + (k + n) * page_size < usize_mod
    → (b : BitmapAllocator) × (push_frames a base k n ≡ ok b)
      × Marked a (base + k * page_size) (base + (k + n) * page_size) b
unfolding push_frames
push_frames-Marked zero a base k v af ab h = (
  a,
  refl,
  record { valid = v; same_start = refl; same_size = refl; states = λ j lt. ground arith },
)
push_frames-Marked (suc n) a base k v af ab h =
    let low : ℕ = base + k * page_size in
    let aligned : low % page_size ≡ 0 = omega arith in
    let frame = frame_add_fits base k (omega arith) in
    let next : base + suc k * page_size ≡ low + page_size = omega arith in
    let high : base + (suc k + n) * page_size ≡ base + (k + suc n) * page_size = omega arith in
    elim (place a low af aligned) [
      | inl out ↦
          let (c, f, rest) = push_frames-Marked n a base (suc k) v af ab (omega arith) in
          (
            c,
            push_frames-outside a base low k n frame
                  (set_frame-get_frame-outside a low allocated v out).0
                ∙ f,
            Marked-outside a c low (base + (k + suc n) * page_size) aligned af out
                (subst₂ (λ l u. Marked a l u c) next high rest),
          )
      | inr (i, at, lt) ↦
          let (b, e, w) = set_frame-Wrote a i allocated v lt in
          let e' : set_frame a low allocated ≡ ok b = ap (λ x. set_frame a x allocated) at ∙ e in
          let (c, f, rest) =
            push_frames-Marked n b base (suc k) w.valid (omega (arith, w.same_start)) ab
              (omega arith) in
          (
            c,
            push_frames-inside a b base low k n frame e' ∙ f,
            Marked-cons a b c i low (base + (k + suc n) * page_size) at (omega arith) w
                (subst₂ (λ l u. Marked b l u c) next high rest),
          )
    ]

-- After `push` of any region of whole frames below the end of memory to a valid bitmap whose first
-- frame is aligned, wherever the region lies, the frames of the region that the bitmap covers are
-- allocated, and every other frame that it covers keeps its state. The bitmap stays valid.
pub push-Marked :
    (a : BitmapAllocator) (region : Range)
    → IsValid a
    → a.first_frame % page_size ≡ 0
    → region.start % page_size ≡ 0
    → region.end % page_size ≡ 0
    → region.end < usize_mod
    → (b : BitmapAllocator) × (push a region ≡ ok b) × Marked a region.start region.end b
unfolding push push_frames
push-Marked a region v af low high small = elim (dec_le region.start region.end) [
  | yes le ↦
      let n : ℕ = (region.end - region.start) / page_size in
      let ends : region.start + (0 + n) * page_size ≡ region.end = omega arith in
      let (b, e, w) = push_frames-Marked n a region.start 0 v af low (omega arith) in
      (b, e, subst₂ (λ l u. Marked a l u b) (omega arith) ends w)
  | no empty ↦
      let none_left : (region.end - region.start) / page_size ≡ 0 = omega arith in
      (
        a,
        ap (push_frames a region.start 0) none_left,
        record { valid = v; same_start = refl; same_size = refl; states = λ j lt. ground arith },
      )
]
