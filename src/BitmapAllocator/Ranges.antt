-- ===== src/BitmapAllocator/Ranges.antt =====
-- Ranges of frames: their release, and the bitmap that the allocator starts with.
use mathlib.Core.Path.{subst}
use native.Mathlib.Decide.{dec_lt}
use popcorn.Prelude.{
  ℕ, zero, suc, ◌+◌, ◌*◌, ◌/◌, ◌≤◌, ◌<◌, ◌≡◌, ◌∙◌, ap, refl, sym, inr, some, ◌&&◌, get_elem?, arith,
  ltb, leb, if◌then◌else◌, replicate, length-replicate,
}
use popcorn.Prelude.Words.{usize_mod}
use popcorn.Prelude.Outcome.{ok, err, panic}
use popcorn.Memory.{Frame, page_size, frame_add}
use popcorn.BitmapAllocator.{
  word_size, FrameState, free, BitmapAllocator, new, set_frame, get_frame, set_frames,
  deallocate_contiguous,
}
use popcorn.BitmapAllocator.Frames.{
  covered, frame_at, IsValid, Wrote, set_frame-Wrote, set_frame-get_frame-outside,
}

-- What writing the states of `n` frames from the `i`th on has done.
pub record WroteRange (a : BitmapAllocator) (i n : ℕ) (s : FrameState) (b : BitmapAllocator)
    : Type 0 where
  pub valid : IsValid b
  pub same_start : b.first_frame ≡ a.first_frame
  pub same_size : covered b ≡ covered a
  pub states :
      (j : ℕ)
      → j < covered a
      → get_frame b (frame_at a j)
        ≡ (if leb i j && ltb j (i + n) then ok s else get_frame a (frame_at a j))

pub frame_add-frame_at :
    (a : BitmapAllocator) (i k : ℕ)
    → frame_at a (i + k) < usize_mod
    → frame_add (frame_at a i) k ≡ ok (frame_at a (i + k))
unfolding frame_add
frame_add-frame_at a i k h = ground arith

set_frames-step :
    (a b : BitmapAllocator) (base f : Frame) (i n : ℕ) (s : FrameState)
    → frame_add base i ≡ ok f
    → set_frame a f s ≡ ok b
    → set_frames a base i (suc n) s ≡ set_frames b base (suc i) n s
unfolding set_frames
set_frames-step a b base f i n s e g = ground (arith, e, g)

set_frames-stop :
    (a : BitmapAllocator) (base f : Frame) (i n : ℕ) (s : FrameState)
    → frame_add base i ≡ ok f
    → set_frame a f s ≡ err
    → set_frames a base i (suc n) s ≡ panic
unfolding set_frames
set_frames-stop a base f i n s e g = ground (arith, e, g)

pub frame_at-Wrote :
    (a b : BitmapAllocator) (i : ℕ) (s : FrameState)
    → Wrote a i s b
    → (j : ℕ) → frame_at b j ≡ frame_at a j
frame_at-Wrote a b i s w j = ap (λ f. f + j * page_size) w.same_start

pub WroteRange-cons :
    (a b c : BitmapAllocator) (i n : ℕ) (s : FrameState)
    → Wrote a i s b
    → WroteRange b (suc i) n s c
    → WroteRange a i (suc n) s c
WroteRange-cons a b c i n s w r = record {
  valid = r.valid;
  same_start = r.same_start ∙ w.same_start;
  same_size = r.same_size ∙ w.same_size;
  states = λ j h.
      let first = w.states j h in
      let then_rest =
        subst
          (λ f.
            get_frame c f ≡ (if leb (suc i) j && ltb j (suc i + n) then ok s else get_frame b f))
          (frame_at-Wrote a b i s w j) (r.states j (omega (arith, w.same_size))) in
      ground (arith, first, then_rest);
}

pub set_frames-WroteRange :
    (n : ℕ) (a : BitmapAllocator) (i k : ℕ) (s : FrameState)
    → IsValid a
    → i + k + n ≤ covered a
    → (b : BitmapAllocator) × (set_frames a (frame_at a i) k n s ≡ ok b)
      × WroteRange a (i + k) n s b
unfolding set_frames
set_frames-WroteRange zero a i k s v h = (
  a,
  refl,
  record { valid = v; same_start = refl; same_size = refl; states = λ j lt. ground arith },
)
set_frames-WroteRange (suc n) a i k s v h =
    let (b, e, wrote) = set_frame-Wrote a (i + k) s v (omega arith) in
    let (c, f, rest) =
      set_frames-WroteRange n b i (suc k) s wrote.valid (omega (arith, wrote.same_size)) in
    (
      c,
      set_frames-step a b (frame_at a i) (frame_at a (i + k)) k n s
            (frame_add-frame_at a i k (omega (arith, v.fits))) e
          ∙ ap (λ base. set_frames b base (suc k) n s) (sym (frame_at-Wrote a b (i + k) s wrote i))
          ∙ f,
      WroteRange-cons a b c (i + k) n s wrote
          (subst (λ p. WroteRange b p n s c) (omega arith) rest),
    )

-- The frames that are released are free, and every other frame keeps its state.
pub deallocate-WroteRange :
    (a : BitmapAllocator) (i n : ℕ)
    → IsValid a
    → i + n ≤ covered a
    → (b : BitmapAllocator) × (deallocate_contiguous a (frame_at a i) n ≡ ok b)
      × WroteRange a i n free b
unfolding deallocate_contiguous
deallocate-WroteRange a i n v h =
    let (b, e, wrote) = set_frames-WroteRange n a i 0 free v (omega arith) in
    (b, e, subst (λ p. WroteRange a p n free b) (omega arith) wrote)

-- A release that runs past the frames that the bitmap covers panics.
pub set_frames-outside :
    (n : ℕ) (a : BitmapAllocator) (i k : ℕ) (s : FrameState)
    → IsValid a
    → i + k ≤ covered a
    → covered a < i + k + n
    → set_frames a (frame_at a i) k n s ≡ panic
set_frames-outside zero a i k s v low high = absurd (omega arith)
set_frames-outside (suc n) a i k s v low high = elim (dec_lt (i + k) (covered a)) [
  | yes h ↦
      let (b, e, wrote) = set_frame-Wrote a (i + k) s v h in
      set_frames-step a b (frame_at a i) (frame_at a (i + k)) k n s
        (frame_add-frame_at a i k (omega (arith, v.fits))) e
      ∙ ap (λ base. set_frames b base (suc k) n s) (sym (frame_at-Wrote a b (i + k) s wrote i))
      ∙ set_frames-outside n b i (suc k) s wrote.valid (omega (arith, wrote.same_size))
          (omega (arith, wrote.same_size))
  | no h ↦
      set_frames-stop a (frame_at a i) (frame_at a (i + k)) k n s
        (frame_add-frame_at a i k (omega (arith, v.fits)))
        (set_frame-get_frame-outside a (frame_at a (i + k)) s v (inr (omega arith))).0
]

pub get_elem?-replicate : (n i w : ℕ) → get_elem? (replicate n 0) i ≡ some w → w ≡ 0
get_elem?-replicate zero i w e = ground arith
get_elem?-replicate (suc n) zero w e = ground arith
get_elem?-replicate (suc n) (suc i) w e = get_elem?-replicate n i w e

pub new-IsValid : (start n : ℕ) → start + n * page_size < usize_mod → IsValid (new start n)
unfolding new
new-IsValid start n h = record {
  fits = omega (arith, length-replicate {A = ℕ} (n / word_size) 0);
  narrow = λ i w e. omega (arith, get_elem?-replicate (n / word_size) i w e);
}

pub covered-new : (start n : ℕ) → covered (new start n) ≡ n / word_size * word_size
unfolding new
covered-new start n = omega (arith, length-replicate {A = ℕ} (n / word_size) 0)
