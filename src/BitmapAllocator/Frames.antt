-- ===== src/BitmapAllocator/Frames.antt =====
-- The bitmap as a function from the frames it covers to their states.
use native.Mathlib.Decide.{ℕ_discrete}
use popcorn.Prelude.{
  ℕ, ◌+◌, ◌*◌, ◌/◌, ◌%◌, ◌^◌, ◌≤◌, ◌<◌, ◌≡◌, ◌∙◌, ap, refl, sym, ◌⊎◌, inl, inr, some, length,
  get_elem?, set, arith, ◌==◌, if◌then◌else◌, length-set, get_elem?-set_self, get_elem?-set_ne,
  get_elem?_of_lt,
}
use popcorn.Prelude.Bits.{
  bit, bit-clear, bit-set, bit_and-pow, not64, bit-below, bit-bit_and, lt_of_bits,
}
use popcorn.Prelude.Words.{usize_mod}
use popcorn.Prelude.Outcome.{ok, err}
use popcorn.Memory.{Frame, page_size, frame_add, frame_diff}
use popcorn.BitmapAllocator.{
  word_size, FrameState, allocated, free, BitmapAllocator, last_frame, frame_to_indices, write_bit,
  set_frame, get_frame,
}

-- The number of frames that the bitmap has a bit for.
abbrev pub covered : BitmapAllocator → ℕ
covered a = length a.bitmap * word_size

abbrev pub frame_at : BitmapAllocator → ℕ → Frame
frame_at a i = a.first_frame + i * page_size

-- The frames have addresses, and no bit is set above the first `word_size` of a word.
pub record IsValid (a : BitmapAllocator) : Type 0 where
  pub fits : a.first_frame + covered a * page_size < usize_mod
  pub narrow : (i w : ℕ) → get_elem? a.bitmap i ≡ some w → w < 2 ^ word_size

abbrev pub state_of_bit : ℕ → FrameState
state_of_bit b = if b == 0 then allocated else free

abbrev pub state_of_word : ℕ → ℕ → FrameState
state_of_word w b = state_of_bit (bit w b)

-- The bitmap with the `i`th frame's bit of its word `w` written.
abbrev pub with_word : BitmapAllocator → ℕ → ℕ → FrameState → BitmapAllocator
with_word a i w s = record a {
  bitmap = set a.bitmap (i / word_size) (write_bit s w (i % word_size));
}

last_frame_lem : (a : BitmapAllocator) → IsValid a → last_frame a ≡ ok (frame_at a (covered a))
unfolding last_frame frame_add
last_frame_lem a v = ground (arith, v.fits)

frame_to_indices_lem :
    (a : BitmapAllocator) (i : ℕ)
    → frame_to_indices a (frame_at a i) ≡ ok (i / word_size, i % word_size)
unfolding frame_to_indices frame_diff
frame_to_indices_lem a i = ground arith

pub get_frame-at :
    (a : BitmapAllocator) (i w : ℕ)
    → IsValid a
    → i < covered a
    → get_elem? a.bitmap (i / word_size) ≡ some w
    → get_frame a (frame_at a i) ≡ ok (state_of_word w (i % word_size))
unfolding get_frame
get_frame-at a i w v h e =
    ground (arith, last_frame_lem a v, frame_to_indices_lem a i, e, bit_and-pow w (i % word_size))

pub set_frame-at :
    (a : BitmapAllocator) (i w : ℕ) (s : FrameState)
    → IsValid a
    → i < covered a
    → get_elem? a.bitmap (i / word_size) ≡ some w
    → set_frame a (frame_at a i) s ≡ ok (with_word a i w s)
unfolding set_frame
set_frame-at a i w s v h e = ground (arith, last_frame_lem a v, frame_to_indices_lem a i, e)

pub state-write_bit :
    (s : FrameState) (w b c : ℕ)
    → b < word_size
    → c < word_size
    → state_of_word (write_bit s w b) c ≡ (if b == c then s else state_of_word w c)
state-write_bit allocated w b c hb hc = ground (arith, bit-clear w b c (omega arith) (omega arith))
state-write_bit free w b c hb hc = ground (arith, bit-set w b c)

write_bit-narrow :
    (s : FrameState) (w b : ℕ) → w < 2 ^ word_size → b < word_size → write_bit s w b < 2 ^ word_size
write_bit-narrow allocated w b hw hb =
    lt_of_bits (write_bit allocated w b) (write_bit allocated w b) word_size (omega arith)
      (λ j h. ground (arith, bit-bit_and w (not64 (2 ^ b)) j, bit-below word_size w j hw h))
write_bit-narrow free w b hw hb =
    lt_of_bits (write_bit free w b) (write_bit free w b) word_size (omega arith)
      (λ j h. ground (arith, bit-set w b j, bit-below word_size w j hw h))

-- The word that holds the bit of the `i`th frame.
pub word_of :
    (a : BitmapAllocator) (i : ℕ)
    → i < covered a
    → (w : ℕ) × (get_elem? a.bitmap (i / word_size) ≡ some w)
word_of a i h = get_elem?_of_lt a.bitmap (i / word_size) (omega arith)

write-IsValid :
    (a : BitmapAllocator) (i w : ℕ) (s : FrameState)
    → IsValid a
    → i < covered a
    → get_elem? a.bitmap (i / word_size) ≡ some w
    → IsValid (with_word a i w s)
write-IsValid a i w s v h e = record {
  fits = omega (arith, v.fits, length-set a.bitmap (i / word_size) (write_bit s w (i % word_size)));
  narrow = λ j x f. elim (ℕ_discrete (i / word_size) j) [
    | yes same ↦ ground (
      arith,
      write_bit-narrow s w (i % word_size) (v.narrow (i / word_size) w e) (omega arith),
      get_elem?-set_self a.bitmap (i / word_size) (write_bit s w (i % word_size)) (omega arith),
    )
    | no other ↦
        v.narrow j x (sym (get_elem?-set_ne a.bitmap (write_bit s w (i % word_size)) other) ∙ f)
  ];
}

-- What a write of one frame's state has done.
pub record Wrote (a : BitmapAllocator) (i : ℕ) (s : FrameState) (b : BitmapAllocator) : Type 0 where
  pub valid : IsValid b
  pub same_start : b.first_frame ≡ a.first_frame
  pub same_size : covered b ≡ covered a
  pub states :
      (j : ℕ)
      → j < covered a
      → get_frame b (frame_at a j) ≡ (if i == j then ok s else get_frame a (frame_at a j))

set_frame-states :
    (a : BitmapAllocator) (i j w x : ℕ) (s : FrameState)
    → IsValid a
    → i < covered a
    → j < covered a
    → get_elem? a.bitmap (i / word_size) ≡ some w
    → get_elem? a.bitmap (j / word_size) ≡ some x
    → get_frame (with_word a i w s) (frame_at a j)
      ≡ (if i == j then ok s else get_frame a (frame_at a j))
set_frame-states a i j w x s v hi hj ei ej =
    let written = write_bit s w (i % word_size) in
    let b = with_word a i w s in
    let size = length-set a.bitmap (i / word_size) written in
    elim (ℕ_discrete (i / word_size) (j / word_size)) [
      | yes same ↦ ground (
        arith,
        get_frame-at b j written (write-IsValid a i w s v hi ei) (omega (arith, size)) (
            ap (get_elem? b.bitmap) (sym same)
            ∙ get_elem?-set_self a.bitmap (i / word_size) written (omega arith)),
        get_frame-at a j w v hj (ap (get_elem? a.bitmap) (sym same) ∙ ei),
        state-write_bit s w (i % word_size) (j % word_size) (omega arith) (omega arith),
      )
      | no other ↦ ground (
        arith,
        get_frame-at b j x (write-IsValid a i w s v hi ei) (omega (arith, size))
            (get_elem?-set_ne a.bitmap written other ∙ ej),
        get_frame-at a j x v hj ej,
      )
    ]

pub Wrote-with_word :
    (a : BitmapAllocator) (i w : ℕ) (s : FrameState)
    → IsValid a
    → i < covered a
    → get_elem? a.bitmap (i / word_size) ≡ some w
    → Wrote a i s (with_word a i w s)
Wrote-with_word a i w s v hi e = record {
  valid = write-IsValid a i w s v hi e;
  same_start = refl;
  same_size = omega (arith, length-set a.bitmap (i / word_size) (write_bit s w (i % word_size)));
  states = λ j hj. set_frame-states a i j w (word_of a j hj).0 s v hi hj e (word_of a j hj).1;
}

-- Writing the state of a frame that the bitmap covers succeeds, and then that frame has the state
-- and every other frame the state that it had.
pub set_frame-Wrote :
    (a : BitmapAllocator) (i : ℕ) (s : FrameState)
    → IsValid a
    → i < covered a
    → (b : BitmapAllocator) × (set_frame a (frame_at a i) s ≡ ok b) × Wrote a i s b
set_frame-Wrote a i s v hi =
    let (w, e) = word_of a i hi in
    (with_word a i w s, set_frame-at a i w s v hi e, Wrote-with_word a i w s v hi e)

-- A frame outside the bitmap has no state, and none can be written.
pub set_frame-get_frame-outside :
    (a : BitmapAllocator) (f : Frame) (s : FrameState)
    → IsValid a
    → (f < a.first_frame) ⊎ (frame_at a (covered a) ≤ f)
    → (set_frame a f s ≡ err) × (get_frame a f ≡ err)
unfolding set_frame get_frame
set_frame-get_frame-outside a f s v (inl low) = ground (arith, last_frame_lem a v)
set_frame-get_frame-outside a f s v (inr high) = ground (arith, last_frame_lem a v)
