-- ===== src/Fonts/Format/Packed.antt =====
-- When a glyph table and its bitmap fit together: the glyphs' bytes follow one another without a
-- gap, each as many as its box of pixels takes, and each box lies within the line.
use mathlib.Core.List.{flatten}
use popcorn.Prelude.{
  ℕ, zero, suc, ◌+◌, ◌-◌, ◌*◌, ◌/◌, ◌≤◌, ◌≡◌, refl, ap, Bool, true, false, ◌&&◌, ◌==◌, ◌∙◌, some,
  List, [], ◌∷◌, ◌++◌, length, get_elem?, take, drop, length-append, arith,
}
use popcorn.Prelude.Int.{pos, ◌+ℤ◌, ◌≤ℤ◌, leb_ℤ}
use popcorn.Fonts.Format.Types.{GlyphDsc}

-- The bytes of a box whose pixels of `bpp` bits stand in one row after another.
abbrev pub box_bytes : ℕ → GlyphDsc → ℕ
box_bytes bpp d = (d.box_w * d.box_h * bpp + 7) / 8

-- From offset `off` on, the descriptions `ds` take the pieces `bs` in order.
unfoldable pub is_packed : ℕ → ℕ → List GlyphDsc → List (List ℕ) → Bool
is_packed bpp off [] [] = true
is_packed bpp off [] (b ∷ bs) = false
is_packed bpp off (d ∷ ds) [] = false
is_packed bpp off (d ∷ ds) (b ∷ bs) =
    d.bitmap_index == off && length b == box_bytes bpp d && is_packed bpp (off + length b) ds bs

abbrev pub slice {ℓ} : {A : Type ℓ} → ℕ → ℕ → List A → List A
slice start count xs = take count (drop start xs)

drop-append {ℓ} :
    {A : Type ℓ} (xs ys : List A) (n : ℕ)
    → length xs ≤ n
    → drop n (xs ++ ys) ≡ drop (n - length xs) ys
drop-append [] ys n h = ap (λ k. drop k ys) (omega arith)
drop-append (x ∷ xs) ys zero h = absurd (omega arith)
drop-append (x ∷ xs) ys (suc n) h =
    drop-append xs ys n (omega arith) ∙ ap (λ k. drop k ys) (omega arith)

take-append {ℓ} : {A : Type ℓ} (xs ys : List A) → take (length xs) (xs ++ ys) ≡ xs
take-append [] ys = refl
take-append (x ∷ xs) ys = ap (λ l. x ∷ l) (take-append xs ys)

slice_first {ℓ} :
    {A : Type ℓ} (n : ℕ) (xs ys : List A) → n ≡ 0 → slice n (length xs) (xs ++ ys) ≡ xs
slice_first n xs ys e = ap (λ k. slice k (length xs) (xs ++ ys)) e ∙ take-append xs ys

-- What a packed table says of its glyph `i`.
pub record Placed (bpp off : ℕ) (data_bytes : List ℕ) (d : GlyphDsc) (b : List ℕ) : Type 0 where
  pub after : off ≤ d.bitmap_index
  pub count : length b ≡ box_bytes bpp d
  pub within : d.bitmap_index + length b ≤ off + length data_bytes
  pub bytes : slice (d.bitmap_index - off) (length b) data_bytes ≡ b

pub is_packed-Placed :
    (bpp off : ℕ) (ds : List GlyphDsc) (bs : List (List ℕ)) (i : ℕ) (d : GlyphDsc) (b : List ℕ)
    → is_packed bpp off ds bs ≡ true
    → get_elem? ds i ≡ some d
    → get_elem? bs i ≡ some b
    → Placed bpp off (flatten bs) d b
unfolding is_packed flatten
is_packed-Placed bpp off [] bs i d b h e f = ground arith
is_packed-Placed bpp off (c ∷ ds) [] i d b h e f = ground arith
is_packed-Placed bpp off (c ∷ ds) (a ∷ bs) zero d b h e f =
    ground (arith, slice_first (c.bitmap_index - off) a (flatten bs), length-append a (flatten bs))
is_packed-Placed bpp off (c ∷ ds) (a ∷ bs) (suc i) d b h e f =
    let p = is_packed-Placed bpp (off + length a) ds bs i d b (ground arith) e f in
    record {
      after = omega (arith, p.after);
      count = p.count;
      within = omega (arith, p.within, length-append a (flatten bs));
      bytes =
          ap (take (length b))
            (drop-append a (flatten bs) (d.bitmap_index - off) (omega (arith, p.after)))
          ∙ ap (λ k. slice k (length b) (flatten bs)) (omega arith)
          ∙ p.bytes;
    }

-- A glyph's box lies between the descent and the ascent of a line.
unfoldable pub in_line : ℕ → ℕ → GlyphDsc → Bool
in_line line_height base_line d =
    leb_ℤ (pos 0) (d.ofs_y +ℤ pos base_line)
    && leb_ℤ (d.ofs_y +ℤ pos d.box_h +ℤ pos base_line) (pos line_height)

pub in_line_lem :
    (line_height base_line : ℕ) (d : GlyphDsc)
    → in_line line_height base_line d ≡ true
    → (pos 0 ≤ℤ d.ofs_y +ℤ pos base_line)
      × (d.ofs_y +ℤ pos d.box_h +ℤ pos base_line ≤ℤ pos line_height)
unfolding in_line
in_line_lem line_height base_line d h = ground arith
