-- ===== src/Fonts/Quicksand200/Placement.antt =====
-- The tables of fonts/quicksand_200.c fit together: the letters are found at their code points, their
-- bytes are where their descriptions say, and the kerning pairs are pairs of its glyphs.
use popcorn.Prelude.{
  ℕ, ◌+◌, ◌*◌, ◌<◌, ◌≡◌, refl, ap, ◌∙◌, true, some, List, length, get_elem?, arith, ltb,
}
use popcorn.Prelude.Checks.{all_of, all_of_sound}
use popcorn.Fonts.Format.{GlyphDsc, Cmap, ReadsSparse, is_ascending, listed_lem, Placed, is_packed}
use popcorn.Fonts.Quicksand200.Tables.{
  glyph_bitmaps, glyph_bitmap, glyph_dsc, unicode_list_0, cmaps, font_dsc, kern_pair_glyph_ids,
  kern_pair_values, kern_pairs,
}

packed : is_packed 2 0 glyph_dsc glyph_bitmaps ≡ true
unfolding is_packed glyph_dsc glyph_bitmaps
packed = refl

sizes : (length glyph_dsc ≡ 7) × (length glyph_bitmaps ≡ 7) × (length unicode_list_0 ≡ 6)
unfolding glyph_dsc glyph_bitmaps unicode_list_0
sizes = (refl, refl, refl)

offsets : (is_ascending unicode_list_0 ≡ true) × (all_of (λ v. ltb v 35) unicode_list_0 ≡ true)
unfolding is_ascending all_of unicode_list_0
offsets = (refl, refl)

-- Whatever reads the character map as its format prescribes finds for the code point of each listed
-- offset the description and the bytes of the letter of that place, and the bytes are where it says.
pub listed_has_letter :
    (glyph_id : Cmap → ℕ → ℕ) (m : Cmap) (i u : ℕ)
    → ReadsSparse glyph_id
    → get_elem? font_dsc.cmaps 0 ≡ some m
    → get_elem? unicode_list_0 i ≡ some u
    → (glyph_id m (m.range_start + u) ≡ i + 1)
      × (d : GlyphDsc) × (b : List ℕ) × (get_elem? font_dsc.glyph_dsc
            (glyph_id m (m.range_start + u))
          ≡ some d)
      × (get_elem? glyph_bitmaps (i + 1) ≡ some b)
      × Placed font_dsc.bpp 0 font_dsc.glyph_bitmap d b
unfolding font_dsc cmaps glyph_bitmap
listed_has_letter glyph_id m i u reads e at_u =
    let range : m.range_length ≡ 35 = ground (arith, e) in
    listed_lem glyph_id m unicode_list_0 2 glyph_dsc glyph_bitmaps i u reads
      (ground (arith, e), ground (arith, e), ground (arith, e, sizes), ground (arith, e)) offsets.0
      (ap (λ k. all_of (λ v. ltb v k) unicode_list_0) range ∙ offsets.1)
      (omega (arith, sizes), omega (arith, sizes)) packed at_u

all_glyphs : all_of (λ k. ltb k 7) kern_pair_glyph_ids ≡ true
unfolding all_of kern_pair_glyph_ids
all_glyphs = refl

-- The kerning table has a left and a right glyph and a value for each of its pairs, and its glyphs
-- are in the table of glyphs.
pub kern_pairs_lem :
    (length kern_pairs.glyph_ids ≡ 2 * kern_pairs.pair_cnt)
    × (length kern_pairs.values ≡ kern_pairs.pair_cnt)
    × ((i k : ℕ) → get_elem? kern_pairs.glyph_ids i ≡ some k → k < length glyph_dsc)
unfolding kern_pairs kern_pair_glyph_ids kern_pair_values
kern_pairs_lem = (
  refl,
  refl,
  λ i k e. ground (arith, all_of_sound (λ k. ltb k 7) kern_pair_glyph_ids i all_glyphs e, sizes),
)
