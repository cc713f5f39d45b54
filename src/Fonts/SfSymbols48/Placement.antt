-- ===== src/Fonts/SfSymbols48/Placement.antt =====
-- The tables of fonts/sf_symbols_48.c fit together: both symbols are found at their code points,
-- and their bytes are where their descriptions say.
use popcorn.Prelude.{
  ℕ, ◌+◌, ◌<◌, ◌≡◌, refl, true, some, List, length, get_elem?, get_elem?_of_lt, lt_of_get_elem?,
  arith, ltb, ap, ◌∙◌,
}
use popcorn.Prelude.Checks.{all_of, all_of_sound}
use popcorn.Prelude.Int.{pos, ◌+ℤ◌, ◌≤ℤ◌}
use popcorn.Fonts.Format.{
  GlyphDsc, Cmap, ReadsSparse, is_ascending, Placed, is_packed, is_packed-Placed, in_line,
  in_line_lem,
}
use popcorn.Fonts.SfSymbols48.Tables.{
  glyph_bitmaps, glyph_bitmap, glyph_dsc, unicode_list_0, cmaps, font_dsc, sf_symbols_48,
}

packed : is_packed 4 0 glyph_dsc glyph_bitmaps ≡ true
unfolding is_packed glyph_dsc glyph_bitmaps
packed = refl

-- The bytes that follow a symbol's index are its own, as many as its box of four-bit pixels takes.
pub symbol-Placed :
    (id : ℕ) (d : GlyphDsc) (b : List ℕ)
    → get_elem? glyph_dsc id ≡ some d
    → get_elem? glyph_bitmaps id ≡ some b
    → Placed font_dsc.bpp 0 font_dsc.glyph_bitmap d b
unfolding glyph_bitmap font_dsc
symbol-Placed id d b = is_packed-Placed 4 0 glyph_dsc glyph_bitmaps id d b packed

lengths : (length unicode_list_0 ≡ 2) × (length glyph_dsc ≡ 3) × (length glyph_bitmaps ≡ 3)
unfolding unicode_list_0 glyph_dsc glyph_bitmaps
lengths = (refl, refl, refl)

offsets_ascend : is_ascending unicode_list_0 ≡ true
unfolding is_ascending unicode_list_0
offsets_ascend = refl

offsets_in_range : all_of (λ u. ltb u 97) unicode_list_0 ≡ true
unfolding all_of unicode_list_0
offsets_in_range = refl

-- Whatever reads the character map in that way finds for the code point of each listed offset the
-- description and the bytes of the symbol of that place, and the bytes are where it says.
pub listed_has_symbol :
    (glyph_id : Cmap → ℕ → ℕ) (m : Cmap) (i u : ℕ)
    → ReadsSparse glyph_id
    → get_elem? font_dsc.cmaps 0 ≡ some m
    → get_elem? unicode_list_0 i ≡ some u
    → (glyph_id m (1048904 + u) ≡ i + 1)
      × (d : GlyphDsc) × (b : List ℕ) × (get_elem? font_dsc.glyph_dsc (glyph_id m (1048904 + u))
          ≡ some d)
      × (get_elem? glyph_bitmaps (i + 1) ≡ some b)
      × Placed font_dsc.bpp 0 font_dsc.glyph_bitmap d b
unfolding font_dsc cmaps
listed_has_symbol glyph_id m i u reads e at_u =
    let near : i < length unicode_list_0 = lt_of_get_elem? unicode_list_0 i at_u in
    let (d, at_d) = get_elem?_of_lt glyph_dsc (i + 1) (omega (arith, lengths)) in
    let (b, at_b) = get_elem?_of_lt glyph_bitmaps (i + 1) (omega (arith, lengths)) in
    let small : ltb u 97 ≡ true =
      all_of_sound (λ v. ltb v 97) unicode_list_0 i offsets_in_range at_u in
    let own : glyph_id m (1048904 + u) ≡ i + 1 =
      ground (arith, reads m unicode_list_0 i u, offsets_ascend, lengths) in
    (own, d, b, ap (get_elem? glyph_dsc) own ∙ at_d, at_b, symbol-Placed (i + 1) d b at_d at_b)

all_in_line : all_of (in_line 52 7) glyph_dsc ≡ true
unfolding all_of in_line glyph_dsc ◌+ℤ◌
all_in_line = refl

-- No symbol's box reaches below the line or above it.
pub symbol-in_line :
    (id : ℕ) (d : GlyphDsc)
    → get_elem? glyph_dsc id ≡ some d
    → (pos 0 ≤ℤ d.ofs_y +ℤ pos sf_symbols_48.base_line)
      × (d.ofs_y +ℤ pos d.box_h +ℤ pos sf_symbols_48.base_line ≤ℤ pos sf_symbols_48.line_height)
unfolding sf_symbols_48
symbol-in_line id d e = in_line_lem 52 7 d (all_of_sound (in_line 52 7) glyph_dsc id all_in_line e)
