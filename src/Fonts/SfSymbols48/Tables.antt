-- ===== src/Fonts/SfSymbols48/Tables.antt =====
-- The tables of fonts/sf_symbols_48.c over its glyphs' bytes.
use mathlib.Core.List.{flatten}
use popcorn.Prelude.{ℕ, List, [], ◌∷◌, some, none}
use popcorn.Prelude.Int.{pos, negsuc}
use popcorn.Fonts.Format.{GlyphDsc, glyph, Cmap, sparse_tiny, FontDsc, Font}
use popcorn.Fonts.SfSymbols48.Glyph100148.{u_100148}
use popcorn.Fonts.SfSymbols48.Glyph1001A8.{u_1001a8}

-- The pieces of `glyph_bitmap`, in its order; glyph 0 is reserved and has none.
unfoldable pub glyph_bitmaps : List (List ℕ)
unfolding u_100148 u_1001a8
glyph_bitmaps = [] ∷ u_100148 ∷ u_1001a8 ∷ []

unfoldable pub glyph_bitmap : List ℕ
unfolding glyph_bitmaps flatten
glyph_bitmap = flatten glyph_bitmaps

unfoldable pub glyph_dsc : List GlyphDsc
glyph_dsc =
    glyph 0 0 0 0 (pos 0) (pos 0)
    ∷ glyph 0 797 42 51 (pos 4) (negsuc 5)
    ∷ glyph 1071 899 49 50 (pos 4) (negsuc 6)
    ∷ []

unfoldable pub unicode_list_0 : List ℕ
unicode_list_0 = 0x0 ∷ 0x60 ∷ []

unfoldable pub cmaps : List Cmap
unfolding unicode_list_0
cmaps =
    record {
      range_start = 1048904;
      range_length = 97;
      glyph_id_start = 1;
      unicode_list = some unicode_list_0;
      glyph_id_ofs_list = none;
      list_length = 2;
      cmap_type = sparse_tiny;
    }
    ∷ []

unfoldable pub font_dsc : FontDsc
unfolding glyph_bitmap glyph_dsc cmaps
font_dsc = record {
  glyph_bitmap = glyph_bitmap;
  glyph_dsc = glyph_dsc;
  cmaps = cmaps;
  kern_dsc = none;
  kern_scale = 0;
  cmap_num = 1;
  bpp = 4;
  kern_classes = 0;
  bitmap_format = 0;
}

unfoldable pub sf_symbols_48 : Font
unfolding font_dsc
sf_symbols_48 = record {
  line_height = 52;
  base_line = 7;
  underline_position = negsuc 6;
  underline_thickness = 3;
  dsc = font_dsc;
}
