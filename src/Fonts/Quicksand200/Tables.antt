-- ===== src/Fonts/Quicksand200/Tables.antt =====
-- The tables of fonts/quicksand_200.c over its glyphs' bytes.
use mathlib.Core.List.{flatten}
use popcorn.Prelude.{ℕ, List, [], ◌∷◌, some, none}
use popcorn.Prelude.Int.{ℤ, pos, negsuc}
use popcorn.Fonts.Format.{GlyphDsc, glyph, Cmap, sparse_tiny, KernPair, FontDsc, Font}
use popcorn.Fonts.Quicksand200.Glyph0050.{u_0050}
use popcorn.Fonts.Quicksand200.Glyph0063.{u_0063}
use popcorn.Fonts.Quicksand200.Glyph006E.{u_006e}
use popcorn.Fonts.Quicksand200.Glyph006F.{u_006f}
use popcorn.Fonts.Quicksand200.Glyph0070.{u_0070}
use popcorn.Fonts.Quicksand200.Glyph0072.{u_0072}

-- The pieces of `glyph_bitmap`, in its order; glyph 0 is reserved and has none.
unfoldable pub glyph_bitmaps : List (List ℕ)
unfolding u_0050 u_0063 u_006e u_006f u_0070 u_0072
glyph_bitmaps = [] ∷ u_0050 ∷ u_0063 ∷ u_006e ∷ u_006f ∷ u_0070 ∷ u_0072 ∷ []

unfoldable pub glyph_bitmap : List ℕ
unfolding glyph_bitmaps flatten
glyph_bitmap = flatten glyph_bitmaps

unfoldable pub glyph_dsc : List GlyphDsc
glyph_dsc =
    glyph 0 0 0 0 (pos 0) (pos 0)
    ∷ glyph 0 1917 95 140 (pos 17) (pos 0)
    ∷ glyph 3325 1661 89 108 (pos 9) (negsuc 1)
    ∷ glyph 5728 1869 88 106 (pos 14) (pos 0)
    ∷ glyph 8060 1955 104 108 (pos 9) (negsuc 1)
    ∷ glyph 10868 1965 100 145 (pos 14) (negsuc 39)
    ∷ glyph 14493 1283 63 106 (pos 14) (pos 0)
    ∷ []

unfoldable pub unicode_list_0 : List ℕ
unicode_list_0 = 0x0 ∷ 0x13 ∷ 0x1e ∷ 0x1f ∷ 0x20 ∷ 0x22 ∷ []

unfoldable pub cmaps : List Cmap
unfolding unicode_list_0
cmaps =
    record {
      range_start = 80;
      range_length = 35;
      glyph_id_start = 1;
      unicode_list = some unicode_list_0;
      glyph_id_ofs_list = none;
      list_length = 6;
      cmap_type = sparse_tiny;
    }
    ∷ []

unfoldable pub kern_pair_glyph_ids : List ℕ
kern_pair_glyph_ids = 1 ∷ 2 ∷ 1 ∷ 4 ∷ 6 ∷ 2 ∷ 6 ∷ 4 ∷ []

unfoldable pub kern_pair_values : List ℤ
kern_pair_values = negsuc 31 ∷ negsuc 31 ∷ negsuc 69 ∷ negsuc 69 ∷ []

unfoldable pub kern_pairs : KernPair
unfolding kern_pair_glyph_ids kern_pair_values
kern_pairs = record {
  glyph_ids = kern_pair_glyph_ids;
  values = kern_pair_values;
  pair_cnt = 4;
  glyph_ids_size = 0;
}

unfoldable pub font_dsc : FontDsc
unfolding glyph_bitmap glyph_dsc cmaps kern_pairs
font_dsc = record {
  glyph_bitmap = glyph_bitmap;
  glyph_dsc = glyph_dsc;
  cmaps = cmaps;
  kern_dsc = some kern_pairs;
  kern_scale = 16;
  cmap_num = 1;
  bpp = 2;
  kern_classes = 0;
  bitmap_format = 0;
}

unfoldable pub quicksand_200 : Font
unfolding font_dsc
quicksand_200 = record {
  line_height = 180;
  base_line = 40;
  underline_position = negsuc 19;
  underline_thickness = 10;
  dsc = font_dsc;
}
