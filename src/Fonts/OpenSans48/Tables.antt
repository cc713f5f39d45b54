-- ===== src/Fonts/OpenSans48/Tables.antt =====
-- The tables of fonts/open_sans_48.c over its glyphs' bytes.
use mathlib.Core.List.{flatten}
use popcorn.Prelude.{ℕ, List, [], ◌∷◌, none}
use popcorn.Prelude.Int.{pos, negsuc}
use popcorn.Fonts.Format.{GlyphDsc, glyph, Cmap, format0_tiny, FontDsc, Font}
use popcorn.Fonts.OpenSans48.Glyphs20.{
  u_0020, u_0021, u_0022, u_0023, u_0024, u_0025, u_0026, u_0027, u_0028, u_0029, u_002a, u_002b,
  u_002c, u_002d, u_002e, u_002f,
}
use popcorn.Fonts.OpenSans48.Glyphs30.{
  u_0030, u_0031, u_0032, u_0033, u_0034, u_0035, u_0036, u_0037, u_0038, u_0039, u_003a, u_003b,
  u_003c, u_003d, u_003e, u_003f,
}
use popcorn.Fonts.OpenSans48.Glyphs40.{
  u_0040, u_0041, u_0042, u_0043, u_0044, u_0045, u_0046, u_0047, u_0048, u_0049, u_004a, u_004b,
  u_004c, u_004d, u_004e, u_004f,
}
use popcorn.Fonts.OpenSans48.Glyphs50.{
  u_0050, u_0051, u_0052, u_0053, u_0054, u_0055, u_0056, u_0057, u_0058, u_0059, u_005a, u_005b,
  u_005c, u_005d, u_005e, u_005f,
}
use popcorn.Fonts.OpenSans48.Glyphs60.{
  u_0060, u_0061, u_0062, u_0063, u_0064, u_0065, u_0066, u_0067, u_0068, u_0069, u_006a, u_006b,
  u_006c, u_006d, u_006e, u_006f,
}
use popcorn.Fonts.OpenSans48.Glyphs70.{
  u_0070, u_0071, u_0072, u_0073, u_0074, u_0075, u_0076, u_0077, u_0078, u_0079, u_007a, u_007b,
  u_007c, u_007d, u_007e,
}

-- The pieces of `glyph_bitmap`, in its order; glyph 0 is reserved and has none.
unfoldable pub glyph_bitmaps : List (List ℕ)
unfolding u_0020 u_0021 u_0022 u_0023 u_0024 u_0025 u_0026 u_0027 u_0028 u_0029 u_002a u_002b u_002c
    u_002d u_002e u_002f u_0030 u_0031 u_0032 u_0033 u_0034 u_0035 u_0036 u_0037 u_0038 u_0039
    u_003a u_003b u_003c u_003d u_003e u_003f u_0040 u_0041 u_0042 u_0043 u_0044 u_0045 u_0046
    u_0047 u_0048 u_0049 u_004a u_004b u_004c u_004d u_004e u_004f u_0050 u_0051 u_0052 u_0053
    u_0054 u_0055 u_0056 u_0057 u_0058 u_0059 u_005a u_005b u_005c u_005d u_005e u_005f u_0060
    u_0061 u_0062 u_0063 u_0064 u_0065 u_0066 u_0067 u_0068 u_0069 u_006a u_006b u_006c u_006d
    u_006e u_006f u_0070 u_0071 u_0072 u_0073 u_0074 u_0075 u_0076 u_0077 u_0078 u_0079 u_007a
    u_007b u_007c u_007d u_007e
glyph_bitmaps =
    [] ∷ u_0020 ∷ u_0021 ∷ u_0022 ∷ u_0023 ∷ u_0024 ∷ u_0025 ∷ u_0026 ∷ u_0027 ∷ u_0028 ∷ u_0029
    ∷ u_002a ∷ u_002b ∷ u_002c ∷ u_002d ∷ u_002e ∷ u_002f ∷ u_0030 ∷ u_0031 ∷ u_0032 ∷ u_0033
    ∷ u_0034 ∷ u_0035 ∷ u_0036 ∷ u_0037 ∷ u_0038 ∷ u_0039 ∷ u_003a ∷ u_003b ∷ u_003c ∷ u_003d
    ∷ u_003e ∷ u_003f ∷ u_0040 ∷ u_0041 ∷ u_0042 ∷ u_0043 ∷ u_0044 ∷ u_0045 ∷ u_0046 ∷ u_0047
    ∷ u_0048 ∷ u_0049 ∷ u_004a ∷ u_004b ∷ u_004c ∷ u_004d ∷ u_004e ∷ u_004f ∷ u_0050 ∷ u_0051
    ∷ u_0052 ∷ u_0053 ∷ u_0054 ∷ u_0055 ∷ u_0056 ∷ u_0057 ∷ u_0058 ∷ u_0059 ∷ u_005a ∷ u_005b
    ∷ u_005c ∷ u_005d ∷ u_005e ∷ u_005f ∷ u_0060 ∷ u_0061 ∷ u_0062 ∷ u_0063 ∷ u_0064 ∷ u_0065
    ∷ u_0066 ∷ u_0067 ∷ u_0068 ∷ u_0069 ∷ u_006a ∷ u_006b ∷ u_006c ∷ u_006d ∷ u_006e ∷ u_006f
    ∷ u_0070 ∷ u_0071 ∷ u_0072 ∷ u_0073 ∷ u_0074 ∷ u_0075 ∷ u_0076 ∷ u_0077 ∷ u_0078 ∷ u_0079
    ∷ u_007a ∷ u_007b ∷ u_007c ∷ u_007d ∷ u_007e ∷ []

unfoldable pub glyph_bitmap : List ℕ
unfolding glyph_bitmaps flatten
glyph_bitmap = flatten glyph_bitmaps

unfoldable pub glyph_dsc : List GlyphDsc
glyph_dsc =
    glyph 0 0 0 0 (pos 0) (pos 0)
    ∷ glyph 0 170 0 0 (pos 0) (pos 0)
    ∷ glyph 0 195 6 34 (pos 3) (pos 0)
    ∷ glyph 51 309 15 13 (pos 2) (pos 21)
    ∷ glyph 100 429 25 34 (pos 1) (pos 0)
    ∷ glyph 313 387 20 39 (pos 2) (negsuc 2)
    ∷ glyph 508 587 33 35 (pos 2) (pos 0)
    ∷ glyph 797 472 29 35 (pos 1) (pos 0)
    ∷ glyph 1051 170 6 13 (pos 2) (pos 21)
    ∷ glyph 1071 230 12 42 (pos 2) (negsuc 7)
    ∷ glyph 1197 230 12 42 (pos 1) (negsuc 7)
    ∷ glyph 1323 366 21 19 (pos 1) (pos 17)
    ∷ glyph 1423 388 22 23 (pos 1) (pos 5)
    ∷ glyph 1550 190 8 12 (pos 1) (negsuc 5)
    ∷ glyph 1574 231 12 5 (pos 1) (pos 11)
    ∷ glyph 1589 191 6 7 (pos 3) (pos 0)
    ∷ glyph 1600 290 18 34 (pos 0) (pos 0)
    ∷ glyph 1753 387 21 35 (pos 2) (pos 0)
    ∷ glyph 1937 387 14 34 (pos 3) (pos 0)
    ∷ glyph 2056 387 21 35 (pos 1) (pos 0)
    ∷ glyph 2240 387 21 35 (pos 1) (pos 0)
    ∷ glyph 2424 387 24 34 (pos 0) (pos 0)
    ∷ glyph 2628 387 20 34 (pos 2) (pos 0)
    ∷ glyph 2798 387 21 35 (pos 2) (pos 0)
    ∷ glyph 2982 387 22 34 (pos 1) (pos 0)
    ∷ glyph 3169 387 22 35 (pos 1) (pos 0)
    ∷ glyph 3362 387 21 35 (pos 1) (pos 0)
    ∷ glyph 3546 192 6 26 (pos 3) (pos 0)
    ∷ glyph 3585 192 8 32 (pos 1) (negsuc 5)
    ∷ glyph 3649 388 22 24 (pos 1) (pos 5)
    ∷ glyph 3781 388 21 14 (pos 2) (pos 10)
    ∷ glyph 3855 388 22 24 (pos 1) (pos 5)
    ∷ glyph 3987 296 18 35 (pos 0) (pos 0)
    ∷ glyph 4145 600 34 39 (pos 2) (negsuc 4)
    ∷ glyph 4477 426 27 34 (pos 0) (pos 0)
    ∷ glyph 4707 437 22 34 (pos 4) (pos 0)
    ∷ glyph 4894 416 23 35 (pos 2) (pos 0)
    ∷ glyph 5096 481 24 34 (pos 4) (pos 0)
    ∷ glyph 5300 370 17 34 (pos 4) (pos 0)
    ∷ glyph 5445 350 17 34 (pos 4) (pos 0)
    ∷ glyph 5590 490 26 35 (pos 2) (pos 0)
    ∷ glyph 5818 494 23 34 (pos 4) (pos 0)
    ∷ glyph 6014 202 5 34 (pos 4) (pos 0)
    ∷ glyph 6057 198 13 43 (negsuc 3) (negsuc 8)
    ∷ glyph 6197 416 23 34 (pos 4) (pos 0)
    ∷ glyph 6393 350 17 34 (pos 4) (pos 0)
    ∷ glyph 6538 628 32 34 (pos 4) (pos 0)
    ∷ glyph 6810 516 25 34 (pos 4) (pos 0)
    ∷ glyph 7023 515 28 35 (pos 2) (pos 0)
    ∷ glyph 7268 407 20 34 (pos 4) (pos 0)
    ∷ glyph 7438 515 28 43 (pos 2) (negsuc 7)
    ∷ glyph 7739 421 22 34 (pos 4) (pos 0)
    ∷ glyph 7926 371 20 35 (pos 2) (pos 0)
    ∷ glyph 8101 364 23 34 (pos 0) (pos 0)
    ∷ glyph 8297 486 24 34 (pos 3) (pos 0)
    ∷ glyph 8501 408 26 34 (pos 0) (pos 0)
    ∷ glyph 8722 638 40 34 (pos 0) (pos 0)
    ∷ glyph 9062 389 25 34 (pos 0) (pos 0)
    ∷ glyph 9275 377 24 34 (pos 0) (pos 0)
    ∷ glyph 9479 365 21 34 (pos 1) (pos 0)
    ∷ glyph 9658 245 12 42 (pos 3) (negsuc 7)
    ∷ glyph 9784 290 18 34 (pos 0) (pos 0)
    ∷ glyph 9937 245 11 42 (pos 1) (negsuc 7)
    ∷ glyph 10053 394 23 20 (pos 1) (pos 14)
    ∷ glyph 10168 336 23 4 (negsuc 0) (negsuc 6)
    ∷ glyph 10191 220 11 8 (pos 1) (pos 29)
    ∷ glyph 10213 381 20 26 (pos 1) (pos 0)
    ∷ glyph 10343 417 21 36 (pos 3) (pos 0)
    ∷ glyph 10532 324 18 26 (pos 2) (pos 0)
    ∷ glyph 10649 417 21 36 (pos 2) (pos 0)
    ∷ glyph 10838 381 20 26 (pos 2) (pos 0)
    ∷ glyph 10968 234 17 36 (pos 0) (pos 0)
    ∷ glyph 11121 366 23 37 (pos 0) (negsuc 10)
    ∷ glyph 11334 418 20 36 (pos 3) (pos 0)
    ∷ glyph 11514 185 6 36 (pos 3) (pos 0)
    ∷ glyph 11568 185 11 47 (negsuc 1) (negsuc 10)
    ∷ glyph 11698 369 20 36 (pos 3) (pos 0)
    ∷ glyph 11878 185 6 36 (pos 3) (pos 0)
    ∷ glyph 11932 627 33 26 (pos 3) (pos 0)
    ∷ glyph 12147 418 20 26 (pos 3) (pos 0)
    ∷ glyph 12277 407 22 26 (pos 2) (pos 0)
    ∷ glyph 12420 417 21 37 (pos 3) (negsuc 10)
    ∷ glyph 12615 417 21 37 (pos 2) (negsuc 10)
    ∷ glyph 12810 281 14 26 (pos 3) (pos 0)
    ∷ glyph 12901 318 18 26 (pos 1) (pos 0)
    ∷ glyph 13018 248 15 32 (pos 0) (pos 0)
    ∷ glyph 13138 418 20 26 (pos 3) (pos 0)
    ∷ glyph 13268 345 22 26 (pos 0) (pos 0)
    ∷ glyph 13411 542 34 26 (pos 0) (pos 0)
    ∷ glyph 13632 354 22 26 (pos 0) (pos 0)
    ∷ glyph 13775 347 22 37 (pos 0) (negsuc 10)
    ∷ glyph 13979 302 17 26 (pos 1) (pos 0)
    ∷ glyph 14090 285 16 42 (pos 1) (negsuc 7)
    ∷ glyph 14258 367 5 48 (pos 9) (negsuc 10)
    ∷ glyph 14318 285 16 42 (pos 1) (negsuc 7)
    ∷ glyph 14486 388 22 8 (pos 1) (pos 13)
    ∷ []

unfoldable pub cmaps : List Cmap
cmaps =
    record {
      range_start = 32;
      range_length = 95;
      glyph_id_start = 1;
      unicode_list = none;
      glyph_id_ofs_list = none;
      list_length = 0;
      cmap_type = format0_tiny;
    }
    ∷ []

unfoldable pub font_dsc : FontDsc
unfolding glyph_bitmap glyph_dsc cmaps
font_dsc = record {
  glyph_bitmap = glyph_bitmap;
  glyph_dsc = glyph_dsc;
  cmaps = cmaps;
  kern_dsc = none;
  kern_scale = 0;
  cmap_num = 1;
  bpp = 2;
  kern_classes = 0;
  bitmap_format = 0;
}

unfoldable pub open_sans_48 : Font
unfolding font_dsc
open_sans_48 = record {
  line_height = 48;
  base_line = 11;
  underline_position = negsuc 1;
  underline_thickness = 1;
  dsc = font_dsc;
}
