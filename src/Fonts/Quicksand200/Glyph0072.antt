-- ===== src/Fonts/Quicksand200/Glyph0072.antt =====
-- The bytes of the glyph U+0072 in fonts/quicksand_200.c, in parts of about 150 lines.
use popcorn.Prelude.{ℕ, List, [], ◌∷◌, ◌++◌}
use popcorn.Fonts.Format.{runs}

unfoldable u_0072_0 : List ℕ
u_0072_0 = runs (
    (11, 0x0)
    ∷ (1, 0x6b)
    ∷ (1, 0xff)
    ∷ (1, 0xf9)
    ∷ (11, 0x0)
    ∷ (1, 0x1)
    ∷ (1, 0xbf)
    ∷ (3, 0xff)
    ∷ (1, 0xd0)
    ∷ (2, 0x0)
    ∷ (1, 0x15)
    ∷ (1, 0x40)
    ∷ (6, 0x0)
    ∷ (1, 0xbf)
    ∷ (4, 0xff)
    ∷ (1, 0xf0)
    ∷ (1, 0x0)
    ∷ (1, 0xb)
    ∷ (1, 0xff)
    ∷ (1, 0xe0)
    ∷ (5, 0x0)
    ∷ (1, 0x7f)
    ∷ (5, 0xff)
    ∷ (1, 0xf0)
    ∷ (1, 0x1)
    ∷ (2, 0xff)
    ∷ (1, 0xf0)
    ∷ (4, 0x0)
    ∷ (1, 0xf)
    ∷ (6, 0xff)
    ∷ (1, 0xf0)
    ∷ (1, 0x1f)
    ∷ (2, 0xff)
    ∷ (1, 0xf0)
    ∷ (3, 0x0)
    ∷ (1, 0x2)
    ∷ (7, 0xff)
    ∷ (1, 0xe0)
    ∷ (3, 0xff)
    ∷ (1, 0xf0)
    ∷ (3, 0x0)
    ∷ (1, 0x3f)
    ∷ (7, 0xff)
    ∷ (1, 0xcb)
    ∷ (3, 0xff)
    ∷ (1, 0xc0)
    ∷ (2, 0x0)
    ∷ (1, 0x7)
    ∷ (8, 0xff)
    ∷ (1, 0x3f)
    ∷ (3, 0xff)
    ∷ (1, 0x80)
    ∷ (2, 0x0)
    ∷ (1, 0xbf)
    ∷ (7, 0xff)
    ∷ (1, 0xfc)
    ∷ (3, 0xff)
    ∷ (1, 0xfe)
    ∷ (2, 0x0)
    ∷ (1, 0xb)
    ∷ (8, 0xff)
    ∷ (1, 0xf3)
    ∷ (3, 0xff)
    ∷ (1, 0xfc)
    ∷ (2, 0x0)
    ∷ (9, 0xff)
    ∷ (1, 0xcf)
    ∷ (3, 0xff)
    ∷ (1, 0xf0)
    ∷ (1, 0x0)
    ∷ (1, 0xb)
    ∷ (8, 0xff)
    ∷ (1, 0xfd)
    ∷ (1, 0x3f)
    ∷ (3, 0xff)
    ∷ (1, 0xc0)
    ∷ (1, 0x0)
    ∷ (1, 0xbf)
    ∷ (8, 0xff)
    ∷ (1, 0xf0)
    ∷ (4, 0xff)
    ∷ (1, 0x0)
    ∷ (1, 0xb)
    ∷ (9, 0xff)
    ∷ (1, 0x43)
    ∷ (3, 0xff)
    ∷ (1, 0xfc)
    ∷ (1, 0x0)
    ∷ (1, 0x7f)
    ∷ (3, 0xff)
    ∷ (1, 0xf9)
    ∷ (1, 0x0)
    ∷ (1, 0x6)
    ∷ (2, 0xff)
    ∷ (1, 0xf4)
    ∷ (1, 0xf)
    ∷ (3, 0xff)
    ∷ (1, 0xf0)
    ∷ (1, 0x3)
    ∷ (3, 0xff)
    ∷ (1, 0xf4)
    ∷ (3, 0x0)
    ∷ (1, 0x6f)
    ∷ (1, 0xfe)
    ∷ (1, 0x0)
    ∷ (1, 0x3f)
    ∷ (3, 0xff)
    ∷ (1, 0xc0)
    ∷ (1, 0x3f)
    ∷ (2, 0xff)
    ∷ (1, 0xfd)
    ∷ (7, 0x0)
    ∷ (4, 0xff)
    ∷ (1, 0x1)
    ∷ (3, 0xff)
    ∷ (1, 0x80)
    ∷ (6, 0x0)
    ∷ (1, 0x3)
    ∷ (3, 0xff)
    ∷ (1, 0xfc)
    ∷ (1, 0xf)
    ∷ (2, 0xff)
    ∷ (1, 0xf0)
    ∷ (7, 0x0)
    ∷ (1, 0xf)
    ∷ (3, 0xff)
    ∷ (1, 0xf0)
    ∷ (1, 0xbf)
    ∷ (1, 0xff)
    ∷ (1, 0xfe)
    ∷ (8, 0x0)
    ∷ (1, 0x3f)
    ∷ (3, 0xff)
    ∷ (1, 0xc3)
    ∷ (2, 0xff)
    ∷ (1, 0xe0)
    ∷ (8, 0x0)
    ∷ (4, 0xff)
    ∷ (1, 0x2f)
    ∷ (1, 0xff)
    ∷ (1, 0xfe)
    ∷ (8, 0x0)
    ∷ (1, 0x3)
    ∷ (3, 0xff)
    ∷ (1, 0xfc)
    ∷ (2, 0xff)
    ∷ (1, 0xe0)
    ∷ (8, 0x0)
    ∷ (1, 0xf)
    ∷ (3, 0xff)
    ∷ (1, 0xfb)
    ∷ (1, 0xff)
    ∷ (1, 0xfe)
    ∷ (9, 0x0)
    ∷ (1, 0x3f)
    ∷ (5, 0xff)
    ∷ (1, 0xf0)
    ∷ (9, 0x0)
    ∷ (6, 0xff)
    ∷ (9, 0x0)
    ∷ (1, 0x3)
    ∷ (5, 0xff)
    ∷ (1, 0xf4)
    ∷ (9, 0x0)
    ∷ (1, 0xf)
    ∷ (5, 0xff)
    ∷ (1, 0x80)
    ∷ (9, 0x0)
    ∷ (1, 0x3f)
    ∷ (4, 0xff)
    ∷ (1, 0xfc)
    ∷ (10, 0x0)
    ∷ (5, 0xff)
    ∷ (1, 0xd0)
    ∷ (9, 0x0)
    ∷ (1, 0x3)
    ∷ (5, 0xff)
    ∷ (10, 0x0)
    ∷ (1, 0xf)
    ∷ (4, 0xff)
    ∷ (1, 0xf0)
    ∷ (10, 0x0)
    ∷ (1, 0x3f)
    ∷ (4, 0xff)
    ∷ (1, 0x80)
    ∷ (10, 0x0)
    ∷ (4, 0xff)
    ∷ (1, 0xfc)
    ∷ (10, 0x0)
    ∷ (1, 0x3)
    ∷ (4, 0xff)
    ∷ (1, 0xf0)
    ∷ (10, 0x0)
    ∷ (1, 0xf)
    ∷ (4, 0xff)
    ∷ (1, 0x40)
    ∷ (10, 0x0)
    ∷ (1, 0x3f)
    ∷ (3, 0xff)
    ∷ (1, 0xfc)
    ∷ (11, 0x0)
    ∷ (4, 0xff)
    ∷ (1, 0xe0)
    ∷ (10, 0x0)
    ∷ (1, 0x3)
    ∷ (4, 0xff)
    ∷ (1, 0x40)
    ∷ (10, 0x0)
    ∷ (1, 0xf)
    ∷ (3, 0xff)
    ∷ (1, 0xfc)
    ∷ (11, 0x0)
    ∷ (1, 0x3f)
    ∷ (3, 0xff)
    ∷ (1, 0xf0)
    ∷ (11, 0x0)
    ∷ (4, 0xff)
    ∷ (1, 0x80)
    ∷ (10, 0x0)
    ∷ (1, 0x3)
    ∷ (3, 0xff)
    ∷ (1, 0xfd)
    ∷ (11, 0x0)
    ∷ (1, 0xf)
    ∷ (3, 0xff)
    ∷ (1, 0xf0)
    ∷ (11, 0x0)
    ∷ (1, 0x3f)
    ∷ (3, 0xff)
    ∷ (1, 0xc0)
    ∷ (11, 0x0)
    ∷ (4, 0xff)
    ∷ (11, 0x0)
    ∷ (1, 0x3)
    ∷ (3, 0xff)
    ∷ (1, 0xfc)
    ∷ (11, 0x0)
    ∷ (1, 0xf)
    ∷ (3, 0xff)
    ∷ (1, 0xf0)
    ∷ (11, 0x0)
    ∷ (1, 0x3f)
    ∷ (3, 0xff)
    ∷ (1, 0xc0)
    ∷ (11, 0x0)
    ∷ (4, 0xff)
    ∷ (11, 0x0)
    ∷ (1, 0x3)
    ∷ (3, 0xff)
    ∷ (1, 0xfc)
    ∷ (11, 0x0)
    ∷ (1, 0xf)
    ∷ (3, 0xff)
    ∷ (1, 0xf0)
    ∷ (11, 0x0)
    ∷ (1, 0x3f)
    ∷ (3, 0xff)
    ∷ (1, 0xc0)
    ∷ (11, 0x0)
    ∷ (4, 0xff)
    ∷ (11, 0x0)
    ∷ (1, 0x3)
    ∷ (3, 0xff)
    ∷ (1, 0xfc)
    ∷ (11, 0x0)
    ∷ (1, 0xf)
    ∷ (3, 0xff)
    ∷ (1, 0xf0)
    ∷ (11, 0x0)
    ∷ (1, 0x3f)
    ∷ (3, 0xff)
    ∷ (1, 0xc0)
    ∷ (11, 0x0)
    ∷ (4, 0xff)
    ∷ (11, 0x0)
    ∷ (1, 0x3)
    ∷ (3, 0xff)
    ∷ (1, 0xfc)
    ∷ (11, 0x0)
    ∷ (1, 0xf)
    ∷ (3, 0xff)
    ∷ (1, 0xf0)
    ∷ (11, 0x0)
    ∷ (1, 0x3f)
    ∷ (3, 0xff)
    ∷ (1, 0xc0)
    ∷ (11, 0x0)
    ∷ (4, 0xff)
    ∷ (11, 0x0)
    ∷ (1, 0x3)
    ∷ (3, 0xff)
    ∷ (1, 0xfc)
    ∷ (11, 0x0)
    ∷ (1, 0xf)
    ∷ (3, 0xff)
    ∷ (1, 0xf0)
    ∷ (11, 0x0)
    ∷ (1, 0x3f)
    ∷ (3, 0xff)
    ∷ (1, 0xc0)
    ∷ (11, 0x0)
    ∷ (4, 0xff)
    ∷ (11, 0x0)
    ∷ (1, 0x3)
    ∷ (3, 0xff)
    ∷ (1, 0xfc)
    ∷ (11, 0x0)
    ∷ (1, 0xf)
    ∷ (3, 0xff)
    ∷ (1, 0xf0)
    ∷ (11, 0x0)
    ∷ (1, 0x3f)
    ∷ (3, 0xff)
    ∷ (1, 0xc0)
    ∷ (11, 0x0)
    ∷ (4, 0xff)
    ∷ (11, 0x0)
    ∷ (1, 0x3)
    ∷ (3, 0xff)
    ∷ (1, 0xfc)
    ∷ (11, 0x0)
    ∷ (1, 0xf)
    ∷ (3, 0xff)
    ∷ (1, 0xf0)
    ∷ (11, 0x0)
    ∷ (1, 0x3f)
    ∷ (3, 0xff)
    ∷ (1, 0xc0)
    ∷ (11, 0x0)
    ∷ (4, 0xff)
    ∷ (11, 0x0)
    ∷ (1, 0x3)
    ∷ (3, 0xff)
    ∷ (1, 0xfc)
    ∷ (11, 0x0)
    ∷ (1, 0xf)
    ∷ (2, 0xff)
    ∷ [])

unfoldable u_0072_1 : List ℕ
u_0072_1 = runs (
    (1, 0xff)
    ∷ (1, 0xf0)
    ∷ (11, 0x0)
    ∷ (1, 0x3f)
    ∷ (3, 0xff)
    ∷ (1, 0xc0)
    ∷ (11, 0x0)
    ∷ (4, 0xff)
    ∷ (11, 0x0)
    ∷ (1, 0x3)
    ∷ (3, 0xff)
    ∷ (1, 0xfc)
    ∷ (11, 0x0)
    ∷ (1, 0xf)
    ∷ (3, 0xff)
    ∷ (1, 0xf0)
    ∷ (11, 0x0)
    ∷ (1, 0x3f)
    ∷ (3, 0xff)
    ∷ (1, 0xc0)
    ∷ (11, 0x0)
    ∷ (4, 0xff)
    ∷ (11, 0x0)
    ∷ (1, 0x3)
    ∷ (3, 0xff)
    ∷ (1, 0xfc)
    ∷ (11, 0x0)
    ∷ (1, 0xf)
    ∷ (3, 0xff)
    ∷ (1, 0xf0)
    ∷ (11, 0x0)
    ∷ (1, 0x3f)
    ∷ (3, 0xff)
    ∷ (1, 0xc0)
    ∷ (11, 0x0)
    ∷ (4, 0xff)
    ∷ (11, 0x0)
    ∷ (1, 0x3)
    ∷ (3, 0xff)
    ∷ (1, 0xfc)
    ∷ (11, 0x0)
    ∷ (1, 0xf)
    ∷ (3, 0xff)
    ∷ (1, 0xf0)
    ∷ (11, 0x0)
    ∷ (1, 0x3f)
    ∷ (3, 0xff)
    ∷ (1, 0xc0)
    ∷ (11, 0x0)
    ∷ (4, 0xff)
    ∷ (11, 0x0)
    ∷ (1, 0x3)
    ∷ (3, 0xff)
    ∷ (1, 0xfc)
    ∷ (11, 0x0)
    ∷ (1, 0xf)
    ∷ (3, 0xff)
    ∷ (1, 0xf0)
    ∷ (11, 0x0)
    ∷ (1, 0x3f)
    ∷ (3, 0xff)
    ∷ (1, 0xc0)
    ∷ (11, 0x0)
    ∷ (4, 0xff)
    ∷ (11, 0x0)
    ∷ (1, 0x3)
    ∷ (3, 0xff)
    ∷ (1, 0xfc)
    ∷ (11, 0x0)
    ∷ (1, 0xf)
    ∷ (3, 0xff)
    ∷ (1, 0xf0)
    ∷ (11, 0x0)
    ∷ (1, 0x3f)
    ∷ (3, 0xff)
    ∷ (1, 0xc0)
    ∷ (11, 0x0)
    ∷ (4, 0xff)
    ∷ (11, 0x0)
    ∷ (1, 0x3)
    ∷ (3, 0xff)
    ∷ (1, 0xfc)
    ∷ (11, 0x0)
    ∷ (1, 0xf)
    ∷ (3, 0xff)
    ∷ (1, 0xe0)
    ∷ (11, 0x0)
    ∷ (1, 0x3f)
    ∷ (3, 0xff)
    ∷ (1, 0x40)
    ∷ (11, 0x0)
    ∷ (1, 0x7f)
    ∷ (2, 0xff)
    ∷ (1, 0xfc)
    ∷ (12, 0x0)
    ∷ (3, 0xff)
    ∷ (1, 0xd0)
    ∷ (12, 0x0)
    ∷ (2, 0xff)
    ∷ (1, 0xfe)
    ∷ (13, 0x0)
    ∷ (2, 0xff)
    ∷ (1, 0xd0)
    ∷ (13, 0x0)
    ∷ (1, 0x6f)
    ∷ (1, 0xf8)
    ∷ (13, 0x0)
    ∷ [])

unfoldable pub u_0072 : List ℕ
unfolding u_0072_0 u_0072_1 runs
u_0072 = u_0072_0 ++ u_0072_1
