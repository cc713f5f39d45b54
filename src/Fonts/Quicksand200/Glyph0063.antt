-- ===== src/Fonts/Quicksand200/Glyph0063.antt =====
-- The bytes of the glyph U+0063 in fonts/quicksand_200.c, in parts of about 150 lines.
use popcorn.Prelude.{ℕ, List, [], ◌∷◌, ◌++◌}
use popcorn.Fonts.Format.{runs}

unfoldable u_0063_0 : List ℕ
u_0063_0 = runs (
    (10, 0x0)
    ∷ (1, 0x5)
    ∷ (1, 0xaf)
    ∷ (2, 0xff)
    ∷ (1, 0xfa)
    ∷ (1, 0x94)
    ∷ (15, 0x0)
    ∷ (1, 0x1)
    ∷ (1, 0xbf)
    ∷ (5, 0xff)
    ∷ (1, 0xfe)
    ∷ (1, 0x40)
    ∷ (13, 0x0)
    ∷ (1, 0x6f)
    ∷ (8, 0xff)
    ∷ (1, 0x90)
    ∷ (11, 0x0)
    ∷ (1, 0x2)
    ∷ (10, 0xff)
    ∷ (1, 0xd0)
    ∷ (10, 0x0)
    ∷ (1, 0x1f)
    ∷ (11, 0xff)
    ∷ (1, 0x80)
    ∷ (9, 0x0)
    ∷ (1, 0x7f)
    ∷ (11, 0xff)
    ∷ (1, 0xfe)
    ∷ (9, 0x0)
    ∷ (13, 0xff)
    ∷ (1, 0xf8)
    ∷ (7, 0x0)
    ∷ (1, 0x2)
    ∷ (14, 0xff)
    ∷ (1, 0xd0)
    ∷ (6, 0x0)
    ∷ (1, 0x7)
    ∷ (14, 0xff)
    ∷ (1, 0xfe)
    ∷ (6, 0x0)
    ∷ (1, 0xb)
    ∷ (15, 0xff)
    ∷ (1, 0xe0)
    ∷ (5, 0x0)
    ∷ (1, 0xf)
    ∷ (15, 0xff)
    ∷ (1, 0xfe)
    ∷ (5, 0x0)
    ∷ (1, 0xf)
    ∷ (16, 0xff)
    ∷ (1, 0xd0)
    ∷ (4, 0x0)
    ∷ (1, 0x1f)
    ∷ (16, 0xff)
    ∷ (1, 0xfc)
    ∷ (4, 0x0)
    ∷ (1, 0x1f)
    ∷ (17, 0xff)
    ∷ (1, 0x40)
    ∷ (3, 0x0)
    ∷ (1, 0x1f)
    ∷ (17, 0xff)
    ∷ (1, 0xe0)
    ∷ (3, 0x0)
    ∷ (1, 0x1f)
    ∷ (7, 0xff)
    ∷ (1, 0x90)
    ∷ (2, 0x0)
    ∷ (1, 0x1)
    ∷ (1, 0x6f)
    ∷ (5, 0xff)
    ∷ (1, 0xfc)
    ∷ (3, 0x0)
    ∷ (1, 0x1f)
    ∷ (6, 0xff)
    ∷ (1, 0xe4)
    ∷ (5, 0x0)
    ∷ (1, 0xb)
    ∷ (5, 0xff)
    ∷ (3, 0x0)
    ∷ (1, 0xf)
    ∷ (5, 0xff)
    ∷ (1, 0xfe)
    ∷ (1, 0x40)
    ∷ (6, 0x0)
    ∷ (1, 0x1b)
    ∷ (4, 0xff)
    ∷ (1, 0xc0)
    ∷ (2, 0x0)
    ∷ (1, 0xf)
    ∷ (5, 0xff)
    ∷ (1, 0xf8)
    ∷ (8, 0x0)
    ∷ (1, 0x7f)
    ∷ (3, 0xff)
    ∷ (1, 0xf0)
    ∷ (2, 0x0)
    ∷ (1, 0xb)
    ∷ (5, 0xff)
    ∷ (1, 0xf0)
    ∷ (8, 0x0)
    ∷ (1, 0x2)
    ∷ (3, 0xff)
    ∷ (1, 0xf4)
    ∷ (2, 0x0)
    ∷ (1, 0x7)
    ∷ (5, 0xff)
    ∷ (1, 0xd0)
    ∷ (9, 0x0)
    ∷ (1, 0x1f)
    ∷ (2, 0xff)
    ∷ (1, 0xfc)
    ∷ (2, 0x0)
    ∷ (1, 0x3)
    ∷ (5, 0xff)
    ∷ (1, 0xc0)
    ∷ (9, 0x0)
    ∷ (1, 0x1)
    ∷ (2, 0xff)
    ∷ (1, 0xfd)
    ∷ (2, 0x0)
    ∷ (1, 0x3)
    ∷ (5, 0xff)
    ∷ (1, 0x80)
    ∷ (10, 0x0)
    ∷ (1, 0x1f)
    ∷ (1, 0xff)
    ∷ (1, 0xfe)
    ∷ (2, 0x0)
    ∷ (1, 0x2)
    ∷ (5, 0xff)
    ∷ (1, 0x40)
    ∷ (11, 0x0)
    ∷ (1, 0xbf)
    ∷ (1, 0xfd)
    ∷ (3, 0x0)
    ∷ (5, 0xff)
    ∷ (1, 0x40)
    ∷ (16, 0x0)
    ∷ (1, 0xbf)
    ∷ (4, 0xff)
    ∷ (1, 0x40)
    ∷ (16, 0x0)
    ∷ (1, 0x3f)
    ∷ (4, 0xff)
    ∷ (1, 0x40)
    ∷ (16, 0x0)
    ∷ (1, 0x3f)
    ∷ (4, 0xff)
    ∷ (1, 0x40)
    ∷ (16, 0x0)
    ∷ (1, 0x1f)
    ∷ (4, 0xff)
    ∷ (1, 0x80)
    ∷ (16, 0x0)
    ∷ (1, 0xb)
    ∷ (4, 0xff)
    ∷ (1, 0xc0)
    ∷ (16, 0x0)
    ∷ (1, 0x3)
    ∷ (4, 0xff)
    ∷ (1, 0xc0)
    ∷ (16, 0x0)
    ∷ (1, 0x2)
    ∷ (4, 0xff)
    ∷ (1, 0xd0)
    ∷ (17, 0x0)
    ∷ (4, 0xff)
    ∷ (1, 0xf0)
    ∷ (17, 0x0)
    ∷ (1, 0x7f)
    ∷ (3, 0xff)
    ∷ (1, 0xf4)
    ∷ (17, 0x0)
    ∷ (1, 0x2f)
    ∷ (3, 0xff)
    ∷ (1, 0xf8)
    ∷ (17, 0x0)
    ∷ (1, 0xf)
    ∷ (3, 0xff)
    ∷ (1, 0xfc)
    ∷ (17, 0x0)
    ∷ (1, 0x7)
    ∷ (4, 0xff)
    ∷ (17, 0x0)
    ∷ (1, 0x2)
    ∷ (4, 0xff)
    ∷ (1, 0x40)
    ∷ (17, 0x0)
    ∷ (4, 0xff)
    ∷ (1, 0xc0)
    ∷ (17, 0x0)
    ∷ (1, 0x3f)
    ∷ (3, 0xff)
    ∷ (1, 0xe0)
    ∷ (17, 0x0)
    ∷ (1, 0x1f)
    ∷ (3, 0xff)
    ∷ (1, 0xf0)
    ∷ (17, 0x0)
    ∷ (1, 0xb)
    ∷ (3, 0xff)
    ∷ (1, 0xfc)
    ∷ (17, 0x0)
    ∷ (1, 0x3)
    ∷ (3, 0xff)
    ∷ (1, 0xfe)
    ∷ (18, 0x0)
    ∷ (4, 0xff)
    ∷ (1, 0x40)
    ∷ (17, 0x0)
    ∷ (1, 0x3f)
    ∷ (3, 0xff)
    ∷ (1, 0xc0)
    ∷ (17, 0x0)
    ∷ (1, 0x1f)
    ∷ (3, 0xff)
    ∷ (1, 0xf0)
    ∷ (17, 0x0)
    ∷ (1, 0x7)
    ∷ (3, 0xff)
    ∷ (1, 0xfc)
    ∷ (17, 0x0)
    ∷ (1, 0x1)
    ∷ (3, 0xff)
    ∷ (1, 0xfe)
    ∷ (18, 0x0)
    ∷ (1, 0xbf)
    ∷ (3, 0xff)
    ∷ (1, 0x80)
    ∷ (17, 0x0)
    ∷ (1, 0x2f)
    ∷ (3, 0xff)
    ∷ (1, 0xd0)
    ∷ (17, 0x0)
    ∷ (1, 0xb)
    ∷ (3, 0xff)
    ∷ (1, 0xf4)
    ∷ (17, 0x0)
    ∷ (1, 0x2)
    ∷ (3, 0xff)
    ∷ (1, 0xfd)
    ∷ (18, 0x0)
    ∷ (4, 0xff)
    ∷ (18, 0x0)
    ∷ (1, 0x3f)
    ∷ (3, 0xff)
    ∷ (1, 0xc0)
    ∷ [])

unfoldable u_0063_1 : List ℕ
u_0063_1 = runs (
    (17, 0x0)
    ∷ (1, 0xf)
    ∷ (3, 0xff)
    ∷ (1, 0xf0)
    ∷ (17, 0x0)
    ∷ (1, 0x3)
    ∷ (3, 0xff)
    ∷ (1, 0xfc)
    ∷ (18, 0x0)
    ∷ (4, 0xff)
    ∷ (1, 0x40)
    ∷ (17, 0x0)
    ∷ (1, 0x2f)
    ∷ (3, 0xff)
    ∷ (1, 0xd0)
    ∷ (17, 0x0)
    ∷ (1, 0xb)
    ∷ (3, 0xff)
    ∷ (1, 0xf4)
    ∷ (17, 0x0)
    ∷ (1, 0x2)
    ∷ (3, 0xff)
    ∷ (1, 0xfe)
    ∷ (18, 0x0)
    ∷ (1, 0x7f)
    ∷ (3, 0xff)
    ∷ (1, 0x80)
    ∷ (17, 0x0)
    ∷ (1, 0x1f)
    ∷ (3, 0xff)
    ∷ (1, 0xf0)
    ∷ (17, 0x0)
    ∷ (1, 0x7)
    ∷ (3, 0xff)
    ∷ (1, 0xfc)
    ∷ (18, 0x0)
    ∷ (4, 0xff)
    ∷ (18, 0x0)
    ∷ (1, 0x3f)
    ∷ (3, 0xff)
    ∷ (1, 0xd0)
    ∷ (17, 0x0)
    ∷ (1, 0xf)
    ∷ (3, 0xff)
    ∷ (1, 0xf8)
    ∷ (17, 0x0)
    ∷ (1, 0x2)
    ∷ (4, 0xff)
    ∷ (18, 0x0)
    ∷ (1, 0x7f)
    ∷ (3, 0xff)
    ∷ (1, 0xc0)
    ∷ (17, 0x0)
    ∷ (1, 0xf)
    ∷ (3, 0xff)
    ∷ (1, 0xf4)
    ∷ (17, 0x0)
    ∷ (1, 0x3)
    ∷ (4, 0xff)
    ∷ (18, 0x0)
    ∷ (1, 0xbf)
    ∷ (3, 0xff)
    ∷ (1, 0xc0)
    ∷ (17, 0x0)
    ∷ (1, 0x1f)
    ∷ (3, 0xff)
    ∷ (1, 0xf8)
    ∷ (17, 0x0)
    ∷ (1, 0x3)
    ∷ (4, 0xff)
    ∷ (18, 0x0)
    ∷ (4, 0xff)
    ∷ (1, 0xe0)
    ∷ (17, 0x0)
    ∷ (1, 0x1f)
    ∷ (3, 0xff)
    ∷ (1, 0xfc)
    ∷ (17, 0x0)
    ∷ (1, 0x3)
    ∷ (4, 0xff)
    ∷ (1, 0x80)
    ∷ (17, 0x0)
    ∷ (4, 0xff)
    ∷ (1, 0xf0)
    ∷ (17, 0x0)
    ∷ (1, 0x1f)
    ∷ (4, 0xff)
    ∷ (17, 0x0)
    ∷ (1, 0x3)
    ∷ (4, 0xff)
    ∷ (1, 0xe0)
    ∷ (17, 0x0)
    ∷ (1, 0x7f)
    ∷ (3, 0xff)
    ∷ (1, 0xfd)
    ∷ (17, 0x0)
    ∷ (1, 0xf)
    ∷ (4, 0xff)
    ∷ (1, 0xc0)
    ∷ (16, 0x0)
    ∷ (1, 0x1)
    ∷ (4, 0xff)
    ∷ (1, 0xfc)
    ∷ (17, 0x0)
    ∷ (1, 0x3f)
    ∷ (4, 0xff)
    ∷ (1, 0xc0)
    ∷ (16, 0x0)
    ∷ (1, 0x7)
    ∷ (4, 0xff)
    ∷ (1, 0xfc)
    ∷ (12, 0x0)
    ∷ (1, 0x1a)
    ∷ (1, 0xe8)
    ∷ (3, 0x0)
    ∷ (5, 0xff)
    ∷ (1, 0xc0)
    ∷ (11, 0x0)
    ∷ (1, 0x3f)
    ∷ (1, 0xff)
    ∷ (1, 0xe0)
    ∷ (2, 0x0)
    ∷ (1, 0xf)
    ∷ (4, 0xff)
    ∷ (1, 0xfc)
    ∷ (11, 0x0)
    ∷ (1, 0x3f)
    ∷ (1, 0xff)
    ∷ (1, 0xfe)
    ∷ (2, 0x0)
    ∷ (1, 0x2)
    ∷ (5, 0xff)
    ∷ (1, 0xd0)
    ∷ (10, 0x0)
    ∷ (1, 0x3f)
    ∷ (2, 0xff)
    ∷ (1, 0xd0)
    ∷ (2, 0x0)
    ∷ (1, 0x3f)
    ∷ (4, 0xff)
    ∷ (1, 0xfe)
    ∷ (10, 0x0)
    ∷ (1, 0x7f)
    ∷ (2, 0xff)
    ∷ (1, 0xfc)
    ∷ (2, 0x0)
    ∷ (1, 0x3)
    ∷ (5, 0xff)
    ∷ (1, 0xf4)
    ∷ (9, 0x0)
    ∷ (4, 0xff)
    ∷ (1, 0x40)
    ∷ (2, 0x0)
    ∷ (1, 0x7f)
    ∷ (5, 0xff)
    ∷ (1, 0xd0)
    ∷ (7, 0x0)
    ∷ (1, 0x2)
    ∷ (4, 0xff)
    ∷ (1, 0xe0)
    ∷ (2, 0x0)
    ∷ (1, 0xb)
    ∷ (6, 0xff)
    ∷ (1, 0x40)
    ∷ (6, 0x0)
    ∷ (1, 0xb)
    ∷ (4, 0xff)
    ∷ (1, 0xf8)
    ∷ (3, 0x0)
    ∷ (6, 0xff)
    ∷ (1, 0xfe)
    ∷ (1, 0x40)
    ∷ (5, 0x0)
    ∷ (1, 0xbf)
    ∷ (4, 0xff)
    ∷ (1, 0xfe)
    ∷ (3, 0x0)
    ∷ (1, 0xf)
    ∷ (7, 0xff)
    ∷ (1, 0x90)
    ∷ (3, 0x0)
    ∷ (1, 0x5b)
    ∷ (6, 0xff)
    ∷ (1, 0x40)
    ∷ (3, 0x0)
    ∷ (18, 0xff)
    ∷ (1, 0xc0)
    ∷ (3, 0x0)
    ∷ (1, 0xf)
    ∷ (17, 0xff)
    ∷ (1, 0xd0)
    ∷ (4, 0x0)
    ∷ (17, 0xff)
    ∷ (1, 0xe0)
    ∷ (4, 0x0)
    ∷ (1, 0xb)
    ∷ (16, 0xff)
    ∷ (1, 0xe0)
    ∷ (5, 0x0)
    ∷ (1, 0xbf)
    ∷ (15, 0xff)
    ∷ (1, 0xe0)
    ∷ (5, 0x0)
    ∷ (1, 0x7)
    ∷ (15, 0xff)
    ∷ (1, 0xd0)
    ∷ (6, 0x0)
    ∷ (1, 0x3f)
    ∷ (14, 0xff)
    ∷ (1, 0xc0)
    ∷ (6, 0x0)
    ∷ (1, 0x1)
    ∷ (14, 0xff)
    ∷ (1, 0x80)
    ∷ (7, 0x0)
    ∷ (1, 0xb)
    ∷ (12, 0xff)
    ∷ (1, 0xfe)
    ∷ (9, 0x0)
    ∷ (1, 0x3f)
    ∷ (11, 0xff)
    ∷ (1, 0xf8)
    ∷ (9, 0x0)
    ∷ (1, 0x1)
    ∷ (1, 0xbf)
    ∷ (10, 0xff)
    ∷ (1, 0xe0)
    ∷ (10, 0x0)
    ∷ (1, 0x2)
    ∷ (9, 0xff)
    ∷ (1, 0xfe)
    ∷ (1, 0x40)
    ∷ (11, 0x0)
    ∷ (1, 0x6)
    ∷ (8, 0xff)
    ∷ (1, 0xe4)
    ∷ (13, 0x0)
    ∷ (1, 0x1)
    ∷ (1, 0xbf)
    ∷ (5, 0xff)
    ∷ (1, 0xf9)
    ∷ (1, 0x0)
    ∷ [])

unfoldable u_0063_2 : List ℕ
u_0063_2 = runs ((15, 0x0) ∷ (1, 0x5a) ∷ (3, 0xff) ∷ (1, 0xa5) ∷ (7, 0x0) ∷ [])

unfoldable pub u_0063 : List ℕ
unfolding u_0063_0 u_0063_1 u_0063_2 runs
u_0063 = u_0063_0 ++ u_0063_1 ++ u_0063_2
