-- ===== src/Fonts/Quicksand200/Glyph0070.antt =====
-- The bytes of the glyph U+0070 in fonts/quicksand_200.c, in parts of about 150 lines.
use popcorn.Prelude.{ℕ, List, [], ◌∷◌, ◌++◌}
use popcorn.Fonts.Format.{runs}

unfoldable u_0070_0 : List ℕ
u_0070_0 = runs (
    (11, 0x0)
    ∷ (1, 0x6b)
    ∷ (2, 0xff)
    ∷ (1, 0xe9)
    ∷ (11, 0x0)
    ∷ (1, 0x1b)
    ∷ (1, 0xfe)
    ∷ (7, 0x0)
    ∷ (1, 0xbf)
    ∷ (4, 0xff)
    ∷ (1, 0xfe)
    ∷ (1, 0x40)
    ∷ (9, 0x0)
    ∷ (2, 0xff)
    ∷ (1, 0xe0)
    ∷ (5, 0x0)
    ∷ (1, 0x2f)
    ∷ (6, 0xff)
    ∷ (1, 0xfd)
    ∷ (8, 0x0)
    ∷ (1, 0x3)
    ∷ (2, 0xff)
    ∷ (1, 0xf8)
    ∷ (4, 0x0)
    ∷ (1, 0x7)
    ∷ (8, 0xff)
    ∷ (1, 0xe0)
    ∷ (7, 0x0)
    ∷ (1, 0xf)
    ∷ (2, 0xff)
    ∷ (1, 0xfe)
    ∷ (4, 0x0)
    ∷ (1, 0xbf)
    ∷ (9, 0xff)
    ∷ (1, 0x40)
    ∷ (6, 0x0)
    ∷ (1, 0x1f)
    ∷ (3, 0xff)
    ∷ (3, 0x0)
    ∷ (1, 0x7)
    ∷ (10, 0xff)
    ∷ (1, 0xf0)
    ∷ (6, 0x0)
    ∷ (1, 0x3f)
    ∷ (3, 0xff)
    ∷ (1, 0x40)
    ∷ (2, 0x0)
    ∷ (1, 0x7f)
    ∷ (10, 0xff)
    ∷ (1, 0xfe)
    ∷ (6, 0x0)
    ∷ (1, 0x3f)
    ∷ (3, 0xff)
    ∷ (1, 0x80)
    ∷ (1, 0x0)
    ∷ (1, 0x2)
    ∷ (12, 0xff)
    ∷ (1, 0xd0)
    ∷ (5, 0x0)
    ∷ (1, 0x3f)
    ∷ (3, 0xff)
    ∷ (1, 0xc0)
    ∷ (1, 0x0)
    ∷ (1, 0xf)
    ∷ (12, 0xff)
    ∷ (1, 0xf8)
    ∷ (5, 0x0)
    ∷ (1, 0x3f)
    ∷ (3, 0xff)
    ∷ (1, 0xc0)
    ∷ (1, 0x0)
    ∷ (1, 0x7f)
    ∷ (13, 0xff)
    ∷ (5, 0x0)
    ∷ (1, 0x3f)
    ∷ (3, 0xff)
    ∷ (1, 0xc0)
    ∷ (1, 0x2)
    ∷ (14, 0xff)
    ∷ (1, 0xd0)
    ∷ (4, 0x0)
    ∷ (1, 0x3f)
    ∷ (3, 0xff)
    ∷ (1, 0xc0)
    ∷ (1, 0xb)
    ∷ (14, 0xff)
    ∷ (1, 0xf4)
    ∷ (4, 0x0)
    ∷ (1, 0x3f)
    ∷ (3, 0xff)
    ∷ (1, 0xc0)
    ∷ (1, 0x2f)
    ∷ (14, 0xff)
    ∷ (1, 0xfd)
    ∷ (4, 0x0)
    ∷ (1, 0x3f)
    ∷ (3, 0xff)
    ∷ (1, 0xc0)
    ∷ (1, 0xbf)
    ∷ (15, 0xff)
    ∷ (1, 0x80)
    ∷ (3, 0x0)
    ∷ (1, 0x3f)
    ∷ (3, 0xff)
    ∷ (1, 0xc1)
    ∷ (16, 0xff)
    ∷ (1, 0xd0)
    ∷ (3, 0x0)
    ∷ (1, 0x3f)
    ∷ (3, 0xff)
    ∷ (1, 0xc3)
    ∷ (5, 0xff)
    ∷ (1, 0xf9)
    ∷ (3, 0x0)
    ∷ (1, 0x6f)
    ∷ (6, 0xff)
    ∷ (1, 0xf4)
    ∷ (3, 0x0)
    ∷ (1, 0x3f)
    ∷ (3, 0xff)
    ∷ (1, 0xcf)
    ∷ (4, 0xff)
    ∷ (1, 0xf9)
    ∷ (5, 0x0)
    ∷ (1, 0x6f)
    ∷ (5, 0xff)
    ∷ (1, 0xfc)
    ∷ (3, 0x0)
    ∷ (1, 0x3f)
    ∷ (3, 0xff)
    ∷ (1, 0xef)
    ∷ (4, 0xff)
    ∷ (1, 0x80)
    ∷ (5, 0x0)
    ∷ (1, 0x2)
    ∷ (6, 0xff)
    ∷ (3, 0x0)
    ∷ (1, 0x3f)
    ∷ (7, 0xff)
    ∷ (1, 0xf8)
    ∷ (7, 0x0)
    ∷ (1, 0x2f)
    ∷ (5, 0xff)
    ∷ (1, 0xc0)
    ∷ (2, 0x0)
    ∷ (1, 0x3f)
    ∷ (7, 0xff)
    ∷ (1, 0x80)
    ∷ (7, 0x0)
    ∷ (1, 0x3)
    ∷ (5, 0xff)
    ∷ (1, 0xe0)
    ∷ (2, 0x0)
    ∷ (1, 0x3f)
    ∷ (6, 0xff)
    ∷ (1, 0xfd)
    ∷ (9, 0x0)
    ∷ (1, 0x7f)
    ∷ (4, 0xff)
    ∷ (1, 0xf0)
    ∷ (2, 0x0)
    ∷ (1, 0x3f)
    ∷ (6, 0xff)
    ∷ (1, 0xf0)
    ∷ (9, 0x0)
    ∷ (1, 0xf)
    ∷ (4, 0xff)
    ∷ (1, 0xfc)
    ∷ (2, 0x0)
    ∷ (1, 0x3f)
    ∷ (6, 0xff)
    ∷ (1, 0x80)
    ∷ (9, 0x0)
    ∷ (1, 0x3)
    ∷ (4, 0xff)
    ∷ (1, 0xfe)
    ∷ (2, 0x0)
    ∷ (1, 0x3f)
    ∷ (5, 0xff)
    ∷ (1, 0xfe)
    ∷ (11, 0x0)
    ∷ (1, 0xbf)
    ∷ (4, 0xff)
    ∷ (2, 0x0)
    ∷ (1, 0x3f)
    ∷ (5, 0xff)
    ∷ (1, 0xf8)
    ∷ (11, 0x0)
    ∷ (1, 0x2f)
    ∷ (4, 0xff)
    ∷ (1, 0x80)
    ∷ (1, 0x0)
    ∷ (1, 0x3f)
    ∷ (5, 0xff)
    ∷ (1, 0xe0)
    ∷ (11, 0x0)
    ∷ (1, 0xf)
    ∷ (4, 0xff)
    ∷ (1, 0xc0)
    ∷ (1, 0x0)
    ∷ (1, 0x3f)
    ∷ (5, 0xff)
    ∷ (1, 0xc0)
    ∷ (11, 0x0)
    ∷ (1, 0x3)
    ∷ (4, 0xff)
    ∷ (1, 0xe0)
    ∷ (1, 0x0)
    ∷ (1, 0x3f)
    ∷ (5, 0xff)
    ∷ (13, 0x0)
    ∷ (4, 0xff)
    ∷ (1, 0xf0)
    ∷ (1, 0x0)
    ∷ (1, 0x3f)
    ∷ (4, 0xff)
    ∷ (1, 0xfd)
    ∷ (13, 0x0)
    ∷ (1, 0x7f)
    ∷ (3, 0xff)
    ∷ (1, 0xf8)
    ∷ (1, 0x0)
    ∷ (1, 0x3f)
    ∷ (4, 0xff)
    ∷ (1, 0xf8)
    ∷ (13, 0x0)
    ∷ (1, 0x2f)
    ∷ (3, 0xff)
    ∷ (1, 0xfc)
    ∷ (1, 0x0)
    ∷ (1, 0x3f)
    ∷ (4, 0xff)
    ∷ (1, 0xf0)
    ∷ (13, 0x0)
    ∷ (1, 0xf)
    ∷ (3, 0xff)
    ∷ (1, 0xfe)
    ∷ (1, 0x0)
    ∷ (1, 0x3f)
    ∷ (4, 0xff)
    ∷ (1, 0xd0)
    ∷ (13, 0x0)
    ∷ (1, 0x7)
    ∷ (4, 0xff)
    ∷ (1, 0x0)
    ∷ (1, 0x3f)
    ∷ (4, 0xff)
    ∷ (1, 0xc0)
    ∷ (13, 0x0)
    ∷ (1, 0x3)
    ∷ (4, 0xff)
    ∷ (1, 0x40)
    ∷ (1, 0x3f)
    ∷ (4, 0xff)
    ∷ (1, 0x40)
    ∷ (13, 0x0)
    ∷ (1, 0x1)
    ∷ (4, 0xff)
    ∷ (1, 0x80)
    ∷ (1, 0x3f)
    ∷ (4, 0xff)
    ∷ (15, 0x0)
    ∷ (4, 0xff)
    ∷ (1, 0xc0)
    ∷ (1, 0x3f)
    ∷ (3, 0xff)
    ∷ (1, 0xfd)
    ∷ (15, 0x0)
    ∷ (1, 0x7f)
    ∷ (3, 0xff)
    ∷ (1, 0xc0)
    ∷ (1, 0x3f)
    ∷ (3, 0xff)
    ∷ (1, 0xfc)
    ∷ (15, 0x0)
    ∷ (1, 0x3f)
    ∷ (3, 0xff)
    ∷ (1, 0xe0)
    ∷ (1, 0x3f)
    ∷ (3, 0xff)
    ∷ (1, 0xf8)
    ∷ (15, 0x0)
    ∷ (1, 0x2f)
    ∷ (3, 0xff)
    ∷ (1, 0xf0)
    ∷ (1, 0x3f)
    ∷ (3, 0xff)
    ∷ (1, 0xf0)
    ∷ (15, 0x0)
    ∷ (1, 0x1f)
    ∷ (3, 0xff)
    ∷ (1, 0xf0)
    ∷ (1, 0x3f)
    ∷ (3, 0xff)
    ∷ (1, 0xf0)
    ∷ (15, 0x0)
    ∷ (1, 0xf)
    ∷ (3, 0xff)
    ∷ (1, 0xf0)
    ∷ (1, 0x3f)
    ∷ (3, 0xff)
    ∷ (1, 0xe0)
    ∷ (15, 0x0)
    ∷ (1, 0xb)
    ∷ (3, 0xff)
    ∷ (1, 0xf4)
    ∷ (1, 0x3f)
    ∷ (3, 0xff)
    ∷ (1, 0xd0)
    ∷ (15, 0x0)
    ∷ (1, 0x7)
    ∷ (3, 0xff)
    ∷ (1, 0xf8)
    ∷ (1, 0x3f)
    ∷ (3, 0xff)
    ∷ (1, 0xc0)
    ∷ (15, 0x0)
    ∷ (1, 0x3)
    ∷ (3, 0xff)
    ∷ (1, 0xfc)
    ∷ (1, 0x3f)
    ∷ (3, 0xff)
    ∷ (1, 0xc0)
    ∷ (15, 0x0)
    ∷ (1, 0x3)
    ∷ (3, 0xff)
    ∷ (1, 0xfc)
    ∷ (1, 0x3f)
    ∷ (3, 0xff)
    ∷ (1, 0x80)
    ∷ (15, 0x0)
    ∷ (1, 0x3)
    ∷ (3, 0xff)
    ∷ (1, 0xfc)
    ∷ (1, 0x3f)
    ∷ (3, 0xff)
    ∷ (1, 0x80)
    ∷ (15, 0x0)
    ∷ (1, 0x2)
    ∷ (3, 0xff)
    ∷ (1, 0xfc)
    ∷ (1, 0x3f)
    ∷ (3, 0xff)
    ∷ (1, 0x40)
    ∷ (15, 0x0)
    ∷ (1, 0x1)
    ∷ (3, 0xff)
    ∷ (1, 0xfd)
    ∷ (1, 0x3f)
    ∷ (3, 0xff)
    ∷ (1, 0x40)
    ∷ (4, 0x0)
    ∷ [])

unfoldable u_0070_1 : List ℕ
u_0070_1 = runs (
    (11, 0x0)
    ∷ (1, 0x1)
    ∷ (3, 0xff)
    ∷ (1, 0xfd)
    ∷ (1, 0x3f)
    ∷ (3, 0xff)
    ∷ (17, 0x0)
    ∷ (3, 0xff)
    ∷ (1, 0xfd)
    ∷ (1, 0x3f)
    ∷ (3, 0xff)
    ∷ (17, 0x0)
    ∷ (3, 0xff)
    ∷ (1, 0xfd)
    ∷ (1, 0x3f)
    ∷ (3, 0xff)
    ∷ (17, 0x0)
    ∷ (3, 0xff)
    ∷ (1, 0xfe)
    ∷ (1, 0x3f)
    ∷ (3, 0xff)
    ∷ (17, 0x0)
    ∷ (3, 0xff)
    ∷ (1, 0xfe)
    ∷ (1, 0x3f)
    ∷ (3, 0xff)
    ∷ (17, 0x0)
    ∷ (3, 0xff)
    ∷ (1, 0xfe)
    ∷ (1, 0x3f)
    ∷ (3, 0xff)
    ∷ (17, 0x0)
    ∷ (3, 0xff)
    ∷ (1, 0xfe)
    ∷ (1, 0x3f)
    ∷ (3, 0xff)
    ∷ (17, 0x0)
    ∷ (3, 0xff)
    ∷ (1, 0xfe)
    ∷ (1, 0x3f)
    ∷ (3, 0xff)
    ∷ (17, 0x0)
    ∷ (3, 0xff)
    ∷ (1, 0xfe)
    ∷ (1, 0x3f)
    ∷ (3, 0xff)
    ∷ (17, 0x0)
    ∷ (3, 0xff)
    ∷ (1, 0xfe)
    ∷ (1, 0x3f)
    ∷ (3, 0xff)
    ∷ (17, 0x0)
    ∷ (3, 0xff)
    ∷ (1, 0xfd)
    ∷ (1, 0x3f)
    ∷ (3, 0xff)
    ∷ (1, 0x40)
    ∷ (15, 0x0)
    ∷ (1, 0x1)
    ∷ (3, 0xff)
    ∷ (1, 0xfd)
    ∷ (1, 0x3f)
    ∷ (3, 0xff)
    ∷ (1, 0x40)
    ∷ (15, 0x0)
    ∷ (1, 0x1)
    ∷ (3, 0xff)
    ∷ (1, 0xfd)
    ∷ (1, 0x3f)
    ∷ (3, 0xff)
    ∷ (1, 0x40)
    ∷ (15, 0x0)
    ∷ (1, 0x2)
    ∷ (3, 0xff)
    ∷ (1, 0xfc)
    ∷ (1, 0x3f)
    ∷ (3, 0xff)
    ∷ (1, 0x80)
    ∷ (15, 0x0)
    ∷ (1, 0x2)
    ∷ (3, 0xff)
    ∷ (1, 0xfc)
    ∷ (1, 0x3f)
    ∷ (3, 0xff)
    ∷ (1, 0xc0)
    ∷ (15, 0x0)
    ∷ (1, 0x3)
    ∷ (3, 0xff)
    ∷ (1, 0xfc)
    ∷ (1, 0x3f)
    ∷ (3, 0xff)
    ∷ (1, 0xc0)
    ∷ (15, 0x0)
    ∷ (1, 0x3)
    ∷ (3, 0xff)
    ∷ (1, 0xfc)
    ∷ (1, 0x3f)
    ∷ (3, 0xff)
    ∷ (1, 0xc0)
    ∷ (15, 0x0)
    ∷ (1, 0x7)
    ∷ (3, 0xff)
    ∷ (1, 0xf8)
    ∷ (1, 0x3f)
    ∷ (3, 0xff)
    ∷ (1, 0xd0)
    ∷ (15, 0x0)
    ∷ (1, 0xb)
    ∷ (3, 0xff)
    ∷ (1, 0xf8)
    ∷ (1, 0x3f)
    ∷ (3, 0xff)
    ∷ (1, 0xf0)
    ∷ (15, 0x0)
    ∷ (1, 0xf)
    ∷ (3, 0xff)
    ∷ (1, 0xf4)
    ∷ (1, 0x3f)
    ∷ (3, 0xff)
    ∷ (1, 0xf0)
    ∷ (15, 0x0)
    ∷ (1, 0xf)
    ∷ (3, 0xff)
    ∷ (1, 0xf0)
    ∷ (1, 0x3f)
    ∷ (3, 0xff)
    ∷ (1, 0xf4)
    ∷ (15, 0x0)
    ∷ (1, 0x1f)
    ∷ (3, 0xff)
    ∷ (1, 0xf0)
    ∷ (1, 0x3f)
    ∷ (3, 0xff)
    ∷ (1, 0xf8)
    ∷ (15, 0x0)
    ∷ (1, 0x3f)
    ∷ (3, 0xff)
    ∷ (1, 0xe0)
    ∷ (1, 0x3f)
    ∷ (3, 0xff)
    ∷ (1, 0xfc)
    ∷ (15, 0x0)
    ∷ (1, 0x3f)
    ∷ (3, 0xff)
    ∷ (1, 0xd0)
    ∷ (1, 0x3f)
    ∷ (3, 0xff)
    ∷ (1, 0xfe)
    ∷ (15, 0x0)
    ∷ (1, 0xbf)
    ∷ (3, 0xff)
    ∷ (1, 0xc0)
    ∷ (1, 0x3f)
    ∷ (4, 0xff)
    ∷ (15, 0x0)
    ∷ (4, 0xff)
    ∷ (1, 0xc0)
    ∷ (1, 0x3f)
    ∷ (4, 0xff)
    ∷ (1, 0x40)
    ∷ (13, 0x0)
    ∷ (1, 0x2)
    ∷ (4, 0xff)
    ∷ (1, 0x40)
    ∷ (1, 0x3f)
    ∷ (4, 0xff)
    ∷ (1, 0xc0)
    ∷ (13, 0x0)
    ∷ (1, 0x3)
    ∷ (4, 0xff)
    ∷ (1, 0x0)
    ∷ (1, 0x3f)
    ∷ (4, 0xff)
    ∷ (1, 0xe0)
    ∷ (13, 0x0)
    ∷ (1, 0xb)
    ∷ (3, 0xff)
    ∷ (1, 0xfe)
    ∷ (1, 0x0)
    ∷ (1, 0x3f)
    ∷ (4, 0xff)
    ∷ (1, 0xf0)
    ∷ (13, 0x0)
    ∷ (1, 0x1f)
    ∷ (3, 0xff)
    ∷ (1, 0xfd)
    ∷ (1, 0x0)
    ∷ (1, 0x3f)
    ∷ (4, 0xff)
    ∷ (1, 0xfc)
    ∷ (13, 0x0)
    ∷ (1, 0x3f)
    ∷ (3, 0xff)
    ∷ (1, 0xfc)
    ∷ (1, 0x0)
    ∷ (1, 0x3f)
    ∷ (4, 0xff)
    ∷ (1, 0xfd)
    ∷ (13, 0x0)
    ∷ (1, 0xbf)
    ∷ (3, 0xff)
    ∷ (1, 0xf4)
    ∷ (1, 0x0)
    ∷ (1, 0x3f)
    ∷ (5, 0xff)
    ∷ (12, 0x0)
    ∷ (1, 0x1)
    ∷ (4, 0xff)
    ∷ (1, 0xf0)
    ∷ (1, 0x0)
    ∷ (1, 0x3f)
    ∷ (5, 0xff)
    ∷ (1, 0xc0)
    ∷ (11, 0x0)
    ∷ (1, 0x3)
    ∷ (4, 0xff)
    ∷ (1, 0xd0)
    ∷ (1, 0x0)
    ∷ (1, 0x3f)
    ∷ (5, 0xff)
    ∷ (1, 0xf0)
    ∷ (11, 0x0)
    ∷ (1, 0xf)
    ∷ (4, 0xff)
    ∷ (1, 0xc0)
    ∷ (1, 0x0)
    ∷ (1, 0x3f)
    ∷ (5, 0xff)
    ∷ (1, 0xfc)
    ∷ (11, 0x0)
    ∷ (1, 0x3f)
    ∷ (4, 0xff)
    ∷ (1, 0x40)
    ∷ (1, 0x0)
    ∷ (1, 0x3f)
    ∷ (6, 0xff)
    ∷ (11, 0x0)
    ∷ (5, 0xff)
    ∷ (2, 0x0)
    ∷ (1, 0x3f)
    ∷ (6, 0xff)
    ∷ (1, 0xc0)
    ∷ (9, 0x0)
    ∷ (1, 0x3)
    ∷ (4, 0xff)
    ∷ (1, 0xfc)
    ∷ (2, 0x0)
    ∷ (1, 0x3f)
    ∷ (6, 0xff)
    ∷ (1, 0xf4)
    ∷ (9, 0x0)
    ∷ (1, 0x1f)
    ∷ (4, 0xff)
    ∷ (1, 0xf8)
    ∷ (2, 0x0)
    ∷ (1, 0x3f)
    ∷ (6, 0xff)
    ∷ (1, 0xfe)
    ∷ (9, 0x0)
    ∷ (1, 0xbf)
    ∷ (4, 0xff)
    ∷ (1, 0xf0)
    ∷ (2, 0x0)
    ∷ (1, 0x3f)
    ∷ (7, 0xff)
    ∷ (1, 0xd0)
    ∷ (7, 0x0)
    ∷ (1, 0x7)
    ∷ (5, 0xff)
    ∷ (1, 0xc0)
    ∷ (2, 0x0)
    ∷ (1, 0x3f)
    ∷ (7, 0xff)
    ∷ (1, 0xf8)
    ∷ (7, 0x0)
    ∷ (1, 0x3f)
    ∷ (5, 0xff)
    ∷ (1, 0x40)
    ∷ (2, 0x0)
    ∷ (1, 0x3f)
    ∷ (8, 0xff)
    ∷ (1, 0x90)
    ∷ (5, 0x0)
    ∷ (1, 0x7)
    ∷ (5, 0xff)
    ∷ (1, 0xfe)
    ∷ (3, 0x0)
    ∷ (1, 0x3f)
    ∷ (3, 0xff)
    ∷ (1, 0xcf)
    ∷ (4, 0xff)
    ∷ (1, 0xfe)
    ∷ (1, 0x40)
    ∷ (3, 0x0)
    ∷ (1, 0x1)
    ∷ (1, 0xbf)
    ∷ (5, 0xff)
    ∷ (1, 0xfc)
    ∷ (3, 0x0)
    ∷ (1, 0x3f)
    ∷ (3, 0xff)
    ∷ (1, 0xc7)
    ∷ (5, 0xff)
    ∷ (1, 0xfe)
    ∷ (1, 0x50)
    ∷ (1, 0x0)
    ∷ (1, 0x5)
    ∷ (1, 0xbf)
    ∷ (6, 0xff)
    ∷ (1, 0xf0)
    ∷ (3, 0x0)
    ∷ (1, 0x3f)
    ∷ (3, 0xff)
    ∷ (1, 0xc1)
    ∷ (16, 0xff)
    ∷ (1, 0xc0)
    ∷ (3, 0x0)
    ∷ (1, 0x3f)
    ∷ (3, 0xff)
    ∷ (1, 0xc0)
    ∷ (1, 0x7f)
    ∷ (15, 0xff)
    ∷ (4, 0x0)
    ∷ (1, 0x3f)
    ∷ (3, 0xff)
    ∷ (1, 0xc0)
    ∷ (1, 0x1f)
    ∷ (14, 0xff)
    ∷ (1, 0xfc)
    ∷ (4, 0x0)
    ∷ (1, 0x3f)
    ∷ [])

unfoldable u_0070_2 : List ℕ
u_0070_2 = runs (
    (3, 0xff)
    ∷ (1, 0xc0)
    ∷ (1, 0x7)
    ∷ (14, 0xff)
    ∷ (1, 0xf0)
    ∷ (4, 0x0)
    ∷ (1, 0x3f)
    ∷ (3, 0xff)
    ∷ (1, 0xc0)
    ∷ (1, 0x0)
    ∷ (14, 0xff)
    ∷ (1, 0xc0)
    ∷ (4, 0x0)
    ∷ (1, 0x3f)
    ∷ (3, 0xff)
    ∷ (1, 0xc0)
    ∷ (1, 0x0)
    ∷ (1, 0x3f)
    ∷ (12, 0xff)
    ∷ (1, 0xfe)
    ∷ (5, 0x0)
    ∷ (1, 0x3f)
    ∷ (3, 0xff)
    ∷ (1, 0xc0)
    ∷ (1, 0x0)
    ∷ (1, 0x7)
    ∷ (12, 0xff)
    ∷ (1, 0xf4)
    ∷ (5, 0x0)
    ∷ (1, 0x3f)
    ∷ (3, 0xff)
    ∷ (1, 0xc0)
    ∷ (2, 0x0)
    ∷ (12, 0xff)
    ∷ (1, 0x80)
    ∷ (5, 0x0)
    ∷ (1, 0x3f)
    ∷ (3, 0xff)
    ∷ (1, 0xc0)
    ∷ (2, 0x0)
    ∷ (1, 0x1f)
    ∷ (10, 0xff)
    ∷ (1, 0xfd)
    ∷ (6, 0x0)
    ∷ (1, 0x3f)
    ∷ (3, 0xff)
    ∷ (1, 0xc0)
    ∷ (2, 0x0)
    ∷ (1, 0x2)
    ∷ (10, 0xff)
    ∷ (1, 0xe0)
    ∷ (6, 0x0)
    ∷ (1, 0x3f)
    ∷ (3, 0xff)
    ∷ (1, 0xc0)
    ∷ (3, 0x0)
    ∷ (1, 0x2f)
    ∷ (8, 0xff)
    ∷ (1, 0xfe)
    ∷ (7, 0x0)
    ∷ (1, 0x3f)
    ∷ (3, 0xff)
    ∷ (1, 0xc0)
    ∷ (3, 0x0)
    ∷ (1, 0x1)
    ∷ (8, 0xff)
    ∷ (1, 0xd0)
    ∷ (7, 0x0)
    ∷ (1, 0x3f)
    ∷ (3, 0xff)
    ∷ (1, 0xc0)
    ∷ (4, 0x0)
    ∷ (1, 0xb)
    ∷ (6, 0xff)
    ∷ (1, 0xf8)
    ∷ (8, 0x0)
    ∷ (1, 0x3f)
    ∷ (3, 0xff)
    ∷ (1, 0xc0)
    ∷ (5, 0x0)
    ∷ (1, 0x1b)
    ∷ (4, 0xff)
    ∷ (1, 0xf9)
    ∷ (9, 0x0)
    ∷ (1, 0x3f)
    ∷ (3, 0xff)
    ∷ (1, 0xc0)
    ∷ (6, 0x0)
    ∷ (1, 0x16)
    ∷ (1, 0xaf)
    ∷ (1, 0xfa)
    ∷ (1, 0xa5)
    ∷ (10, 0x0)
    ∷ (1, 0x3f)
    ∷ (3, 0xff)
    ∷ (1, 0xc0)
    ∷ (20, 0x0)
    ∷ (1, 0x3f)
    ∷ (3, 0xff)
    ∷ (1, 0xc0)
    ∷ (20, 0x0)
    ∷ (1, 0x3f)
    ∷ (3, 0xff)
    ∷ (1, 0xc0)
    ∷ (20, 0x0)
    ∷ (1, 0x3f)
    ∷ (3, 0xff)
    ∷ (1, 0xc0)
    ∷ (20, 0x0)
    ∷ (1, 0x3f)
    ∷ (3, 0xff)
    ∷ (1, 0xc0)
    ∷ (20, 0x0)
    ∷ (1, 0x3f)
    ∷ (3, 0xff)
    ∷ (1, 0xc0)
    ∷ (20, 0x0)
    ∷ (1, 0x3f)
    ∷ (3, 0xff)
    ∷ (1, 0xc0)
    ∷ (20, 0x0)
    ∷ (1, 0x3f)
    ∷ (3, 0xff)
    ∷ (1, 0xc0)
    ∷ (20, 0x0)
    ∷ (1, 0x3f)
    ∷ (3, 0xff)
    ∷ (1, 0xc0)
    ∷ (20, 0x0)
    ∷ (1, 0x3f)
    ∷ (3, 0xff)
    ∷ (1, 0xc0)
    ∷ (20, 0x0)
    ∷ (1, 0x3f)
    ∷ (3, 0xff)
    ∷ (1, 0xc0)
    ∷ (20, 0x0)
    ∷ (1, 0x3f)
    ∷ (3, 0xff)
    ∷ (1, 0xc0)
    ∷ (20, 0x0)
    ∷ (1, 0x3f)
    ∷ (3, 0xff)
    ∷ (1, 0xc0)
    ∷ (20, 0x0)
    ∷ (1, 0x3f)
    ∷ (3, 0xff)
    ∷ (1, 0xc0)
    ∷ (20, 0x0)
    ∷ (1, 0x3f)
    ∷ (3, 0xff)
    ∷ (1, 0xc0)
    ∷ (20, 0x0)
    ∷ (1, 0x3f)
    ∷ (3, 0xff)
    ∷ (1, 0xc0)
    ∷ (20, 0x0)
    ∷ (1, 0x3f)
    ∷ (3, 0xff)
    ∷ (1, 0xc0)
    ∷ (20, 0x0)
    ∷ (1, 0x3f)
    ∷ (3, 0xff)
    ∷ (1, 0xc0)
    ∷ (20, 0x0)
    ∷ (1, 0x3f)
    ∷ (3, 0xff)
    ∷ (1, 0xc0)
    ∷ (20, 0x0)
    ∷ (1, 0x3f)
    ∷ (3, 0xff)
    ∷ (1, 0xc0)
    ∷ (20, 0x0)
    ∷ (1, 0x3f)
    ∷ (3, 0xff)
    ∷ (1, 0xc0)
    ∷ (20, 0x0)
    ∷ (1, 0x3f)
    ∷ (3, 0xff)
    ∷ (1, 0xc0)
    ∷ (20, 0x0)
    ∷ (1, 0x3f)
    ∷ (3, 0xff)
    ∷ (1, 0xc0)
    ∷ (20, 0x0)
    ∷ (1, 0x3f)
    ∷ (3, 0xff)
    ∷ (1, 0xc0)
    ∷ (20, 0x0)
    ∷ (1, 0x3f)
    ∷ (3, 0xff)
    ∷ (1, 0xc0)
    ∷ (20, 0x0)
    ∷ (1, 0x3f)
    ∷ (3, 0xff)
    ∷ (1, 0xc0)
    ∷ (20, 0x0)
    ∷ (1, 0x3f)
    ∷ (3, 0xff)
    ∷ (1, 0xc0)
    ∷ (20, 0x0)
    ∷ (1, 0x3f)
    ∷ (3, 0xff)
    ∷ (1, 0xc0)
    ∷ (20, 0x0)
    ∷ (1, 0x3f)
    ∷ (3, 0xff)
    ∷ (1, 0xc0)
    ∷ (20, 0x0)
    ∷ (1, 0x3f)
    ∷ (3, 0xff)
    ∷ (1, 0xc0)
    ∷ (20, 0x0)
    ∷ (1, 0x3f)
    ∷ (3, 0xff)
    ∷ (1, 0xc0)
    ∷ (20, 0x0)
    ∷ (1, 0x3f)
    ∷ (3, 0xff)
    ∷ (1, 0x80)
    ∷ (20, 0x0)
    ∷ (1, 0x3f)
    ∷ (3, 0xff)
    ∷ (1, 0x40)
    ∷ (20, 0x0)
    ∷ (1, 0x1f)
    ∷ (3, 0xff)
    ∷ (21, 0x0)
    ∷ (1, 0xf)
    ∷ (2, 0xff)
    ∷ (1, 0xfd)
    ∷ (21, 0x0)
    ∷ (1, 0x3)
    ∷ (2, 0xff)
    ∷ (1, 0xf8)
    ∷ (14, 0x0)
    ∷ [])

unfoldable u_0070_3 : List ℕ
u_0070_3 =
    runs ((8, 0x0) ∷ (2, 0xff) ∷ (1, 0xe0) ∷ (22, 0x0) ∷ (1, 0x1b) ∷ (1, 0xfe) ∷ (22, 0x0) ∷ [])

unfoldable pub u_0070 : List ℕ
unfolding u_0070_0 u_0070_1 u_0070_2 u_0070_3 runs
u_0070 = u_0070_0 ++ u_0070_1 ++ u_0070_2 ++ u_0070_3
