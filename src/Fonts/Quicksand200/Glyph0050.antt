-- ===== src/Fonts/Quicksand200/Glyph0050.antt =====
-- The bytes of the glyph U+0050 in fonts/quicksand_200.c, in parts of about 150 lines.
use popcorn.Prelude.{ℕ, List, [], ◌∷◌, ◌++◌}
use popcorn.Fonts.Format.{runs}

unfoldable u_0050_0 : List ℕ
u_0050_0 = runs (
    (1, 0x0)
    ∷ (1, 0x1b)
    ∷ (13, 0xff)
    ∷ (1, 0xa4)
    ∷ (8, 0x0)
    ∷ (1, 0x7)
    ∷ (15, 0xff)
    ∷ (1, 0x90)
    ∷ (7, 0x0)
    ∷ (1, 0x7f)
    ∷ (15, 0xff)
    ∷ (1, 0xfd)
    ∷ (6, 0x0)
    ∷ (1, 0x3)
    ∷ (17, 0xff)
    ∷ (1, 0x80)
    ∷ (5, 0x0)
    ∷ (1, 0x2f)
    ∷ (17, 0xff)
    ∷ (1, 0xe0)
    ∷ (5, 0x0)
    ∷ (18, 0xff)
    ∷ (1, 0xf4)
    ∷ (4, 0x0)
    ∷ (1, 0x7)
    ∷ (18, 0xff)
    ∷ (1, 0xf8)
    ∷ (4, 0x0)
    ∷ (1, 0x1f)
    ∷ (18, 0xff)
    ∷ (1, 0xfd)
    ∷ (4, 0x0)
    ∷ (1, 0x7f)
    ∷ (18, 0xff)
    ∷ (1, 0xfe)
    ∷ (3, 0x0)
    ∷ (1, 0x1)
    ∷ (19, 0xff)
    ∷ (1, 0xfe)
    ∷ (3, 0x0)
    ∷ (1, 0x7)
    ∷ (19, 0xff)
    ∷ (1, 0xfe)
    ∷ (3, 0x0)
    ∷ (1, 0x1f)
    ∷ (19, 0xff)
    ∷ (1, 0xfe)
    ∷ (3, 0x0)
    ∷ (1, 0x7f)
    ∷ (19, 0xff)
    ∷ (1, 0xfe)
    ∷ (2, 0x0)
    ∷ (1, 0x1)
    ∷ (20, 0xff)
    ∷ (1, 0xfe)
    ∷ (2, 0x0)
    ∷ (1, 0x7)
    ∷ (20, 0xff)
    ∷ (1, 0xfd)
    ∷ (2, 0x0)
    ∷ (1, 0x1f)
    ∷ (3, 0xff)
    ∷ (1, 0xe5)
    ∷ (9, 0x55)
    ∷ (1, 0x5a)
    ∷ (6, 0xff)
    ∷ (1, 0xfc)
    ∷ (2, 0x0)
    ∷ (1, 0x7f)
    ∷ (3, 0xff)
    ∷ (11, 0x0)
    ∷ (1, 0x1b)
    ∷ (5, 0xff)
    ∷ (1, 0xfc)
    ∷ (1, 0x0)
    ∷ (1, 0x1)
    ∷ (3, 0xff)
    ∷ (1, 0xfc)
    ∷ (11, 0x0)
    ∷ (1, 0x1)
    ∷ (5, 0xff)
    ∷ (1, 0xf4)
    ∷ (1, 0x0)
    ∷ (1, 0x7)
    ∷ (3, 0xff)
    ∷ (1, 0xf0)
    ∷ (12, 0x0)
    ∷ (1, 0xbf)
    ∷ (4, 0xff)
    ∷ (1, 0xf0)
    ∷ (1, 0x0)
    ∷ (1, 0x1f)
    ∷ (3, 0xff)
    ∷ (1, 0xc0)
    ∷ (12, 0x0)
    ∷ (1, 0x7f)
    ∷ (4, 0xff)
    ∷ (1, 0xe0)
    ∷ (1, 0x0)
    ∷ (1, 0x7f)
    ∷ (3, 0xff)
    ∷ (13, 0x0)
    ∷ (1, 0x3f)
    ∷ (4, 0xff)
    ∷ (1, 0xc0)
    ∷ (1, 0x1)
    ∷ (3, 0xff)
    ∷ (1, 0xfc)
    ∷ (13, 0x0)
    ∷ (1, 0x3f)
    ∷ (4, 0xff)
    ∷ (1, 0x80)
    ∷ (1, 0x7)
    ∷ (3, 0xff)
    ∷ (1, 0xf0)
    ∷ (13, 0x0)
    ∷ (1, 0x3f)
    ∷ (4, 0xff)
    ∷ (1, 0x0)
    ∷ (1, 0x1f)
    ∷ (3, 0xff)
    ∷ (1, 0xc0)
    ∷ (13, 0x0)
    ∷ (1, 0x3f)
    ∷ (3, 0xff)
    ∷ (1, 0xfe)
    ∷ (1, 0x0)
    ∷ (1, 0x7f)
    ∷ (3, 0xff)
    ∷ (14, 0x0)
    ∷ (1, 0x7f)
    ∷ (3, 0xff)
    ∷ (1, 0xfc)
    ∷ (1, 0x1)
    ∷ (3, 0xff)
    ∷ (1, 0xfc)
    ∷ (14, 0x0)
    ∷ (1, 0xbf)
    ∷ (3, 0xff)
    ∷ (1, 0xf4)
    ∷ (1, 0x7)
    ∷ (3, 0xff)
    ∷ (1, 0xf0)
    ∷ (14, 0x0)
    ∷ (4, 0xff)
    ∷ (1, 0xf0)
    ∷ (1, 0x1f)
    ∷ (3, 0xff)
    ∷ (1, 0xc0)
    ∷ (13, 0x0)
    ∷ (1, 0x1)
    ∷ (4, 0xff)
    ∷ (1, 0xc0)
    ∷ (1, 0x7f)
    ∷ (3, 0xff)
    ∷ (14, 0x0)
    ∷ (1, 0x3)
    ∷ (4, 0xff)
    ∷ (1, 0x41)
    ∷ (3, 0xff)
    ∷ (1, 0xfc)
    ∷ (14, 0x0)
    ∷ (1, 0x7)
    ∷ (3, 0xff)
    ∷ (1, 0xfe)
    ∷ (1, 0x7)
    ∷ (3, 0xff)
    ∷ (1, 0xf0)
    ∷ (14, 0x0)
    ∷ (1, 0xf)
    ∷ (3, 0xff)
    ∷ (1, 0xfc)
    ∷ (1, 0x1f)
    ∷ (3, 0xff)
    ∷ (1, 0xc0)
    ∷ (14, 0x0)
    ∷ (1, 0x2f)
    ∷ (3, 0xff)
    ∷ (1, 0xf0)
    ∷ (1, 0x7f)
    ∷ (3, 0xff)
    ∷ (15, 0x0)
    ∷ (1, 0x7f)
    ∷ (3, 0xff)
    ∷ (1, 0xd1)
    ∷ (3, 0xff)
    ∷ (1, 0xfc)
    ∷ (15, 0x0)
    ∷ (4, 0xff)
    ∷ (1, 0x87)
    ∷ (3, 0xff)
    ∷ (1, 0xf0)
    ∷ (14, 0x0)
    ∷ (1, 0x3)
    ∷ (3, 0xff)
    ∷ (1, 0xfe)
    ∷ (1, 0x1f)
    ∷ (3, 0xff)
    ∷ (1, 0xc0)
    ∷ (14, 0x0)
    ∷ (1, 0xb)
    ∷ (3, 0xff)
    ∷ (1, 0xfc)
    ∷ (1, 0x7f)
    ∷ (3, 0xff)
    ∷ (15, 0x0)
    ∷ (1, 0x1f)
    ∷ (3, 0xff)
    ∷ (1, 0xf1)
    ∷ (3, 0xff)
    ∷ (1, 0xfc)
    ∷ (15, 0x0)
    ∷ (1, 0x7f)
    ∷ (3, 0xff)
    ∷ (1, 0xc7)
    ∷ (3, 0xff)
    ∷ (1, 0xf0)
    ∷ (15, 0x0)
    ∷ (4, 0xff)
    ∷ (1, 0x1f)
    ∷ (3, 0xff)
    ∷ (1, 0xc0)
    ∷ (14, 0x0)
    ∷ (1, 0x3)
    ∷ (3, 0xff)
    ∷ (1, 0xfc)
    ∷ (1, 0x7f)
    ∷ (3, 0xff)
    ∷ (15, 0x0)
    ∷ (1, 0xf)
    ∷ (3, 0xff)
    ∷ (1, 0xf1)
    ∷ (3, 0xff)
    ∷ (1, 0xfc)
    ∷ (15, 0x0)
    ∷ (1, 0x3f)
    ∷ (3, 0xff)
    ∷ (1, 0xc7)
    ∷ (3, 0xff)
    ∷ (1, 0xf0)
    ∷ (15, 0x0)
    ∷ (4, 0xff)
    ∷ (1, 0x1f)
    ∷ (3, 0xff)
    ∷ (1, 0xc0)
    ∷ (14, 0x0)
    ∷ (1, 0x3)
    ∷ (3, 0xff)
    ∷ (1, 0xfc)
    ∷ (1, 0x7f)
    ∷ (3, 0xff)
    ∷ (15, 0x0)
    ∷ (1, 0xf)
    ∷ (3, 0xff)
    ∷ (1, 0xf1)
    ∷ (3, 0xff)
    ∷ (1, 0xfc)
    ∷ (15, 0x0)
    ∷ (1, 0x3f)
    ∷ (3, 0xff)
    ∷ (1, 0xc7)
    ∷ (3, 0xff)
    ∷ (1, 0xf0)
    ∷ (14, 0x0)
    ∷ (1, 0x1)
    ∷ (4, 0xff)
    ∷ (1, 0x1f)
    ∷ (3, 0xff)
    ∷ (1, 0xc0)
    ∷ (14, 0x0)
    ∷ (1, 0xb)
    ∷ (3, 0xff)
    ∷ (1, 0xfc)
    ∷ (1, 0x7f)
    ∷ (3, 0xff)
    ∷ (15, 0x0)
    ∷ (1, 0x2f)
    ∷ (3, 0xff)
    ∷ (1, 0xf1)
    ∷ (3, 0xff)
    ∷ (1, 0xfc)
    ∷ (15, 0x0)
    ∷ (1, 0xff)
    ∷ [])

unfoldable u_0050_1 : List ℕ
u_0050_1 = runs (
    (3, 0xff)
    ∷ (1, 0x87)
    ∷ (3, 0xff)
    ∷ (1, 0xf0)
    ∷ (14, 0x0)
    ∷ (1, 0x3)
    ∷ (3, 0xff)
    ∷ (1, 0xfd)
    ∷ (1, 0x1f)
    ∷ (3, 0xff)
    ∷ (1, 0xc0)
    ∷ (14, 0x0)
    ∷ (1, 0x2f)
    ∷ (3, 0xff)
    ∷ (1, 0xf0)
    ∷ (1, 0x7f)
    ∷ (3, 0xff)
    ∷ (15, 0x0)
    ∷ (4, 0xff)
    ∷ (1, 0xc1)
    ∷ (3, 0xff)
    ∷ (1, 0xfc)
    ∷ (14, 0x0)
    ∷ (1, 0x7)
    ∷ (4, 0xff)
    ∷ (1, 0x7)
    ∷ (3, 0xff)
    ∷ (1, 0xf0)
    ∷ (14, 0x0)
    ∷ (1, 0x2f)
    ∷ (3, 0xff)
    ∷ (1, 0xf8)
    ∷ (1, 0x1f)
    ∷ (3, 0xff)
    ∷ (1, 0xc0)
    ∷ (14, 0x0)
    ∷ (4, 0xff)
    ∷ (1, 0xc0)
    ∷ (1, 0x7f)
    ∷ (3, 0xff)
    ∷ (14, 0x0)
    ∷ (1, 0xb)
    ∷ (4, 0xff)
    ∷ (1, 0x1)
    ∷ (3, 0xff)
    ∷ (1, 0xfc)
    ∷ (14, 0x0)
    ∷ (1, 0x7f)
    ∷ (3, 0xff)
    ∷ (1, 0xf8)
    ∷ (1, 0x7)
    ∷ (3, 0xff)
    ∷ (1, 0xf0)
    ∷ (13, 0x0)
    ∷ (1, 0x3)
    ∷ (4, 0xff)
    ∷ (1, 0xc0)
    ∷ (1, 0x1f)
    ∷ (3, 0xff)
    ∷ (1, 0xc0)
    ∷ (13, 0x0)
    ∷ (1, 0x2f)
    ∷ (4, 0xff)
    ∷ (1, 0x0)
    ∷ (1, 0x7f)
    ∷ (3, 0xff)
    ∷ (13, 0x0)
    ∷ (1, 0x1)
    ∷ (4, 0xff)
    ∷ (1, 0xf4)
    ∷ (1, 0x1)
    ∷ (3, 0xff)
    ∷ (1, 0xfc)
    ∷ (13, 0x0)
    ∷ (1, 0xf)
    ∷ (4, 0xff)
    ∷ (1, 0xc0)
    ∷ (1, 0x7)
    ∷ (3, 0xff)
    ∷ (1, 0xf0)
    ∷ (13, 0x0)
    ∷ (4, 0xff)
    ∷ (1, 0xfd)
    ∷ (1, 0x0)
    ∷ (1, 0x1f)
    ∷ (3, 0xff)
    ∷ (1, 0xc0)
    ∷ (12, 0x0)
    ∷ (1, 0xf)
    ∷ (4, 0xff)
    ∷ (1, 0xf0)
    ∷ (1, 0x0)
    ∷ (1, 0x7f)
    ∷ (3, 0xff)
    ∷ (12, 0x0)
    ∷ (1, 0x1)
    ∷ (5, 0xff)
    ∷ (1, 0x40)
    ∷ (1, 0x1)
    ∷ (3, 0xff)
    ∷ (1, 0xfc)
    ∷ (12, 0x0)
    ∷ (1, 0x2f)
    ∷ (4, 0xff)
    ∷ (1, 0xf8)
    ∷ (1, 0x0)
    ∷ (1, 0x7)
    ∷ (3, 0xff)
    ∷ (1, 0xf0)
    ∷ (11, 0x0)
    ∷ (1, 0x7)
    ∷ (5, 0xff)
    ∷ (1, 0xc0)
    ∷ (1, 0x0)
    ∷ (1, 0x1f)
    ∷ (3, 0xff)
    ∷ (1, 0xc0)
    ∷ (10, 0x0)
    ∷ (1, 0x6)
    ∷ (5, 0xff)
    ∷ (1, 0xfd)
    ∷ (2, 0x0)
    ∷ (1, 0x7f)
    ∷ (3, 0xff)
    ∷ (1, 0x95)
    ∷ (9, 0x55)
    ∷ (1, 0x5b)
    ∷ (6, 0xff)
    ∷ (1, 0xe0)
    ∷ (1, 0x0)
    ∷ (1, 0x1)
    ∷ (21, 0xff)
    ∷ (2, 0x0)
    ∷ (1, 0x7)
    ∷ (20, 0xff)
    ∷ (1, 0xf0)
    ∷ (2, 0x0)
    ∷ (1, 0x1f)
    ∷ (20, 0xff)
    ∷ (1, 0x40)
    ∷ (2, 0x0)
    ∷ (1, 0x7f)
    ∷ (19, 0xff)
    ∷ (1, 0xf4)
    ∷ (2, 0x0)
    ∷ (1, 0x1)
    ∷ (20, 0xff)
    ∷ (1, 0x40)
    ∷ (2, 0x0)
    ∷ (1, 0x7)
    ∷ (19, 0xff)
    ∷ (1, 0xf4)
    ∷ (3, 0x0)
    ∷ (1, 0x1f)
    ∷ (19, 0xff)
    ∷ (4, 0x0)
    ∷ (1, 0x7f)
    ∷ (18, 0xff)
    ∷ (1, 0xf0)
    ∷ (3, 0x0)
    ∷ (1, 0x1)
    ∷ (18, 0xff)
    ∷ (1, 0xfd)
    ∷ (4, 0x0)
    ∷ (1, 0x7)
    ∷ (18, 0xff)
    ∷ (1, 0xc0)
    ∷ (4, 0x0)
    ∷ (1, 0x1f)
    ∷ (17, 0xff)
    ∷ (1, 0xf4)
    ∷ (5, 0x0)
    ∷ (1, 0x7f)
    ∷ (16, 0xff)
    ∷ (1, 0xfd)
    ∷ (5, 0x0)
    ∷ (1, 0x1)
    ∷ (16, 0xff)
    ∷ (1, 0xfe)
    ∷ (1, 0x40)
    ∷ (5, 0x0)
    ∷ (1, 0x7)
    ∷ (15, 0xff)
    ∷ (1, 0xfe)
    ∷ (1, 0x40)
    ∷ (6, 0x0)
    ∷ (1, 0x1f)
    ∷ (14, 0xff)
    ∷ (1, 0xe9)
    ∷ (8, 0x0)
    ∷ (1, 0x7f)
    ∷ (3, 0xff)
    ∷ (19, 0x0)
    ∷ (1, 0x1)
    ∷ (3, 0xff)
    ∷ (1, 0xfc)
    ∷ (19, 0x0)
    ∷ (1, 0x7)
    ∷ (3, 0xff)
    ∷ (1, 0xf0)
    ∷ (19, 0x0)
    ∷ (1, 0x1f)
    ∷ (3, 0xff)
    ∷ (1, 0xc0)
    ∷ (19, 0x0)
    ∷ (1, 0x7f)
    ∷ (3, 0xff)
    ∷ (19, 0x0)
    ∷ (1, 0x1)
    ∷ (3, 0xff)
    ∷ (1, 0xfc)
    ∷ (19, 0x0)
    ∷ (1, 0x7)
    ∷ (3, 0xff)
    ∷ (1, 0xf0)
    ∷ (19, 0x0)
    ∷ (1, 0x1f)
    ∷ (3, 0xff)
    ∷ (1, 0xc0)
    ∷ (19, 0x0)
    ∷ (1, 0x7f)
    ∷ (3, 0xff)
    ∷ (19, 0x0)
    ∷ (1, 0x1)
    ∷ (3, 0xff)
    ∷ (1, 0xfc)
    ∷ (19, 0x0)
    ∷ (1, 0x7)
    ∷ (3, 0xff)
    ∷ (1, 0xf0)
    ∷ (19, 0x0)
    ∷ (1, 0x1f)
    ∷ (3, 0xff)
    ∷ (1, 0xc0)
    ∷ (19, 0x0)
    ∷ (1, 0x7f)
    ∷ (3, 0xff)
    ∷ (19, 0x0)
    ∷ (1, 0x1)
    ∷ (3, 0xff)
    ∷ (1, 0xfc)
    ∷ (19, 0x0)
    ∷ (1, 0x7)
    ∷ (3, 0xff)
    ∷ (1, 0xf0)
    ∷ (19, 0x0)
    ∷ (1, 0x1f)
    ∷ (3, 0xff)
    ∷ (1, 0xc0)
    ∷ (19, 0x0)
    ∷ (1, 0x7f)
    ∷ [])

unfoldable u_0050_2 : List ℕ
u_0050_2 = runs (
    (3, 0xff)
    ∷ (19, 0x0)
    ∷ (1, 0x1)
    ∷ (3, 0xff)
    ∷ (1, 0xfc)
    ∷ (19, 0x0)
    ∷ (1, 0x7)
    ∷ (3, 0xff)
    ∷ (1, 0xf0)
    ∷ (19, 0x0)
    ∷ (1, 0x1f)
    ∷ (3, 0xff)
    ∷ (1, 0xc0)
    ∷ (19, 0x0)
    ∷ (1, 0x7f)
    ∷ (3, 0xff)
    ∷ (19, 0x0)
    ∷ (1, 0x1)
    ∷ (3, 0xff)
    ∷ (1, 0xfc)
    ∷ (19, 0x0)
    ∷ (1, 0x7)
    ∷ (3, 0xff)
    ∷ (1, 0xf0)
    ∷ (19, 0x0)
    ∷ (1, 0x1f)
    ∷ (3, 0xff)
    ∷ (1, 0xc0)
    ∷ (19, 0x0)
    ∷ (1, 0x7f)
    ∷ (3, 0xff)
    ∷ (19, 0x0)
    ∷ (1, 0x1)
    ∷ (3, 0xff)
    ∷ (1, 0xfc)
    ∷ (19, 0x0)
    ∷ (1, 0x7)
    ∷ (3, 0xff)
    ∷ (1, 0xf0)
    ∷ (19, 0x0)
    ∷ (1, 0x1f)
    ∷ (3, 0xff)
    ∷ (1, 0xc0)
    ∷ (19, 0x0)
    ∷ (1, 0x7f)
    ∷ (3, 0xff)
    ∷ (19, 0x0)
    ∷ (1, 0x1)
    ∷ (3, 0xff)
    ∷ (1, 0xfc)
    ∷ (19, 0x0)
    ∷ (1, 0x7)
    ∷ (3, 0xff)
    ∷ (1, 0xf0)
    ∷ (19, 0x0)
    ∷ (1, 0x1f)
    ∷ (3, 0xff)
    ∷ (1, 0xc0)
    ∷ (19, 0x0)
    ∷ (1, 0x7f)
    ∷ (3, 0xff)
    ∷ (19, 0x0)
    ∷ (1, 0x1)
    ∷ (3, 0xff)
    ∷ (1, 0xfc)
    ∷ (19, 0x0)
    ∷ (1, 0x7)
    ∷ (3, 0xff)
    ∷ (1, 0xf0)
    ∷ (19, 0x0)
    ∷ (1, 0x1f)
    ∷ (3, 0xff)
    ∷ (1, 0xc0)
    ∷ (19, 0x0)
    ∷ (1, 0x7f)
    ∷ (3, 0xff)
    ∷ (19, 0x0)
    ∷ (1, 0x1)
    ∷ (3, 0xff)
    ∷ (1, 0xfc)
    ∷ (19, 0x0)
    ∷ (1, 0x7)
    ∷ (3, 0xff)
    ∷ (1, 0xf0)
    ∷ (19, 0x0)
    ∷ (1, 0x1f)
    ∷ (3, 0xff)
    ∷ (1, 0xc0)
    ∷ (19, 0x0)
    ∷ (1, 0x7f)
    ∷ (3, 0xff)
    ∷ (19, 0x0)
    ∷ (1, 0x1)
    ∷ (3, 0xff)
    ∷ (1, 0xfc)
    ∷ (19, 0x0)
    ∷ (1, 0x7)
    ∷ (3, 0xff)
    ∷ (1, 0xf0)
    ∷ (19, 0x0)
    ∷ (1, 0x1f)
    ∷ (3, 0xff)
    ∷ (1, 0xc0)
    ∷ (19, 0x0)
    ∷ (1, 0x7f)
    ∷ (3, 0xff)
    ∷ (19, 0x0)
    ∷ (1, 0x1)
    ∷ (3, 0xff)
    ∷ (1, 0xfc)
    ∷ (19, 0x0)
    ∷ (1, 0x7)
    ∷ (3, 0xff)
    ∷ (1, 0xf0)
    ∷ (19, 0x0)
    ∷ (1, 0x1f)
    ∷ (3, 0xff)
    ∷ (1, 0xc0)
    ∷ (19, 0x0)
    ∷ (1, 0x7f)
    ∷ (3, 0xff)
    ∷ (19, 0x0)
    ∷ (1, 0x1)
    ∷ (3, 0xff)
    ∷ (1, 0xfc)
    ∷ (19, 0x0)
    ∷ (1, 0x3)
    ∷ (3, 0xff)
    ∷ (1, 0xf0)
    ∷ (19, 0x0)
    ∷ (1, 0xb)
    ∷ (3, 0xff)
    ∷ (1, 0x40)
    ∷ (19, 0x0)
    ∷ (1, 0xf)
    ∷ (2, 0xff)
    ∷ (1, 0xfc)
    ∷ (20, 0x0)
    ∷ (1, 0x1f)
    ∷ (2, 0xff)
    ∷ (1, 0xc0)
    ∷ (20, 0x0)
    ∷ (1, 0x1f)
    ∷ (1, 0xff)
    ∷ (1, 0xfc)
    ∷ (21, 0x0)
    ∷ (1, 0xb)
    ∷ (1, 0xfe)
    ∷ (1, 0x40)
    ∷ (20, 0x0)
    ∷ [])

unfoldable pub u_0050 : List ℕ
unfolding u_0050_0 u_0050_1 u_0050_2 runs
u_0050 = u_0050_0 ++ u_0050_1 ++ u_0050_2
