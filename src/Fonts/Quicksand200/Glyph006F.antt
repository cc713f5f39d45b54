-- ===== src/Fonts/Quicksand200/Glyph006F.antt =====
-- The bytes of the glyph U+006F in fonts/quicksand_200.c, in parts of about 150 lines.
use popcorn.Prelude.{ℕ, List, [], ◌∷◌, ◌++◌}
use popcorn.Fonts.Format.{runs}

unfoldable u_006f_0 : List ℕ
u_006f_0 = runs (
    (10, 0x0)
    ∷ (1, 0x1)
    ∷ (1, 0x6b)
    ∷ (2, 0xff)
    ∷ (1, 0xfa)
    ∷ (1, 0x40)
    ∷ (19, 0x0)
    ∷ (1, 0x6)
    ∷ (6, 0xff)
    ∷ (1, 0x90)
    ∷ (17, 0x0)
    ∷ (1, 0x1)
    ∷ (1, 0xbf)
    ∷ (7, 0xff)
    ∷ (1, 0x80)
    ∷ (16, 0x0)
    ∷ (1, 0x6f)
    ∷ (8, 0xff)
    ∷ (1, 0xfd)
    ∷ (15, 0x0)
    ∷ (1, 0x7)
    ∷ (10, 0xff)
    ∷ (1, 0xe0)
    ∷ (14, 0x0)
    ∷ (1, 0x7f)
    ∷ (10, 0xff)
    ∷ (1, 0xfe)
    ∷ (13, 0x0)
    ∷ (1, 0x7)
    ∷ (12, 0xff)
    ∷ (1, 0xe0)
    ∷ (12, 0x0)
    ∷ (1, 0x3f)
    ∷ (12, 0xff)
    ∷ (1, 0xfd)
    ∷ (11, 0x0)
    ∷ (1, 0x2)
    ∷ (14, 0xff)
    ∷ (1, 0x80)
    ∷ (10, 0x0)
    ∷ (1, 0xf)
    ∷ (14, 0xff)
    ∷ (1, 0xf4)
    ∷ (10, 0x0)
    ∷ (1, 0x7f)
    ∷ (14, 0xff)
    ∷ (1, 0xfe)
    ∷ (9, 0x0)
    ∷ (1, 0x2)
    ∷ (16, 0xff)
    ∷ (1, 0xc0)
    ∷ (8, 0x0)
    ∷ (1, 0xb)
    ∷ (16, 0xff)
    ∷ (1, 0xf0)
    ∷ (8, 0x0)
    ∷ (1, 0x3f)
    ∷ (16, 0xff)
    ∷ (1, 0xfc)
    ∷ (8, 0x0)
    ∷ (18, 0xff)
    ∷ (7, 0x0)
    ∷ (1, 0x3)
    ∷ (7, 0xff)
    ∷ (1, 0x90)
    ∷ (2, 0x0)
    ∷ (1, 0x5)
    ∷ (1, 0xbf)
    ∷ (6, 0xff)
    ∷ (1, 0xc0)
    ∷ (6, 0x0)
    ∷ (1, 0xf)
    ∷ (6, 0xff)
    ∷ (1, 0x90)
    ∷ (4, 0x0)
    ∷ (1, 0x2)
    ∷ (6, 0xff)
    ∷ (1, 0xf0)
    ∷ (6, 0x0)
    ∷ (1, 0x3f)
    ∷ (5, 0xff)
    ∷ (1, 0xf4)
    ∷ (6, 0x0)
    ∷ (1, 0x1b)
    ∷ (5, 0xff)
    ∷ (1, 0xfc)
    ∷ (6, 0x0)
    ∷ (1, 0xbf)
    ∷ (5, 0xff)
    ∷ (1, 0x40)
    ∷ (7, 0x0)
    ∷ (1, 0xbf)
    ∷ (5, 0xff)
    ∷ (5, 0x0)
    ∷ (1, 0x1)
    ∷ (5, 0xff)
    ∷ (1, 0xf4)
    ∷ (8, 0x0)
    ∷ (1, 0xf)
    ∷ (5, 0xff)
    ∷ (1, 0x80)
    ∷ (4, 0x0)
    ∷ (1, 0x3)
    ∷ (5, 0xff)
    ∷ (1, 0x80)
    ∷ (8, 0x0)
    ∷ (1, 0x1)
    ∷ (5, 0xff)
    ∷ (1, 0xd0)
    ∷ (4, 0x0)
    ∷ (1, 0xf)
    ∷ (4, 0xff)
    ∷ (1, 0xfd)
    ∷ (10, 0x0)
    ∷ (1, 0x3f)
    ∷ (4, 0xff)
    ∷ (1, 0xf0)
    ∷ (4, 0x0)
    ∷ (1, 0x2f)
    ∷ (4, 0xff)
    ∷ (1, 0xf0)
    ∷ (10, 0x0)
    ∷ (1, 0xb)
    ∷ (4, 0xff)
    ∷ (1, 0xfc)
    ∷ (4, 0x0)
    ∷ (1, 0x7f)
    ∷ (4, 0xff)
    ∷ (1, 0xc0)
    ∷ (10, 0x0)
    ∷ (1, 0x2)
    ∷ (4, 0xff)
    ∷ (1, 0xfd)
    ∷ (4, 0x0)
    ∷ (5, 0xff)
    ∷ (12, 0x0)
    ∷ (1, 0x7f)
    ∷ (4, 0xff)
    ∷ (3, 0x0)
    ∷ (1, 0x1)
    ∷ (4, 0xff)
    ∷ (1, 0xfc)
    ∷ (12, 0x0)
    ∷ (1, 0x2f)
    ∷ (4, 0xff)
    ∷ (1, 0x80)
    ∷ (2, 0x0)
    ∷ (1, 0x3)
    ∷ (4, 0xff)
    ∷ (1, 0xf0)
    ∷ (12, 0x0)
    ∷ (1, 0xb)
    ∷ (4, 0xff)
    ∷ (1, 0xd0)
    ∷ (2, 0x0)
    ∷ (1, 0xb)
    ∷ (4, 0xff)
    ∷ (1, 0xc0)
    ∷ (12, 0x0)
    ∷ (1, 0x2)
    ∷ (4, 0xff)
    ∷ (1, 0xf0)
    ∷ (2, 0x0)
    ∷ (1, 0xf)
    ∷ (4, 0xff)
    ∷ (1, 0x40)
    ∷ (13, 0x0)
    ∷ (4, 0xff)
    ∷ (1, 0xf4)
    ∷ (2, 0x0)
    ∷ (1, 0x2f)
    ∷ (3, 0xff)
    ∷ (1, 0xfe)
    ∷ (14, 0x0)
    ∷ (1, 0x3f)
    ∷ (3, 0xff)
    ∷ (1, 0xfc)
    ∷ (2, 0x0)
    ∷ (1, 0x3f)
    ∷ (3, 0xff)
    ∷ (1, 0xfc)
    ∷ (14, 0x0)
    ∷ (1, 0x2f)
    ∷ (3, 0xff)
    ∷ (1, 0xfd)
    ∷ (2, 0x0)
    ∷ (1, 0x7f)
    ∷ (3, 0xff)
    ∷ (1, 0xf0)
    ∷ (14, 0x0)
    ∷ (1, 0xf)
    ∷ (3, 0xff)
    ∷ (1, 0xfe)
    ∷ (2, 0x0)
    ∷ (4, 0xff)
    ∷ (1, 0xe0)
    ∷ (14, 0x0)
    ∷ (1, 0x7)
    ∷ (4, 0xff)
    ∷ (1, 0x0)
    ∷ (1, 0x1)
    ∷ (4, 0xff)
    ∷ (1, 0xc0)
    ∷ (14, 0x0)
    ∷ (1, 0x3)
    ∷ (4, 0xff)
    ∷ (1, 0x40)
    ∷ (1, 0x2)
    ∷ (4, 0xff)
    ∷ (1, 0x80)
    ∷ (14, 0x0)
    ∷ (1, 0x1)
    ∷ (4, 0xff)
    ∷ (1, 0xc0)
    ∷ (1, 0x3)
    ∷ (4, 0xff)
    ∷ (16, 0x0)
    ∷ (4, 0xff)
    ∷ (1, 0xc0)
    ∷ (1, 0x7)
    ∷ (3, 0xff)
    ∷ (1, 0xfe)
    ∷ (16, 0x0)
    ∷ (1, 0x7f)
    ∷ (3, 0xff)
    ∷ (1, 0xe0)
    ∷ (1, 0xb)
    ∷ (3, 0xff)
    ∷ (1, 0xfc)
    ∷ (16, 0x0)
    ∷ (1, 0x3f)
    ∷ (3, 0xff)
    ∷ (1, 0xf0)
    ∷ (1, 0xf)
    ∷ (3, 0xff)
    ∷ (1, 0xfc)
    ∷ (16, 0x0)
    ∷ (1, 0x2f)
    ∷ (3, 0xff)
    ∷ (1, 0xf0)
    ∷ (1, 0xf)
    ∷ (3, 0xff)
    ∷ (1, 0xf4)
    ∷ (16, 0x0)
    ∷ (1, 0xf)
    ∷ (3, 0xff)
    ∷ (1, 0xf4)
    ∷ (1, 0x1f)
    ∷ (3, 0xff)
    ∷ (1, 0xf0)
    ∷ (16, 0x0)
    ∷ (1, 0xf)
    ∷ (3, 0xff)
    ∷ (1, 0xf8)
    ∷ (1, 0x2f)
    ∷ (3, 0xff)
    ∷ (1, 0xf0)
    ∷ (16, 0x0)
    ∷ (1, 0xb)
    ∷ (3, 0xff)
    ∷ (1, 0xfc)
    ∷ (1, 0x3f)
    ∷ (3, 0xff)
    ∷ (1, 0xe0)
    ∷ (16, 0x0)
    ∷ (1, 0x7)
    ∷ (3, 0xff)
    ∷ (1, 0xfc)
    ∷ (1, 0x3f)
    ∷ (3, 0xff)
    ∷ (1, 0xd0)
    ∷ (16, 0x0)
    ∷ (1, 0x3)
    ∷ (3, 0xff)
    ∷ (1, 0xfc)
    ∷ (1, 0x3f)
    ∷ (3, 0xff)
    ∷ (1, 0xc0)
    ∷ (16, 0x0)
    ∷ (1, 0x3)
    ∷ (3, 0xff)
    ∷ (1, 0xfd)
    ∷ (1, 0x7f)
    ∷ (3, 0xff)
    ∷ (1, 0xc0)
    ∷ (9, 0x0)
    ∷ [])

unfoldable u_006f_1 : List ℕ
u_006f_1 = runs (
    (7, 0x0)
    ∷ (1, 0x2)
    ∷ (3, 0xff)
    ∷ (1, 0xfd)
    ∷ (1, 0x7f)
    ∷ (3, 0xff)
    ∷ (1, 0xc0)
    ∷ (16, 0x0)
    ∷ (1, 0x2)
    ∷ (3, 0xff)
    ∷ (1, 0xfe)
    ∷ (1, 0x7f)
    ∷ (3, 0xff)
    ∷ (1, 0x80)
    ∷ (16, 0x0)
    ∷ (1, 0x1)
    ∷ (3, 0xff)
    ∷ (1, 0xfe)
    ∷ (1, 0xbf)
    ∷ (3, 0xff)
    ∷ (1, 0x40)
    ∷ (16, 0x0)
    ∷ (1, 0x1)
    ∷ (4, 0xff)
    ∷ (1, 0xbf)
    ∷ (3, 0xff)
    ∷ (1, 0x40)
    ∷ (17, 0x0)
    ∷ (4, 0xff)
    ∷ (1, 0xbf)
    ∷ (3, 0xff)
    ∷ (1, 0x40)
    ∷ (17, 0x0)
    ∷ (4, 0xff)
    ∷ (1, 0xbf)
    ∷ (3, 0xff)
    ∷ (1, 0x40)
    ∷ (17, 0x0)
    ∷ (8, 0xff)
    ∷ (18, 0x0)
    ∷ (8, 0xff)
    ∷ (18, 0x0)
    ∷ (8, 0xff)
    ∷ (18, 0x0)
    ∷ (8, 0xff)
    ∷ (18, 0x0)
    ∷ (4, 0xff)
    ∷ (1, 0xbf)
    ∷ (3, 0xff)
    ∷ (1, 0x40)
    ∷ (17, 0x0)
    ∷ (4, 0xff)
    ∷ (1, 0xbf)
    ∷ (3, 0xff)
    ∷ (1, 0x40)
    ∷ (17, 0x0)
    ∷ (4, 0xff)
    ∷ (1, 0xbf)
    ∷ (3, 0xff)
    ∷ (1, 0x40)
    ∷ (17, 0x0)
    ∷ (4, 0xff)
    ∷ (1, 0xbf)
    ∷ (3, 0xff)
    ∷ (1, 0x80)
    ∷ (16, 0x0)
    ∷ (1, 0x1)
    ∷ (4, 0xff)
    ∷ (1, 0x7f)
    ∷ (3, 0xff)
    ∷ (1, 0x80)
    ∷ (16, 0x0)
    ∷ (1, 0x1)
    ∷ (3, 0xff)
    ∷ (1, 0xfe)
    ∷ (1, 0x7f)
    ∷ (3, 0xff)
    ∷ (1, 0xc0)
    ∷ (16, 0x0)
    ∷ (1, 0x2)
    ∷ (3, 0xff)
    ∷ (1, 0xfe)
    ∷ (1, 0x7f)
    ∷ (3, 0xff)
    ∷ (1, 0xc0)
    ∷ (16, 0x0)
    ∷ (1, 0x2)
    ∷ (3, 0xff)
    ∷ (1, 0xfd)
    ∷ (1, 0x3f)
    ∷ (3, 0xff)
    ∷ (1, 0xc0)
    ∷ (16, 0x0)
    ∷ (1, 0x3)
    ∷ (3, 0xff)
    ∷ (1, 0xfd)
    ∷ (1, 0x3f)
    ∷ (3, 0xff)
    ∷ (1, 0xd0)
    ∷ (16, 0x0)
    ∷ (1, 0x3)
    ∷ (3, 0xff)
    ∷ (1, 0xfc)
    ∷ (1, 0x3f)
    ∷ (3, 0xff)
    ∷ (1, 0xe0)
    ∷ (16, 0x0)
    ∷ (1, 0x7)
    ∷ (3, 0xff)
    ∷ (1, 0xfc)
    ∷ (1, 0x2f)
    ∷ (3, 0xff)
    ∷ (1, 0xf0)
    ∷ (16, 0x0)
    ∷ (1, 0xb)
    ∷ (3, 0xff)
    ∷ (1, 0xfc)
    ∷ (1, 0x1f)
    ∷ (3, 0xff)
    ∷ (1, 0xf0)
    ∷ (16, 0x0)
    ∷ (1, 0xf)
    ∷ (3, 0xff)
    ∷ (1, 0xf8)
    ∷ (1, 0xf)
    ∷ (3, 0xff)
    ∷ (1, 0xf4)
    ∷ (16, 0x0)
    ∷ (1, 0xf)
    ∷ (3, 0xff)
    ∷ (1, 0xf4)
    ∷ (1, 0xf)
    ∷ (3, 0xff)
    ∷ (1, 0xfc)
    ∷ (16, 0x0)
    ∷ (1, 0x2f)
    ∷ (3, 0xff)
    ∷ (1, 0xf0)
    ∷ (1, 0xb)
    ∷ (3, 0xff)
    ∷ (1, 0xfc)
    ∷ (16, 0x0)
    ∷ (1, 0x3f)
    ∷ (3, 0xff)
    ∷ (1, 0xf0)
    ∷ (1, 0x7)
    ∷ (3, 0xff)
    ∷ (1, 0xfe)
    ∷ (16, 0x0)
    ∷ (1, 0x7f)
    ∷ (3, 0xff)
    ∷ (1, 0xe0)
    ∷ (1, 0x3)
    ∷ (4, 0xff)
    ∷ (16, 0x0)
    ∷ (4, 0xff)
    ∷ (1, 0xc0)
    ∷ (1, 0x2)
    ∷ (4, 0xff)
    ∷ (1, 0x80)
    ∷ (14, 0x0)
    ∷ (1, 0x1)
    ∷ (4, 0xff)
    ∷ (1, 0xc0)
    ∷ (1, 0x1)
    ∷ (4, 0xff)
    ∷ (1, 0xc0)
    ∷ (14, 0x0)
    ∷ (1, 0x3)
    ∷ (4, 0xff)
    ∷ (1, 0x40)
    ∷ (1, 0x0)
    ∷ (4, 0xff)
    ∷ (1, 0xf0)
    ∷ (14, 0x0)
    ∷ (1, 0x7)
    ∷ (4, 0xff)
    ∷ (2, 0x0)
    ∷ (1, 0x7f)
    ∷ (3, 0xff)
    ∷ (1, 0xf4)
    ∷ (14, 0x0)
    ∷ (1, 0xf)
    ∷ (3, 0xff)
    ∷ (1, 0xfe)
    ∷ (2, 0x0)
    ∷ (1, 0x3f)
    ∷ (3, 0xff)
    ∷ (1, 0xfc)
    ∷ (14, 0x0)
    ∷ (1, 0x2f)
    ∷ (3, 0xff)
    ∷ (1, 0xfd)
    ∷ (2, 0x0)
    ∷ (1, 0x2f)
    ∷ (3, 0xff)
    ∷ (1, 0xfe)
    ∷ (14, 0x0)
    ∷ (1, 0x7f)
    ∷ (3, 0xff)
    ∷ (1, 0xfc)
    ∷ (2, 0x0)
    ∷ (1, 0xf)
    ∷ (4, 0xff)
    ∷ (1, 0x40)
    ∷ (13, 0x0)
    ∷ (4, 0xff)
    ∷ (1, 0xf4)
    ∷ (2, 0x0)
    ∷ (1, 0xb)
    ∷ (4, 0xff)
    ∷ (1, 0xd0)
    ∷ (12, 0x0)
    ∷ (1, 0x3)
    ∷ (4, 0xff)
    ∷ (1, 0xf0)
    ∷ (2, 0x0)
    ∷ (1, 0x3)
    ∷ (4, 0xff)
    ∷ (1, 0xf0)
    ∷ (12, 0x0)
    ∷ (1, 0xb)
    ∷ (4, 0xff)
    ∷ (1, 0xd0)
    ∷ (2, 0x0)
    ∷ (1, 0x1)
    ∷ (4, 0xff)
    ∷ (1, 0xfc)
    ∷ (12, 0x0)
    ∷ (1, 0x2f)
    ∷ (4, 0xff)
    ∷ (1, 0x80)
    ∷ (3, 0x0)
    ∷ (5, 0xff)
    ∷ (12, 0x0)
    ∷ (1, 0xbf)
    ∷ (4, 0xff)
    ∷ (4, 0x0)
    ∷ (1, 0x7f)
    ∷ (4, 0xff)
    ∷ (1, 0xc0)
    ∷ (10, 0x0)
    ∷ (1, 0x2)
    ∷ (4, 0xff)
    ∷ (1, 0xfd)
    ∷ (4, 0x0)
    ∷ (1, 0x2f)
    ∷ (4, 0xff)
    ∷ (1, 0xf4)
    ∷ (10, 0x0)
    ∷ (1, 0xf)
    ∷ (4, 0xff)
    ∷ (1, 0xfc)
    ∷ (4, 0x0)
    ∷ (1, 0xf)
    ∷ (4, 0xff)
    ∷ (1, 0xfe)
    ∷ (10, 0x0)
    ∷ (1, 0x7f)
    ∷ (4, 0xff)
    ∷ (1, 0xf0)
    ∷ (4, 0x0)
    ∷ (1, 0x3)
    ∷ (5, 0xff)
    ∷ (1, 0xc0)
    ∷ (8, 0x0)
    ∷ (1, 0x2)
    ∷ (5, 0xff)
    ∷ (1, 0xd0)
    ∷ (4, 0x0)
    ∷ (1, 0x1)
    ∷ (5, 0xff)
    ∷ (1, 0xf8)
    ∷ (8, 0x0)
    ∷ (1, 0x1f)
    ∷ (5, 0xff)
    ∷ (1, 0x80)
    ∷ (5, 0x0)
    ∷ (1, 0xbf)
    ∷ (5, 0xff)
    ∷ (1, 0x40)
    ∷ (7, 0x0)
    ∷ (1, 0xbf)
    ∷ (5, 0xff)
    ∷ (6, 0x0)
    ∷ (1, 0x3f)
    ∷ (5, 0xff)
    ∷ (1, 0xf4)
    ∷ (6, 0x0)
    ∷ (1, 0x1f)
    ∷ (5, 0xff)
    ∷ (1, 0xfc)
    ∷ (6, 0x0)
    ∷ (1, 0xf)
    ∷ (6, 0xff)
    ∷ [])

unfoldable u_006f_2 : List ℕ
u_006f_2 = runs (
    (1, 0x90)
    ∷ (4, 0x0)
    ∷ (1, 0x6)
    ∷ (6, 0xff)
    ∷ (1, 0xf0)
    ∷ (6, 0x0)
    ∷ (1, 0x3)
    ∷ (7, 0xff)
    ∷ (1, 0x90)
    ∷ (2, 0x0)
    ∷ (1, 0x6)
    ∷ (1, 0xbf)
    ∷ (6, 0xff)
    ∷ (1, 0xc0)
    ∷ (7, 0x0)
    ∷ (18, 0xff)
    ∷ (8, 0x0)
    ∷ (1, 0x3f)
    ∷ (16, 0xff)
    ∷ (1, 0xfc)
    ∷ (8, 0x0)
    ∷ (1, 0xb)
    ∷ (16, 0xff)
    ∷ (1, 0xf0)
    ∷ (8, 0x0)
    ∷ (1, 0x2)
    ∷ (16, 0xff)
    ∷ (1, 0xc0)
    ∷ (9, 0x0)
    ∷ (1, 0x7f)
    ∷ (14, 0xff)
    ∷ (1, 0xfe)
    ∷ (10, 0x0)
    ∷ (1, 0xf)
    ∷ (14, 0xff)
    ∷ (1, 0xf4)
    ∷ (10, 0x0)
    ∷ (1, 0x2)
    ∷ (14, 0xff)
    ∷ (1, 0x80)
    ∷ (11, 0x0)
    ∷ (1, 0x3f)
    ∷ (12, 0xff)
    ∷ (1, 0xfd)
    ∷ (12, 0x0)
    ∷ (1, 0x7)
    ∷ (12, 0xff)
    ∷ (1, 0xe0)
    ∷ (13, 0x0)
    ∷ (1, 0x7f)
    ∷ (10, 0xff)
    ∷ (1, 0xfe)
    ∷ (14, 0x0)
    ∷ (1, 0x7)
    ∷ (10, 0xff)
    ∷ (1, 0xe0)
    ∷ (15, 0x0)
    ∷ (1, 0x6f)
    ∷ (8, 0xff)
    ∷ (1, 0xfd)
    ∷ (16, 0x0)
    ∷ (1, 0x1)
    ∷ (1, 0xbf)
    ∷ (7, 0xff)
    ∷ (1, 0x80)
    ∷ (17, 0x0)
    ∷ (1, 0x6)
    ∷ (6, 0xff)
    ∷ (1, 0x90)
    ∷ (19, 0x0)
    ∷ (1, 0x1)
    ∷ (1, 0x6b)
    ∷ (2, 0xff)
    ∷ (1, 0xfa)
    ∷ (1, 0x40)
    ∷ (10, 0x0)
    ∷ [])

unfoldable pub u_006f : List ℕ
unfolding u_006f_0 u_006f_1 u_006f_2 runs
u_006f = u_006f_0 ++ u_006f_1 ++ u_006f_2
