-- ===== src/Fonts/Quicksand200/Glyph006E.antt =====
-- The bytes of the glyph U+006E in fonts/quicksand_200.c, in parts of about 150 lines.
use popcorn.Prelude.{ℕ, List, [], ◌∷◌, ◌++◌}
use popcorn.Fonts.Format.{runs}

unfoldable u_006e_0 : List ℕ
u_006e_0 = runs (
    (11, 0x0)
    ∷ (1, 0x1a)
    ∷ (2, 0xff)
    ∷ (1, 0xfa)
    ∷ (1, 0x40)
    ∷ (16, 0x0)
    ∷ (1, 0x2f)
    ∷ (5, 0xff)
    ∷ (1, 0x90)
    ∷ (6, 0x0)
    ∷ (1, 0x1)
    ∷ (1, 0x54)
    ∷ (6, 0x0)
    ∷ (1, 0xb)
    ∷ (6, 0xff)
    ∷ (1, 0xfe)
    ∷ (6, 0x0)
    ∷ (1, 0x2f)
    ∷ (1, 0xff)
    ∷ (1, 0x80)
    ∷ (4, 0x0)
    ∷ (1, 0x1)
    ∷ (1, 0xbf)
    ∷ (7, 0xff)
    ∷ (1, 0xf4)
    ∷ (4, 0x0)
    ∷ (1, 0x1)
    ∷ (2, 0xff)
    ∷ (1, 0xf0)
    ∷ (4, 0x0)
    ∷ (1, 0x1f)
    ∷ (8, 0xff)
    ∷ (1, 0xfe)
    ∷ (4, 0x0)
    ∷ (1, 0x7)
    ∷ (2, 0xff)
    ∷ (1, 0xfc)
    ∷ (4, 0x0)
    ∷ (10, 0xff)
    ∷ (1, 0xd0)
    ∷ (3, 0x0)
    ∷ (1, 0xf)
    ∷ (3, 0xff)
    ∷ (3, 0x0)
    ∷ (1, 0xb)
    ∷ (10, 0xff)
    ∷ (1, 0xf8)
    ∷ (3, 0x0)
    ∷ (1, 0x2f)
    ∷ (3, 0xff)
    ∷ (3, 0x0)
    ∷ (1, 0x7f)
    ∷ (11, 0xff)
    ∷ (3, 0x0)
    ∷ (1, 0x3f)
    ∷ (3, 0xff)
    ∷ (1, 0x80)
    ∷ (1, 0x0)
    ∷ (1, 0x2)
    ∷ (12, 0xff)
    ∷ (1, 0xc0)
    ∷ (2, 0x0)
    ∷ (1, 0x3f)
    ∷ (3, 0xff)
    ∷ (1, 0x80)
    ∷ (1, 0x0)
    ∷ (1, 0xf)
    ∷ (12, 0xff)
    ∷ (1, 0xf0)
    ∷ (2, 0x0)
    ∷ (1, 0x3f)
    ∷ (3, 0xff)
    ∷ (1, 0xc0)
    ∷ (1, 0x0)
    ∷ (1, 0x7f)
    ∷ (12, 0xff)
    ∷ (1, 0xfc)
    ∷ (2, 0x0)
    ∷ (1, 0x3f)
    ∷ (3, 0xff)
    ∷ (1, 0xc0)
    ∷ (1, 0x1)
    ∷ (14, 0xff)
    ∷ (2, 0x0)
    ∷ (1, 0x3f)
    ∷ (3, 0xff)
    ∷ (1, 0xc0)
    ∷ (1, 0x7)
    ∷ (14, 0xff)
    ∷ (1, 0x80)
    ∷ (1, 0x0)
    ∷ (1, 0x3f)
    ∷ (3, 0xff)
    ∷ (1, 0xc0)
    ∷ (1, 0x1f)
    ∷ (14, 0xff)
    ∷ (1, 0xc0)
    ∷ (1, 0x0)
    ∷ (1, 0x3f)
    ∷ (3, 0xff)
    ∷ (1, 0xc0)
    ∷ (1, 0x7f)
    ∷ (14, 0xff)
    ∷ (1, 0xf0)
    ∷ (1, 0x0)
    ∷ (1, 0x3f)
    ∷ (3, 0xff)
    ∷ (1, 0xc0)
    ∷ (4, 0xff)
    ∷ (1, 0xfe)
    ∷ (1, 0x90)
    ∷ (2, 0x0)
    ∷ (1, 0x16)
    ∷ (6, 0xff)
    ∷ (1, 0xf4)
    ∷ (1, 0x0)
    ∷ (1, 0x3f)
    ∷ (3, 0xff)
    ∷ (1, 0xc3)
    ∷ (4, 0xff)
    ∷ (1, 0x90)
    ∷ (4, 0x0)
    ∷ (1, 0xb)
    ∷ (5, 0xff)
    ∷ (1, 0xfc)
    ∷ (1, 0x0)
    ∷ (1, 0x3f)
    ∷ (3, 0xff)
    ∷ (1, 0xcb)
    ∷ (3, 0xff)
    ∷ (1, 0xf4)
    ∷ (6, 0x0)
    ∷ (1, 0xbf)
    ∷ (4, 0xff)
    ∷ (1, 0xfd)
    ∷ (1, 0x0)
    ∷ (1, 0x3f)
    ∷ (3, 0xff)
    ∷ (1, 0xdf)
    ∷ (3, 0xff)
    ∷ (1, 0x40)
    ∷ (6, 0x0)
    ∷ (1, 0xf)
    ∷ (5, 0xff)
    ∷ (1, 0x0)
    ∷ (1, 0x3f)
    ∷ (6, 0xff)
    ∷ (1, 0xf4)
    ∷ (7, 0x0)
    ∷ (1, 0x2)
    ∷ (5, 0xff)
    ∷ (1, 0x40)
    ∷ (1, 0x3f)
    ∷ (6, 0xff)
    ∷ (1, 0xc0)
    ∷ (8, 0x0)
    ∷ (1, 0x7f)
    ∷ (4, 0xff)
    ∷ (1, 0x80)
    ∷ (1, 0x3f)
    ∷ (5, 0xff)
    ∷ (1, 0xfe)
    ∷ (9, 0x0)
    ∷ (1, 0x1f)
    ∷ (4, 0xff)
    ∷ (1, 0xc0)
    ∷ (1, 0x3f)
    ∷ (5, 0xff)
    ∷ (1, 0xf4)
    ∷ (9, 0x0)
    ∷ (1, 0xb)
    ∷ (4, 0xff)
    ∷ (1, 0xd0)
    ∷ (1, 0x3f)
    ∷ (5, 0xff)
    ∷ (1, 0xc0)
    ∷ (9, 0x0)
    ∷ (1, 0x3)
    ∷ (4, 0xff)
    ∷ (1, 0xe0)
    ∷ (1, 0x3f)
    ∷ (5, 0xff)
    ∷ (11, 0x0)
    ∷ (4, 0xff)
    ∷ (1, 0xf0)
    ∷ (1, 0x3f)
    ∷ (4, 0xff)
    ∷ (1, 0xfc)
    ∷ (11, 0x0)
    ∷ (1, 0xbf)
    ∷ (3, 0xff)
    ∷ (1, 0xf0)
    ∷ (1, 0x3f)
    ∷ (4, 0xff)
    ∷ (1, 0xf4)
    ∷ (11, 0x0)
    ∷ (1, 0x3f)
    ∷ (3, 0xff)
    ∷ (1, 0xf4)
    ∷ (1, 0x3f)
    ∷ (4, 0xff)
    ∷ (1, 0xe0)
    ∷ (11, 0x0)
    ∷ (1, 0x2f)
    ∷ (3, 0xff)
    ∷ (1, 0xf8)
    ∷ (1, 0x3f)
    ∷ (4, 0xff)
    ∷ (1, 0xc0)
    ∷ (11, 0x0)
    ∷ (1, 0xf)
    ∷ (3, 0xff)
    ∷ (1, 0xfc)
    ∷ (1, 0x3f)
    ∷ (4, 0xff)
    ∷ (12, 0x0)
    ∷ (1, 0xf)
    ∷ (3, 0xff)
    ∷ (1, 0xfc)
    ∷ (1, 0x3f)
    ∷ (3, 0xff)
    ∷ (1, 0xfe)
    ∷ (12, 0x0)
    ∷ (1, 0xb)
    ∷ (3, 0xff)
    ∷ (1, 0xfc)
    ∷ (1, 0x3f)
    ∷ (3, 0xff)
    ∷ (1, 0xfc)
    ∷ (12, 0x0)
    ∷ (1, 0x7)
    ∷ (3, 0xff)
    ∷ (1, 0xfd)
    ∷ (1, 0x3f)
    ∷ (3, 0xff)
    ∷ (1, 0xf8)
    ∷ (12, 0x0)
    ∷ (1, 0x3)
    ∷ (3, 0xff)
    ∷ (1, 0xfd)
    ∷ (1, 0x3f)
    ∷ (3, 0xff)
    ∷ (1, 0xf4)
    ∷ (12, 0x0)
    ∷ (1, 0x3)
    ∷ (3, 0xff)
    ∷ (1, 0xfe)
    ∷ (1, 0x3f)
    ∷ (3, 0xff)
    ∷ (1, 0xf0)
    ∷ (12, 0x0)
    ∷ (1, 0x2)
    ∷ (3, 0xff)
    ∷ (1, 0xfe)
    ∷ (1, 0x3f)
    ∷ (3, 0xff)
    ∷ (1, 0xe0)
    ∷ (12, 0x0)
    ∷ (1, 0x1)
    ∷ (4, 0xff)
    ∷ (1, 0x3f)
    ∷ (3, 0xff)
    ∷ (1, 0xd0)
    ∷ (12, 0x0)
    ∷ (1, 0x1)
    ∷ (4, 0xff)
    ∷ (1, 0x3f)
    ∷ (3, 0xff)
    ∷ (1, 0xc0)
    ∷ (13, 0x0)
    ∷ (4, 0xff)
    ∷ (1, 0x3f)
    ∷ (3, 0xff)
    ∷ (1, 0xc0)
    ∷ (13, 0x0)
    ∷ (4, 0xff)
    ∷ (1, 0x3f)
    ∷ (3, 0xff)
    ∷ (1, 0xc0)
    ∷ (13, 0x0)
    ∷ (4, 0xff)
    ∷ (1, 0x3f)
    ∷ (3, 0xff)
    ∷ (1, 0xc0)
    ∷ (13, 0x0)
    ∷ (4, 0xff)
    ∷ (1, 0x3f)
    ∷ (3, 0xff)
    ∷ (1, 0xc0)
    ∷ (13, 0x0)
    ∷ (4, 0xff)
    ∷ (1, 0x3f)
    ∷ (3, 0xff)
    ∷ (1, 0xc0)
    ∷ (13, 0x0)
    ∷ (4, 0xff)
    ∷ (1, 0x3f)
    ∷ (3, 0xff)
    ∷ (1, 0xc0)
    ∷ (13, 0x0)
    ∷ (4, 0xff)
    ∷ (1, 0x3f)
    ∷ (3, 0xff)
    ∷ (1, 0xc0)
    ∷ (13, 0x0)
    ∷ (4, 0xff)
    ∷ (1, 0x3f)
    ∷ (3, 0xff)
    ∷ (1, 0xc0)
    ∷ (13, 0x0)
    ∷ (4, 0xff)
    ∷ (1, 0x3f)
    ∷ (3, 0xff)
    ∷ (1, 0xc0)
    ∷ (13, 0x0)
    ∷ (4, 0xff)
    ∷ (1, 0x3f)
    ∷ (3, 0xff)
    ∷ (1, 0xc0)
    ∷ (13, 0x0)
    ∷ (4, 0xff)
    ∷ (1, 0x3f)
    ∷ (3, 0xff)
    ∷ (1, 0xc0)
    ∷ (13, 0x0)
    ∷ (4, 0xff)
    ∷ (1, 0x3f)
    ∷ (3, 0xff)
    ∷ (1, 0xc0)
    ∷ (13, 0x0)
    ∷ (4, 0xff)
    ∷ (1, 0x3f)
    ∷ (3, 0xff)
    ∷ (1, 0xc0)
    ∷ (13, 0x0)
    ∷ (4, 0xff)
    ∷ (1, 0x3f)
    ∷ (3, 0xff)
    ∷ (1, 0xc0)
    ∷ (13, 0x0)
    ∷ (4, 0xff)
    ∷ (1, 0x3f)
    ∷ (3, 0xff)
    ∷ (1, 0xc0)
    ∷ (13, 0x0)
    ∷ (4, 0xff)
    ∷ (1, 0x3f)
    ∷ (3, 0xff)
    ∷ (1, 0xc0)
    ∷ (13, 0x0)
    ∷ [])

unfoldable u_006e_1 : List ℕ
u_006e_1 = runs (
    (4, 0xff)
    ∷ (1, 0x3f)
    ∷ (3, 0xff)
    ∷ (1, 0xc0)
    ∷ (13, 0x0)
    ∷ (4, 0xff)
    ∷ (1, 0x3f)
    ∷ (3, 0xff)
    ∷ (1, 0xc0)
    ∷ (13, 0x0)
    ∷ (4, 0xff)
    ∷ (1, 0x3f)
    ∷ (3, 0xff)
    ∷ (1, 0xc0)
    ∷ (13, 0x0)
    ∷ (4, 0xff)
    ∷ (1, 0x3f)
    ∷ (3, 0xff)
    ∷ (1, 0xc0)
    ∷ (13, 0x0)
    ∷ (4, 0xff)
    ∷ (1, 0x3f)
    ∷ (3, 0xff)
    ∷ (1, 0xc0)
    ∷ (13, 0x0)
    ∷ (4, 0xff)
    ∷ (1, 0x3f)
    ∷ (3, 0xff)
    ∷ (1, 0xc0)
    ∷ (13, 0x0)
    ∷ (4, 0xff)
    ∷ (1, 0x3f)
    ∷ (3, 0xff)
    ∷ (1, 0xc0)
    ∷ (13, 0x0)
    ∷ (4, 0xff)
    ∷ (1, 0x3f)
    ∷ (3, 0xff)
    ∷ (1, 0xc0)
    ∷ (13, 0x0)
    ∷ (4, 0xff)
    ∷ (1, 0x3f)
    ∷ (3, 0xff)
    ∷ (1, 0xc0)
    ∷ (13, 0x0)
    ∷ (4, 0xff)
    ∷ (1, 0x3f)
    ∷ (3, 0xff)
    ∷ (1, 0xc0)
    ∷ (13, 0x0)
    ∷ (4, 0xff)
    ∷ (1, 0x3f)
    ∷ (3, 0xff)
    ∷ (1, 0xc0)
    ∷ (13, 0x0)
    ∷ (4, 0xff)
    ∷ (1, 0x3f)
    ∷ (3, 0xff)
    ∷ (1, 0xc0)
    ∷ (13, 0x0)
    ∷ (4, 0xff)
    ∷ (1, 0x3f)
    ∷ (3, 0xff)
    ∷ (1, 0xc0)
    ∷ (13, 0x0)
    ∷ (4, 0xff)
    ∷ (1, 0x3f)
    ∷ (3, 0xff)
    ∷ (1, 0xc0)
    ∷ (13, 0x0)
    ∷ (4, 0xff)
    ∷ (1, 0x3f)
    ∷ (3, 0xff)
    ∷ (1, 0xc0)
    ∷ (13, 0x0)
    ∷ (4, 0xff)
    ∷ (1, 0x3f)
    ∷ (3, 0xff)
    ∷ (1, 0xc0)
    ∷ (13, 0x0)
    ∷ (4, 0xff)
    ∷ (1, 0x3f)
    ∷ (3, 0xff)
    ∷ (1, 0xc0)
    ∷ (13, 0x0)
    ∷ (4, 0xff)
    ∷ (1, 0x3f)
    ∷ (3, 0xff)
    ∷ (1, 0xc0)
    ∷ (13, 0x0)
    ∷ (4, 0xff)
    ∷ (1, 0x3f)
    ∷ (3, 0xff)
    ∷ (1, 0xc0)
    ∷ (13, 0x0)
    ∷ (4, 0xff)
    ∷ (1, 0x3f)
    ∷ (3, 0xff)
    ∷ (1, 0xc0)
    ∷ (13, 0x0)
    ∷ (4, 0xff)
    ∷ (1, 0x3f)
    ∷ (3, 0xff)
    ∷ (1, 0xc0)
    ∷ (13, 0x0)
    ∷ (4, 0xff)
    ∷ (1, 0x3f)
    ∷ (3, 0xff)
    ∷ (1, 0xc0)
    ∷ (13, 0x0)
    ∷ (4, 0xff)
    ∷ (1, 0x3f)
    ∷ (3, 0xff)
    ∷ (1, 0xc0)
    ∷ (13, 0x0)
    ∷ (4, 0xff)
    ∷ (1, 0x3f)
    ∷ (3, 0xff)
    ∷ (1, 0xc0)
    ∷ (13, 0x0)
    ∷ (4, 0xff)
    ∷ (1, 0x3f)
    ∷ (3, 0xff)
    ∷ (1, 0xc0)
    ∷ (13, 0x0)
    ∷ (4, 0xff)
    ∷ (1, 0x3f)
    ∷ (3, 0xff)
    ∷ (1, 0xc0)
    ∷ (13, 0x0)
    ∷ (4, 0xff)
    ∷ (1, 0x3f)
    ∷ (3, 0xff)
    ∷ (1, 0xc0)
    ∷ (13, 0x0)
    ∷ (4, 0xff)
    ∷ (1, 0x3f)
    ∷ (3, 0xff)
    ∷ (1, 0xc0)
    ∷ (13, 0x0)
    ∷ (4, 0xff)
    ∷ (1, 0x3f)
    ∷ (3, 0xff)
    ∷ (1, 0xc0)
    ∷ (13, 0x0)
    ∷ (4, 0xff)
    ∷ (1, 0x3f)
    ∷ (3, 0xff)
    ∷ (1, 0xc0)
    ∷ (13, 0x0)
    ∷ (4, 0xff)
    ∷ (1, 0x3f)
    ∷ (3, 0xff)
    ∷ (1, 0xc0)
    ∷ (13, 0x0)
    ∷ (4, 0xff)
    ∷ (1, 0x3f)
    ∷ (3, 0xff)
    ∷ (1, 0xc0)
    ∷ (13, 0x0)
    ∷ (4, 0xff)
    ∷ (1, 0x3f)
    ∷ (3, 0xff)
    ∷ (1, 0xc0)
    ∷ (13, 0x0)
    ∷ (4, 0xff)
    ∷ (1, 0x3f)
    ∷ (3, 0xff)
    ∷ (1, 0xc0)
    ∷ (13, 0x0)
    ∷ (4, 0xff)
    ∷ (1, 0x3f)
    ∷ (3, 0xff)
    ∷ (1, 0xc0)
    ∷ (13, 0x0)
    ∷ (4, 0xff)
    ∷ (1, 0x3f)
    ∷ (3, 0xff)
    ∷ (1, 0xc0)
    ∷ (13, 0x0)
    ∷ (4, 0xff)
    ∷ (1, 0x3f)
    ∷ (3, 0xff)
    ∷ (1, 0xc0)
    ∷ (13, 0x0)
    ∷ (4, 0xff)
    ∷ (1, 0x3f)
    ∷ (3, 0xff)
    ∷ (1, 0xc0)
    ∷ (13, 0x0)
    ∷ (4, 0xff)
    ∷ (1, 0x3f)
    ∷ (3, 0xff)
    ∷ (1, 0xc0)
    ∷ (13, 0x0)
    ∷ (4, 0xff)
    ∷ (1, 0x3f)
    ∷ (3, 0xff)
    ∷ (1, 0xc0)
    ∷ (13, 0x0)
    ∷ (4, 0xff)
    ∷ (1, 0x3f)
    ∷ (3, 0xff)
    ∷ (1, 0xc0)
    ∷ (13, 0x0)
    ∷ (4, 0xff)
    ∷ (1, 0x3f)
    ∷ (3, 0xff)
    ∷ (1, 0xc0)
    ∷ (13, 0x0)
    ∷ (4, 0xff)
    ∷ (1, 0x3f)
    ∷ (3, 0xff)
    ∷ (1, 0xc0)
    ∷ (13, 0x0)
    ∷ (4, 0xff)
    ∷ (1, 0x3f)
    ∷ (3, 0xff)
    ∷ (1, 0xc0)
    ∷ (13, 0x0)
    ∷ (4, 0xff)
    ∷ (1, 0x3f)
    ∷ (3, 0xff)
    ∷ (1, 0xc0)
    ∷ (13, 0x0)
    ∷ (4, 0xff)
    ∷ (1, 0x3f)
    ∷ (3, 0xff)
    ∷ (1, 0x80)
    ∷ (13, 0x0)
    ∷ (4, 0xff)
    ∷ (1, 0x3f)
    ∷ (3, 0xff)
    ∷ (1, 0x40)
    ∷ (13, 0x0)
    ∷ (1, 0xbf)
    ∷ (2, 0xff)
    ∷ (1, 0xfe)
    ∷ (1, 0x1f)
    ∷ (3, 0xff)
    ∷ (14, 0x0)
    ∷ (1, 0x3f)
    ∷ (2, 0xff)
    ∷ (1, 0xfc)
    ∷ (1, 0xf)
    ∷ (2, 0xff)
    ∷ (1, 0xfd)
    ∷ (14, 0x0)
    ∷ (1, 0x2f)
    ∷ (2, 0xff)
    ∷ (1, 0xf8)
    ∷ (1, 0x3)
    ∷ (2, 0xff)
    ∷ (1, 0xf8)
    ∷ (14, 0x0)
    ∷ (1, 0xb)
    ∷ (2, 0xff)
    ∷ (1, 0xe0)
    ∷ (1, 0x0)
    ∷ (2, 0xff)
    ∷ (1, 0xd0)
    ∷ (14, 0x0)
    ∷ (1, 0x2)
    ∷ (2, 0xff)
    ∷ (1, 0x80)
    ∷ (1, 0x0)
    ∷ (1, 0x1b)
    ∷ (1, 0xfe)
    ∷ (16, 0x0)
    ∷ (1, 0x2f)
    ∷ (1, 0xf8)
    ∷ (1, 0x0)
    ∷ [])

unfoldable pub u_006e : List ℕ
unfolding u_006e_0 u_006e_1 runs
u_006e = u_006e_0 ++ u_006e_1
