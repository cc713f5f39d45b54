-- ===== src/Fonts/OpenSans48/Glyphs30.antt =====
-- The bytes of `glyph_bitmap` in fonts/open_sans_48.c, a list for each glyph, from U+0030 to U+003F.
use popcorn.Prelude.{ℕ, List, [], ◌∷◌}

unfoldable pub u_0030 : List ℕ
u_0030 =
    0x0 ∷ 0x0 ∷ 0x55 ∷ 0x0 ∷ 0x0 ∷ 0x0 ∷ 0x7 ∷ 0xff ∷ 0xfd ∷ 0x0 ∷ 0x0 ∷ 0xb ∷ 0xff ∷ 0xff ∷ 0xe0
    ∷ 0x0 ∷ 0xb ∷ 0xff ∷ 0xff ∷ 0xfe ∷ 0x0 ∷ 0x7 ∷ 0xff ∷ 0x96 ∷ 0xff ∷ 0xd0 ∷ 0x3 ∷ 0xff ∷ 0x40
    ∷ 0x1f ∷ 0xfc ∷ 0x1 ∷ 0xff ∷ 0x80 ∷ 0x1 ∷ 0xff ∷ 0x40 ∷ 0xbf ∷ 0xc0 ∷ 0x0 ∷ 0x3f ∷ 0xe0 ∷ 0x3f
    ∷ 0xe0 ∷ 0x0 ∷ 0xb ∷ 0xfc ∷ 0xf ∷ 0xf4 ∷ 0x0 ∷ 0x0 ∷ 0xff ∷ 0x47 ∷ 0xfc ∷ 0x0 ∷ 0x0 ∷ 0x3f
    ∷ 0xd2 ∷ 0xff ∷ 0x0 ∷ 0x0 ∷ 0xf ∷ 0xf8 ∷ 0xbf ∷ 0xc0 ∷ 0x0 ∷ 0x3 ∷ 0xff ∷ 0x2f ∷ 0xf0 ∷ 0x0
    ∷ 0x0 ∷ 0xbf ∷ 0xcf ∷ 0xfc ∷ 0x0 ∷ 0x0 ∷ 0x2f ∷ 0xf3 ∷ 0xfe ∷ 0x0 ∷ 0x0 ∷ 0xb ∷ 0xfc ∷ 0xff
    ∷ 0x80 ∷ 0x0 ∷ 0x2 ∷ 0xff ∷ 0x3f ∷ 0xe0 ∷ 0x0 ∷ 0x0 ∷ 0xbf ∷ 0xcf ∷ 0xf8 ∷ 0x0 ∷ 0x0 ∷ 0x2f
    ∷ 0xf3 ∷ 0xfe ∷ 0x0 ∷ 0x0 ∷ 0xb ∷ 0xfc ∷ 0xff ∷ 0x80 ∷ 0x0 ∷ 0x2 ∷ 0xff ∷ 0x3f ∷ 0xf0 ∷ 0x0
    ∷ 0x0 ∷ 0xbf ∷ 0xcb ∷ 0xfc ∷ 0x0 ∷ 0x0 ∷ 0x2f ∷ 0xf2 ∷ 0xff ∷ 0x0 ∷ 0x0 ∷ 0xf ∷ 0xf8 ∷ 0x7f
    ∷ 0xc0 ∷ 0x0 ∷ 0x3 ∷ 0xfe ∷ 0x1f ∷ 0xf4 ∷ 0x0 ∷ 0x0 ∷ 0xff ∷ 0x43 ∷ 0xfe ∷ 0x0 ∷ 0x0 ∷ 0x7f
    ∷ 0xc0 ∷ 0xff ∷ 0xc0 ∷ 0x0 ∷ 0x2f ∷ 0xf0 ∷ 0x1f ∷ 0xf0 ∷ 0x0 ∷ 0xf ∷ 0xf8 ∷ 0x3 ∷ 0xff ∷ 0x0
    ∷ 0xb ∷ 0xfc ∷ 0x0 ∷ 0xbf ∷ 0xf0 ∷ 0xb ∷ 0xfe ∷ 0x0 ∷ 0xf ∷ 0xff ∷ 0xff ∷ 0xff ∷ 0x0 ∷ 0x0
    ∷ 0xff ∷ 0xff ∷ 0xff ∷ 0x40 ∷ 0x0 ∷ 0xf ∷ 0xff ∷ 0xff ∷ 0x0 ∷ 0x0 ∷ 0x0 ∷ 0x6f ∷ 0xf9 ∷ 0x0
    ∷ 0x0 ∷ []

unfoldable pub u_0031 : List ℕ
u_0031 =
    0x0 ∷ 0x0 ∷ 0x7f ∷ 0xc0 ∷ 0x0 ∷ 0x1f ∷ 0xfc ∷ 0x0 ∷ 0xb ∷ 0xff ∷ 0xc0 ∷ 0x2 ∷ 0xff ∷ 0xfc ∷ 0x0
    ∷ 0xff ∷ 0xff ∷ 0xc0 ∷ 0x3f ∷ 0xfb ∷ 0xfc ∷ 0x1f ∷ 0xfd ∷ 0x7f ∷ 0xc7 ∷ 0xff ∷ 0x47 ∷ 0xfc
    ∷ 0x3f ∷ 0xd0 ∷ 0x7f ∷ 0xc0 ∷ 0xf0 ∷ 0x7 ∷ 0xfc ∷ 0x0 ∷ 0x0 ∷ 0x7f ∷ 0xc0 ∷ 0x0 ∷ 0x7 ∷ 0xfc
    ∷ 0x0 ∷ 0x0 ∷ 0x7f ∷ 0xc0 ∷ 0x0 ∷ 0x7 ∷ 0xfc ∷ 0x0 ∷ 0x0 ∷ 0x7f ∷ 0xc0 ∷ 0x0 ∷ 0x7 ∷ 0xfc ∷ 0x0
    ∷ 0x0 ∷ 0x7f ∷ 0xc0 ∷ 0x0 ∷ 0x7 ∷ 0xfc ∷ 0x0 ∷ 0x0 ∷ 0x7f ∷ 0xc0 ∷ 0x0 ∷ 0x7 ∷ 0xfc ∷ 0x0 ∷ 0x0
    ∷ 0x7f ∷ 0xc0 ∷ 0x0 ∷ 0x7 ∷ 0xfc ∷ 0x0 ∷ 0x0 ∷ 0x7f ∷ 0xc0 ∷ 0x0 ∷ 0x7 ∷ 0xfc ∷ 0x0 ∷ 0x0 ∷ 0x7f
    ∷ 0xc0 ∷ 0x0 ∷ 0x7 ∷ 0xfc ∷ 0x0 ∷ 0x0 ∷ 0x7f ∷ 0xc0 ∷ 0x0 ∷ 0x7 ∷ 0xfc ∷ 0x0 ∷ 0x0 ∷ 0x7f ∷ 0xc0
    ∷ 0x0 ∷ 0x7 ∷ 0xfc ∷ 0x0 ∷ 0x0 ∷ 0x7f ∷ 0xc0 ∷ 0x0 ∷ 0x7 ∷ 0xfc ∷ 0x0 ∷ 0x0 ∷ 0x7f ∷ 0xc0 ∷ 0x0
    ∷ 0x7 ∷ 0xfc ∷ []

unfoldable pub u_0032 : List ℕ
u_0032 =
    0x0 ∷ 0x0 ∷ 0x55 ∷ 0x40 ∷ 0x0 ∷ 0x0 ∷ 0xb ∷ 0xff ∷ 0xff ∷ 0x40 ∷ 0x0 ∷ 0x2f ∷ 0xff ∷ 0xff ∷ 0xf8
    ∷ 0x0 ∷ 0x3f ∷ 0xff ∷ 0xff ∷ 0xff ∷ 0xc0 ∷ 0x2f ∷ 0xff ∷ 0x96 ∷ 0xff ∷ 0xf8 ∷ 0x3 ∷ 0xfd ∷ 0x0
    ∷ 0x7 ∷ 0xff ∷ 0x0 ∷ 0x38 ∷ 0x0 ∷ 0x0 ∷ 0xbf ∷ 0xd0 ∷ 0x0 ∷ 0x0 ∷ 0x0 ∷ 0xf ∷ 0xf8 ∷ 0x0 ∷ 0x0
    ∷ 0x0 ∷ 0x3 ∷ 0xff ∷ 0x0 ∷ 0x0 ∷ 0x0 ∷ 0x0 ∷ 0xbf ∷ 0xc0 ∷ 0x0 ∷ 0x0 ∷ 0x0 ∷ 0x3f ∷ 0xf0 ∷ 0x0
    ∷ 0x0 ∷ 0x0 ∷ 0xf ∷ 0xfc ∷ 0x0 ∷ 0x0 ∷ 0x0 ∷ 0x3 ∷ 0xfe ∷ 0x0 ∷ 0x0 ∷ 0x0 ∷ 0x1 ∷ 0xff ∷ 0x40
    ∷ 0x0 ∷ 0x0 ∷ 0x0 ∷ 0xff ∷ 0xc0 ∷ 0x0 ∷ 0x0 ∷ 0x0 ∷ 0x7f ∷ 0xe0 ∷ 0x0 ∷ 0x0 ∷ 0x0 ∷ 0x3f ∷ 0xf0
    ∷ 0x0 ∷ 0x0 ∷ 0x0 ∷ 0x2f ∷ 0xf8 ∷ 0x0 ∷ 0x0 ∷ 0x0 ∷ 0x1f ∷ 0xfc ∷ 0x0 ∷ 0x0 ∷ 0x0 ∷ 0xf ∷ 0xfc
    ∷ 0x0 ∷ 0x0 ∷ 0x0 ∷ 0xf ∷ 0xfd ∷ 0x0 ∷ 0x0 ∷ 0x0 ∷ 0xb ∷ 0xfe ∷ 0x0 ∷ 0x0 ∷ 0x0 ∷ 0x7 ∷ 0xfe
    ∷ 0x0 ∷ 0x0 ∷ 0x0 ∷ 0x7 ∷ 0xff ∷ 0x0 ∷ 0x0 ∷ 0x0 ∷ 0x3 ∷ 0xff ∷ 0x0 ∷ 0x0 ∷ 0x0 ∷ 0x3 ∷ 0xff
    ∷ 0x0 ∷ 0x0 ∷ 0x0 ∷ 0x3 ∷ 0xff ∷ 0x40 ∷ 0x0 ∷ 0x0 ∷ 0x2 ∷ 0xff ∷ 0x40 ∷ 0x0 ∷ 0x0 ∷ 0x2 ∷ 0xff
    ∷ 0x80 ∷ 0x0 ∷ 0x0 ∷ 0x1 ∷ 0xff ∷ 0x80 ∷ 0x0 ∷ 0x0 ∷ 0x0 ∷ 0xff ∷ 0xc0 ∷ 0x0 ∷ 0x0 ∷ 0x0 ∷ 0xff
    ∷ 0xff ∷ 0xff ∷ 0xff ∷ 0xff ∷ 0x3f ∷ 0xff ∷ 0xff ∷ 0xff ∷ 0xff ∷ 0xcf ∷ 0xff ∷ 0xff ∷ 0xff
    ∷ 0xff ∷ 0xf3 ∷ 0xff ∷ 0xff ∷ 0xff ∷ 0xff ∷ 0xfc ∷ []

unfoldable pub u_0033 : List ℕ
u_0033 =
    0x0 ∷ 0x0 ∷ 0x55 ∷ 0x40 ∷ 0x0 ∷ 0x0 ∷ 0x1b ∷ 0xff ∷ 0xff ∷ 0x80 ∷ 0x0 ∷ 0x7f ∷ 0xff ∷ 0xff
    ∷ 0xfd ∷ 0x0 ∷ 0xbf ∷ 0xff ∷ 0xff ∷ 0xff ∷ 0xc0 ∷ 0x2f ∷ 0xfe ∷ 0x55 ∷ 0xbf ∷ 0xfc ∷ 0x3 ∷ 0xf4
    ∷ 0x0 ∷ 0x7 ∷ 0xff ∷ 0x40 ∷ 0x20 ∷ 0x0 ∷ 0x0 ∷ 0x7f ∷ 0xe0 ∷ 0x0 ∷ 0x0 ∷ 0x0 ∷ 0xf ∷ 0xfc ∷ 0x0
    ∷ 0x0 ∷ 0x0 ∷ 0x2 ∷ 0xff ∷ 0x0 ∷ 0x0 ∷ 0x0 ∷ 0x0 ∷ 0xbf ∷ 0xc0 ∷ 0x0 ∷ 0x0 ∷ 0x0 ∷ 0x2f ∷ 0xf0
    ∷ 0x0 ∷ 0x0 ∷ 0x0 ∷ 0xf ∷ 0xf8 ∷ 0x0 ∷ 0x0 ∷ 0x0 ∷ 0xb ∷ 0xfc ∷ 0x0 ∷ 0x0 ∷ 0x0 ∷ 0x7 ∷ 0xfd
    ∷ 0x0 ∷ 0x0 ∷ 0x0 ∷ 0x1f ∷ 0xfe ∷ 0x0 ∷ 0x0 ∷ 0xbf ∷ 0xff ∷ 0xfd ∷ 0x0 ∷ 0x0 ∷ 0x2f ∷ 0xff
    ∷ 0xf4 ∷ 0x0 ∷ 0x0 ∷ 0xb ∷ 0xff ∷ 0xff ∷ 0x80 ∷ 0x0 ∷ 0x2 ∷ 0xff ∷ 0xff ∷ 0xfe ∷ 0x0 ∷ 0x0 ∷ 0x0
    ∷ 0x6 ∷ 0xff ∷ 0xf0 ∷ 0x0 ∷ 0x0 ∷ 0x0 ∷ 0xf ∷ 0xfe ∷ 0x0 ∷ 0x0 ∷ 0x0 ∷ 0x0 ∷ 0xff ∷ 0xc0 ∷ 0x0
    ∷ 0x0 ∷ 0x0 ∷ 0x1f ∷ 0xf4 ∷ 0x0 ∷ 0x0 ∷ 0x0 ∷ 0x3 ∷ 0xfe ∷ 0x0 ∷ 0x0 ∷ 0x0 ∷ 0x0 ∷ 0xff ∷ 0x80
    ∷ 0x0 ∷ 0x0 ∷ 0x0 ∷ 0x3f ∷ 0xe0 ∷ 0x0 ∷ 0x0 ∷ 0x0 ∷ 0xf ∷ 0xf8 ∷ 0x0 ∷ 0x0 ∷ 0x0 ∷ 0x7 ∷ 0xfe
    ∷ 0x0 ∷ 0x0 ∷ 0x0 ∷ 0x3 ∷ 0xff ∷ 0x8 ∷ 0x0 ∷ 0x0 ∷ 0x2 ∷ 0xff ∷ 0xc3 ∷ 0xf4 ∷ 0x0 ∷ 0x7 ∷ 0xff
    ∷ 0xd0 ∷ 0xff ∷ 0xff ∷ 0xff ∷ 0xff ∷ 0xe0 ∷ 0x3f ∷ 0xff ∷ 0xff ∷ 0xff ∷ 0xe0 ∷ 0xb ∷ 0xff ∷ 0xff
    ∷ 0xff ∷ 0xd0 ∷ 0x0 ∷ 0x1a ∷ 0xff ∷ 0xfa ∷ 0x0 ∷ 0x0 ∷ []

unfoldable pub u_0034 : List ℕ
u_0034 =
    0x0 ∷ 0x0 ∷ 0x0 ∷ 0xb ∷ 0xfc ∷ 0x0 ∷ 0x0 ∷ 0x0 ∷ 0x0 ∷ 0x1f ∷ 0xfc ∷ 0x0 ∷ 0x0 ∷ 0x0 ∷ 0x0
    ∷ 0x3f ∷ 0xfc ∷ 0x0 ∷ 0x0 ∷ 0x0 ∷ 0x0 ∷ 0xbf ∷ 0xfc ∷ 0x0 ∷ 0x0 ∷ 0x0 ∷ 0x0 ∷ 0xff ∷ 0xfc ∷ 0x0
    ∷ 0x0 ∷ 0x0 ∷ 0x2 ∷ 0xff ∷ 0xfc ∷ 0x0 ∷ 0x0 ∷ 0x0 ∷ 0x7 ∷ 0xf7 ∷ 0xfc ∷ 0x0 ∷ 0x0 ∷ 0x0 ∷ 0xf
    ∷ 0xf3 ∷ 0xfc ∷ 0x0 ∷ 0x0 ∷ 0x0 ∷ 0x1f ∷ 0xd3 ∷ 0xfc ∷ 0x0 ∷ 0x0 ∷ 0x0 ∷ 0x3f ∷ 0xc3 ∷ 0xfc
    ∷ 0x0 ∷ 0x0 ∷ 0x0 ∷ 0xbf ∷ 0x47 ∷ 0xfc ∷ 0x0 ∷ 0x0 ∷ 0x0 ∷ 0xfe ∷ 0x7 ∷ 0xfc ∷ 0x0 ∷ 0x0 ∷ 0x3
    ∷ 0xfc ∷ 0x7 ∷ 0xfc ∷ 0x0 ∷ 0x0 ∷ 0x7 ∷ 0xf8 ∷ 0x7 ∷ 0xfc ∷ 0x0 ∷ 0x0 ∷ 0xf ∷ 0xf0 ∷ 0x7 ∷ 0xfc
    ∷ 0x0 ∷ 0x0 ∷ 0x2f ∷ 0xd0 ∷ 0x7 ∷ 0xfc ∷ 0x0 ∷ 0x0 ∷ 0x3f ∷ 0xc0 ∷ 0x7 ∷ 0xfc ∷ 0x0 ∷ 0x0 ∷ 0xff
    ∷ 0x0 ∷ 0x7 ∷ 0xfc ∷ 0x0 ∷ 0x1 ∷ 0xfe ∷ 0x0 ∷ 0x7 ∷ 0xfc ∷ 0x0 ∷ 0x3 ∷ 0xfc ∷ 0x0 ∷ 0x7 ∷ 0xfc
    ∷ 0x0 ∷ 0xb ∷ 0xf4 ∷ 0x0 ∷ 0x7 ∷ 0xfc ∷ 0x0 ∷ 0xf ∷ 0xf0 ∷ 0x0 ∷ 0x7 ∷ 0xfc ∷ 0x0 ∷ 0x2f ∷ 0xd0
    ∷ 0x0 ∷ 0x7 ∷ 0xfc ∷ 0x0 ∷ 0x3f ∷ 0xff ∷ 0xff ∷ 0xff ∷ 0xff ∷ 0xfd ∷ 0x3f ∷ 0xff ∷ 0xff ∷ 0xff
    ∷ 0xff ∷ 0xfd ∷ 0x3f ∷ 0xff ∷ 0xff ∷ 0xff ∷ 0xff ∷ 0xfd ∷ 0x3f ∷ 0xff ∷ 0xff ∷ 0xff ∷ 0xff
    ∷ 0xfd ∷ 0x0 ∷ 0x0 ∷ 0x0 ∷ 0x7 ∷ 0xfc ∷ 0x0 ∷ 0x0 ∷ 0x0 ∷ 0x0 ∷ 0x7 ∷ 0xfc ∷ 0x0 ∷ 0x0 ∷ 0x0
    ∷ 0x0 ∷ 0x7 ∷ 0xfc ∷ 0x0 ∷ 0x0 ∷ 0x0 ∷ 0x0 ∷ 0x7 ∷ 0xfc ∷ 0x0 ∷ 0x0 ∷ 0x0 ∷ 0x0 ∷ 0x7 ∷ 0xfc
    ∷ 0x0 ∷ 0x0 ∷ 0x0 ∷ 0x0 ∷ 0x7 ∷ 0xfc ∷ 0x0 ∷ 0x0 ∷ 0x0 ∷ 0x0 ∷ 0x7 ∷ 0xfc ∷ 0x0 ∷ []

unfoldable pub u_0035 : List ℕ
u_0035 =
    0xb ∷ 0xff ∷ 0xff ∷ 0xff ∷ 0xe0 ∷ 0xf ∷ 0xff ∷ 0xff ∷ 0xff ∷ 0xe0 ∷ 0xf ∷ 0xff ∷ 0xff ∷ 0xff
    ∷ 0xe0 ∷ 0xf ∷ 0xff ∷ 0xff ∷ 0xff ∷ 0xe0 ∷ 0xf ∷ 0xf0 ∷ 0x0 ∷ 0x0 ∷ 0x0 ∷ 0xf ∷ 0xf0 ∷ 0x0 ∷ 0x0
    ∷ 0x0 ∷ 0xf ∷ 0xf0 ∷ 0x0 ∷ 0x0 ∷ 0x0 ∷ 0xf ∷ 0xf0 ∷ 0x0 ∷ 0x0 ∷ 0x0 ∷ 0x1f ∷ 0xf0 ∷ 0x0 ∷ 0x0
    ∷ 0x0 ∷ 0x1f ∷ 0xf0 ∷ 0x0 ∷ 0x0 ∷ 0x0 ∷ 0x1f ∷ 0xe0 ∷ 0x0 ∷ 0x0 ∷ 0x0 ∷ 0x2f ∷ 0xe0 ∷ 0x0 ∷ 0x0
    ∷ 0x0 ∷ 0x2f ∷ 0xe6 ∷ 0xbe ∷ 0x90 ∷ 0x0 ∷ 0x2f ∷ 0xff ∷ 0xff ∷ 0xfd ∷ 0x0 ∷ 0x2f ∷ 0xff ∷ 0xff
    ∷ 0xff ∷ 0x80 ∷ 0x2f ∷ 0xff ∷ 0xff ∷ 0xff ∷ 0xe0 ∷ 0x6 ∷ 0x40 ∷ 0x2 ∷ 0xff ∷ 0xf4 ∷ 0x0 ∷ 0x0
    ∷ 0x0 ∷ 0x3f ∷ 0xfc ∷ 0x0 ∷ 0x0 ∷ 0x0 ∷ 0xf ∷ 0xfc ∷ 0x0 ∷ 0x0 ∷ 0x0 ∷ 0x7 ∷ 0xfe ∷ 0x0 ∷ 0x0
    ∷ 0x0 ∷ 0x3 ∷ 0xfe ∷ 0x0 ∷ 0x0 ∷ 0x0 ∷ 0x3 ∷ 0xff ∷ 0x0 ∷ 0x0 ∷ 0x0 ∷ 0x3 ∷ 0xff ∷ 0x0 ∷ 0x0
    ∷ 0x0 ∷ 0x3 ∷ 0xff ∷ 0x0 ∷ 0x0 ∷ 0x0 ∷ 0x3 ∷ 0xfe ∷ 0x0 ∷ 0x0 ∷ 0x0 ∷ 0x3 ∷ 0xfe ∷ 0x0 ∷ 0x0
    ∷ 0x0 ∷ 0xb ∷ 0xfd ∷ 0x0 ∷ 0x0 ∷ 0x0 ∷ 0xf ∷ 0xfc ∷ 0x50 ∷ 0x0 ∷ 0x0 ∷ 0x3f ∷ 0xf8 ∷ 0x7e ∷ 0x40
    ∷ 0x2 ∷ 0xff ∷ 0xf0 ∷ 0x7f ∷ 0xff ∷ 0xff ∷ 0xff ∷ 0xc0 ∷ 0x7f ∷ 0xff ∷ 0xff ∷ 0xff ∷ 0x0 ∷ 0x3f
    ∷ 0xff ∷ 0xff ∷ 0xf8 ∷ 0x0 ∷ 0x1 ∷ 0xbf ∷ 0xfe ∷ 0x40 ∷ 0x0 ∷ []

unfoldable pub u_0036 : List ℕ
u_0036 =
    0x0 ∷ 0x0 ∷ 0x1 ∷ 0x55 ∷ 0x40 ∷ 0x0 ∷ 0x0 ∷ 0x2f ∷ 0xff ∷ 0xfc ∷ 0x0 ∷ 0x0 ∷ 0x7f ∷ 0xff ∷ 0xff
    ∷ 0x0 ∷ 0x0 ∷ 0xbf ∷ 0xff ∷ 0xff ∷ 0xc0 ∷ 0x0 ∷ 0xbf ∷ 0xfe ∷ 0x55 ∷ 0x60 ∷ 0x0 ∷ 0x7f ∷ 0xf4
    ∷ 0x0 ∷ 0x0 ∷ 0x0 ∷ 0x3f ∷ 0xf0 ∷ 0x0 ∷ 0x0 ∷ 0x0 ∷ 0x2f ∷ 0xf0 ∷ 0x0 ∷ 0x0 ∷ 0x0 ∷ 0xf ∷ 0xf8
    ∷ 0x0 ∷ 0x0 ∷ 0x0 ∷ 0x7 ∷ 0xfc ∷ 0x0 ∷ 0x0 ∷ 0x0 ∷ 0x2 ∷ 0xfe ∷ 0x0 ∷ 0x0 ∷ 0x0 ∷ 0x0 ∷ 0xff
    ∷ 0x40 ∷ 0x0 ∷ 0x0 ∷ 0x0 ∷ 0x3f ∷ 0xc0 ∷ 0x0 ∷ 0x0 ∷ 0x0 ∷ 0x1f ∷ 0xf0 ∷ 0x1b ∷ 0xfe ∷ 0x0 ∷ 0x7
    ∷ 0xfc ∷ 0x3f ∷ 0xff ∷ 0xf4 ∷ 0x2 ∷ 0xfe ∷ 0x3f ∷ 0xff ∷ 0xff ∷ 0x80 ∷ 0xbf ∷ 0xbf ∷ 0xff ∷ 0xff
    ∷ 0xf4 ∷ 0x2f ∷ 0xff ∷ 0x80 ∷ 0xb ∷ 0xff ∷ 0xb ∷ 0xff ∷ 0x40 ∷ 0x0 ∷ 0xbf ∷ 0xd2 ∷ 0xff ∷ 0x80
    ∷ 0x0 ∷ 0xf ∷ 0xf8 ∷ 0xbf ∷ 0xd0 ∷ 0x0 ∷ 0x2 ∷ 0xff ∷ 0x2f ∷ 0xf0 ∷ 0x0 ∷ 0x0 ∷ 0x7f ∷ 0xcb
    ∷ 0xfc ∷ 0x0 ∷ 0x0 ∷ 0x1f ∷ 0xf2 ∷ 0xff ∷ 0x0 ∷ 0x0 ∷ 0x7 ∷ 0xfc ∷ 0x7f ∷ 0xc0 ∷ 0x0 ∷ 0x1
    ∷ 0xff ∷ 0x1f ∷ 0xf0 ∷ 0x0 ∷ 0x0 ∷ 0x7f ∷ 0xc3 ∷ 0xfd ∷ 0x0 ∷ 0x0 ∷ 0x2f ∷ 0xf0 ∷ 0xff ∷ 0xc0
    ∷ 0x0 ∷ 0xf ∷ 0xf8 ∷ 0x1f ∷ 0xf4 ∷ 0x0 ∷ 0x7 ∷ 0xfd ∷ 0x3 ∷ 0xff ∷ 0x0 ∷ 0x3 ∷ 0xff ∷ 0x0 ∷ 0x7f
    ∷ 0xf4 ∷ 0x7 ∷ 0xff ∷ 0x80 ∷ 0xb ∷ 0xff ∷ 0xff ∷ 0xff ∷ 0xc0 ∷ 0x0 ∷ 0xff ∷ 0xff ∷ 0xff ∷ 0xc0
    ∷ 0x0 ∷ 0xb ∷ 0xff ∷ 0xff ∷ 0x80 ∷ 0x0 ∷ 0x0 ∷ 0x2f ∷ 0xfe ∷ 0x0 ∷ 0x0 ∷ []

unfoldable pub u_0037 : List ℕ
u_0037 =
    0x3f ∷ 0xff ∷ 0xff ∷ 0xff ∷ 0xff ∷ 0xc3 ∷ 0xff ∷ 0xff ∷ 0xff ∷ 0xff ∷ 0xfc ∷ 0x3f ∷ 0xff ∷ 0xff
    ∷ 0xff ∷ 0xff ∷ 0xc3 ∷ 0xff ∷ 0xff ∷ 0xff ∷ 0xff ∷ 0xfc ∷ 0x0 ∷ 0x0 ∷ 0x0 ∷ 0x0 ∷ 0xff ∷ 0x80
    ∷ 0x0 ∷ 0x0 ∷ 0x0 ∷ 0xf ∷ 0xf4 ∷ 0x0 ∷ 0x0 ∷ 0x0 ∷ 0x2 ∷ 0xff ∷ 0x0 ∷ 0x0 ∷ 0x0 ∷ 0x0 ∷ 0x3f
    ∷ 0xe0 ∷ 0x0 ∷ 0x0 ∷ 0x0 ∷ 0x7 ∷ 0xfc ∷ 0x0 ∷ 0x0 ∷ 0x0 ∷ 0x0 ∷ 0xff ∷ 0xc0 ∷ 0x0 ∷ 0x0 ∷ 0x0
    ∷ 0xf ∷ 0xf4 ∷ 0x0 ∷ 0x0 ∷ 0x0 ∷ 0x2 ∷ 0xff ∷ 0x0 ∷ 0x0 ∷ 0x0 ∷ 0x0 ∷ 0x3f ∷ 0xe0 ∷ 0x0 ∷ 0x0
    ∷ 0x0 ∷ 0x7 ∷ 0xfc ∷ 0x0 ∷ 0x0 ∷ 0x0 ∷ 0x0 ∷ 0xff ∷ 0xc0 ∷ 0x0 ∷ 0x0 ∷ 0x0 ∷ 0xf ∷ 0xf4 ∷ 0x0
    ∷ 0x0 ∷ 0x0 ∷ 0x2 ∷ 0xff ∷ 0x0 ∷ 0x0 ∷ 0x0 ∷ 0x0 ∷ 0x3f ∷ 0xe0 ∷ 0x0 ∷ 0x0 ∷ 0x0 ∷ 0x7 ∷ 0xfd
    ∷ 0x0 ∷ 0x0 ∷ 0x0 ∷ 0x0 ∷ 0xff ∷ 0xc0 ∷ 0x0 ∷ 0x0 ∷ 0x0 ∷ 0xf ∷ 0xf8 ∷ 0x0 ∷ 0x0 ∷ 0x0 ∷ 0x2
    ∷ 0xff ∷ 0x0 ∷ 0x0 ∷ 0x0 ∷ 0x0 ∷ 0x3f ∷ 0xf0 ∷ 0x0 ∷ 0x0 ∷ 0x0 ∷ 0x7 ∷ 0xfd ∷ 0x0 ∷ 0x0 ∷ 0x0
    ∷ 0x0 ∷ 0xff ∷ 0xc0 ∷ 0x0 ∷ 0x0 ∷ 0x0 ∷ 0xf ∷ 0xf8 ∷ 0x0 ∷ 0x0 ∷ 0x0 ∷ 0x2 ∷ 0xff ∷ 0x0 ∷ 0x0
    ∷ 0x0 ∷ 0x0 ∷ 0x3f ∷ 0xf0 ∷ 0x0 ∷ 0x0 ∷ 0x0 ∷ 0x7 ∷ 0xfd ∷ 0x0 ∷ 0x0 ∷ 0x0 ∷ 0x0 ∷ 0xff ∷ 0xc0
    ∷ 0x0 ∷ 0x0 ∷ 0x0 ∷ 0xf ∷ 0xf8 ∷ 0x0 ∷ 0x0 ∷ 0x0 ∷ 0x2 ∷ 0xff ∷ 0x40 ∷ 0x0 ∷ 0x0 ∷ 0x0 ∷ 0x3f
    ∷ 0xf0 ∷ 0x0 ∷ 0x0 ∷ 0x0 ∷ 0x7 ∷ 0xfd ∷ 0x0 ∷ 0x0 ∷ 0x0 ∷ []

unfoldable pub u_0038 : List ℕ
u_0038 =
    0x0 ∷ 0x0 ∷ 0x15 ∷ 0x50 ∷ 0x0 ∷ 0x0 ∷ 0x0 ∷ 0xbf ∷ 0xff ∷ 0xe4 ∷ 0x0 ∷ 0x0 ∷ 0x7f ∷ 0xff ∷ 0xff
    ∷ 0xe0 ∷ 0x0 ∷ 0x1f ∷ 0xff ∷ 0xff ∷ 0xff ∷ 0x80 ∷ 0x3 ∷ 0xff ∷ 0x90 ∷ 0x6f ∷ 0xfd ∷ 0x0 ∷ 0xbf
    ∷ 0xe0 ∷ 0x0 ∷ 0x7f ∷ 0xf0 ∷ 0xf ∷ 0xfc ∷ 0x0 ∷ 0x2 ∷ 0xff ∷ 0x0 ∷ 0xff ∷ 0x40 ∷ 0x0 ∷ 0xf
    ∷ 0xf4 ∷ 0xf ∷ 0xf4 ∷ 0x0 ∷ 0x0 ∷ 0xff ∷ 0x40 ∷ 0xff ∷ 0x40 ∷ 0x0 ∷ 0xf ∷ 0xf0 ∷ 0xf ∷ 0xf8
    ∷ 0x0 ∷ 0x1 ∷ 0xff ∷ 0x0 ∷ 0xbf ∷ 0xc0 ∷ 0x0 ∷ 0x3f ∷ 0xf0 ∷ 0x3 ∷ 0xff ∷ 0x0 ∷ 0xb ∷ 0xfd ∷ 0x0
    ∷ 0x2f ∷ 0xfc ∷ 0x2 ∷ 0xff ∷ 0x80 ∷ 0x0 ∷ 0xbf ∷ 0xf5 ∷ 0xff ∷ 0xe0 ∷ 0x0 ∷ 0x2 ∷ 0xff ∷ 0xff
    ∷ 0xf8 ∷ 0x0 ∷ 0x0 ∷ 0x7 ∷ 0xff ∷ 0xfc ∷ 0x0 ∷ 0x0 ∷ 0x0 ∷ 0xbf ∷ 0xff ∷ 0xd0 ∷ 0x0 ∷ 0x0 ∷ 0x3f
    ∷ 0xff ∷ 0xff ∷ 0xc0 ∷ 0x0 ∷ 0x1f ∷ 0xfe ∷ 0x1f ∷ 0xff ∷ 0x0 ∷ 0x3 ∷ 0xff ∷ 0x40 ∷ 0x2f ∷ 0xfc
    ∷ 0x0 ∷ 0xff ∷ 0xc0 ∷ 0x0 ∷ 0x7f ∷ 0xf0 ∷ 0x1f ∷ 0xf4 ∷ 0x0 ∷ 0x1 ∷ 0xff ∷ 0x82 ∷ 0xff ∷ 0x0
    ∷ 0x0 ∷ 0xf ∷ 0xfc ∷ 0x3f ∷ 0xd0 ∷ 0x0 ∷ 0x0 ∷ 0x7f ∷ 0xc3 ∷ 0xfd ∷ 0x0 ∷ 0x0 ∷ 0x3 ∷ 0xfc
    ∷ 0x3f ∷ 0xd0 ∷ 0x0 ∷ 0x0 ∷ 0x3f ∷ 0xc3 ∷ 0xfe ∷ 0x0 ∷ 0x0 ∷ 0x7 ∷ 0xfc ∷ 0x3f ∷ 0xf0 ∷ 0x0
    ∷ 0x0 ∷ 0xbf ∷ 0xc2 ∷ 0xff ∷ 0x40 ∷ 0x0 ∷ 0x1f ∷ 0xf8 ∷ 0xf ∷ 0xfe ∷ 0x0 ∷ 0x7 ∷ 0xff ∷ 0x0
    ∷ 0x7f ∷ 0xff ∷ 0xab ∷ 0xff ∷ 0xd0 ∷ 0x2 ∷ 0xff ∷ 0xff ∷ 0xff ∷ 0xf8 ∷ 0x0 ∷ 0x7 ∷ 0xff ∷ 0xff
    ∷ 0xfd ∷ 0x0 ∷ 0x0 ∷ 0x6 ∷ 0xff ∷ 0xf9 ∷ 0x0 ∷ 0x0 ∷ []

unfoldable pub u_0039 : List ℕ
u_0039 =
    0x0 ∷ 0x0 ∷ 0x55 ∷ 0x40 ∷ 0x0 ∷ 0x0 ∷ 0x2 ∷ 0xff ∷ 0xfe ∷ 0x0 ∷ 0x0 ∷ 0x7 ∷ 0xff ∷ 0xff ∷ 0xf4
    ∷ 0x0 ∷ 0x7 ∷ 0xff ∷ 0xff ∷ 0xff ∷ 0x80 ∷ 0x3 ∷ 0xff ∷ 0xe5 ∷ 0xbf ∷ 0xf4 ∷ 0x2 ∷ 0xff ∷ 0x80
    ∷ 0x7 ∷ 0xff ∷ 0x0 ∷ 0xff ∷ 0x80 ∷ 0x0 ∷ 0x7f ∷ 0xd0 ∷ 0x7f ∷ 0xc0 ∷ 0x0 ∷ 0xf ∷ 0xfc ∷ 0x2f
    ∷ 0xf0 ∷ 0x0 ∷ 0x1 ∷ 0xff ∷ 0xf ∷ 0xf8 ∷ 0x0 ∷ 0x0 ∷ 0x3f ∷ 0xd3 ∷ 0xfe ∷ 0x0 ∷ 0x0 ∷ 0xf ∷ 0xf8
    ∷ 0xff ∷ 0x80 ∷ 0x0 ∷ 0x3 ∷ 0xfe ∷ 0x3f ∷ 0xe0 ∷ 0x0 ∷ 0x0 ∷ 0xbf ∷ 0xcf ∷ 0xf8 ∷ 0x0 ∷ 0x0
    ∷ 0x3f ∷ 0xf3 ∷ 0xff ∷ 0x0 ∷ 0x0 ∷ 0xf ∷ 0xfc ∷ 0xbf ∷ 0xc0 ∷ 0x0 ∷ 0xb ∷ 0xff ∷ 0xf ∷ 0xfc
    ∷ 0x0 ∷ 0x7 ∷ 0xff ∷ 0xc3 ∷ 0xff ∷ 0x80 ∷ 0x7 ∷ 0xff ∷ 0xf0 ∷ 0x7f ∷ 0xff ∷ 0xbf ∷ 0xfb ∷ 0xfc
    ∷ 0x7 ∷ 0xff ∷ 0xff ∷ 0xf6 ∷ 0xfe ∷ 0x0 ∷ 0x7f ∷ 0xff ∷ 0xf4 ∷ 0xbf ∷ 0x80 ∷ 0x2 ∷ 0xff ∷ 0xd0
    ∷ 0x3f ∷ 0xd0 ∷ 0x0 ∷ 0x0 ∷ 0x0 ∷ 0xf ∷ 0xf4 ∷ 0x0 ∷ 0x0 ∷ 0x0 ∷ 0x3 ∷ 0xfc ∷ 0x0 ∷ 0x0 ∷ 0x0
    ∷ 0x1 ∷ 0xff ∷ 0x0 ∷ 0x0 ∷ 0x0 ∷ 0x0 ∷ 0xff ∷ 0x80 ∷ 0x0 ∷ 0x0 ∷ 0x0 ∷ 0x7f ∷ 0xd0 ∷ 0x0 ∷ 0x0
    ∷ 0x0 ∷ 0x3f ∷ 0xf0 ∷ 0x0 ∷ 0x0 ∷ 0x0 ∷ 0x2f ∷ 0xf4 ∷ 0x0 ∷ 0x0 ∷ 0x0 ∷ 0x2f ∷ 0xfc ∷ 0x0 ∷ 0x0
    ∷ 0x0 ∷ 0x7f ∷ 0xfc ∷ 0x0 ∷ 0xf ∷ 0xff ∷ 0xff ∷ 0xfd ∷ 0x0 ∷ 0x3 ∷ 0xff ∷ 0xff ∷ 0xfd ∷ 0x0
    ∷ 0x0 ∷ 0xff ∷ 0xff ∷ 0xf8 ∷ 0x0 ∷ 0x0 ∷ 0x2f ∷ 0xff ∷ 0x90 ∷ 0x0 ∷ 0x0 ∷ []

unfoldable pub u_003a : List ℕ
u_003a =
    0x2f ∷ 0x8b ∷ 0xfe ∷ 0xff ∷ 0xff ∷ 0xff ∷ 0xbf ∷ 0xe3 ∷ 0xfc ∷ 0x5 ∷ 0x0 ∷ 0x0 ∷ 0x0 ∷ 0x0 ∷ 0x0
    ∷ 0x0 ∷ 0x0 ∷ 0x0 ∷ 0x0 ∷ 0x0 ∷ 0x0 ∷ 0x0 ∷ 0x0 ∷ 0x0 ∷ 0x0 ∷ 0x0 ∷ 0x0 ∷ 0x0 ∷ 0x0 ∷ 0x50
    ∷ 0x3f ∷ 0xcb ∷ 0xff ∷ 0xff ∷ 0xff ∷ 0xff ∷ 0xbf ∷ 0xe2 ∷ 0xf8 ∷ []

unfoldable pub u_003b : List ℕ
u_003b =
    0x2 ∷ 0xf8 ∷ 0xb ∷ 0xfe ∷ 0xf ∷ 0xff ∷ 0xf ∷ 0xff ∷ 0xf ∷ 0xfe ∷ 0x3 ∷ 0xfc ∷ 0x0 ∷ 0x50 ∷ 0x0
    ∷ 0x0 ∷ 0x0 ∷ 0x0 ∷ 0x0 ∷ 0x0 ∷ 0x0 ∷ 0x0 ∷ 0x0 ∷ 0x0 ∷ 0x0 ∷ 0x0 ∷ 0x0 ∷ 0x0 ∷ 0x0 ∷ 0x0 ∷ 0x0
    ∷ 0x0 ∷ 0x0 ∷ 0x0 ∷ 0x0 ∷ 0x0 ∷ 0x0 ∷ 0x0 ∷ 0x0 ∷ 0x0 ∷ 0x2 ∷ 0xa9 ∷ 0x7 ∷ 0xfe ∷ 0x7 ∷ 0xfd
    ∷ 0xb ∷ 0xfc ∷ 0xf ∷ 0xfc ∷ 0xf ∷ 0xf4 ∷ 0xf ∷ 0xf0 ∷ 0x1f ∷ 0xf0 ∷ 0x2f ∷ 0xd0 ∷ 0x3f ∷ 0xc0
    ∷ 0x3f ∷ 0x80 ∷ 0x7f ∷ 0x40 ∷ []

unfoldable pub u_003c : List ℕ
u_003c =
    0x0 ∷ 0x0 ∷ 0x0 ∷ 0x0 ∷ 0x0 ∷ 0x0 ∷ 0x0 ∷ 0x0 ∷ 0x0 ∷ 0x0 ∷ 0x1d ∷ 0x0 ∷ 0x0 ∷ 0x0 ∷ 0x0 ∷ 0x1f
    ∷ 0xd0 ∷ 0x0 ∷ 0x0 ∷ 0x0 ∷ 0x1f ∷ 0xfd ∷ 0x0 ∷ 0x0 ∷ 0x0 ∷ 0x1f ∷ 0xff ∷ 0xd0 ∷ 0x0 ∷ 0x0 ∷ 0x1f
    ∷ 0xff ∷ 0xe0 ∷ 0x0 ∷ 0x0 ∷ 0x1f ∷ 0xff ∷ 0xe0 ∷ 0x0 ∷ 0x0 ∷ 0x1f ∷ 0xff ∷ 0xe0 ∷ 0x0 ∷ 0x0
    ∷ 0x1f ∷ 0xff ∷ 0xd0 ∷ 0x0 ∷ 0x0 ∷ 0x1f ∷ 0xff ∷ 0xd0 ∷ 0x0 ∷ 0x0 ∷ 0x1f ∷ 0xff ∷ 0xd0 ∷ 0x0
    ∷ 0x0 ∷ 0x3 ∷ 0xff ∷ 0xd0 ∷ 0x0 ∷ 0x0 ∷ 0x0 ∷ 0x3f ∷ 0xf8 ∷ 0x0 ∷ 0x0 ∷ 0x0 ∷ 0x3 ∷ 0xff ∷ 0xf8
    ∷ 0x0 ∷ 0x0 ∷ 0x0 ∷ 0x6 ∷ 0xff ∷ 0xf8 ∷ 0x0 ∷ 0x0 ∷ 0x0 ∷ 0x2 ∷ 0xff ∷ 0xfd ∷ 0x0 ∷ 0x0 ∷ 0x0
    ∷ 0x2 ∷ 0xff ∷ 0xfd ∷ 0x0 ∷ 0x0 ∷ 0x0 ∷ 0x2 ∷ 0xff ∷ 0xfd ∷ 0x0 ∷ 0x0 ∷ 0x0 ∷ 0x2 ∷ 0xff ∷ 0xfe
    ∷ 0x0 ∷ 0x0 ∷ 0x0 ∷ 0x1 ∷ 0xff ∷ 0xfd ∷ 0x0 ∷ 0x0 ∷ 0x0 ∷ 0x1 ∷ 0xff ∷ 0xd0 ∷ 0x0 ∷ 0x0 ∷ 0x0
    ∷ 0x1 ∷ 0xfd ∷ 0x0 ∷ 0x0 ∷ 0x0 ∷ 0x0 ∷ 0x1 ∷ 0xd0 ∷ 0x0 ∷ 0x0 ∷ 0x0 ∷ 0x0 ∷ 0x0 ∷ []

unfoldable pub u_003d : List ℕ
u_003d =
    0xaa ∷ 0xaa ∷ 0xaa ∷ 0xaa ∷ 0xaa ∷ 0x3f ∷ 0xff ∷ 0xff ∷ 0xff ∷ 0xff ∷ 0xcf ∷ 0xff ∷ 0xff ∷ 0xff
    ∷ 0xff ∷ 0xf3 ∷ 0xff ∷ 0xff ∷ 0xff ∷ 0xff ∷ 0xfc ∷ 0x0 ∷ 0x0 ∷ 0x0 ∷ 0x0 ∷ 0x0 ∷ 0x0 ∷ 0x0 ∷ 0x0
    ∷ 0x0 ∷ 0x0 ∷ 0x0 ∷ 0x0 ∷ 0x0 ∷ 0x0 ∷ 0x0 ∷ 0x0 ∷ 0x0 ∷ 0x0 ∷ 0x0 ∷ 0x0 ∷ 0x0 ∷ 0x0 ∷ 0x0 ∷ 0x0
    ∷ 0x0 ∷ 0x0 ∷ 0x0 ∷ 0x0 ∷ 0x0 ∷ 0x0 ∷ 0x0 ∷ 0xa ∷ 0xaa ∷ 0xaa ∷ 0xaa ∷ 0xaa ∷ 0xa3 ∷ 0xff ∷ 0xff
    ∷ 0xff ∷ 0xff ∷ 0xfc ∷ 0xff ∷ 0xff ∷ 0xff ∷ 0xff ∷ 0xff ∷ 0x3f ∷ 0xff ∷ 0xff ∷ 0xff ∷ 0xff
    ∷ 0xc0 ∷ []

unfoldable pub u_003e : List ℕ
u_003e =
    0x0 ∷ 0x0 ∷ 0x0 ∷ 0x0 ∷ 0x0 ∷ 0x3 ∷ 0x40 ∷ 0x0 ∷ 0x0 ∷ 0x0 ∷ 0x0 ∷ 0x3f ∷ 0x40 ∷ 0x0 ∷ 0x0 ∷ 0x0
    ∷ 0x3 ∷ 0xff ∷ 0x40 ∷ 0x0 ∷ 0x0 ∷ 0x0 ∷ 0x3f ∷ 0xff ∷ 0x40 ∷ 0x0 ∷ 0x0 ∷ 0x0 ∷ 0x7f ∷ 0xff
    ∷ 0x40 ∷ 0x0 ∷ 0x0 ∷ 0x0 ∷ 0x7f ∷ 0xff ∷ 0x40 ∷ 0x0 ∷ 0x0 ∷ 0x0 ∷ 0x7f ∷ 0xff ∷ 0x40 ∷ 0x0 ∷ 0x0
    ∷ 0x0 ∷ 0x7f ∷ 0xff ∷ 0x40 ∷ 0x0 ∷ 0x0 ∷ 0x0 ∷ 0x7f ∷ 0xff ∷ 0x40 ∷ 0x0 ∷ 0x0 ∷ 0x0 ∷ 0x7f
    ∷ 0xff ∷ 0x40 ∷ 0x0 ∷ 0x0 ∷ 0x0 ∷ 0x7f ∷ 0xfd ∷ 0x0 ∷ 0x0 ∷ 0x0 ∷ 0x1 ∷ 0xff ∷ 0xd0 ∷ 0x0 ∷ 0x0
    ∷ 0x1 ∷ 0xff ∷ 0xfc ∷ 0x0 ∷ 0x0 ∷ 0x2 ∷ 0xff ∷ 0xfd ∷ 0x0 ∷ 0x0 ∷ 0x2 ∷ 0xff ∷ 0xfd ∷ 0x0 ∷ 0x0
    ∷ 0x6 ∷ 0xff ∷ 0xf9 ∷ 0x0 ∷ 0x0 ∷ 0x7 ∷ 0xff ∷ 0xf8 ∷ 0x0 ∷ 0x0 ∷ 0x7 ∷ 0xff ∷ 0xf8 ∷ 0x0 ∷ 0x0
    ∷ 0x3 ∷ 0xff ∷ 0xf8 ∷ 0x0 ∷ 0x0 ∷ 0x0 ∷ 0x3f ∷ 0xf8 ∷ 0x0 ∷ 0x0 ∷ 0x0 ∷ 0x3 ∷ 0xf8 ∷ 0x0 ∷ 0x0
    ∷ 0x0 ∷ 0x0 ∷ 0x34 ∷ 0x0 ∷ 0x0 ∷ 0x0 ∷ 0x0 ∷ 0x0 ∷ 0x0 ∷ 0x0 ∷ 0x0 ∷ 0x0 ∷ 0x0 ∷ []

unfoldable pub u_003f : List ℕ
u_003f =
    0x0 ∷ 0x5 ∷ 0x54 ∷ 0x0 ∷ 0x0 ∷ 0x2f ∷ 0xff ∷ 0xfd ∷ 0x0 ∷ 0x2f ∷ 0xff ∷ 0xff ∷ 0xfc ∷ 0x3 ∷ 0xff
    ∷ 0xff ∷ 0xff ∷ 0xf0 ∷ 0x2f ∷ 0xf9 ∷ 0x5b ∷ 0xff ∷ 0x40 ∷ 0xe0 ∷ 0x0 ∷ 0x1f ∷ 0xfc ∷ 0x0 ∷ 0x0
    ∷ 0x0 ∷ 0x7f ∷ 0xc0 ∷ 0x0 ∷ 0x0 ∷ 0x3 ∷ 0xfd ∷ 0x0 ∷ 0x0 ∷ 0x0 ∷ 0x3f ∷ 0xd0 ∷ 0x0 ∷ 0x0 ∷ 0x3
    ∷ 0xfd ∷ 0x0 ∷ 0x0 ∷ 0x0 ∷ 0x3f ∷ 0xc0 ∷ 0x0 ∷ 0x0 ∷ 0xb ∷ 0xfc ∷ 0x0 ∷ 0x0 ∷ 0x0 ∷ 0xff ∷ 0x80
    ∷ 0x0 ∷ 0x0 ∷ 0x3f ∷ 0xf0 ∷ 0x0 ∷ 0x0 ∷ 0xb ∷ 0xfd ∷ 0x0 ∷ 0x0 ∷ 0x2 ∷ 0xff ∷ 0x80 ∷ 0x0 ∷ 0x0
    ∷ 0xbf ∷ 0xe0 ∷ 0x0 ∷ 0x0 ∷ 0x2f ∷ 0xf8 ∷ 0x0 ∷ 0x0 ∷ 0x3 ∷ 0xfe ∷ 0x0 ∷ 0x0 ∷ 0x0 ∷ 0xbf ∷ 0x80
    ∷ 0x0 ∷ 0x0 ∷ 0xf ∷ 0xf0 ∷ 0x0 ∷ 0x0 ∷ 0x0 ∷ 0xfe ∷ 0x0 ∷ 0x0 ∷ 0x0 ∷ 0x1f ∷ 0xd0 ∷ 0x0 ∷ 0x0
    ∷ 0x1 ∷ 0xfd ∷ 0x0 ∷ 0x0 ∷ 0x0 ∷ 0xa ∷ 0x90 ∷ 0x0 ∷ 0x0 ∷ 0x0 ∷ 0x0 ∷ 0x0 ∷ 0x0 ∷ 0x0 ∷ 0x0
    ∷ 0x0 ∷ 0x0 ∷ 0x0 ∷ 0x0 ∷ 0x0 ∷ 0x0 ∷ 0x0 ∷ 0x0 ∷ 0x1 ∷ 0x40 ∷ 0x0 ∷ 0x0 ∷ 0x2 ∷ 0xff ∷ 0x0
    ∷ 0x0 ∷ 0x0 ∷ 0x3f ∷ 0xf4 ∷ 0x0 ∷ 0x0 ∷ 0x3 ∷ 0xff ∷ 0x80 ∷ 0x0 ∷ 0x0 ∷ 0x3f ∷ 0xf8 ∷ 0x0 ∷ 0x0
    ∷ 0x3 ∷ 0xff ∷ 0x0 ∷ 0x0 ∷ 0x0 ∷ 0xf ∷ 0xd0 ∷ 0x0 ∷ 0x0 ∷ []
