-- ===== src/Fonts/OpenSans48/Glyphs40.antt =====
-- The bytes of `glyph_bitmap` in fonts/open_sans_48.c, a list for each glyph, from U+0040 to U+004F.
use popcorn.Prelude.{ℕ, List, [], ◌∷◌}

unfoldable pub u_0040 : List ℕ
u_0040 =
    0x0 ∷ 0x0 ∷ 0x0 ∷ 0x1b ∷ 0xff ∷ 0xe4 ∷ 0x0 ∷ 0x0 ∷ 0x0 ∷ 0x0 ∷ 0x0 ∷ 0x7f ∷ 0xff ∷ 0xff ∷ 0xf8
    ∷ 0x0 ∷ 0x0 ∷ 0x0 ∷ 0x0 ∷ 0x7f ∷ 0xff ∷ 0xff ∷ 0xff ∷ 0xf4 ∷ 0x0 ∷ 0x0 ∷ 0x0 ∷ 0x2f ∷ 0xfe
    ∷ 0x50 ∷ 0x6 ∷ 0xff ∷ 0xe0 ∷ 0x0 ∷ 0x0 ∷ 0xb ∷ 0xfe ∷ 0x0 ∷ 0x0 ∷ 0x1 ∷ 0xff ∷ 0x80 ∷ 0x0 ∷ 0x2
    ∷ 0xff ∷ 0x40 ∷ 0x0 ∷ 0x0 ∷ 0x3 ∷ 0xfe ∷ 0x0 ∷ 0x0 ∷ 0x7f ∷ 0xc0 ∷ 0x0 ∷ 0x0 ∷ 0x0 ∷ 0xf ∷ 0xf0
    ∷ 0x0 ∷ 0xf ∷ 0xf0 ∷ 0x0 ∷ 0x0 ∷ 0x0 ∷ 0x0 ∷ 0x3f ∷ 0xc0 ∷ 0x2 ∷ 0xfd ∷ 0x0 ∷ 0x0 ∷ 0x0 ∷ 0x0
    ∷ 0x2 ∷ 0xfd ∷ 0x0 ∷ 0x7f ∷ 0x80 ∷ 0x0 ∷ 0x6f ∷ 0xfe ∷ 0x40 ∷ 0xf ∷ 0xf0 ∷ 0xb ∷ 0xf0 ∷ 0x0
    ∷ 0x3f ∷ 0xff ∷ 0xff ∷ 0x0 ∷ 0xbf ∷ 0x0 ∷ 0xfe ∷ 0x0 ∷ 0x1f ∷ 0xff ∷ 0xff ∷ 0xf0 ∷ 0x3 ∷ 0xf4
    ∷ 0x1f ∷ 0xc0 ∷ 0x3 ∷ 0xfe ∷ 0x0 ∷ 0xff ∷ 0x0 ∷ 0x3f ∷ 0x82 ∷ 0xfc ∷ 0x0 ∷ 0xbf ∷ 0x40 ∷ 0xf
    ∷ 0xf0 ∷ 0x2 ∷ 0xfc ∷ 0x3f ∷ 0x80 ∷ 0xf ∷ 0xf0 ∷ 0x0 ∷ 0xff ∷ 0x0 ∷ 0x2f ∷ 0xc3 ∷ 0xf4 ∷ 0x2
    ∷ 0xfd ∷ 0x0 ∷ 0xf ∷ 0xf0 ∷ 0x1 ∷ 0xfc ∷ 0x7f ∷ 0x40 ∷ 0x3f ∷ 0xc0 ∷ 0x0 ∷ 0xfe ∷ 0x0 ∷ 0x1f
    ∷ 0xc7 ∷ 0xf0 ∷ 0x3 ∷ 0xfc ∷ 0x0 ∷ 0xf ∷ 0xe0 ∷ 0x1 ∷ 0xfc ∷ 0x7f ∷ 0x0 ∷ 0x3f ∷ 0x80 ∷ 0x0
    ∷ 0xfe ∷ 0x0 ∷ 0x1f ∷ 0xcb ∷ 0xf0 ∷ 0x3 ∷ 0xf8 ∷ 0x0 ∷ 0xf ∷ 0xe0 ∷ 0x2 ∷ 0xfc ∷ 0xbf ∷ 0x0
    ∷ 0x3f ∷ 0x80 ∷ 0x1 ∷ 0xfe ∷ 0x0 ∷ 0x2f ∷ 0xcb ∷ 0xf0 ∷ 0x3 ∷ 0xf8 ∷ 0x0 ∷ 0x1f ∷ 0xe0 ∷ 0x3
    ∷ 0xf8 ∷ 0x7f ∷ 0x0 ∷ 0x3f ∷ 0xc0 ∷ 0x2 ∷ 0xfe ∷ 0x0 ∷ 0x3f ∷ 0x47 ∷ 0xf0 ∷ 0x3 ∷ 0xfc ∷ 0x0
    ∷ 0x3f ∷ 0xe0 ∷ 0x7 ∷ 0xf0 ∷ 0x7f ∷ 0x40 ∷ 0x1f ∷ 0xe0 ∷ 0x7 ∷ 0xff ∷ 0x0 ∷ 0xff ∷ 0x3 ∷ 0xf8
    ∷ 0x0 ∷ 0xff ∷ 0x81 ∷ 0xfa ∷ 0xf8 ∷ 0x2f ∷ 0xd0 ∷ 0x3f ∷ 0xc0 ∷ 0x7 ∷ 0xff ∷ 0xff ∷ 0x1f ∷ 0xff
    ∷ 0xf8 ∷ 0x2 ∷ 0xfc ∷ 0x0 ∷ 0x2f ∷ 0xff ∷ 0xd0 ∷ 0xbf ∷ 0xfe ∷ 0x0 ∷ 0x1f ∷ 0xe0 ∷ 0x0 ∷ 0x6f
    ∷ 0xe0 ∷ 0x1 ∷ 0xff ∷ 0x40 ∷ 0x0 ∷ 0xff ∷ 0x0 ∷ 0x0 ∷ 0x0 ∷ 0x0 ∷ 0x0 ∷ 0x0 ∷ 0x0 ∷ 0x7 ∷ 0xf8
    ∷ 0x0 ∷ 0x0 ∷ 0x0 ∷ 0x0 ∷ 0x0 ∷ 0x0 ∷ 0x0 ∷ 0x3f ∷ 0xe0 ∷ 0x0 ∷ 0x0 ∷ 0x0 ∷ 0x0 ∷ 0x0 ∷ 0x0
    ∷ 0x0 ∷ 0xff ∷ 0x80 ∷ 0x0 ∷ 0x0 ∷ 0x0 ∷ 0x0 ∷ 0x0 ∷ 0x0 ∷ 0x7 ∷ 0xff ∷ 0x0 ∷ 0x0 ∷ 0x0 ∷ 0x18
    ∷ 0x0 ∷ 0x0 ∷ 0x0 ∷ 0x1f ∷ 0xff ∷ 0x40 ∷ 0x1 ∷ 0x6f ∷ 0xc0 ∷ 0x0 ∷ 0x0 ∷ 0x0 ∷ 0x3f ∷ 0xff
    ∷ 0xff ∷ 0xff ∷ 0xfc ∷ 0x0 ∷ 0x0 ∷ 0x0 ∷ 0x0 ∷ 0x7f ∷ 0xff ∷ 0xff ∷ 0xff ∷ 0x80 ∷ 0x0 ∷ 0x0
    ∷ 0x0 ∷ 0x0 ∷ 0x6f ∷ 0xff ∷ 0xfa ∷ 0x40 ∷ 0x0 ∷ 0x0 ∷ 0x0 ∷ 0x0 ∷ 0x0 ∷ 0x0 ∷ 0x0 ∷ 0x0 ∷ 0x0
    ∷ 0x0 ∷ 0x0 ∷ []

unfoldable pub u_0041 : List ℕ
u_0041 =
    0x0 ∷ 0x0 ∷ 0x7 ∷ 0xff ∷ 0x0 ∷ 0x0 ∷ 0x0 ∷ 0x0 ∷ 0x0 ∷ 0x3f ∷ 0xfd ∷ 0x0 ∷ 0x0 ∷ 0x0 ∷ 0x0 ∷ 0x0
    ∷ 0xff ∷ 0xf8 ∷ 0x0 ∷ 0x0 ∷ 0x0 ∷ 0x0 ∷ 0x7 ∷ 0xff ∷ 0xf0 ∷ 0x0 ∷ 0x0 ∷ 0x0 ∷ 0x0 ∷ 0x2f ∷ 0xff
    ∷ 0xd0 ∷ 0x0 ∷ 0x0 ∷ 0x0 ∷ 0x0 ∷ 0xff ∷ 0x7f ∷ 0x80 ∷ 0x0 ∷ 0x0 ∷ 0x0 ∷ 0x7 ∷ 0xfc ∷ 0xff ∷ 0x0
    ∷ 0x0 ∷ 0x0 ∷ 0x0 ∷ 0x2f ∷ 0xe3 ∷ 0xfd ∷ 0x0 ∷ 0x0 ∷ 0x0 ∷ 0x0 ∷ 0xff ∷ 0x4b ∷ 0xf8 ∷ 0x0 ∷ 0x0
    ∷ 0x0 ∷ 0x7 ∷ 0xfc ∷ 0x1f ∷ 0xf0 ∷ 0x0 ∷ 0x0 ∷ 0x0 ∷ 0x2f ∷ 0xe0 ∷ 0x3f ∷ 0xc0 ∷ 0x0 ∷ 0x0 ∷ 0x0
    ∷ 0xff ∷ 0x40 ∷ 0xff ∷ 0x80 ∷ 0x0 ∷ 0x0 ∷ 0x3 ∷ 0xfc ∷ 0x2 ∷ 0xff ∷ 0x0 ∷ 0x0 ∷ 0x0 ∷ 0x2f
    ∷ 0xf0 ∷ 0x7 ∷ 0xfc ∷ 0x0 ∷ 0x0 ∷ 0x0 ∷ 0xff ∷ 0x80 ∷ 0xf ∷ 0xf4 ∷ 0x0 ∷ 0x0 ∷ 0x3 ∷ 0xfd ∷ 0x0
    ∷ 0x2f ∷ 0xf0 ∷ 0x0 ∷ 0x0 ∷ 0x2f ∷ 0xf0 ∷ 0x0 ∷ 0x7f ∷ 0xc0 ∷ 0x0 ∷ 0x0 ∷ 0xff ∷ 0x80 ∷ 0x0
    ∷ 0xff ∷ 0x40 ∷ 0x0 ∷ 0x3 ∷ 0xfd ∷ 0x0 ∷ 0x3 ∷ 0xfe ∷ 0x0 ∷ 0x0 ∷ 0x1f ∷ 0xf0 ∷ 0x0 ∷ 0xb ∷ 0xfc
    ∷ 0x0 ∷ 0x0 ∷ 0xff ∷ 0xff ∷ 0xff ∷ 0xff ∷ 0xf4 ∷ 0x0 ∷ 0x3 ∷ 0xff ∷ 0xff ∷ 0xff ∷ 0xff ∷ 0xe0
    ∷ 0x0 ∷ 0x1f ∷ 0xff ∷ 0xff ∷ 0xff ∷ 0xff ∷ 0xc0 ∷ 0x0 ∷ 0xbf ∷ 0xff ∷ 0xff ∷ 0xff ∷ 0xff ∷ 0x40
    ∷ 0x3 ∷ 0xff ∷ 0x0 ∷ 0x0 ∷ 0x3 ∷ 0xfe ∷ 0x0 ∷ 0x1f ∷ 0xf4 ∷ 0x0 ∷ 0x0 ∷ 0xf ∷ 0xfc ∷ 0x0 ∷ 0xbf
    ∷ 0xc0 ∷ 0x0 ∷ 0x0 ∷ 0x2f ∷ 0xf4 ∷ 0x3 ∷ 0xff ∷ 0x0 ∷ 0x0 ∷ 0x0 ∷ 0x7f ∷ 0xe0 ∷ 0x1f ∷ 0xf8
    ∷ 0x0 ∷ 0x0 ∷ 0x0 ∷ 0xff ∷ 0xc0 ∷ 0xbf ∷ 0xd0 ∷ 0x0 ∷ 0x0 ∷ 0x2 ∷ 0xff ∷ 0x3 ∷ 0xff ∷ 0x0 ∷ 0x0
    ∷ 0x0 ∷ 0x7 ∷ 0xfe ∷ 0xf ∷ 0xf8 ∷ 0x0 ∷ 0x0 ∷ 0x0 ∷ 0xf ∷ 0xfc ∷ 0xbf ∷ 0xd0 ∷ 0x0 ∷ 0x0 ∷ 0x0
    ∷ 0x2f ∷ 0xf3 ∷ 0xff ∷ 0x0 ∷ 0x0 ∷ 0x0 ∷ 0x0 ∷ 0x7f ∷ 0xd0 ∷ []

unfoldable pub u_0042 : List ℕ
u_0042 =
    0xff ∷ 0xff ∷ 0xff ∷ 0xe4 ∷ 0x0 ∷ 0xf ∷ 0xff ∷ 0xff ∷ 0xff ∷ 0xf8 ∷ 0x0 ∷ 0xff ∷ 0xff ∷ 0xff
    ∷ 0xff ∷ 0xf0 ∷ 0xf ∷ 0xff ∷ 0xff ∷ 0xff ∷ 0xff ∷ 0xc0 ∷ 0xff ∷ 0x80 ∷ 0x0 ∷ 0x7f ∷ 0xfd ∷ 0xf
    ∷ 0xf8 ∷ 0x0 ∷ 0x0 ∷ 0xbf ∷ 0xf0 ∷ 0xff ∷ 0x80 ∷ 0x0 ∷ 0x3 ∷ 0xff ∷ 0xf ∷ 0xf8 ∷ 0x0 ∷ 0x0
    ∷ 0x2f ∷ 0xf0 ∷ 0xff ∷ 0x80 ∷ 0x0 ∷ 0x2 ∷ 0xff ∷ 0xf ∷ 0xf8 ∷ 0x0 ∷ 0x0 ∷ 0x2f ∷ 0xf0 ∷ 0xff
    ∷ 0x80 ∷ 0x0 ∷ 0x2 ∷ 0xff ∷ 0xf ∷ 0xf8 ∷ 0x0 ∷ 0x0 ∷ 0x3f ∷ 0xe0 ∷ 0xff ∷ 0x80 ∷ 0x0 ∷ 0xb
    ∷ 0xfd ∷ 0xf ∷ 0xf8 ∷ 0x0 ∷ 0x2 ∷ 0xff ∷ 0x80 ∷ 0xff ∷ 0xff ∷ 0xff ∷ 0xff ∷ 0xe0 ∷ 0xf ∷ 0xff
    ∷ 0xff ∷ 0xff ∷ 0xe0 ∷ 0x0 ∷ 0xff ∷ 0xff ∷ 0xff ∷ 0xfe ∷ 0x40 ∷ 0xf ∷ 0xff ∷ 0xff ∷ 0xff ∷ 0xff
    ∷ 0x40 ∷ 0xff ∷ 0x80 ∷ 0x0 ∷ 0x7f ∷ 0xfd ∷ 0xf ∷ 0xf8 ∷ 0x0 ∷ 0x0 ∷ 0x7f ∷ 0xf0 ∷ 0xff ∷ 0x80
    ∷ 0x0 ∷ 0x2 ∷ 0xff ∷ 0x4f ∷ 0xf8 ∷ 0x0 ∷ 0x0 ∷ 0xf ∷ 0xfc ∷ 0xff ∷ 0x80 ∷ 0x0 ∷ 0x0 ∷ 0xff
    ∷ 0xcf ∷ 0xf8 ∷ 0x0 ∷ 0x0 ∷ 0xf ∷ 0xfc ∷ 0xff ∷ 0x80 ∷ 0x0 ∷ 0x0 ∷ 0xff ∷ 0xcf ∷ 0xf8 ∷ 0x0
    ∷ 0x0 ∷ 0xf ∷ 0xfc ∷ 0xff ∷ 0x80 ∷ 0x0 ∷ 0x0 ∷ 0xff ∷ 0xcf ∷ 0xf8 ∷ 0x0 ∷ 0x0 ∷ 0x2f ∷ 0xf8
    ∷ 0xff ∷ 0x80 ∷ 0x0 ∷ 0x7 ∷ 0xff ∷ 0x4f ∷ 0xf8 ∷ 0x0 ∷ 0x2 ∷ 0xff ∷ 0xf0 ∷ 0xff ∷ 0xff ∷ 0xff
    ∷ 0xff ∷ 0xfc ∷ 0xf ∷ 0xff ∷ 0xff ∷ 0xff ∷ 0xff ∷ 0x0 ∷ 0xff ∷ 0xff ∷ 0xff ∷ 0xff ∷ 0x80 ∷ 0xf
    ∷ 0xff ∷ 0xff ∷ 0xfe ∷ 0x40 ∷ 0x0 ∷ []

unfoldable pub u_0043 : List ℕ
u_0043 =
    0x0 ∷ 0x0 ∷ 0x0 ∷ 0x55 ∷ 0x50 ∷ 0x0 ∷ 0x0 ∷ 0x0 ∷ 0xbf ∷ 0xff ∷ 0xfe ∷ 0x0 ∷ 0x0 ∷ 0x2f ∷ 0xff
    ∷ 0xff ∷ 0xff ∷ 0x40 ∷ 0x3 ∷ 0xff ∷ 0xff ∷ 0xff ∷ 0xfc ∷ 0x0 ∷ 0x3f ∷ 0xff ∷ 0xea ∷ 0xbf ∷ 0xf0
    ∷ 0x3 ∷ 0xff ∷ 0xe0 ∷ 0x0 ∷ 0xb ∷ 0x40 ∷ 0x2f ∷ 0xfd ∷ 0x0 ∷ 0x0 ∷ 0x0 ∷ 0x0 ∷ 0xff ∷ 0xd0 ∷ 0x0
    ∷ 0x0 ∷ 0x0 ∷ 0xb ∷ 0xfe ∷ 0x0 ∷ 0x0 ∷ 0x0 ∷ 0x0 ∷ 0x3f ∷ 0xf0 ∷ 0x0 ∷ 0x0 ∷ 0x0 ∷ 0x1 ∷ 0xff
    ∷ 0x80 ∷ 0x0 ∷ 0x0 ∷ 0x0 ∷ 0xb ∷ 0xfd ∷ 0x0 ∷ 0x0 ∷ 0x0 ∷ 0x0 ∷ 0x3f ∷ 0xf0 ∷ 0x0 ∷ 0x0 ∷ 0x0
    ∷ 0x0 ∷ 0xff ∷ 0xc0 ∷ 0x0 ∷ 0x0 ∷ 0x0 ∷ 0x3 ∷ 0xfe ∷ 0x0 ∷ 0x0 ∷ 0x0 ∷ 0x0 ∷ 0x1f ∷ 0xf8 ∷ 0x0
    ∷ 0x0 ∷ 0x0 ∷ 0x0 ∷ 0x7f ∷ 0xd0 ∷ 0x0 ∷ 0x0 ∷ 0x0 ∷ 0x1 ∷ 0xff ∷ 0x40 ∷ 0x0 ∷ 0x0 ∷ 0x0 ∷ 0x7
    ∷ 0xfd ∷ 0x0 ∷ 0x0 ∷ 0x0 ∷ 0x0 ∷ 0x1f ∷ 0xf4 ∷ 0x0 ∷ 0x0 ∷ 0x0 ∷ 0x0 ∷ 0x7f ∷ 0xe0 ∷ 0x0 ∷ 0x0
    ∷ 0x0 ∷ 0x0 ∷ 0xff ∷ 0x80 ∷ 0x0 ∷ 0x0 ∷ 0x0 ∷ 0x3 ∷ 0xff ∷ 0x0 ∷ 0x0 ∷ 0x0 ∷ 0x0 ∷ 0xf ∷ 0xfc
    ∷ 0x0 ∷ 0x0 ∷ 0x0 ∷ 0x0 ∷ 0x2f ∷ 0xf4 ∷ 0x0 ∷ 0x0 ∷ 0x0 ∷ 0x0 ∷ 0x7f ∷ 0xf0 ∷ 0x0 ∷ 0x0 ∷ 0x0
    ∷ 0x0 ∷ 0xff ∷ 0xc0 ∷ 0x0 ∷ 0x0 ∷ 0x0 ∷ 0x2 ∷ 0xff ∷ 0xc0 ∷ 0x0 ∷ 0x0 ∷ 0x0 ∷ 0x3 ∷ 0xff ∷ 0x80
    ∷ 0x0 ∷ 0x0 ∷ 0x0 ∷ 0xb ∷ 0xff ∷ 0x80 ∷ 0x0 ∷ 0x0 ∷ 0x0 ∷ 0xf ∷ 0xff ∷ 0xe4 ∷ 0x0 ∷ 0x6e ∷ 0x0
    ∷ 0xf ∷ 0xff ∷ 0xff ∷ 0xff ∷ 0xf8 ∷ 0x0 ∷ 0xb ∷ 0xff ∷ 0xff ∷ 0xff ∷ 0xe0 ∷ 0x0 ∷ 0x7 ∷ 0xff
    ∷ 0xff ∷ 0xff ∷ 0x40 ∷ 0x0 ∷ 0x1 ∷ 0xbf ∷ 0xff ∷ 0x90 ∷ 0x0 ∷ []

unfoldable pub u_0044 : List ℕ
u_0044 =
    0xff ∷ 0xff ∷ 0xff ∷ 0x90 ∷ 0x0 ∷ 0x0 ∷ 0xff ∷ 0xff ∷ 0xff ∷ 0xfe ∷ 0x40 ∷ 0x0 ∷ 0xff ∷ 0xff
    ∷ 0xff ∷ 0xff ∷ 0xe0 ∷ 0x0 ∷ 0xff ∷ 0xff ∷ 0xff ∷ 0xff ∷ 0xfc ∷ 0x0 ∷ 0xff ∷ 0x80 ∷ 0x1 ∷ 0xbf
    ∷ 0xff ∷ 0x0 ∷ 0xff ∷ 0x80 ∷ 0x0 ∷ 0xb ∷ 0xff ∷ 0x80 ∷ 0xff ∷ 0x80 ∷ 0x0 ∷ 0x1 ∷ 0xff ∷ 0xc0
    ∷ 0xff ∷ 0x80 ∷ 0x0 ∷ 0x0 ∷ 0xbf ∷ 0xe0 ∷ 0xff ∷ 0x80 ∷ 0x0 ∷ 0x0 ∷ 0x3f ∷ 0xf0 ∷ 0xff ∷ 0x80
    ∷ 0x0 ∷ 0x0 ∷ 0x2f ∷ 0xf8 ∷ 0xff ∷ 0x80 ∷ 0x0 ∷ 0x0 ∷ 0xf ∷ 0xfc ∷ 0xff ∷ 0x80 ∷ 0x0 ∷ 0x0 ∷ 0xf
    ∷ 0xfc ∷ 0xff ∷ 0x80 ∷ 0x0 ∷ 0x0 ∷ 0xb ∷ 0xfc ∷ 0xff ∷ 0x80 ∷ 0x0 ∷ 0x0 ∷ 0xb ∷ 0xfd ∷ 0xff
    ∷ 0x80 ∷ 0x0 ∷ 0x0 ∷ 0x7 ∷ 0xfd ∷ 0xff ∷ 0x80 ∷ 0x0 ∷ 0x0 ∷ 0x7 ∷ 0xfd ∷ 0xff ∷ 0x80 ∷ 0x0 ∷ 0x0
    ∷ 0x7 ∷ 0xfd ∷ 0xff ∷ 0x80 ∷ 0x0 ∷ 0x0 ∷ 0x7 ∷ 0xfd ∷ 0xff ∷ 0x80 ∷ 0x0 ∷ 0x0 ∷ 0x7 ∷ 0xfd
    ∷ 0xff ∷ 0x80 ∷ 0x0 ∷ 0x0 ∷ 0x7 ∷ 0xfd ∷ 0xff ∷ 0x80 ∷ 0x0 ∷ 0x0 ∷ 0xb ∷ 0xfc ∷ 0xff ∷ 0x80
    ∷ 0x0 ∷ 0x0 ∷ 0xf ∷ 0xfc ∷ 0xff ∷ 0x80 ∷ 0x0 ∷ 0x0 ∷ 0xf ∷ 0xfc ∷ 0xff ∷ 0x80 ∷ 0x0 ∷ 0x0 ∷ 0x1f
    ∷ 0xf8 ∷ 0xff ∷ 0x80 ∷ 0x0 ∷ 0x0 ∷ 0x2f ∷ 0xf4 ∷ 0xff ∷ 0x80 ∷ 0x0 ∷ 0x0 ∷ 0x3f ∷ 0xf0 ∷ 0xff
    ∷ 0x80 ∷ 0x0 ∷ 0x0 ∷ 0xff ∷ 0xe0 ∷ 0xff ∷ 0x80 ∷ 0x0 ∷ 0x2 ∷ 0xff ∷ 0xc0 ∷ 0xff ∷ 0x80 ∷ 0x0
    ∷ 0xf ∷ 0xff ∷ 0x40 ∷ 0xff ∷ 0x80 ∷ 0x1 ∷ 0xbf ∷ 0xfe ∷ 0x0 ∷ 0xff ∷ 0xff ∷ 0xff ∷ 0xff ∷ 0xf8
    ∷ 0x0 ∷ 0xff ∷ 0xff ∷ 0xff ∷ 0xff ∷ 0xd0 ∷ 0x0 ∷ 0xff ∷ 0xff ∷ 0xff ∷ 0xfe ∷ 0x0 ∷ 0x0 ∷ 0xff
    ∷ 0xff ∷ 0xff ∷ 0x90 ∷ 0x0 ∷ 0x0 ∷ []

unfoldable pub u_0045 : List ℕ
u_0045 =
    0xff ∷ 0xff ∷ 0xff ∷ 0xff ∷ 0xbf ∷ 0xff ∷ 0xff ∷ 0xff ∷ 0xef ∷ 0xff ∷ 0xff ∷ 0xff ∷ 0xfb ∷ 0xff
    ∷ 0xff ∷ 0xff ∷ 0xfe ∷ 0xff ∷ 0x80 ∷ 0x0 ∷ 0x0 ∷ 0x3f ∷ 0xe0 ∷ 0x0 ∷ 0x0 ∷ 0xf ∷ 0xf8 ∷ 0x0
    ∷ 0x0 ∷ 0x3 ∷ 0xfe ∷ 0x0 ∷ 0x0 ∷ 0x0 ∷ 0xff ∷ 0x80 ∷ 0x0 ∷ 0x0 ∷ 0x3f ∷ 0xe0 ∷ 0x0 ∷ 0x0 ∷ 0xf
    ∷ 0xf8 ∷ 0x0 ∷ 0x0 ∷ 0x3 ∷ 0xfe ∷ 0x0 ∷ 0x0 ∷ 0x0 ∷ 0xff ∷ 0x80 ∷ 0x0 ∷ 0x0 ∷ 0x3f ∷ 0xe0 ∷ 0x0
    ∷ 0x0 ∷ 0xf ∷ 0xff ∷ 0xff ∷ 0xff ∷ 0xf3 ∷ 0xff ∷ 0xff ∷ 0xff ∷ 0xfc ∷ 0xff ∷ 0xff ∷ 0xff ∷ 0xff
    ∷ 0x3f ∷ 0xff ∷ 0xff ∷ 0xff ∷ 0xcf ∷ 0xf8 ∷ 0x0 ∷ 0x0 ∷ 0x3 ∷ 0xfe ∷ 0x0 ∷ 0x0 ∷ 0x0 ∷ 0xff
    ∷ 0x80 ∷ 0x0 ∷ 0x0 ∷ 0x3f ∷ 0xe0 ∷ 0x0 ∷ 0x0 ∷ 0xf ∷ 0xf8 ∷ 0x0 ∷ 0x0 ∷ 0x3 ∷ 0xfe ∷ 0x0 ∷ 0x0
    ∷ 0x0 ∷ 0xff ∷ 0x80 ∷ 0x0 ∷ 0x0 ∷ 0x3f ∷ 0xe0 ∷ 0x0 ∷ 0x0 ∷ 0xf ∷ 0xf8 ∷ 0x0 ∷ 0x0 ∷ 0x3 ∷ 0xfe
    ∷ 0x0 ∷ 0x0 ∷ 0x0 ∷ 0xff ∷ 0x80 ∷ 0x0 ∷ 0x0 ∷ 0x3f ∷ 0xe0 ∷ 0x0 ∷ 0x0 ∷ 0xf ∷ 0xff ∷ 0xff ∷ 0xff
    ∷ 0xfb ∷ 0xff ∷ 0xff ∷ 0xff ∷ 0xfe ∷ 0xff ∷ 0xff ∷ 0xff ∷ 0xff ∷ 0xbf ∷ 0xff ∷ 0xff ∷ 0xff
    ∷ 0xe0 ∷ []

unfoldable pub u_0046 : List ℕ
u_0046 =
    0xff ∷ 0xff ∷ 0xff ∷ 0xff ∷ 0xbf ∷ 0xff ∷ 0xff ∷ 0xff ∷ 0xef ∷ 0xff ∷ 0xff ∷ 0xff ∷ 0xfb ∷ 0xff
    ∷ 0xff ∷ 0xff ∷ 0xfe ∷ 0xff ∷ 0x80 ∷ 0x0 ∷ 0x0 ∷ 0x3f ∷ 0xe0 ∷ 0x0 ∷ 0x0 ∷ 0xf ∷ 0xf8 ∷ 0x0
    ∷ 0x0 ∷ 0x3 ∷ 0xfe ∷ 0x0 ∷ 0x0 ∷ 0x0 ∷ 0xff ∷ 0x80 ∷ 0x0 ∷ 0x0 ∷ 0x3f ∷ 0xe0 ∷ 0x0 ∷ 0x0 ∷ 0xf
    ∷ 0xf8 ∷ 0x0 ∷ 0x0 ∷ 0x3 ∷ 0xfe ∷ 0x0 ∷ 0x0 ∷ 0x0 ∷ 0xff ∷ 0x80 ∷ 0x0 ∷ 0x0 ∷ 0x3f ∷ 0xe0 ∷ 0x0
    ∷ 0x0 ∷ 0xf ∷ 0xf8 ∷ 0x0 ∷ 0x0 ∷ 0x3 ∷ 0xfe ∷ 0x0 ∷ 0x0 ∷ 0x0 ∷ 0xff ∷ 0xff ∷ 0xff ∷ 0xff ∷ 0x3f
    ∷ 0xff ∷ 0xff ∷ 0xff ∷ 0xcf ∷ 0xff ∷ 0xff ∷ 0xff ∷ 0xf3 ∷ 0xff ∷ 0xff ∷ 0xff ∷ 0xfc ∷ 0xff
    ∷ 0x80 ∷ 0x0 ∷ 0x0 ∷ 0x3f ∷ 0xe0 ∷ 0x0 ∷ 0x0 ∷ 0xf ∷ 0xf8 ∷ 0x0 ∷ 0x0 ∷ 0x3 ∷ 0xfe ∷ 0x0 ∷ 0x0
    ∷ 0x0 ∷ 0xff ∷ 0x80 ∷ 0x0 ∷ 0x0 ∷ 0x3f ∷ 0xe0 ∷ 0x0 ∷ 0x0 ∷ 0xf ∷ 0xf8 ∷ 0x0 ∷ 0x0 ∷ 0x3 ∷ 0xfe
    ∷ 0x0 ∷ 0x0 ∷ 0x0 ∷ 0xff ∷ 0x80 ∷ 0x0 ∷ 0x0 ∷ 0x3f ∷ 0xe0 ∷ 0x0 ∷ 0x0 ∷ 0xf ∷ 0xf8 ∷ 0x0 ∷ 0x0
    ∷ 0x3 ∷ 0xfe ∷ 0x0 ∷ 0x0 ∷ 0x0 ∷ 0xff ∷ 0x80 ∷ 0x0 ∷ 0x0 ∷ 0x3f ∷ 0xe0 ∷ 0x0 ∷ 0x0 ∷ 0x0 ∷ []

unfoldable pub u_0047 : List ℕ
u_0047 =
    0x0 ∷ 0x0 ∷ 0x0 ∷ 0x15 ∷ 0x54 ∷ 0x0 ∷ 0x0 ∷ 0x0 ∷ 0x1 ∷ 0xbf ∷ 0xff ∷ 0xff ∷ 0x80 ∷ 0x0 ∷ 0x0
    ∷ 0xff ∷ 0xff ∷ 0xff ∷ 0xff ∷ 0x80 ∷ 0x0 ∷ 0xbf ∷ 0xff ∷ 0xff ∷ 0xff ∷ 0xf8 ∷ 0x0 ∷ 0x2f ∷ 0xff
    ∷ 0xfa ∷ 0xab ∷ 0xff ∷ 0x40 ∷ 0xb ∷ 0xff ∷ 0xd0 ∷ 0x0 ∷ 0x1 ∷ 0xf0 ∷ 0x1 ∷ 0xff ∷ 0xe0 ∷ 0x0
    ∷ 0x0 ∷ 0x0 ∷ 0x0 ∷ 0x3f ∷ 0xf8 ∷ 0x0 ∷ 0x0 ∷ 0x0 ∷ 0x0 ∷ 0xb ∷ 0xff ∷ 0x0 ∷ 0x0 ∷ 0x0 ∷ 0x0
    ∷ 0x0 ∷ 0xff ∷ 0xc0 ∷ 0x0 ∷ 0x0 ∷ 0x0 ∷ 0x0 ∷ 0x1f ∷ 0xfc ∷ 0x0 ∷ 0x0 ∷ 0x0 ∷ 0x0 ∷ 0x2 ∷ 0xff
    ∷ 0x40 ∷ 0x0 ∷ 0x0 ∷ 0x0 ∷ 0x0 ∷ 0x3f ∷ 0xf0 ∷ 0x0 ∷ 0x0 ∷ 0x0 ∷ 0x0 ∷ 0x3 ∷ 0xff ∷ 0x0 ∷ 0x0
    ∷ 0x0 ∷ 0x0 ∷ 0x0 ∷ 0x3f ∷ 0xe0 ∷ 0x0 ∷ 0x0 ∷ 0x0 ∷ 0x0 ∷ 0x7 ∷ 0xfe ∷ 0x0 ∷ 0x0 ∷ 0x0 ∷ 0x0
    ∷ 0x0 ∷ 0x7f ∷ 0xd0 ∷ 0x0 ∷ 0x7 ∷ 0xff ∷ 0xff ∷ 0xe7 ∷ 0xfd ∷ 0x0 ∷ 0x0 ∷ 0x7f ∷ 0xff ∷ 0xfe
    ∷ 0x7f ∷ 0xd0 ∷ 0x0 ∷ 0x7 ∷ 0xff ∷ 0xff ∷ 0xe7 ∷ 0xfd ∷ 0x0 ∷ 0x0 ∷ 0x7f ∷ 0xff ∷ 0xfe ∷ 0x7f
    ∷ 0xe0 ∷ 0x0 ∷ 0x0 ∷ 0x0 ∷ 0x3f ∷ 0xe3 ∷ 0xfe ∷ 0x0 ∷ 0x0 ∷ 0x0 ∷ 0x3 ∷ 0xfe ∷ 0x3f ∷ 0xf0 ∷ 0x0
    ∷ 0x0 ∷ 0x0 ∷ 0x3f ∷ 0xe3 ∷ 0xff ∷ 0x0 ∷ 0x0 ∷ 0x0 ∷ 0x3 ∷ 0xfe ∷ 0x2f ∷ 0xf4 ∷ 0x0 ∷ 0x0 ∷ 0x0
    ∷ 0x3f ∷ 0xe1 ∷ 0xff ∷ 0xc0 ∷ 0x0 ∷ 0x0 ∷ 0x3 ∷ 0xfe ∷ 0xf ∷ 0xfd ∷ 0x0 ∷ 0x0 ∷ 0x0 ∷ 0x3f
    ∷ 0xe0 ∷ 0x7f ∷ 0xf0 ∷ 0x0 ∷ 0x0 ∷ 0x3 ∷ 0xfe ∷ 0x3 ∷ 0xff ∷ 0xc0 ∷ 0x0 ∷ 0x0 ∷ 0x3f ∷ 0xe0
    ∷ 0x1f ∷ 0xff ∷ 0x0 ∷ 0x0 ∷ 0x3 ∷ 0xfe ∷ 0x0 ∷ 0xbf ∷ 0xfe ∷ 0x40 ∷ 0x1 ∷ 0xbf ∷ 0xe0 ∷ 0x2
    ∷ 0xff ∷ 0xff ∷ 0xff ∷ 0xff ∷ 0xfe ∷ 0x0 ∷ 0x7 ∷ 0xff ∷ 0xff ∷ 0xff ∷ 0xff ∷ 0xe0 ∷ 0x0 ∷ 0xb
    ∷ 0xff ∷ 0xff ∷ 0xff ∷ 0xf8 ∷ 0x0 ∷ 0x0 ∷ 0x6 ∷ 0xff ∷ 0xfe ∷ 0x90 ∷ 0x0 ∷ []

unfoldable pub u_0048 : List ℕ
u_0048 =
    0xff ∷ 0x80 ∷ 0x0 ∷ 0x0 ∷ 0xf ∷ 0xff ∷ 0xfe ∷ 0x0 ∷ 0x0 ∷ 0x0 ∷ 0x3f ∷ 0xff ∷ 0xf8 ∷ 0x0 ∷ 0x0
    ∷ 0x0 ∷ 0xff ∷ 0xff ∷ 0xe0 ∷ 0x0 ∷ 0x0 ∷ 0x3 ∷ 0xff ∷ 0xff ∷ 0x80 ∷ 0x0 ∷ 0x0 ∷ 0xf ∷ 0xff
    ∷ 0xfe ∷ 0x0 ∷ 0x0 ∷ 0x0 ∷ 0x3f ∷ 0xff ∷ 0xf8 ∷ 0x0 ∷ 0x0 ∷ 0x0 ∷ 0xff ∷ 0xff ∷ 0xe0 ∷ 0x0 ∷ 0x0
    ∷ 0x3 ∷ 0xff ∷ 0xff ∷ 0x80 ∷ 0x0 ∷ 0x0 ∷ 0xf ∷ 0xff ∷ 0xfe ∷ 0x0 ∷ 0x0 ∷ 0x0 ∷ 0x3f ∷ 0xff
    ∷ 0xf8 ∷ 0x0 ∷ 0x0 ∷ 0x0 ∷ 0xff ∷ 0xff ∷ 0xe0 ∷ 0x0 ∷ 0x0 ∷ 0x3 ∷ 0xff ∷ 0xff ∷ 0x80 ∷ 0x0 ∷ 0x0
    ∷ 0xf ∷ 0xff ∷ 0xfe ∷ 0x0 ∷ 0x0 ∷ 0x0 ∷ 0x3f ∷ 0xff ∷ 0xff ∷ 0xff ∷ 0xff ∷ 0xff ∷ 0xff ∷ 0xff
    ∷ 0xff ∷ 0xff ∷ 0xff ∷ 0xff ∷ 0xff ∷ 0xff ∷ 0xff ∷ 0xff ∷ 0xff ∷ 0xff ∷ 0xff ∷ 0xff ∷ 0xff
    ∷ 0xff ∷ 0xff ∷ 0xff ∷ 0xff ∷ 0xf8 ∷ 0x0 ∷ 0x0 ∷ 0x0 ∷ 0xff ∷ 0xff ∷ 0xe0 ∷ 0x0 ∷ 0x0 ∷ 0x3
    ∷ 0xff ∷ 0xff ∷ 0x80 ∷ 0x0 ∷ 0x0 ∷ 0xf ∷ 0xff ∷ 0xfe ∷ 0x0 ∷ 0x0 ∷ 0x0 ∷ 0x3f ∷ 0xff ∷ 0xf8
    ∷ 0x0 ∷ 0x0 ∷ 0x0 ∷ 0xff ∷ 0xff ∷ 0xe0 ∷ 0x0 ∷ 0x0 ∷ 0x3 ∷ 0xff ∷ 0xff ∷ 0x80 ∷ 0x0 ∷ 0x0 ∷ 0xf
    ∷ 0xff ∷ 0xfe ∷ 0x0 ∷ 0x0 ∷ 0x0 ∷ 0x3f ∷ 0xff ∷ 0xf8 ∷ 0x0 ∷ 0x0 ∷ 0x0 ∷ 0xff ∷ 0xff ∷ 0xe0
    ∷ 0x0 ∷ 0x0 ∷ 0x3 ∷ 0xff ∷ 0xff ∷ 0x80 ∷ 0x0 ∷ 0x0 ∷ 0xf ∷ 0xff ∷ 0xfe ∷ 0x0 ∷ 0x0 ∷ 0x0 ∷ 0x3f
    ∷ 0xff ∷ 0xf8 ∷ 0x0 ∷ 0x0 ∷ 0x0 ∷ 0xff ∷ 0xff ∷ 0xe0 ∷ 0x0 ∷ 0x0 ∷ 0x3 ∷ 0xff ∷ 0xff ∷ 0x80
    ∷ 0x0 ∷ 0x0 ∷ 0xf ∷ 0xff ∷ 0xfe ∷ 0x0 ∷ 0x0 ∷ 0x0 ∷ 0x3f ∷ 0xf0 ∷ []

unfoldable pub u_0049 : List ℕ
u_0049 =
    0xff ∷ 0xbf ∷ 0xef ∷ 0xfb ∷ 0xfe ∷ 0xff ∷ 0xbf ∷ 0xef ∷ 0xfb ∷ 0xfe ∷ 0xff ∷ 0xbf ∷ 0xef ∷ 0xfb
    ∷ 0xfe ∷ 0xff ∷ 0xbf ∷ 0xef ∷ 0xfb ∷ 0xfe ∷ 0xff ∷ 0xbf ∷ 0xef ∷ 0xfb ∷ 0xfe ∷ 0xff ∷ 0xbf
    ∷ 0xef ∷ 0xfb ∷ 0xfe ∷ 0xff ∷ 0xbf ∷ 0xef ∷ 0xfb ∷ 0xfe ∷ 0xff ∷ 0xbf ∷ 0xef ∷ 0xfb ∷ 0xfe
    ∷ 0xff ∷ 0xbf ∷ 0xe0 ∷ []

unfoldable pub u_004a : List ℕ
u_004a =
    0x0 ∷ 0x0 ∷ 0xff ∷ 0x80 ∷ 0x0 ∷ 0x3f ∷ 0xe0 ∷ 0x0 ∷ 0xf ∷ 0xf8 ∷ 0x0 ∷ 0x3 ∷ 0xfe ∷ 0x0 ∷ 0x0
    ∷ 0xff ∷ 0x80 ∷ 0x0 ∷ 0x3f ∷ 0xe0 ∷ 0x0 ∷ 0xf ∷ 0xf8 ∷ 0x0 ∷ 0x3 ∷ 0xfe ∷ 0x0 ∷ 0x0 ∷ 0xff
    ∷ 0x80 ∷ 0x0 ∷ 0x3f ∷ 0xe0 ∷ 0x0 ∷ 0xf ∷ 0xf8 ∷ 0x0 ∷ 0x3 ∷ 0xfe ∷ 0x0 ∷ 0x0 ∷ 0xff ∷ 0x80 ∷ 0x0
    ∷ 0x3f ∷ 0xe0 ∷ 0x0 ∷ 0xf ∷ 0xf8 ∷ 0x0 ∷ 0x3 ∷ 0xfe ∷ 0x0 ∷ 0x0 ∷ 0xff ∷ 0x80 ∷ 0x0 ∷ 0x3f
    ∷ 0xe0 ∷ 0x0 ∷ 0xf ∷ 0xf8 ∷ 0x0 ∷ 0x3 ∷ 0xfe ∷ 0x0 ∷ 0x0 ∷ 0xff ∷ 0x80 ∷ 0x0 ∷ 0x3f ∷ 0xe0 ∷ 0x0
    ∷ 0xf ∷ 0xf8 ∷ 0x0 ∷ 0x3 ∷ 0xfe ∷ 0x0 ∷ 0x0 ∷ 0xff ∷ 0x80 ∷ 0x0 ∷ 0x3f ∷ 0xe0 ∷ 0x0 ∷ 0xf ∷ 0xf8
    ∷ 0x0 ∷ 0x3 ∷ 0xfe ∷ 0x0 ∷ 0x0 ∷ 0xff ∷ 0x80 ∷ 0x0 ∷ 0x3f ∷ 0xe0 ∷ 0x0 ∷ 0xf ∷ 0xf8 ∷ 0x0 ∷ 0x3
    ∷ 0xfe ∷ 0x0 ∷ 0x0 ∷ 0xff ∷ 0x80 ∷ 0x0 ∷ 0x3f ∷ 0xe0 ∷ 0x0 ∷ 0xf ∷ 0xf4 ∷ 0x0 ∷ 0x7 ∷ 0xfd ∷ 0x0
    ∷ 0x2 ∷ 0xff ∷ 0x0 ∷ 0x0 ∷ 0xff ∷ 0xc1 ∷ 0x1 ∷ 0xff ∷ 0xe0 ∷ 0xff ∷ 0xff ∷ 0xf0 ∷ 0x3f ∷ 0xff
    ∷ 0xf8 ∷ 0xf ∷ 0xff ∷ 0xf4 ∷ 0x2 ∷ 0xff ∷ 0xe0 ∷ 0x0 ∷ []

unfoldable pub u_004b : List ℕ
u_004b =
    0xff ∷ 0x80 ∷ 0x0 ∷ 0x0 ∷ 0xff ∷ 0xd3 ∷ 0xfe ∷ 0x0 ∷ 0x0 ∷ 0xb ∷ 0xfe ∷ 0xf ∷ 0xf8 ∷ 0x0 ∷ 0x0
    ∷ 0x3f ∷ 0xf0 ∷ 0x3f ∷ 0xe0 ∷ 0x0 ∷ 0x3 ∷ 0xff ∷ 0x0 ∷ 0xff ∷ 0x80 ∷ 0x0 ∷ 0x2f ∷ 0xf4 ∷ 0x3
    ∷ 0xfe ∷ 0x0 ∷ 0x1 ∷ 0xff ∷ 0x80 ∷ 0xf ∷ 0xf8 ∷ 0x0 ∷ 0xf ∷ 0xfc ∷ 0x0 ∷ 0x3f ∷ 0xe0 ∷ 0x0
    ∷ 0xff ∷ 0xd0 ∷ 0x0 ∷ 0xff ∷ 0x80 ∷ 0xb ∷ 0xfe ∷ 0x0 ∷ 0x3 ∷ 0xfe ∷ 0x0 ∷ 0x3f ∷ 0xf0 ∷ 0x0
    ∷ 0xf ∷ 0xf8 ∷ 0x3 ∷ 0xff ∷ 0x0 ∷ 0x0 ∷ 0x3f ∷ 0xe0 ∷ 0x2f ∷ 0xf4 ∷ 0x0 ∷ 0x0 ∷ 0xff ∷ 0x81
    ∷ 0xff ∷ 0x80 ∷ 0x0 ∷ 0x3 ∷ 0xfe ∷ 0xf ∷ 0xfc ∷ 0x0 ∷ 0x0 ∷ 0xf ∷ 0xf8 ∷ 0xff ∷ 0xc0 ∷ 0x0 ∷ 0x0
    ∷ 0x3f ∷ 0xeb ∷ 0xff ∷ 0x0 ∷ 0x0 ∷ 0x0 ∷ 0xff ∷ 0xff ∷ 0xff ∷ 0x0 ∷ 0x0 ∷ 0x3 ∷ 0xff ∷ 0xff
    ∷ 0xfd ∷ 0x0 ∷ 0x0 ∷ 0xf ∷ 0xff ∷ 0xef ∷ 0xfc ∷ 0x0 ∷ 0x0 ∷ 0x3f ∷ 0xfd ∷ 0x2f ∷ 0xf8 ∷ 0x0
    ∷ 0x0 ∷ 0xff ∷ 0xd0 ∷ 0x3f ∷ 0xf0 ∷ 0x0 ∷ 0x3 ∷ 0xfe ∷ 0x0 ∷ 0xbf ∷ 0xe0 ∷ 0x0 ∷ 0xf ∷ 0xf8
    ∷ 0x0 ∷ 0xff ∷ 0xd0 ∷ 0x0 ∷ 0x3f ∷ 0xe0 ∷ 0x1 ∷ 0xff ∷ 0xc0 ∷ 0x0 ∷ 0xff ∷ 0x80 ∷ 0x3 ∷ 0xff
    ∷ 0x40 ∷ 0x3 ∷ 0xfe ∷ 0x0 ∷ 0x3 ∷ 0xff ∷ 0x0 ∷ 0xf ∷ 0xf8 ∷ 0x0 ∷ 0xb ∷ 0xfe ∷ 0x0 ∷ 0x3f ∷ 0xe0
    ∷ 0x0 ∷ 0xf ∷ 0xfd ∷ 0x0 ∷ 0xff ∷ 0x80 ∷ 0x0 ∷ 0x1f ∷ 0xfc ∷ 0x3 ∷ 0xfe ∷ 0x0 ∷ 0x0 ∷ 0x3f
    ∷ 0xf4 ∷ 0xf ∷ 0xf8 ∷ 0x0 ∷ 0x0 ∷ 0x3f ∷ 0xf0 ∷ 0x3f ∷ 0xe0 ∷ 0x0 ∷ 0x0 ∷ 0xbf ∷ 0xe0 ∷ 0xff
    ∷ 0x80 ∷ 0x0 ∷ 0x0 ∷ 0xff ∷ 0xc3 ∷ 0xfe ∷ 0x0 ∷ 0x0 ∷ 0x1 ∷ 0xff ∷ 0xc0 ∷ []

unfoldable pub u_004c : List ℕ
u_004c =
    0xff ∷ 0x80 ∷ 0x0 ∷ 0x0 ∷ 0x3f ∷ 0xe0 ∷ 0x0 ∷ 0x0 ∷ 0xf ∷ 0xf8 ∷ 0x0 ∷ 0x0 ∷ 0x3 ∷ 0xfe ∷ 0x0
    ∷ 0x0 ∷ 0x0 ∷ 0xff ∷ 0x80 ∷ 0x0 ∷ 0x0 ∷ 0x3f ∷ 0xe0 ∷ 0x0 ∷ 0x0 ∷ 0xf ∷ 0xf8 ∷ 0x0 ∷ 0x0 ∷ 0x3
    ∷ 0xfe ∷ 0x0 ∷ 0x0 ∷ 0x0 ∷ 0xff ∷ 0x80 ∷ 0x0 ∷ 0x0 ∷ 0x3f ∷ 0xe0 ∷ 0x0 ∷ 0x0 ∷ 0xf ∷ 0xf8 ∷ 0x0
    ∷ 0x0 ∷ 0x3 ∷ 0xfe ∷ 0x0 ∷ 0x0 ∷ 0x0 ∷ 0xff ∷ 0x80 ∷ 0x0 ∷ 0x0 ∷ 0x3f ∷ 0xe0 ∷ 0x0 ∷ 0x0 ∷ 0xf
    ∷ 0xf8 ∷ 0x0 ∷ 0x0 ∷ 0x3 ∷ 0xfe ∷ 0x0 ∷ 0x0 ∷ 0x0 ∷ 0xff ∷ 0x80 ∷ 0x0 ∷ 0x0 ∷ 0x3f ∷ 0xe0 ∷ 0x0
    ∷ 0x0 ∷ 0xf ∷ 0xf8 ∷ 0x0 ∷ 0x0 ∷ 0x3 ∷ 0xfe ∷ 0x0 ∷ 0x0 ∷ 0x0 ∷ 0xff ∷ 0x80 ∷ 0x0 ∷ 0x0 ∷ 0x3f
    ∷ 0xe0 ∷ 0x0 ∷ 0x0 ∷ 0xf ∷ 0xf8 ∷ 0x0 ∷ 0x0 ∷ 0x3 ∷ 0xfe ∷ 0x0 ∷ 0x0 ∷ 0x0 ∷ 0xff ∷ 0x80 ∷ 0x0
    ∷ 0x0 ∷ 0x3f ∷ 0xe0 ∷ 0x0 ∷ 0x0 ∷ 0xf ∷ 0xf8 ∷ 0x0 ∷ 0x0 ∷ 0x3 ∷ 0xfe ∷ 0x0 ∷ 0x0 ∷ 0x0 ∷ 0xff
    ∷ 0x80 ∷ 0x0 ∷ 0x0 ∷ 0x3f ∷ 0xe0 ∷ 0x0 ∷ 0x0 ∷ 0xf ∷ 0xff ∷ 0xff ∷ 0xff ∷ 0xff ∷ 0xff ∷ 0xff
    ∷ 0xff ∷ 0xff ∷ 0xff ∷ 0xff ∷ 0xff ∷ 0xff ∷ 0xff ∷ 0xff ∷ 0xff ∷ 0xff ∷ 0xf0 ∷ []

unfoldable pub u_004d : List ℕ
u_004d =
    0xff ∷ 0xf8 ∷ 0x0 ∷ 0x0 ∷ 0x0 ∷ 0x0 ∷ 0x7f ∷ 0xfd ∷ 0xff ∷ 0xfc ∷ 0x0 ∷ 0x0 ∷ 0x0 ∷ 0x0 ∷ 0xff
    ∷ 0xfd ∷ 0xff ∷ 0xfd ∷ 0x0 ∷ 0x0 ∷ 0x0 ∷ 0x0 ∷ 0xff ∷ 0xfd ∷ 0xff ∷ 0xfe ∷ 0x0 ∷ 0x0 ∷ 0x0 ∷ 0x1
    ∷ 0xff ∷ 0xfd ∷ 0xff ∷ 0xff ∷ 0x0 ∷ 0x0 ∷ 0x0 ∷ 0x3 ∷ 0xff ∷ 0xfd ∷ 0xff ∷ 0xff ∷ 0x40 ∷ 0x0
    ∷ 0x0 ∷ 0x3 ∷ 0xff ∷ 0xfd ∷ 0xff ∷ 0xbf ∷ 0x80 ∷ 0x0 ∷ 0x0 ∷ 0x7 ∷ 0xfb ∷ 0xfd ∷ 0xff ∷ 0x7f
    ∷ 0xc0 ∷ 0x0 ∷ 0x0 ∷ 0xf ∷ 0xf7 ∷ 0xfd ∷ 0xff ∷ 0x3f ∷ 0xd0 ∷ 0x0 ∷ 0x0 ∷ 0xf ∷ 0xf3 ∷ 0xfd
    ∷ 0xff ∷ 0x1f ∷ 0xe0 ∷ 0x0 ∷ 0x0 ∷ 0x1f ∷ 0xe3 ∷ 0xfd ∷ 0xff ∷ 0x4f ∷ 0xf0 ∷ 0x0 ∷ 0x0 ∷ 0x2f
    ∷ 0xc3 ∷ 0xfd ∷ 0xff ∷ 0x4f ∷ 0xf4 ∷ 0x0 ∷ 0x0 ∷ 0x3f ∷ 0xc3 ∷ 0xfd ∷ 0xff ∷ 0x4b ∷ 0xf8 ∷ 0x0
    ∷ 0x0 ∷ 0x7f ∷ 0x83 ∷ 0xfd ∷ 0xff ∷ 0x43 ∷ 0xfc ∷ 0x0 ∷ 0x0 ∷ 0xbf ∷ 0x43 ∷ 0xfd ∷ 0xff ∷ 0x43
    ∷ 0xfd ∷ 0x0 ∷ 0x0 ∷ 0xff ∷ 0x3 ∷ 0xfd ∷ 0xff ∷ 0x42 ∷ 0xfe ∷ 0x0 ∷ 0x1 ∷ 0xfe ∷ 0x3 ∷ 0xfd
    ∷ 0xff ∷ 0x40 ∷ 0xff ∷ 0x0 ∷ 0x2 ∷ 0xfd ∷ 0x3 ∷ 0xfd ∷ 0xff ∷ 0x40 ∷ 0xff ∷ 0x40 ∷ 0x3 ∷ 0xfc
    ∷ 0x3 ∷ 0xfd ∷ 0xff ∷ 0x40 ∷ 0xbf ∷ 0x80 ∷ 0x7 ∷ 0xf8 ∷ 0x3 ∷ 0xfd ∷ 0xff ∷ 0x40 ∷ 0x3f ∷ 0xc0
    ∷ 0xb ∷ 0xf4 ∷ 0x3 ∷ 0xfd ∷ 0xff ∷ 0x40 ∷ 0x3f ∷ 0xd0 ∷ 0xf ∷ 0xf0 ∷ 0x3 ∷ 0xfd ∷ 0xff ∷ 0x40
    ∷ 0x2f ∷ 0xe0 ∷ 0x1f ∷ 0xe0 ∷ 0x3 ∷ 0xfd ∷ 0xff ∷ 0x40 ∷ 0x1f ∷ 0xf0 ∷ 0x2f ∷ 0xd0 ∷ 0x3 ∷ 0xfd
    ∷ 0xff ∷ 0x40 ∷ 0xf ∷ 0xf4 ∷ 0x3f ∷ 0xc0 ∷ 0x3 ∷ 0xfd ∷ 0xff ∷ 0x40 ∷ 0xb ∷ 0xf8 ∷ 0x7f ∷ 0x80
    ∷ 0x3 ∷ 0xfd ∷ 0xff ∷ 0x40 ∷ 0x7 ∷ 0xfc ∷ 0xbf ∷ 0x40 ∷ 0x3 ∷ 0xfd ∷ 0xff ∷ 0x40 ∷ 0x3 ∷ 0xfd
    ∷ 0xff ∷ 0x0 ∷ 0x3 ∷ 0xfd ∷ 0xff ∷ 0x40 ∷ 0x2 ∷ 0xff ∷ 0xfe ∷ 0x0 ∷ 0x3 ∷ 0xfd ∷ 0xff ∷ 0x40
    ∷ 0x1 ∷ 0xff ∷ 0xfd ∷ 0x0 ∷ 0x3 ∷ 0xfd ∷ 0xff ∷ 0x40 ∷ 0x0 ∷ 0xff ∷ 0xfc ∷ 0x0 ∷ 0x3 ∷ 0xfd
    ∷ 0xff ∷ 0x40 ∷ 0x0 ∷ 0xbf ∷ 0xf8 ∷ 0x0 ∷ 0x3 ∷ 0xfd ∷ 0xff ∷ 0x40 ∷ 0x0 ∷ 0x7f ∷ 0xf4 ∷ 0x0
    ∷ 0x3 ∷ 0xfd ∷ 0xff ∷ 0x40 ∷ 0x0 ∷ 0x3f ∷ 0xf0 ∷ 0x0 ∷ 0x3 ∷ 0xfd ∷ 0xff ∷ 0x40 ∷ 0x0 ∷ 0x2f
    ∷ 0xe0 ∷ 0x0 ∷ 0x3 ∷ 0xfd ∷ []

unfoldable pub u_004e : List ℕ
u_004e =
    0xff ∷ 0xf0 ∷ 0x0 ∷ 0x0 ∷ 0x0 ∷ 0xff ∷ 0x7f ∷ 0xfd ∷ 0x0 ∷ 0x0 ∷ 0x0 ∷ 0x3f ∷ 0xdf ∷ 0xff ∷ 0xc0
    ∷ 0x0 ∷ 0x0 ∷ 0xf ∷ 0xf7 ∷ 0xff ∷ 0xf4 ∷ 0x0 ∷ 0x0 ∷ 0x3 ∷ 0xfd ∷ 0xff ∷ 0xff ∷ 0x0 ∷ 0x0 ∷ 0x0
    ∷ 0xff ∷ 0x7f ∷ 0xff ∷ 0xd0 ∷ 0x0 ∷ 0x0 ∷ 0x3f ∷ 0xdf ∷ 0xff ∷ 0xfc ∷ 0x0 ∷ 0x0 ∷ 0xf ∷ 0xf7
    ∷ 0xfd ∷ 0xff ∷ 0x80 ∷ 0x0 ∷ 0x3 ∷ 0xfd ∷ 0xff ∷ 0x3f ∷ 0xf0 ∷ 0x0 ∷ 0x0 ∷ 0xff ∷ 0x7f ∷ 0xc7
    ∷ 0xfe ∷ 0x0 ∷ 0x0 ∷ 0x3f ∷ 0xdf ∷ 0xf0 ∷ 0xff ∷ 0xc0 ∷ 0x0 ∷ 0xf ∷ 0xf7 ∷ 0xfc ∷ 0xf ∷ 0xf8
    ∷ 0x0 ∷ 0x3 ∷ 0xfd ∷ 0xff ∷ 0x42 ∷ 0xff ∷ 0x0 ∷ 0x0 ∷ 0xff ∷ 0x7f ∷ 0xd0 ∷ 0x3f ∷ 0xf0 ∷ 0x0
    ∷ 0x3f ∷ 0xdf ∷ 0xf4 ∷ 0xb ∷ 0xfd ∷ 0x0 ∷ 0xf ∷ 0xf7 ∷ 0xfd ∷ 0x0 ∷ 0xff ∷ 0xc0 ∷ 0x3 ∷ 0xfd
    ∷ 0xff ∷ 0x40 ∷ 0x2f ∷ 0xf4 ∷ 0x0 ∷ 0xff ∷ 0x7f ∷ 0xd0 ∷ 0x3 ∷ 0xff ∷ 0x0 ∷ 0x3f ∷ 0xdf ∷ 0xf4
    ∷ 0x0 ∷ 0x7f ∷ 0xd0 ∷ 0xf ∷ 0xf7 ∷ 0xfd ∷ 0x0 ∷ 0xf ∷ 0xfc ∷ 0x3 ∷ 0xfd ∷ 0xff ∷ 0x40 ∷ 0x1
    ∷ 0xff ∷ 0x80 ∷ 0xff ∷ 0x7f ∷ 0xd0 ∷ 0x0 ∷ 0x3f ∷ 0xf0 ∷ 0x3f ∷ 0xdf ∷ 0xf4 ∷ 0x0 ∷ 0x7 ∷ 0xfe
    ∷ 0xf ∷ 0xf7 ∷ 0xfd ∷ 0x0 ∷ 0x0 ∷ 0xff ∷ 0xc3 ∷ 0xfd ∷ 0xff ∷ 0x40 ∷ 0x0 ∷ 0x1f ∷ 0xf8 ∷ 0xff
    ∷ 0x7f ∷ 0xd0 ∷ 0x0 ∷ 0x3 ∷ 0xff ∷ 0x3f ∷ 0xdf ∷ 0xf4 ∷ 0x0 ∷ 0x0 ∷ 0x3f ∷ 0xff ∷ 0xf7 ∷ 0xfd
    ∷ 0x0 ∷ 0x0 ∷ 0xb ∷ 0xff ∷ 0xfd ∷ 0xff ∷ 0x40 ∷ 0x0 ∷ 0x0 ∷ 0xff ∷ 0xff ∷ 0x7f ∷ 0xd0 ∷ 0x0
    ∷ 0x0 ∷ 0x2f ∷ 0xff ∷ 0xdf ∷ 0xf4 ∷ 0x0 ∷ 0x0 ∷ 0x3 ∷ 0xff ∷ 0xf7 ∷ 0xfd ∷ 0x0 ∷ 0x0 ∷ 0x0
    ∷ 0xbf ∷ 0xfd ∷ 0xff ∷ 0x40 ∷ 0x0 ∷ 0x0 ∷ 0xf ∷ 0xff ∷ 0x7f ∷ 0xd0 ∷ 0x0 ∷ 0x0 ∷ 0x2 ∷ 0xff
    ∷ 0xd0 ∷ []

unfoldable pub u_004f : List ℕ
u_004f =
    0x0 ∷ 0x0 ∷ 0x1 ∷ 0x55 ∷ 0x40 ∷ 0x0 ∷ 0x0 ∷ 0x0 ∷ 0x0 ∷ 0x7f ∷ 0xff ∷ 0xfe ∷ 0x0 ∷ 0x0 ∷ 0x0
    ∷ 0x7 ∷ 0xff ∷ 0xff ∷ 0xff ∷ 0xd0 ∷ 0x0 ∷ 0x0 ∷ 0x2f ∷ 0xff ∷ 0xff ∷ 0xff ∷ 0xf8 ∷ 0x0 ∷ 0x0
    ∷ 0xbf ∷ 0xff ∷ 0xaa ∷ 0xff ∷ 0xfe ∷ 0x0 ∷ 0x1 ∷ 0xff ∷ 0xf4 ∷ 0x0 ∷ 0xb ∷ 0xff ∷ 0x40 ∷ 0x3
    ∷ 0xff ∷ 0x80 ∷ 0x0 ∷ 0x2 ∷ 0xff ∷ 0xc0 ∷ 0x7 ∷ 0xff ∷ 0x0 ∷ 0x0 ∷ 0x0 ∷ 0xbf ∷ 0xe0 ∷ 0xf
    ∷ 0xfd ∷ 0x0 ∷ 0x0 ∷ 0x0 ∷ 0x3f ∷ 0xf0 ∷ 0x1f ∷ 0xfc ∷ 0x0 ∷ 0x0 ∷ 0x0 ∷ 0x2f ∷ 0xf4 ∷ 0x2f
    ∷ 0xf4 ∷ 0x0 ∷ 0x0 ∷ 0x0 ∷ 0xf ∷ 0xf8 ∷ 0x3f ∷ 0xf0 ∷ 0x0 ∷ 0x0 ∷ 0x0 ∷ 0xf ∷ 0xfc ∷ 0x3f ∷ 0xf0
    ∷ 0x0 ∷ 0x0 ∷ 0x0 ∷ 0xb ∷ 0xfc ∷ 0x3f ∷ 0xe0 ∷ 0x0 ∷ 0x0 ∷ 0x0 ∷ 0xb ∷ 0xfd ∷ 0x3f ∷ 0xe0 ∷ 0x0
    ∷ 0x0 ∷ 0x0 ∷ 0x7 ∷ 0xfd ∷ 0x7f ∷ 0xe0 ∷ 0x0 ∷ 0x0 ∷ 0x0 ∷ 0x7 ∷ 0xfd ∷ 0x7f ∷ 0xd0 ∷ 0x0 ∷ 0x0
    ∷ 0x0 ∷ 0x7 ∷ 0xfe ∷ 0x7f ∷ 0xd0 ∷ 0x0 ∷ 0x0 ∷ 0x0 ∷ 0x7 ∷ 0xfe ∷ 0x7f ∷ 0xd0 ∷ 0x0 ∷ 0x0 ∷ 0x0
    ∷ 0x7 ∷ 0xfe ∷ 0x7f ∷ 0xd0 ∷ 0x0 ∷ 0x0 ∷ 0x0 ∷ 0x7 ∷ 0xfe ∷ 0x7f ∷ 0xe0 ∷ 0x0 ∷ 0x0 ∷ 0x0 ∷ 0x7
    ∷ 0xfd ∷ 0x3f ∷ 0xe0 ∷ 0x0 ∷ 0x0 ∷ 0x0 ∷ 0xb ∷ 0xfd ∷ 0x3f ∷ 0xf0 ∷ 0x0 ∷ 0x0 ∷ 0x0 ∷ 0xb ∷ 0xfc
    ∷ 0x3f ∷ 0xf0 ∷ 0x0 ∷ 0x0 ∷ 0x0 ∷ 0xf ∷ 0xfc ∷ 0x2f ∷ 0xf4 ∷ 0x0 ∷ 0x0 ∷ 0x0 ∷ 0xf ∷ 0xfc ∷ 0x1f
    ∷ 0xf8 ∷ 0x0 ∷ 0x0 ∷ 0x0 ∷ 0x1f ∷ 0xf8 ∷ 0xf ∷ 0xfc ∷ 0x0 ∷ 0x0 ∷ 0x0 ∷ 0x3f ∷ 0xf0 ∷ 0xb ∷ 0xfe
    ∷ 0x0 ∷ 0x0 ∷ 0x0 ∷ 0x7f ∷ 0xf0 ∷ 0x3 ∷ 0xff ∷ 0x40 ∷ 0x0 ∷ 0x0 ∷ 0xff ∷ 0xd0 ∷ 0x2 ∷ 0xff
    ∷ 0xd0 ∷ 0x0 ∷ 0x3 ∷ 0xff ∷ 0x80 ∷ 0x0 ∷ 0xff ∷ 0xfd ∷ 0x0 ∷ 0x6f ∷ 0xff ∷ 0x0 ∷ 0x0 ∷ 0x3f
    ∷ 0xff ∷ 0xff ∷ 0xff ∷ 0xfc ∷ 0x0 ∷ 0x0 ∷ 0xf ∷ 0xff ∷ 0xff ∷ 0xff ∷ 0xf0 ∷ 0x0 ∷ 0x0 ∷ 0x1
    ∷ 0xff ∷ 0xff ∷ 0xff ∷ 0x80 ∷ 0x0 ∷ 0x0 ∷ 0x0 ∷ 0x1b ∷ 0xff ∷ 0xe4 ∷ 0x0 ∷ 0x0 ∷ []
