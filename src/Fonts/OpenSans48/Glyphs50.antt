-- ===== src/Fonts/OpenSans48/Glyphs50.antt =====
-- The bytes of `glyph_bitmap` in fonts/open_sans_48.c, a list for each glyph, from U+0050 to U+005F.
use popcorn.Prelude.{ℕ, List, [], ◌∷◌}

unfoldable pub u_0050 : List ℕ
u_0050 =
    0xff ∷ 0xff ∷ 0xfe ∷ 0x90 ∷ 0x0 ∷ 0xff ∷ 0xff ∷ 0xff ∷ 0xfd ∷ 0x0 ∷ 0xff ∷ 0xff ∷ 0xff ∷ 0xff
    ∷ 0x80 ∷ 0xff ∷ 0xff ∷ 0xff ∷ 0xff ∷ 0xe0 ∷ 0xff ∷ 0x80 ∷ 0x1 ∷ 0xff ∷ 0xf0 ∷ 0xff ∷ 0x80 ∷ 0x0
    ∷ 0x3f ∷ 0xf8 ∷ 0xff ∷ 0x80 ∷ 0x0 ∷ 0xf ∷ 0xfc ∷ 0xff ∷ 0x80 ∷ 0x0 ∷ 0xb ∷ 0xfd ∷ 0xff ∷ 0x80
    ∷ 0x0 ∷ 0x7 ∷ 0xfd ∷ 0xff ∷ 0x80 ∷ 0x0 ∷ 0x7 ∷ 0xfd ∷ 0xff ∷ 0x80 ∷ 0x0 ∷ 0x3 ∷ 0xfd ∷ 0xff
    ∷ 0x80 ∷ 0x0 ∷ 0x7 ∷ 0xfd ∷ 0xff ∷ 0x80 ∷ 0x0 ∷ 0x7 ∷ 0xfd ∷ 0xff ∷ 0x80 ∷ 0x0 ∷ 0xf ∷ 0xfc
    ∷ 0xff ∷ 0x80 ∷ 0x0 ∷ 0x1f ∷ 0xfc ∷ 0xff ∷ 0x80 ∷ 0x0 ∷ 0x3f ∷ 0xf4 ∷ 0xff ∷ 0x80 ∷ 0x6 ∷ 0xff
    ∷ 0xf0 ∷ 0xff ∷ 0xff ∷ 0xff ∷ 0xff ∷ 0xc0 ∷ 0xff ∷ 0xff ∷ 0xff ∷ 0xff ∷ 0x0 ∷ 0xff ∷ 0xff ∷ 0xff
    ∷ 0xf8 ∷ 0x0 ∷ 0xff ∷ 0xff ∷ 0xfe ∷ 0x40 ∷ 0x0 ∷ 0xff ∷ 0x80 ∷ 0x0 ∷ 0x0 ∷ 0x0 ∷ 0xff ∷ 0x80
    ∷ 0x0 ∷ 0x0 ∷ 0x0 ∷ 0xff ∷ 0x80 ∷ 0x0 ∷ 0x0 ∷ 0x0 ∷ 0xff ∷ 0x80 ∷ 0x0 ∷ 0x0 ∷ 0x0 ∷ 0xff ∷ 0x80
    ∷ 0x0 ∷ 0x0 ∷ 0x0 ∷ 0xff ∷ 0x80 ∷ 0x0 ∷ 0x0 ∷ 0x0 ∷ 0xff ∷ 0x80 ∷ 0x0 ∷ 0x0 ∷ 0x0 ∷ 0xff ∷ 0x80
    ∷ 0x0 ∷ 0x0 ∷ 0x0 ∷ 0xff ∷ 0x80 ∷ 0x0 ∷ 0x0 ∷ 0x0 ∷ 0xff ∷ 0x80 ∷ 0x0 ∷ 0x0 ∷ 0x0 ∷ 0xff ∷ 0x80
    ∷ 0x0 ∷ 0x0 ∷ 0x0 ∷ 0xff ∷ 0x80 ∷ 0x0 ∷ 0x0 ∷ 0x0 ∷ 0xff ∷ 0x80 ∷ 0x0 ∷ 0x0 ∷ 0x0 ∷ []

unfoldable pub u_0051 : List ℕ
u_0051 =
    0x0 ∷ 0x0 ∷ 0x1 ∷ 0x55 ∷ 0x40 ∷ 0x0 ∷ 0x0 ∷ 0x0 ∷ 0x0 ∷ 0x7f ∷ 0xff ∷ 0xfe ∷ 0x0 ∷ 0x0 ∷ 0x0
    ∷ 0x7 ∷ 0xff ∷ 0xff ∷ 0xff ∷ 0xd0 ∷ 0x0 ∷ 0x0 ∷ 0x2f ∷ 0xff ∷ 0xff ∷ 0xff ∷ 0xf8 ∷ 0x0 ∷ 0x0
    ∷ 0xbf ∷ 0xff ∷ 0xaa ∷ 0xff ∷ 0xfe ∷ 0x0 ∷ 0x1 ∷ 0xff ∷ 0xf4 ∷ 0x0 ∷ 0xb ∷ 0xff ∷ 0x40 ∷ 0x3
    ∷ 0xff ∷ 0x80 ∷ 0x0 ∷ 0x2 ∷ 0xff ∷ 0xc0 ∷ 0x7 ∷ 0xff ∷ 0x0 ∷ 0x0 ∷ 0x0 ∷ 0xbf ∷ 0xe0 ∷ 0xf
    ∷ 0xfd ∷ 0x0 ∷ 0x0 ∷ 0x0 ∷ 0x3f ∷ 0xf0 ∷ 0x1f ∷ 0xfc ∷ 0x0 ∷ 0x0 ∷ 0x0 ∷ 0x2f ∷ 0xf4 ∷ 0x2f
    ∷ 0xf4 ∷ 0x0 ∷ 0x0 ∷ 0x0 ∷ 0xf ∷ 0xf8 ∷ 0x3f ∷ 0xf0 ∷ 0x0 ∷ 0x0 ∷ 0x0 ∷ 0xf ∷ 0xfc ∷ 0x3f ∷ 0xf0
    ∷ 0x0 ∷ 0x0 ∷ 0x0 ∷ 0xb ∷ 0xfc ∷ 0x3f ∷ 0xe0 ∷ 0x0 ∷ 0x0 ∷ 0x0 ∷ 0xb ∷ 0xfd ∷ 0x3f ∷ 0xe0 ∷ 0x0
    ∷ 0x0 ∷ 0x0 ∷ 0x7 ∷ 0xfd ∷ 0x7f ∷ 0xe0 ∷ 0x0 ∷ 0x0 ∷ 0x0 ∷ 0x7 ∷ 0xfd ∷ 0x7f ∷ 0xd0 ∷ 0x0 ∷ 0x0
    ∷ 0x0 ∷ 0x7 ∷ 0xfe ∷ 0x7f ∷ 0xd0 ∷ 0x0 ∷ 0x0 ∷ 0x0 ∷ 0x7 ∷ 0xfe ∷ 0x7f ∷ 0xd0 ∷ 0x0 ∷ 0x0 ∷ 0x0
    ∷ 0x7 ∷ 0xfe ∷ 0x7f ∷ 0xd0 ∷ 0x0 ∷ 0x0 ∷ 0x0 ∷ 0x7 ∷ 0xfe ∷ 0x7f ∷ 0xe0 ∷ 0x0 ∷ 0x0 ∷ 0x0 ∷ 0x7
    ∷ 0xfd ∷ 0x3f ∷ 0xe0 ∷ 0x0 ∷ 0x0 ∷ 0x0 ∷ 0xb ∷ 0xfd ∷ 0x3f ∷ 0xf0 ∷ 0x0 ∷ 0x0 ∷ 0x0 ∷ 0xb ∷ 0xfc
    ∷ 0x3f ∷ 0xf0 ∷ 0x0 ∷ 0x0 ∷ 0x0 ∷ 0xf ∷ 0xfc ∷ 0x2f ∷ 0xf4 ∷ 0x0 ∷ 0x0 ∷ 0x0 ∷ 0xf ∷ 0xfc ∷ 0x1f
    ∷ 0xf8 ∷ 0x0 ∷ 0x0 ∷ 0x0 ∷ 0x1f ∷ 0xf8 ∷ 0xf ∷ 0xfc ∷ 0x0 ∷ 0x0 ∷ 0x0 ∷ 0x3f ∷ 0xf0 ∷ 0xb ∷ 0xfe
    ∷ 0x0 ∷ 0x0 ∷ 0x0 ∷ 0x7f ∷ 0xf0 ∷ 0x3 ∷ 0xff ∷ 0x40 ∷ 0x0 ∷ 0x0 ∷ 0xff ∷ 0xd0 ∷ 0x2 ∷ 0xff
    ∷ 0xd0 ∷ 0x0 ∷ 0x3 ∷ 0xff ∷ 0xc0 ∷ 0x0 ∷ 0xff ∷ 0xfd ∷ 0x0 ∷ 0x6f ∷ 0xff ∷ 0x0 ∷ 0x0 ∷ 0x3f
    ∷ 0xff ∷ 0xff ∷ 0xff ∷ 0xfc ∷ 0x0 ∷ 0x0 ∷ 0xf ∷ 0xff ∷ 0xff ∷ 0xff ∷ 0xf0 ∷ 0x0 ∷ 0x0 ∷ 0x1
    ∷ 0xff ∷ 0xff ∷ 0xff ∷ 0x40 ∷ 0x0 ∷ 0x0 ∷ 0x0 ∷ 0x1b ∷ 0xff ∷ 0xff ∷ 0x0 ∷ 0x0 ∷ 0x0 ∷ 0x0 ∷ 0x0
    ∷ 0x2 ∷ 0xff ∷ 0x80 ∷ 0x0 ∷ 0x0 ∷ 0x0 ∷ 0x0 ∷ 0x0 ∷ 0xff ∷ 0xe0 ∷ 0x0 ∷ 0x0 ∷ 0x0 ∷ 0x0 ∷ 0x0
    ∷ 0x7f ∷ 0xf4 ∷ 0x0 ∷ 0x0 ∷ 0x0 ∷ 0x0 ∷ 0x0 ∷ 0x2f ∷ 0xfc ∷ 0x0 ∷ 0x0 ∷ 0x0 ∷ 0x0 ∷ 0x0 ∷ 0xf
    ∷ 0xff ∷ 0x0 ∷ 0x0 ∷ 0x0 ∷ 0x0 ∷ 0x0 ∷ 0x3 ∷ 0xff ∷ 0x80 ∷ 0x0 ∷ 0x0 ∷ 0x0 ∷ 0x0 ∷ 0x1 ∷ 0xff
    ∷ 0xd0 ∷ 0x0 ∷ 0x0 ∷ 0x0 ∷ 0x0 ∷ 0x0 ∷ 0x6a ∷ 0x90 ∷ []

unfoldable pub u_0052 : List ℕ
u_0052 =
    0xff ∷ 0xff ∷ 0xfe ∷ 0x90 ∷ 0x0 ∷ 0xf ∷ 0xff ∷ 0xff ∷ 0xff ∷ 0xd0 ∷ 0x0 ∷ 0xff ∷ 0xff ∷ 0xff
    ∷ 0xff ∷ 0x80 ∷ 0xf ∷ 0xff ∷ 0xff ∷ 0xff ∷ 0xfe ∷ 0x0 ∷ 0xff ∷ 0x80 ∷ 0x1 ∷ 0xff ∷ 0xf4 ∷ 0xf
    ∷ 0xf8 ∷ 0x0 ∷ 0x2 ∷ 0xff ∷ 0xc0 ∷ 0xff ∷ 0x80 ∷ 0x0 ∷ 0xf ∷ 0xfc ∷ 0xf ∷ 0xf8 ∷ 0x0 ∷ 0x0
    ∷ 0xbf ∷ 0xd0 ∷ 0xff ∷ 0x80 ∷ 0x0 ∷ 0x7 ∷ 0xfd ∷ 0xf ∷ 0xf8 ∷ 0x0 ∷ 0x0 ∷ 0x3f ∷ 0xe0 ∷ 0xff
    ∷ 0x80 ∷ 0x0 ∷ 0x3 ∷ 0xfd ∷ 0xf ∷ 0xf8 ∷ 0x0 ∷ 0x0 ∷ 0x7f ∷ 0xd0 ∷ 0xff ∷ 0x80 ∷ 0x0 ∷ 0xb
    ∷ 0xfc ∷ 0xf ∷ 0xf8 ∷ 0x0 ∷ 0x0 ∷ 0xff ∷ 0xc0 ∷ 0xff ∷ 0x80 ∷ 0x0 ∷ 0x2f ∷ 0xf4 ∷ 0xf ∷ 0xf8
    ∷ 0x0 ∷ 0x1f ∷ 0xff ∷ 0x0 ∷ 0xff ∷ 0xff ∷ 0xff ∷ 0xff ∷ 0xc0 ∷ 0xf ∷ 0xff ∷ 0xff ∷ 0xff ∷ 0xf0
    ∷ 0x0 ∷ 0xff ∷ 0xff ∷ 0xff ∷ 0xf4 ∷ 0x0 ∷ 0xf ∷ 0xff ∷ 0xff ∷ 0xff ∷ 0x0 ∷ 0x0 ∷ 0xff ∷ 0x80
    ∷ 0x1f ∷ 0xf4 ∷ 0x0 ∷ 0xf ∷ 0xf8 ∷ 0x0 ∷ 0xff ∷ 0xc0 ∷ 0x0 ∷ 0xff ∷ 0x80 ∷ 0x7 ∷ 0xfe ∷ 0x0
    ∷ 0xf ∷ 0xf8 ∷ 0x0 ∷ 0x3f ∷ 0xf0 ∷ 0x0 ∷ 0xff ∷ 0x80 ∷ 0x1 ∷ 0xff ∷ 0x80 ∷ 0xf ∷ 0xf8 ∷ 0x0
    ∷ 0xf ∷ 0xfc ∷ 0x0 ∷ 0xff ∷ 0x80 ∷ 0x0 ∷ 0x7f ∷ 0xe0 ∷ 0xf ∷ 0xf8 ∷ 0x0 ∷ 0x3 ∷ 0xff ∷ 0x0
    ∷ 0xff ∷ 0x80 ∷ 0x0 ∷ 0xf ∷ 0xfc ∷ 0xf ∷ 0xf8 ∷ 0x0 ∷ 0x0 ∷ 0xbf ∷ 0xd0 ∷ 0xff ∷ 0x80 ∷ 0x0
    ∷ 0x3 ∷ 0xff ∷ 0xf ∷ 0xf8 ∷ 0x0 ∷ 0x0 ∷ 0x2f ∷ 0xf4 ∷ 0xff ∷ 0x80 ∷ 0x0 ∷ 0x0 ∷ 0xff ∷ 0xcf
    ∷ 0xf8 ∷ 0x0 ∷ 0x0 ∷ 0xb ∷ 0xfe ∷ []

unfoldable pub u_0053 : List ℕ
u_0053 =
    0x0 ∷ 0x0 ∷ 0x55 ∷ 0x50 ∷ 0x0 ∷ 0x0 ∷ 0x2f ∷ 0xff ∷ 0xff ∷ 0x80 ∷ 0x1 ∷ 0xff ∷ 0xff ∷ 0xff
    ∷ 0xf8 ∷ 0x7 ∷ 0xff ∷ 0xff ∷ 0xff ∷ 0xf4 ∷ 0xf ∷ 0xff ∷ 0xea ∷ 0xff ∷ 0xf0 ∷ 0x3f ∷ 0xfc ∷ 0x0
    ∷ 0x2 ∷ 0xe0 ∷ 0x3f ∷ 0xf0 ∷ 0x0 ∷ 0x0 ∷ 0x0 ∷ 0x7f ∷ 0xd0 ∷ 0x0 ∷ 0x0 ∷ 0x0 ∷ 0xbf ∷ 0xc0 ∷ 0x0
    ∷ 0x0 ∷ 0x0 ∷ 0xbf ∷ 0xc0 ∷ 0x0 ∷ 0x0 ∷ 0x0 ∷ 0xbf ∷ 0xc0 ∷ 0x0 ∷ 0x0 ∷ 0x0 ∷ 0x7f ∷ 0xd0 ∷ 0x0
    ∷ 0x0 ∷ 0x0 ∷ 0x3f ∷ 0xf0 ∷ 0x0 ∷ 0x0 ∷ 0x0 ∷ 0x3f ∷ 0xfc ∷ 0x0 ∷ 0x0 ∷ 0x0 ∷ 0xf ∷ 0xff ∷ 0x80
    ∷ 0x0 ∷ 0x0 ∷ 0x7 ∷ 0xff ∷ 0xf8 ∷ 0x0 ∷ 0x0 ∷ 0x1 ∷ 0xff ∷ 0xff ∷ 0x80 ∷ 0x0 ∷ 0x0 ∷ 0x3f ∷ 0xff
    ∷ 0xf8 ∷ 0x0 ∷ 0x0 ∷ 0x7 ∷ 0xff ∷ 0xff ∷ 0x0 ∷ 0x0 ∷ 0x0 ∷ 0x7f ∷ 0xff ∷ 0xc0 ∷ 0x0 ∷ 0x0 ∷ 0x7
    ∷ 0xff ∷ 0xf0 ∷ 0x0 ∷ 0x0 ∷ 0x0 ∷ 0xbf ∷ 0xf4 ∷ 0x0 ∷ 0x0 ∷ 0x0 ∷ 0x1f ∷ 0xfc ∷ 0x0 ∷ 0x0 ∷ 0x0
    ∷ 0xf ∷ 0xfc ∷ 0x0 ∷ 0x0 ∷ 0x0 ∷ 0xb ∷ 0xfc ∷ 0x0 ∷ 0x0 ∷ 0x0 ∷ 0x7 ∷ 0xfc ∷ 0x0 ∷ 0x0 ∷ 0x0
    ∷ 0x7 ∷ 0xfc ∷ 0x0 ∷ 0x0 ∷ 0x0 ∷ 0xb ∷ 0xfc ∷ 0x0 ∷ 0x0 ∷ 0x0 ∷ 0xf ∷ 0xfc ∷ 0xd0 ∷ 0x0 ∷ 0x0
    ∷ 0x3f ∷ 0xf4 ∷ 0xff ∷ 0x90 ∷ 0x6 ∷ 0xff ∷ 0xf0 ∷ 0xff ∷ 0xff ∷ 0xff ∷ 0xff ∷ 0xc0 ∷ 0xff ∷ 0xff
    ∷ 0xff ∷ 0xff ∷ 0x0 ∷ 0xbf ∷ 0xff ∷ 0xff ∷ 0xf8 ∷ 0x0 ∷ 0x6 ∷ 0xbf ∷ 0xfe ∷ 0x40 ∷ 0x0 ∷ []

unfoldable pub u_0054 : List ℕ
u_0054 =
    0x7f ∷ 0xff ∷ 0xff ∷ 0xff ∷ 0xff ∷ 0xf1 ∷ 0xff ∷ 0xff ∷ 0xff ∷ 0xff ∷ 0xff ∷ 0xc7 ∷ 0xff ∷ 0xff
    ∷ 0xff ∷ 0xff ∷ 0xff ∷ 0x1f ∷ 0xff ∷ 0xff ∷ 0xff ∷ 0xff ∷ 0xfc ∷ 0x0 ∷ 0x0 ∷ 0x3f ∷ 0xe0 ∷ 0x0
    ∷ 0x0 ∷ 0x0 ∷ 0x0 ∷ 0xff ∷ 0x80 ∷ 0x0 ∷ 0x0 ∷ 0x0 ∷ 0x3 ∷ 0xfe ∷ 0x0 ∷ 0x0 ∷ 0x0 ∷ 0x0 ∷ 0xf
    ∷ 0xf8 ∷ 0x0 ∷ 0x0 ∷ 0x0 ∷ 0x0 ∷ 0x3f ∷ 0xe0 ∷ 0x0 ∷ 0x0 ∷ 0x0 ∷ 0x0 ∷ 0xff ∷ 0x80 ∷ 0x0 ∷ 0x0
    ∷ 0x0 ∷ 0x3 ∷ 0xfe ∷ 0x0 ∷ 0x0 ∷ 0x0 ∷ 0x0 ∷ 0xf ∷ 0xf8 ∷ 0x0 ∷ 0x0 ∷ 0x0 ∷ 0x0 ∷ 0x3f ∷ 0xe0
    ∷ 0x0 ∷ 0x0 ∷ 0x0 ∷ 0x0 ∷ 0xff ∷ 0x80 ∷ 0x0 ∷ 0x0 ∷ 0x0 ∷ 0x3 ∷ 0xfe ∷ 0x0 ∷ 0x0 ∷ 0x0 ∷ 0x0
    ∷ 0xf ∷ 0xf8 ∷ 0x0 ∷ 0x0 ∷ 0x0 ∷ 0x0 ∷ 0x3f ∷ 0xe0 ∷ 0x0 ∷ 0x0 ∷ 0x0 ∷ 0x0 ∷ 0xff ∷ 0x80 ∷ 0x0
    ∷ 0x0 ∷ 0x0 ∷ 0x3 ∷ 0xfe ∷ 0x0 ∷ 0x0 ∷ 0x0 ∷ 0x0 ∷ 0xf ∷ 0xf8 ∷ 0x0 ∷ 0x0 ∷ 0x0 ∷ 0x0 ∷ 0x3f
    ∷ 0xe0 ∷ 0x0 ∷ 0x0 ∷ 0x0 ∷ 0x0 ∷ 0xff ∷ 0x80 ∷ 0x0 ∷ 0x0 ∷ 0x0 ∷ 0x3 ∷ 0xfe ∷ 0x0 ∷ 0x0 ∷ 0x0
    ∷ 0x0 ∷ 0xf ∷ 0xf8 ∷ 0x0 ∷ 0x0 ∷ 0x0 ∷ 0x0 ∷ 0x3f ∷ 0xe0 ∷ 0x0 ∷ 0x0 ∷ 0x0 ∷ 0x0 ∷ 0xff ∷ 0x80
    ∷ 0x0 ∷ 0x0 ∷ 0x0 ∷ 0x3 ∷ 0xfe ∷ 0x0 ∷ 0x0 ∷ 0x0 ∷ 0x0 ∷ 0xf ∷ 0xf8 ∷ 0x0 ∷ 0x0 ∷ 0x0 ∷ 0x0
    ∷ 0x3f ∷ 0xe0 ∷ 0x0 ∷ 0x0 ∷ 0x0 ∷ 0x0 ∷ 0xff ∷ 0x80 ∷ 0x0 ∷ 0x0 ∷ 0x0 ∷ 0x3 ∷ 0xfe ∷ 0x0 ∷ 0x0
    ∷ 0x0 ∷ 0x0 ∷ 0xf ∷ 0xf8 ∷ 0x0 ∷ 0x0 ∷ 0x0 ∷ 0x0 ∷ 0x3f ∷ 0xe0 ∷ 0x0 ∷ 0x0 ∷ 0x0 ∷ 0x0 ∷ 0xff
    ∷ 0x80 ∷ 0x0 ∷ 0x0 ∷ []

unfoldable pub u_0055 : List ℕ
u_0055 =
    0x7f ∷ 0xd0 ∷ 0x0 ∷ 0x0 ∷ 0x3 ∷ 0xfe ∷ 0x7f ∷ 0xd0 ∷ 0x0 ∷ 0x0 ∷ 0x3 ∷ 0xfe ∷ 0x7f ∷ 0xd0 ∷ 0x0
    ∷ 0x0 ∷ 0x3 ∷ 0xfe ∷ 0x7f ∷ 0xd0 ∷ 0x0 ∷ 0x0 ∷ 0x3 ∷ 0xfe ∷ 0x7f ∷ 0xd0 ∷ 0x0 ∷ 0x0 ∷ 0x3 ∷ 0xfe
    ∷ 0x7f ∷ 0xd0 ∷ 0x0 ∷ 0x0 ∷ 0x3 ∷ 0xfe ∷ 0x7f ∷ 0xd0 ∷ 0x0 ∷ 0x0 ∷ 0x3 ∷ 0xfe ∷ 0x7f ∷ 0xd0
    ∷ 0x0 ∷ 0x0 ∷ 0x3 ∷ 0xfe ∷ 0x7f ∷ 0xd0 ∷ 0x0 ∷ 0x0 ∷ 0x3 ∷ 0xfe ∷ 0x7f ∷ 0xd0 ∷ 0x0 ∷ 0x0 ∷ 0x3
    ∷ 0xfe ∷ 0x7f ∷ 0xd0 ∷ 0x0 ∷ 0x0 ∷ 0x3 ∷ 0xfe ∷ 0x7f ∷ 0xd0 ∷ 0x0 ∷ 0x0 ∷ 0x3 ∷ 0xfe ∷ 0x7f
    ∷ 0xd0 ∷ 0x0 ∷ 0x0 ∷ 0x3 ∷ 0xfe ∷ 0x7f ∷ 0xd0 ∷ 0x0 ∷ 0x0 ∷ 0x3 ∷ 0xfe ∷ 0x7f ∷ 0xd0 ∷ 0x0 ∷ 0x0
    ∷ 0x3 ∷ 0xfe ∷ 0x7f ∷ 0xd0 ∷ 0x0 ∷ 0x0 ∷ 0x3 ∷ 0xfe ∷ 0x7f ∷ 0xd0 ∷ 0x0 ∷ 0x0 ∷ 0x3 ∷ 0xfe
    ∷ 0x7f ∷ 0xd0 ∷ 0x0 ∷ 0x0 ∷ 0x3 ∷ 0xfe ∷ 0x7f ∷ 0xd0 ∷ 0x0 ∷ 0x0 ∷ 0x3 ∷ 0xfe ∷ 0x7f ∷ 0xd0
    ∷ 0x0 ∷ 0x0 ∷ 0x3 ∷ 0xfe ∷ 0x7f ∷ 0xd0 ∷ 0x0 ∷ 0x0 ∷ 0x3 ∷ 0xfe ∷ 0x7f ∷ 0xd0 ∷ 0x0 ∷ 0x0 ∷ 0x3
    ∷ 0xfe ∷ 0x7f ∷ 0xd0 ∷ 0x0 ∷ 0x0 ∷ 0x3 ∷ 0xfe ∷ 0x7f ∷ 0xd0 ∷ 0x0 ∷ 0x0 ∷ 0x3 ∷ 0xfe ∷ 0x3f
    ∷ 0xe0 ∷ 0x0 ∷ 0x0 ∷ 0x3 ∷ 0xfd ∷ 0x3f ∷ 0xf0 ∷ 0x0 ∷ 0x0 ∷ 0x7 ∷ 0xfd ∷ 0x3f ∷ 0xf0 ∷ 0x0 ∷ 0x0
    ∷ 0xf ∷ 0xfc ∷ 0x1f ∷ 0xf8 ∷ 0x0 ∷ 0x0 ∷ 0x1f ∷ 0xfc ∷ 0xf ∷ 0xfe ∷ 0x0 ∷ 0x0 ∷ 0x3f ∷ 0xf4
    ∷ 0xb ∷ 0xff ∷ 0xd0 ∷ 0x6 ∷ 0xff ∷ 0xf0 ∷ 0x2 ∷ 0xff ∷ 0xff ∷ 0xff ∷ 0xff ∷ 0xc0 ∷ 0x0 ∷ 0xbf
    ∷ 0xff ∷ 0xff ∷ 0xff ∷ 0x0 ∷ 0x0 ∷ 0x1f ∷ 0xff ∷ 0xff ∷ 0xf8 ∷ 0x0 ∷ 0x0 ∷ 0x1 ∷ 0xbf ∷ 0xfe
    ∷ 0x40 ∷ 0x0 ∷ []

unfoldable pub u_0056 : List ℕ
u_0056 =
    0xff ∷ 0xc0 ∷ 0x0 ∷ 0x0 ∷ 0x0 ∷ 0x7f ∷ 0xdb ∷ 0xfc ∷ 0x0 ∷ 0x0 ∷ 0x0 ∷ 0xb ∷ 0xfc ∷ 0x7f ∷ 0xe0
    ∷ 0x0 ∷ 0x0 ∷ 0x0 ∷ 0xff ∷ 0x83 ∷ 0xff ∷ 0x0 ∷ 0x0 ∷ 0x0 ∷ 0x1f ∷ 0xf4 ∷ 0x2f ∷ 0xf0 ∷ 0x0 ∷ 0x0
    ∷ 0x2 ∷ 0xff ∷ 0x1 ∷ 0xff ∷ 0x40 ∷ 0x0 ∷ 0x0 ∷ 0x3f ∷ 0xf0 ∷ 0xf ∷ 0xf8 ∷ 0x0 ∷ 0x0 ∷ 0x3 ∷ 0xfe
    ∷ 0x0 ∷ 0xff ∷ 0xc0 ∷ 0x0 ∷ 0x0 ∷ 0x7f ∷ 0xc0 ∷ 0x7 ∷ 0xfc ∷ 0x0 ∷ 0x0 ∷ 0xb ∷ 0xfc ∷ 0x0 ∷ 0x3f
    ∷ 0xe0 ∷ 0x0 ∷ 0x0 ∷ 0xff ∷ 0x80 ∷ 0x3 ∷ 0xff ∷ 0x0 ∷ 0x0 ∷ 0x1f ∷ 0xf4 ∷ 0x0 ∷ 0x2f ∷ 0xf0
    ∷ 0x0 ∷ 0x2 ∷ 0xff ∷ 0x0 ∷ 0x1 ∷ 0xff ∷ 0x40 ∷ 0x0 ∷ 0x3f ∷ 0xe0 ∷ 0x0 ∷ 0xf ∷ 0xf8 ∷ 0x0 ∷ 0x3
    ∷ 0xfd ∷ 0x0 ∷ 0x0 ∷ 0xbf ∷ 0xc0 ∷ 0x0 ∷ 0x7f ∷ 0xc0 ∷ 0x0 ∷ 0x7 ∷ 0xfc ∷ 0x0 ∷ 0xf ∷ 0xfc ∷ 0x0
    ∷ 0x0 ∷ 0x3f ∷ 0xe0 ∷ 0x0 ∷ 0xff ∷ 0x80 ∷ 0x0 ∷ 0x3 ∷ 0xff ∷ 0x0 ∷ 0x1f ∷ 0xf0 ∷ 0x0 ∷ 0x0
    ∷ 0x1f ∷ 0xf0 ∷ 0x2 ∷ 0xff ∷ 0x0 ∷ 0x0 ∷ 0x0 ∷ 0xff ∷ 0x40 ∷ 0x3f ∷ 0xe0 ∷ 0x0 ∷ 0x0 ∷ 0xf
    ∷ 0xf8 ∷ 0x3 ∷ 0xfd ∷ 0x0 ∷ 0x0 ∷ 0x0 ∷ 0xbf ∷ 0xc0 ∷ 0x7f ∷ 0xc0 ∷ 0x0 ∷ 0x0 ∷ 0x7 ∷ 0xfc ∷ 0xf
    ∷ 0xf8 ∷ 0x0 ∷ 0x0 ∷ 0x0 ∷ 0x3f ∷ 0xe0 ∷ 0xff ∷ 0x40 ∷ 0x0 ∷ 0x0 ∷ 0x2 ∷ 0xff ∷ 0x1f ∷ 0xf0
    ∷ 0x0 ∷ 0x0 ∷ 0x0 ∷ 0x1f ∷ 0xf2 ∷ 0xff ∷ 0x0 ∷ 0x0 ∷ 0x0 ∷ 0x0 ∷ 0xff ∷ 0x3f ∷ 0xe0 ∷ 0x0 ∷ 0x0
    ∷ 0x0 ∷ 0xb ∷ 0xf7 ∷ 0xfc ∷ 0x0 ∷ 0x0 ∷ 0x0 ∷ 0x0 ∷ 0x7f ∷ 0xff ∷ 0xc0 ∷ 0x0 ∷ 0x0 ∷ 0x0 ∷ 0x3
    ∷ 0xff ∷ 0xf8 ∷ 0x0 ∷ 0x0 ∷ 0x0 ∷ 0x0 ∷ 0x3f ∷ 0xff ∷ 0x40 ∷ 0x0 ∷ 0x0 ∷ 0x0 ∷ 0x2 ∷ 0xff ∷ 0xf0
    ∷ 0x0 ∷ 0x0 ∷ 0x0 ∷ 0x0 ∷ 0xf ∷ 0xfe ∷ 0x0 ∷ 0x0 ∷ 0x0 ∷ 0x0 ∷ 0x0 ∷ 0xff ∷ 0xd0 ∷ 0x0 ∷ 0x0
    ∷ []

unfoldable pub u_0057 : List ℕ
u_0057 =
    0xbf ∷ 0xc0 ∷ 0x0 ∷ 0x0 ∷ 0x1f ∷ 0xf0 ∷ 0x0 ∷ 0x0 ∷ 0x7 ∷ 0xfd ∷ 0x7f ∷ 0xd0 ∷ 0x0 ∷ 0x0 ∷ 0x2f
    ∷ 0xf4 ∷ 0x0 ∷ 0x0 ∷ 0xb ∷ 0xfc ∷ 0x3f ∷ 0xe0 ∷ 0x0 ∷ 0x0 ∷ 0x3f ∷ 0xf8 ∷ 0x0 ∷ 0x0 ∷ 0xb ∷ 0xfc
    ∷ 0x3f ∷ 0xf0 ∷ 0x0 ∷ 0x0 ∷ 0x3f ∷ 0xfc ∷ 0x0 ∷ 0x0 ∷ 0xf ∷ 0xf8 ∷ 0x2f ∷ 0xf0 ∷ 0x0 ∷ 0x0
    ∷ 0x7f ∷ 0xfc ∷ 0x0 ∷ 0x0 ∷ 0xf ∷ 0xf4 ∷ 0x1f ∷ 0xf4 ∷ 0x0 ∷ 0x0 ∷ 0xbf ∷ 0xfd ∷ 0x0 ∷ 0x0
    ∷ 0x1f ∷ 0xf4 ∷ 0xf ∷ 0xf4 ∷ 0x0 ∷ 0x0 ∷ 0xff ∷ 0xfe ∷ 0x0 ∷ 0x0 ∷ 0x2f ∷ 0xf0 ∷ 0xf ∷ 0xf8
    ∷ 0x0 ∷ 0x0 ∷ 0xfe ∷ 0xff ∷ 0x0 ∷ 0x0 ∷ 0x3f ∷ 0xf0 ∷ 0xb ∷ 0xfc ∷ 0x0 ∷ 0x1 ∷ 0xfd ∷ 0xbf ∷ 0x0
    ∷ 0x0 ∷ 0x3f ∷ 0xe0 ∷ 0x7 ∷ 0xfc ∷ 0x0 ∷ 0x2 ∷ 0xfd ∷ 0xbf ∷ 0x40 ∷ 0x0 ∷ 0x7f ∷ 0xd0 ∷ 0x3
    ∷ 0xfd ∷ 0x0 ∷ 0x3 ∷ 0xfc ∷ 0x7f ∷ 0x80 ∷ 0x0 ∷ 0xbf ∷ 0xc0 ∷ 0x3 ∷ 0xfe ∷ 0x0 ∷ 0x3 ∷ 0xfc
    ∷ 0x3f ∷ 0xc0 ∷ 0x0 ∷ 0xff ∷ 0xc0 ∷ 0x2 ∷ 0xff ∷ 0x0 ∷ 0x7 ∷ 0xf8 ∷ 0x3f ∷ 0xc0 ∷ 0x0 ∷ 0xff
    ∷ 0x80 ∷ 0x1 ∷ 0xff ∷ 0x0 ∷ 0xb ∷ 0xf4 ∷ 0x2f ∷ 0xd0 ∷ 0x0 ∷ 0xff ∷ 0x40 ∷ 0x0 ∷ 0xff ∷ 0x40
    ∷ 0xf ∷ 0xf0 ∷ 0x1f ∷ 0xe0 ∷ 0x1 ∷ 0xff ∷ 0x0 ∷ 0x0 ∷ 0xff ∷ 0x80 ∷ 0xf ∷ 0xf0 ∷ 0xf ∷ 0xf0
    ∷ 0x2 ∷ 0xff ∷ 0x0 ∷ 0x0 ∷ 0xff ∷ 0x80 ∷ 0x1f ∷ 0xe0 ∷ 0xf ∷ 0xf0 ∷ 0x3 ∷ 0xfe ∷ 0x0 ∷ 0x0
    ∷ 0xbf ∷ 0xc0 ∷ 0x2f ∷ 0xd0 ∷ 0xb ∷ 0xf4 ∷ 0x3 ∷ 0xfd ∷ 0x0 ∷ 0x0 ∷ 0x7f ∷ 0xc0 ∷ 0x3f ∷ 0xc0
    ∷ 0x7 ∷ 0xf8 ∷ 0x7 ∷ 0xfc ∷ 0x0 ∷ 0x0 ∷ 0x3f ∷ 0xd0 ∷ 0x3f ∷ 0xc0 ∷ 0x3 ∷ 0xfc ∷ 0xb ∷ 0xfc
    ∷ 0x0 ∷ 0x0 ∷ 0x3f ∷ 0xe0 ∷ 0x7f ∷ 0x80 ∷ 0x3 ∷ 0xfc ∷ 0xf ∷ 0xf8 ∷ 0x0 ∷ 0x0 ∷ 0x2f ∷ 0xf0
    ∷ 0xbf ∷ 0x80 ∷ 0x2 ∷ 0xfd ∷ 0xf ∷ 0xf4 ∷ 0x0 ∷ 0x0 ∷ 0x1f ∷ 0xf0 ∷ 0xff ∷ 0x40 ∷ 0x1 ∷ 0xfe
    ∷ 0xf ∷ 0xf0 ∷ 0x0 ∷ 0x0 ∷ 0xf ∷ 0xf0 ∷ 0xff ∷ 0x0 ∷ 0x0 ∷ 0xff ∷ 0x1f ∷ 0xf0 ∷ 0x0 ∷ 0x0 ∷ 0xf
    ∷ 0xf4 ∷ 0xff ∷ 0x0 ∷ 0x0 ∷ 0xff ∷ 0x2f ∷ 0xf0 ∷ 0x0 ∷ 0x0 ∷ 0xb ∷ 0xf9 ∷ 0xfe ∷ 0x0 ∷ 0x0
    ∷ 0xbf ∷ 0x3f ∷ 0xe0 ∷ 0x0 ∷ 0x0 ∷ 0x7 ∷ 0xfe ∷ 0xfd ∷ 0x0 ∷ 0x0 ∷ 0x7f ∷ 0x7f ∷ 0xd0 ∷ 0x0
    ∷ 0x0 ∷ 0x3 ∷ 0xfe ∷ 0xfc ∷ 0x0 ∷ 0x0 ∷ 0x3f ∷ 0xbf ∷ 0xc0 ∷ 0x0 ∷ 0x0 ∷ 0x3 ∷ 0xff ∷ 0xfc ∷ 0x0
    ∷ 0x0 ∷ 0x3f ∷ 0xff ∷ 0xc0 ∷ 0x0 ∷ 0x0 ∷ 0x2 ∷ 0xff ∷ 0xf8 ∷ 0x0 ∷ 0x0 ∷ 0x2f ∷ 0xff ∷ 0x80
    ∷ 0x0 ∷ 0x0 ∷ 0x1 ∷ 0xff ∷ 0xf4 ∷ 0x0 ∷ 0x0 ∷ 0x1f ∷ 0xff ∷ 0x40 ∷ 0x0 ∷ 0x0 ∷ 0x0 ∷ 0xff ∷ 0xf0
    ∷ 0x0 ∷ 0x0 ∷ 0xf ∷ 0xff ∷ 0x0 ∷ 0x0 ∷ 0x0 ∷ 0x0 ∷ 0xff ∷ 0xf0 ∷ 0x0 ∷ 0x0 ∷ 0xf ∷ 0xff ∷ 0x0
    ∷ 0x0 ∷ 0x0 ∷ 0x0 ∷ 0xbf ∷ 0xe0 ∷ 0x0 ∷ 0x0 ∷ 0xf ∷ 0xfe ∷ 0x0 ∷ 0x0 ∷ []

unfoldable pub u_0058 : List ℕ
u_0058 =
    0x3f ∷ 0xf0 ∷ 0x0 ∷ 0x0 ∷ 0xb ∷ 0xfd ∷ 0x3 ∷ 0xfe ∷ 0x0 ∷ 0x0 ∷ 0x3 ∷ 0xfe ∷ 0x0 ∷ 0xbf ∷ 0xc0
    ∷ 0x0 ∷ 0x2 ∷ 0xff ∷ 0x0 ∷ 0xf ∷ 0xf8 ∷ 0x0 ∷ 0x0 ∷ 0xff ∷ 0x80 ∷ 0x2 ∷ 0xff ∷ 0x0 ∷ 0x0 ∷ 0xbf
    ∷ 0xc0 ∷ 0x0 ∷ 0x3f ∷ 0xe0 ∷ 0x0 ∷ 0x3f ∷ 0xe0 ∷ 0x0 ∷ 0xb ∷ 0xfc ∷ 0x0 ∷ 0x2f ∷ 0xf0 ∷ 0x0
    ∷ 0x0 ∷ 0xff ∷ 0x80 ∷ 0xf ∷ 0xf8 ∷ 0x0 ∷ 0x0 ∷ 0x2f ∷ 0xf0 ∷ 0xb ∷ 0xfc ∷ 0x0 ∷ 0x0 ∷ 0x3 ∷ 0xfe
    ∷ 0x3 ∷ 0xfe ∷ 0x0 ∷ 0x0 ∷ 0x0 ∷ 0xbf ∷ 0xc2 ∷ 0xff ∷ 0x0 ∷ 0x0 ∷ 0x0 ∷ 0xf ∷ 0xf8 ∷ 0xff ∷ 0x40
    ∷ 0x0 ∷ 0x0 ∷ 0x1 ∷ 0xff ∷ 0xbf ∷ 0xc0 ∷ 0x0 ∷ 0x0 ∷ 0x0 ∷ 0x3f ∷ 0xff ∷ 0xd0 ∷ 0x0 ∷ 0x0 ∷ 0x0
    ∷ 0x7 ∷ 0xff ∷ 0xf0 ∷ 0x0 ∷ 0x0 ∷ 0x0 ∷ 0x0 ∷ 0xff ∷ 0xf4 ∷ 0x0 ∷ 0x0 ∷ 0x0 ∷ 0x0 ∷ 0x2f ∷ 0xfc
    ∷ 0x0 ∷ 0x0 ∷ 0x0 ∷ 0x0 ∷ 0xf ∷ 0xff ∷ 0x40 ∷ 0x0 ∷ 0x0 ∷ 0x0 ∷ 0xb ∷ 0xff ∷ 0xf0 ∷ 0x0 ∷ 0x0
    ∷ 0x0 ∷ 0x3 ∷ 0xff ∷ 0xfe ∷ 0x0 ∷ 0x0 ∷ 0x0 ∷ 0x2 ∷ 0xff ∷ 0xbf ∷ 0xc0 ∷ 0x0 ∷ 0x0 ∷ 0x0 ∷ 0xff
    ∷ 0x4f ∷ 0xf8 ∷ 0x0 ∷ 0x0 ∷ 0x0 ∷ 0xbf ∷ 0xc2 ∷ 0xff ∷ 0x0 ∷ 0x0 ∷ 0x0 ∷ 0x3f ∷ 0xd0 ∷ 0x3f
    ∷ 0xe0 ∷ 0x0 ∷ 0x0 ∷ 0x3f ∷ 0xf0 ∷ 0xb ∷ 0xfc ∷ 0x0 ∷ 0x0 ∷ 0x1f ∷ 0xf4 ∷ 0x0 ∷ 0xff ∷ 0x80
    ∷ 0x0 ∷ 0xf ∷ 0xfc ∷ 0x0 ∷ 0x2f ∷ 0xf0 ∷ 0x0 ∷ 0x7 ∷ 0xfd ∷ 0x0 ∷ 0x3 ∷ 0xfe ∷ 0x0 ∷ 0x3 ∷ 0xff
    ∷ 0x0 ∷ 0x0 ∷ 0xbf ∷ 0xc0 ∷ 0x1 ∷ 0xff ∷ 0x40 ∷ 0x0 ∷ 0xf ∷ 0xfc ∷ 0x0 ∷ 0xff ∷ 0xc0 ∷ 0x0 ∷ 0x2
    ∷ 0xff ∷ 0x40 ∷ 0x7f ∷ 0xd0 ∷ 0x0 ∷ 0x0 ∷ 0x3f ∷ 0xf0 ∷ 0x3f ∷ 0xf0 ∷ 0x0 ∷ 0x0 ∷ 0xb ∷ 0xfd
    ∷ 0x2f ∷ 0xf4 ∷ 0x0 ∷ 0x0 ∷ 0x0 ∷ 0xff ∷ 0xc0 ∷ []

unfoldable pub u_0059 : List ℕ
u_0059 =
    0xff ∷ 0xc0 ∷ 0x0 ∷ 0x0 ∷ 0xb ∷ 0xfd ∷ 0x7f ∷ 0xe0 ∷ 0x0 ∷ 0x0 ∷ 0xf ∷ 0xfc ∷ 0x3f ∷ 0xf0 ∷ 0x0
    ∷ 0x0 ∷ 0x1f ∷ 0xf4 ∷ 0x1f ∷ 0xf4 ∷ 0x0 ∷ 0x0 ∷ 0x3f ∷ 0xf0 ∷ 0xf ∷ 0xfc ∷ 0x0 ∷ 0x0 ∷ 0x7f
    ∷ 0xe0 ∷ 0xb ∷ 0xfd ∷ 0x0 ∷ 0x0 ∷ 0xbf ∷ 0xc0 ∷ 0x3 ∷ 0xfe ∷ 0x0 ∷ 0x0 ∷ 0xff ∷ 0x80 ∷ 0x2
    ∷ 0xff ∷ 0x0 ∷ 0x2 ∷ 0xff ∷ 0x0 ∷ 0x0 ∷ 0xff ∷ 0x80 ∷ 0x3 ∷ 0xfe ∷ 0x0 ∷ 0x0 ∷ 0xbf ∷ 0xc0 ∷ 0x7
    ∷ 0xfc ∷ 0x0 ∷ 0x0 ∷ 0x7f ∷ 0xd0 ∷ 0xf ∷ 0xfc ∷ 0x0 ∷ 0x0 ∷ 0x3f ∷ 0xf0 ∷ 0x1f ∷ 0xf4 ∷ 0x0
    ∷ 0x0 ∷ 0x1f ∷ 0xf4 ∷ 0x2f ∷ 0xf0 ∷ 0x0 ∷ 0x0 ∷ 0xf ∷ 0xfc ∷ 0x3f ∷ 0xd0 ∷ 0x0 ∷ 0x0 ∷ 0x7
    ∷ 0xfc ∷ 0xbf ∷ 0xc0 ∷ 0x0 ∷ 0x0 ∷ 0x3 ∷ 0xfe ∷ 0xff ∷ 0x80 ∷ 0x0 ∷ 0x0 ∷ 0x2 ∷ 0xff ∷ 0xff
    ∷ 0x0 ∷ 0x0 ∷ 0x0 ∷ 0x0 ∷ 0xff ∷ 0xfe ∷ 0x0 ∷ 0x0 ∷ 0x0 ∷ 0x0 ∷ 0xbf ∷ 0xfc ∷ 0x0 ∷ 0x0 ∷ 0x0
    ∷ 0x0 ∷ 0x3f ∷ 0xf8 ∷ 0x0 ∷ 0x0 ∷ 0x0 ∷ 0x0 ∷ 0x2f ∷ 0xf0 ∷ 0x0 ∷ 0x0 ∷ 0x0 ∷ 0x0 ∷ 0x2f ∷ 0xf0
    ∷ 0x0 ∷ 0x0 ∷ 0x0 ∷ 0x0 ∷ 0x2f ∷ 0xf0 ∷ 0x0 ∷ 0x0 ∷ 0x0 ∷ 0x0 ∷ 0x2f ∷ 0xf0 ∷ 0x0 ∷ 0x0 ∷ 0x0
    ∷ 0x0 ∷ 0x2f ∷ 0xf0 ∷ 0x0 ∷ 0x0 ∷ 0x0 ∷ 0x0 ∷ 0x2f ∷ 0xf0 ∷ 0x0 ∷ 0x0 ∷ 0x0 ∷ 0x0 ∷ 0x2f ∷ 0xf0
    ∷ 0x0 ∷ 0x0 ∷ 0x0 ∷ 0x0 ∷ 0x2f ∷ 0xf0 ∷ 0x0 ∷ 0x0 ∷ 0x0 ∷ 0x0 ∷ 0x2f ∷ 0xf0 ∷ 0x0 ∷ 0x0 ∷ 0x0
    ∷ 0x0 ∷ 0x2f ∷ 0xf0 ∷ 0x0 ∷ 0x0 ∷ 0x0 ∷ 0x0 ∷ 0x2f ∷ 0xf0 ∷ 0x0 ∷ 0x0 ∷ 0x0 ∷ 0x0 ∷ 0x2f ∷ 0xf0
    ∷ 0x0 ∷ 0x0 ∷ 0x0 ∷ 0x0 ∷ 0x2f ∷ 0xf0 ∷ 0x0 ∷ 0x0 ∷ 0x0 ∷ 0x0 ∷ 0x2f ∷ 0xf0 ∷ 0x0 ∷ 0x0 ∷ []

unfoldable pub u_005a : List ℕ
u_005a =
    0x3f ∷ 0xff ∷ 0xff ∷ 0xff ∷ 0xff ∷ 0xf ∷ 0xff ∷ 0xff ∷ 0xff ∷ 0xff ∷ 0xc3 ∷ 0xff ∷ 0xff ∷ 0xff
    ∷ 0xff ∷ 0xf0 ∷ 0xff ∷ 0xff ∷ 0xff ∷ 0xff ∷ 0xfc ∷ 0x0 ∷ 0x0 ∷ 0x0 ∷ 0x7 ∷ 0xfd ∷ 0x0 ∷ 0x0
    ∷ 0x0 ∷ 0x3 ∷ 0xff ∷ 0x0 ∷ 0x0 ∷ 0x0 ∷ 0x2 ∷ 0xff ∷ 0x40 ∷ 0x0 ∷ 0x0 ∷ 0x0 ∷ 0xff ∷ 0xc0 ∷ 0x0
    ∷ 0x0 ∷ 0x0 ∷ 0xbf ∷ 0xd0 ∷ 0x0 ∷ 0x0 ∷ 0x0 ∷ 0x3f ∷ 0xe0 ∷ 0x0 ∷ 0x0 ∷ 0x0 ∷ 0x2f ∷ 0xf0 ∷ 0x0
    ∷ 0x0 ∷ 0x0 ∷ 0x1f ∷ 0xf8 ∷ 0x0 ∷ 0x0 ∷ 0x0 ∷ 0xf ∷ 0xfc ∷ 0x0 ∷ 0x0 ∷ 0x0 ∷ 0x7 ∷ 0xfe ∷ 0x0
    ∷ 0x0 ∷ 0x0 ∷ 0x3 ∷ 0xff ∷ 0x0 ∷ 0x0 ∷ 0x0 ∷ 0x1 ∷ 0xff ∷ 0x80 ∷ 0x0 ∷ 0x0 ∷ 0x0 ∷ 0xff ∷ 0xc0
    ∷ 0x0 ∷ 0x0 ∷ 0x0 ∷ 0x7f ∷ 0xd0 ∷ 0x0 ∷ 0x0 ∷ 0x0 ∷ 0x3f ∷ 0xf0 ∷ 0x0 ∷ 0x0 ∷ 0x0 ∷ 0x2f ∷ 0xf4
    ∷ 0x0 ∷ 0x0 ∷ 0x0 ∷ 0xf ∷ 0xfc ∷ 0x0 ∷ 0x0 ∷ 0x0 ∷ 0xb ∷ 0xfd ∷ 0x0 ∷ 0x0 ∷ 0x0 ∷ 0x3 ∷ 0xfe
    ∷ 0x0 ∷ 0x0 ∷ 0x0 ∷ 0x2 ∷ 0xff ∷ 0x0 ∷ 0x0 ∷ 0x0 ∷ 0x1 ∷ 0xff ∷ 0x80 ∷ 0x0 ∷ 0x0 ∷ 0x0 ∷ 0xff
    ∷ 0xc0 ∷ 0x0 ∷ 0x0 ∷ 0x0 ∷ 0x7f ∷ 0xe0 ∷ 0x0 ∷ 0x0 ∷ 0x0 ∷ 0x3f ∷ 0xf0 ∷ 0x0 ∷ 0x0 ∷ 0x0 ∷ 0x1f
    ∷ 0xf4 ∷ 0x0 ∷ 0x0 ∷ 0x0 ∷ 0xf ∷ 0xfc ∷ 0x0 ∷ 0x0 ∷ 0x0 ∷ 0x7 ∷ 0xff ∷ 0xff ∷ 0xff ∷ 0xff ∷ 0xf6
    ∷ 0xff ∷ 0xff ∷ 0xff ∷ 0xff ∷ 0xfd ∷ 0xbf ∷ 0xff ∷ 0xff ∷ 0xff ∷ 0xff ∷ 0x6f ∷ 0xff ∷ 0xff
    ∷ 0xff ∷ 0xff ∷ 0xd0 ∷ []

unfoldable pub u_005b : List ℕ
u_005b =
    0x7f ∷ 0xff ∷ 0xfc ∷ 0x7f ∷ 0xff ∷ 0xfc ∷ 0x7f ∷ 0xff ∷ 0xfc ∷ 0x7f ∷ 0xea ∷ 0xa8 ∷ 0x7f ∷ 0x80
    ∷ 0x0 ∷ 0x7f ∷ 0x80 ∷ 0x0 ∷ 0x7f ∷ 0x80 ∷ 0x0 ∷ 0x7f ∷ 0x80 ∷ 0x0 ∷ 0x7f ∷ 0x80 ∷ 0x0 ∷ 0x7f
    ∷ 0x80 ∷ 0x0 ∷ 0x7f ∷ 0x80 ∷ 0x0 ∷ 0x7f ∷ 0x80 ∷ 0x0 ∷ 0x7f ∷ 0x80 ∷ 0x0 ∷ 0x7f ∷ 0x80 ∷ 0x0
    ∷ 0x7f ∷ 0x80 ∷ 0x0 ∷ 0x7f ∷ 0x80 ∷ 0x0 ∷ 0x7f ∷ 0x80 ∷ 0x0 ∷ 0x7f ∷ 0x80 ∷ 0x0 ∷ 0x7f ∷ 0x80
    ∷ 0x0 ∷ 0x7f ∷ 0x80 ∷ 0x0 ∷ 0x7f ∷ 0x80 ∷ 0x0 ∷ 0x7f ∷ 0x80 ∷ 0x0 ∷ 0x7f ∷ 0x80 ∷ 0x0 ∷ 0x7f
    ∷ 0x80 ∷ 0x0 ∷ 0x7f ∷ 0x80 ∷ 0x0 ∷ 0x7f ∷ 0x80 ∷ 0x0 ∷ 0x7f ∷ 0x80 ∷ 0x0 ∷ 0x7f ∷ 0x80 ∷ 0x0
    ∷ 0x7f ∷ 0x80 ∷ 0x0 ∷ 0x7f ∷ 0x80 ∷ 0x0 ∷ 0x7f ∷ 0x80 ∷ 0x0 ∷ 0x7f ∷ 0x80 ∷ 0x0 ∷ 0x7f ∷ 0x80
    ∷ 0x0 ∷ 0x7f ∷ 0x80 ∷ 0x0 ∷ 0x7f ∷ 0x80 ∷ 0x0 ∷ 0x7f ∷ 0x80 ∷ 0x0 ∷ 0x7f ∷ 0x80 ∷ 0x0 ∷ 0x7f
    ∷ 0x80 ∷ 0x0 ∷ 0x7f ∷ 0xff ∷ 0xfc ∷ 0x7f ∷ 0xff ∷ 0xfc ∷ 0x7f ∷ 0xff ∷ 0xfc ∷ 0x6a ∷ 0xaa ∷ 0xa8
    ∷ []

unfoldable pub u_005c : List ℕ
u_005c =
    0x3f ∷ 0xc0 ∷ 0x0 ∷ 0x0 ∷ 0x3 ∷ 0xfd ∷ 0x0 ∷ 0x0 ∷ 0x0 ∷ 0x1f ∷ 0xf0 ∷ 0x0 ∷ 0x0 ∷ 0x0 ∷ 0xff
    ∷ 0x0 ∷ 0x0 ∷ 0x0 ∷ 0xb ∷ 0xf8 ∷ 0x0 ∷ 0x0 ∷ 0x0 ∷ 0x7f ∷ 0xc0 ∷ 0x0 ∷ 0x0 ∷ 0x3 ∷ 0xfd ∷ 0x0
    ∷ 0x0 ∷ 0x0 ∷ 0x2f ∷ 0xe0 ∷ 0x0 ∷ 0x0 ∷ 0x0 ∷ 0xff ∷ 0x0 ∷ 0x0 ∷ 0x0 ∷ 0xf ∷ 0xf4 ∷ 0x0 ∷ 0x0
    ∷ 0x0 ∷ 0x7f ∷ 0xc0 ∷ 0x0 ∷ 0x0 ∷ 0x3 ∷ 0xfc ∷ 0x0 ∷ 0x0 ∷ 0x0 ∷ 0x2f ∷ 0xe0 ∷ 0x0 ∷ 0x0 ∷ 0x1
    ∷ 0xff ∷ 0x0 ∷ 0x0 ∷ 0x0 ∷ 0xf ∷ 0xf4 ∷ 0x0 ∷ 0x0 ∷ 0x0 ∷ 0xbf ∷ 0x80 ∷ 0x0 ∷ 0x0 ∷ 0x3 ∷ 0xfc
    ∷ 0x0 ∷ 0x0 ∷ 0x0 ∷ 0x3f ∷ 0xd0 ∷ 0x0 ∷ 0x0 ∷ 0x1 ∷ 0xff ∷ 0x0 ∷ 0x0 ∷ 0x0 ∷ 0xf ∷ 0xf0 ∷ 0x0
    ∷ 0x0 ∷ 0x0 ∷ 0xbf ∷ 0x80 ∷ 0x0 ∷ 0x0 ∷ 0x7 ∷ 0xfc ∷ 0x0 ∷ 0x0 ∷ 0x0 ∷ 0x3f ∷ 0xd0 ∷ 0x0 ∷ 0x0
    ∷ 0x2 ∷ 0xfe ∷ 0x0 ∷ 0x0 ∷ 0x0 ∷ 0xf ∷ 0xf0 ∷ 0x0 ∷ 0x0 ∷ 0x0 ∷ 0xff ∷ 0x40 ∷ 0x0 ∷ 0x0 ∷ 0x7
    ∷ 0xfc ∷ 0x0 ∷ 0x0 ∷ 0x0 ∷ 0x3f ∷ 0xc0 ∷ 0x0 ∷ 0x0 ∷ 0x3 ∷ 0xfe ∷ 0x0 ∷ 0x0 ∷ 0x0 ∷ 0x1f ∷ 0xf0
    ∷ 0x0 ∷ 0x0 ∷ 0x0 ∷ 0xff ∷ 0x40 ∷ 0x0 ∷ 0x0 ∷ 0xb ∷ 0xf8 ∷ 0x0 ∷ 0x0 ∷ 0x0 ∷ 0x7f ∷ 0xc0 ∷ 0x0
    ∷ 0x0 ∷ 0x3 ∷ 0xfd ∷ []

unfoldable pub u_005d : List ℕ
u_005d =
    0xbf ∷ 0xff ∷ 0xfe ∷ 0xff ∷ 0xff ∷ 0xfb ∷ 0xff ∷ 0xff ∷ 0xda ∷ 0xaa ∷ 0xff ∷ 0x0 ∷ 0x7 ∷ 0xfc
    ∷ 0x0 ∷ 0x1f ∷ 0xf0 ∷ 0x0 ∷ 0x7f ∷ 0xc0 ∷ 0x1 ∷ 0xff ∷ 0x0 ∷ 0x7 ∷ 0xfc ∷ 0x0 ∷ 0x1f ∷ 0xf0
    ∷ 0x0 ∷ 0x7f ∷ 0xc0 ∷ 0x1 ∷ 0xff ∷ 0x0 ∷ 0x7 ∷ 0xfc ∷ 0x0 ∷ 0x1f ∷ 0xf0 ∷ 0x0 ∷ 0x7f ∷ 0xc0
    ∷ 0x1 ∷ 0xff ∷ 0x0 ∷ 0x7 ∷ 0xfc ∷ 0x0 ∷ 0x1f ∷ 0xf0 ∷ 0x0 ∷ 0x7f ∷ 0xc0 ∷ 0x1 ∷ 0xff ∷ 0x0 ∷ 0x7
    ∷ 0xfc ∷ 0x0 ∷ 0x1f ∷ 0xf0 ∷ 0x0 ∷ 0x7f ∷ 0xc0 ∷ 0x1 ∷ 0xff ∷ 0x0 ∷ 0x7 ∷ 0xfc ∷ 0x0 ∷ 0x1f
    ∷ 0xf0 ∷ 0x0 ∷ 0x7f ∷ 0xc0 ∷ 0x1 ∷ 0xff ∷ 0x0 ∷ 0x7 ∷ 0xfc ∷ 0x0 ∷ 0x1f ∷ 0xf0 ∷ 0x0 ∷ 0x7f
    ∷ 0xc0 ∷ 0x1 ∷ 0xff ∷ 0x0 ∷ 0x7 ∷ 0xfc ∷ 0x0 ∷ 0x1f ∷ 0xf0 ∷ 0x0 ∷ 0x7f ∷ 0xc0 ∷ 0x1 ∷ 0xff
    ∷ 0x0 ∷ 0x7 ∷ 0xfc ∷ 0x0 ∷ 0x1f ∷ 0xfb ∷ 0xff ∷ 0xff ∷ 0xef ∷ 0xff ∷ 0xff ∷ 0xbf ∷ 0xff ∷ 0xfd
    ∷ 0xaa ∷ 0xaa ∷ 0x90 ∷ []

unfoldable pub u_005e : List ℕ
u_005e =
    0x0 ∷ 0x0 ∷ 0x1f ∷ 0x80 ∷ 0x0 ∷ 0x0 ∷ 0x0 ∷ 0x0 ∷ 0xff ∷ 0x0 ∷ 0x0 ∷ 0x0 ∷ 0x0 ∷ 0x7 ∷ 0xfe
    ∷ 0x0 ∷ 0x0 ∷ 0x0 ∷ 0x0 ∷ 0x3f ∷ 0xfc ∷ 0x0 ∷ 0x0 ∷ 0x0 ∷ 0x1 ∷ 0xff ∷ 0xf8 ∷ 0x0 ∷ 0x0 ∷ 0x0
    ∷ 0xf ∷ 0xff ∷ 0xf0 ∷ 0x0 ∷ 0x0 ∷ 0x0 ∷ 0x7f ∷ 0x5f ∷ 0xe0 ∷ 0x0 ∷ 0x0 ∷ 0x3 ∷ 0xfc ∷ 0x3f
    ∷ 0xc0 ∷ 0x0 ∷ 0x0 ∷ 0x1f ∷ 0xe0 ∷ 0x7f ∷ 0x80 ∷ 0x0 ∷ 0x0 ∷ 0xff ∷ 0x0 ∷ 0xff ∷ 0x0 ∷ 0x0 ∷ 0x7
    ∷ 0xf8 ∷ 0x1 ∷ 0xfe ∷ 0x0 ∷ 0x0 ∷ 0x2f ∷ 0xc0 ∷ 0x3 ∷ 0xfc ∷ 0x0 ∷ 0x0 ∷ 0xfe ∷ 0x0 ∷ 0x7 ∷ 0xf8
    ∷ 0x0 ∷ 0xb ∷ 0xf0 ∷ 0x0 ∷ 0xf ∷ 0xf0 ∷ 0x0 ∷ 0x3f ∷ 0xc0 ∷ 0x0 ∷ 0x1f ∷ 0xe0 ∷ 0x2 ∷ 0xfd ∷ 0x0
    ∷ 0x0 ∷ 0x3f ∷ 0xc0 ∷ 0xf ∷ 0xf0 ∷ 0x0 ∷ 0x0 ∷ 0x7f ∷ 0x80 ∷ 0xbf ∷ 0x40 ∷ 0x0 ∷ 0x0 ∷ 0xff
    ∷ 0x3 ∷ 0xfc ∷ 0x0 ∷ 0x0 ∷ 0x1 ∷ 0xfe ∷ 0x2f ∷ 0xd0 ∷ 0x0 ∷ 0x0 ∷ 0x3 ∷ 0xfc ∷ []

unfoldable pub u_005f : List ℕ
u_005f =
    0x0 ∷ 0x0 ∷ 0x0 ∷ 0x0 ∷ 0x0 ∷ 0x0 ∷ 0xff ∷ 0xff ∷ 0xff ∷ 0xff ∷ 0xff ∷ 0xc3 ∷ 0xff ∷ 0xff ∷ 0xff
    ∷ 0xff ∷ 0xff ∷ 0xf ∷ 0xff ∷ 0xff ∷ 0xff ∷ 0xff ∷ 0xfc ∷ []
