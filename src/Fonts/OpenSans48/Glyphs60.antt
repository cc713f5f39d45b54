-- ===== src/Fonts/OpenSans48/Glyphs60.antt =====
-- The bytes of `glyph_bitmap` in fonts/open_sans_48.c, a list for each glyph, from U+0060 to U+006F.
use popcorn.Prelude.{ℕ, List, [], ◌∷◌}

unfoldable pub u_0060 : List ℕ
u_0060 =
    0x2a ∷ 0xa0 ∷ 0x0 ∷ 0xbf ∷ 0xe0 ∷ 0x0 ∷ 0xff ∷ 0xd0 ∷ 0x0 ∷ 0xff ∷ 0xc0 ∷ 0x0 ∷ 0xff ∷ 0x80
    ∷ 0x0 ∷ 0xff ∷ 0x40 ∷ 0x0 ∷ 0xff ∷ 0x0 ∷ 0x0 ∷ 0xbf ∷ []

unfoldable pub u_0061 : List ℕ
u_0061 =
    0x0 ∷ 0x6 ∷ 0xff ∷ 0xf8 ∷ 0x0 ∷ 0x0 ∷ 0xbf ∷ 0xff ∷ 0xff ∷ 0x80 ∷ 0x2 ∷ 0xff ∷ 0xff ∷ 0xff
    ∷ 0xe0 ∷ 0x0 ∷ 0xff ∷ 0xea ∷ 0xff ∷ 0xf4 ∷ 0x0 ∷ 0xa4 ∷ 0x0 ∷ 0x1f ∷ 0xfc ∷ 0x0 ∷ 0x0 ∷ 0x0
    ∷ 0xb ∷ 0xfc ∷ 0x0 ∷ 0x0 ∷ 0x0 ∷ 0x7 ∷ 0xfd ∷ 0x0 ∷ 0x0 ∷ 0x0 ∷ 0x3 ∷ 0xfd ∷ 0x0 ∷ 0x0 ∷ 0x0
    ∷ 0x3 ∷ 0xfd ∷ 0x0 ∷ 0x0 ∷ 0x0 ∷ 0x3 ∷ 0xfd ∷ 0x0 ∷ 0x6 ∷ 0xff ∷ 0xff ∷ 0xfd ∷ 0x0 ∷ 0xbf ∷ 0xff
    ∷ 0xff ∷ 0xfd ∷ 0x3 ∷ 0xff ∷ 0xff ∷ 0xff ∷ 0xfd ∷ 0xf ∷ 0xff ∷ 0x80 ∷ 0x3 ∷ 0xfd ∷ 0x1f ∷ 0xfc
    ∷ 0x0 ∷ 0x3 ∷ 0xfd ∷ 0x3f ∷ 0xf0 ∷ 0x0 ∷ 0x3 ∷ 0xfd ∷ 0x3f ∷ 0xe0 ∷ 0x0 ∷ 0x3 ∷ 0xfd ∷ 0x3f
    ∷ 0xe0 ∷ 0x0 ∷ 0x3 ∷ 0xfd ∷ 0x3f ∷ 0xe0 ∷ 0x0 ∷ 0x7 ∷ 0xfd ∷ 0x3f ∷ 0xe0 ∷ 0x0 ∷ 0xf ∷ 0xfd
    ∷ 0x3f ∷ 0xf0 ∷ 0x0 ∷ 0x2f ∷ 0xfd ∷ 0x2f ∷ 0xf8 ∷ 0x0 ∷ 0xbf ∷ 0xfd ∷ 0xf ∷ 0xff ∷ 0xab ∷ 0xfa
    ∷ 0xfd ∷ 0xb ∷ 0xff ∷ 0xff ∷ 0xf1 ∷ 0xfd ∷ 0x2 ∷ 0xff ∷ 0xff ∷ 0x80 ∷ 0xfd ∷ 0x0 ∷ 0x2f ∷ 0xf9
    ∷ 0x0 ∷ 0xfd ∷ []

unfoldable pub u_0062 : List ℕ
u_0062 =
    0x7f ∷ 0xc0 ∷ 0x0 ∷ 0x0 ∷ 0x0 ∷ 0x1f ∷ 0xf0 ∷ 0x0 ∷ 0x0 ∷ 0x0 ∷ 0x7 ∷ 0xfc ∷ 0x0 ∷ 0x0 ∷ 0x0
    ∷ 0x1 ∷ 0xff ∷ 0x0 ∷ 0x0 ∷ 0x0 ∷ 0x0 ∷ 0x7f ∷ 0xc0 ∷ 0x0 ∷ 0x0 ∷ 0x0 ∷ 0x1f ∷ 0xf0 ∷ 0x0 ∷ 0x0
    ∷ 0x0 ∷ 0x7 ∷ 0xfc ∷ 0x0 ∷ 0x0 ∷ 0x0 ∷ 0x1 ∷ 0xff ∷ 0x0 ∷ 0x0 ∷ 0x0 ∷ 0x0 ∷ 0x7f ∷ 0xc0 ∷ 0x0
    ∷ 0x0 ∷ 0x0 ∷ 0x1f ∷ 0xf0 ∷ 0x0 ∷ 0x0 ∷ 0x0 ∷ 0x7 ∷ 0xfc ∷ 0x6 ∷ 0xff ∷ 0x80 ∷ 0x1 ∷ 0xff ∷ 0xf
    ∷ 0xff ∷ 0xfe ∷ 0x0 ∷ 0x7f ∷ 0xcf ∷ 0xff ∷ 0xff ∷ 0xe0 ∷ 0x1f ∷ 0xfb ∷ 0xff ∷ 0xff ∷ 0xfe ∷ 0x7
    ∷ 0xff ∷ 0xe0 ∷ 0x2 ∷ 0xff ∷ 0xc1 ∷ 0xff ∷ 0xe0 ∷ 0x0 ∷ 0x2f ∷ 0xf8 ∷ 0x7f ∷ 0xf0 ∷ 0x0 ∷ 0x3
    ∷ 0xff ∷ 0x1f ∷ 0xf8 ∷ 0x0 ∷ 0x0 ∷ 0x7f ∷ 0xc7 ∷ 0xfd ∷ 0x0 ∷ 0x0 ∷ 0xf ∷ 0xf5 ∷ 0xff ∷ 0x0
    ∷ 0x0 ∷ 0x3 ∷ 0xfe ∷ 0x7f ∷ 0xc0 ∷ 0x0 ∷ 0x0 ∷ 0xff ∷ 0x9f ∷ 0xf0 ∷ 0x0 ∷ 0x0 ∷ 0x3f ∷ 0xf7
    ∷ 0xfc ∷ 0x0 ∷ 0x0 ∷ 0xf ∷ 0xfd ∷ 0xff ∷ 0x0 ∷ 0x0 ∷ 0x3 ∷ 0xff ∷ 0x7f ∷ 0xc0 ∷ 0x0 ∷ 0x0 ∷ 0xff
    ∷ 0xdf ∷ 0xf0 ∷ 0x0 ∷ 0x0 ∷ 0x3f ∷ 0xe7 ∷ 0xfc ∷ 0x0 ∷ 0x0 ∷ 0xf ∷ 0xf9 ∷ 0xff ∷ 0x40 ∷ 0x0
    ∷ 0x3 ∷ 0xfd ∷ 0x7f ∷ 0xe0 ∷ 0x0 ∷ 0x2 ∷ 0xff ∷ 0x1f ∷ 0xfc ∷ 0x0 ∷ 0x0 ∷ 0xff ∷ 0xc7 ∷ 0xff
    ∷ 0x80 ∷ 0x0 ∷ 0xbf ∷ 0xe1 ∷ 0xff ∷ 0xf8 ∷ 0x0 ∷ 0xbf ∷ 0xf0 ∷ 0x7f ∷ 0xff ∷ 0xff ∷ 0xff ∷ 0xf8
    ∷ 0x1f ∷ 0xd3 ∷ 0xff ∷ 0xff ∷ 0xf8 ∷ 0x7 ∷ 0xf4 ∷ 0x3f ∷ 0xff ∷ 0xf8 ∷ 0x1 ∷ 0xfc ∷ 0x1 ∷ 0xbf
    ∷ 0xe0 ∷ 0x0 ∷ []

unfoldable pub u_0063 : List ℕ
u_0063 =
    0x0 ∷ 0x2 ∷ 0xff ∷ 0xf9 ∷ 0x0 ∷ 0x2 ∷ 0xff ∷ 0xff ∷ 0xfc ∷ 0x0 ∷ 0xff ∷ 0xff ∷ 0xff ∷ 0x80
    ∷ 0x3f ∷ 0xff ∷ 0xff ∷ 0xf0 ∷ 0xb ∷ 0xff ∷ 0x40 ∷ 0xa ∷ 0x0 ∷ 0xff ∷ 0xc0 ∷ 0x0 ∷ 0x0 ∷ 0x2f
    ∷ 0xf4 ∷ 0x0 ∷ 0x0 ∷ 0x3 ∷ 0xff ∷ 0x0 ∷ 0x0 ∷ 0x0 ∷ 0x7f ∷ 0xd0 ∷ 0x0 ∷ 0x0 ∷ 0x7 ∷ 0xfc ∷ 0x0
    ∷ 0x0 ∷ 0x0 ∷ 0xbf ∷ 0xc0 ∷ 0x0 ∷ 0x0 ∷ 0xb ∷ 0xfc ∷ 0x0 ∷ 0x0 ∷ 0x0 ∷ 0xbf ∷ 0xc0 ∷ 0x0 ∷ 0x0
    ∷ 0xb ∷ 0xfc ∷ 0x0 ∷ 0x0 ∷ 0x0 ∷ 0xbf ∷ 0xc0 ∷ 0x0 ∷ 0x0 ∷ 0xb ∷ 0xfc ∷ 0x0 ∷ 0x0 ∷ 0x0 ∷ 0xbf
    ∷ 0xc0 ∷ 0x0 ∷ 0x0 ∷ 0x7 ∷ 0xfd ∷ 0x0 ∷ 0x0 ∷ 0x0 ∷ 0x3f ∷ 0xe0 ∷ 0x0 ∷ 0x0 ∷ 0x3 ∷ 0xff ∷ 0x0
    ∷ 0x0 ∷ 0x0 ∷ 0x1f ∷ 0xfc ∷ 0x0 ∷ 0x0 ∷ 0x0 ∷ 0xff ∷ 0xf4 ∷ 0x0 ∷ 0x68 ∷ 0x7 ∷ 0xff ∷ 0xff
    ∷ 0xff ∷ 0x80 ∷ 0x1f ∷ 0xff ∷ 0xff ∷ 0xf8 ∷ 0x0 ∷ 0x3f ∷ 0xff ∷ 0xff ∷ 0x40 ∷ 0x0 ∷ 0x6f ∷ 0xfe
    ∷ 0x40 ∷ []

unfoldable pub u_0064 : List ℕ
u_0064 =
    0x0 ∷ 0x0 ∷ 0x0 ∷ 0x0 ∷ 0xff ∷ 0x80 ∷ 0x0 ∷ 0x0 ∷ 0x0 ∷ 0x3f ∷ 0xe0 ∷ 0x0 ∷ 0x0 ∷ 0x0 ∷ 0xf
    ∷ 0xf8 ∷ 0x0 ∷ 0x0 ∷ 0x0 ∷ 0x3 ∷ 0xfe ∷ 0x0 ∷ 0x0 ∷ 0x0 ∷ 0x0 ∷ 0xff ∷ 0x80 ∷ 0x0 ∷ 0x0 ∷ 0x0
    ∷ 0x3f ∷ 0xe0 ∷ 0x0 ∷ 0x0 ∷ 0x0 ∷ 0xf ∷ 0xf8 ∷ 0x0 ∷ 0x0 ∷ 0x0 ∷ 0x3 ∷ 0xfe ∷ 0x0 ∷ 0x0 ∷ 0x0
    ∷ 0x0 ∷ 0xff ∷ 0x80 ∷ 0x0 ∷ 0x0 ∷ 0x0 ∷ 0x3f ∷ 0xe0 ∷ 0x0 ∷ 0xbf ∷ 0xe4 ∷ 0xf ∷ 0xf8 ∷ 0x2
    ∷ 0xff ∷ 0xff ∷ 0xc3 ∷ 0xfe ∷ 0x2 ∷ 0xff ∷ 0xff ∷ 0xfc ∷ 0xff ∷ 0x81 ∷ 0xff ∷ 0xff ∷ 0xff ∷ 0xff
    ∷ 0xe0 ∷ 0xff ∷ 0xe0 ∷ 0x2 ∷ 0xff ∷ 0xf8 ∷ 0x7f ∷ 0xe0 ∷ 0x0 ∷ 0x2f ∷ 0xfe ∷ 0x3f ∷ 0xf0 ∷ 0x0
    ∷ 0x3 ∷ 0xff ∷ 0x8f ∷ 0xf8 ∷ 0x0 ∷ 0x0 ∷ 0xbf ∷ 0xe7 ∷ 0xfd ∷ 0x0 ∷ 0x0 ∷ 0x1f ∷ 0xfa ∷ 0xff
    ∷ 0x0 ∷ 0x0 ∷ 0x3 ∷ 0xfe ∷ 0xbf ∷ 0xc0 ∷ 0x0 ∷ 0x0 ∷ 0xff ∷ 0xaf ∷ 0xf0 ∷ 0x0 ∷ 0x0 ∷ 0x3f
    ∷ 0xeb ∷ 0xfc ∷ 0x0 ∷ 0x0 ∷ 0xf ∷ 0xfa ∷ 0xff ∷ 0x0 ∷ 0x0 ∷ 0x3 ∷ 0xfe ∷ 0xbf ∷ 0xc0 ∷ 0x0 ∷ 0x0
    ∷ 0xff ∷ 0xaf ∷ 0xf0 ∷ 0x0 ∷ 0x0 ∷ 0x3f ∷ 0xeb ∷ 0xfc ∷ 0x0 ∷ 0x0 ∷ 0xf ∷ 0xf9 ∷ 0xff ∷ 0x40
    ∷ 0x0 ∷ 0x3 ∷ 0xfe ∷ 0x3f ∷ 0xe0 ∷ 0x0 ∷ 0x1 ∷ 0xff ∷ 0x8f ∷ 0xfc ∷ 0x0 ∷ 0x0 ∷ 0xff ∷ 0xe2
    ∷ 0xff ∷ 0x80 ∷ 0x0 ∷ 0x7f ∷ 0xf8 ∷ 0x3f ∷ 0xf8 ∷ 0x0 ∷ 0xbf ∷ 0xfe ∷ 0x7 ∷ 0xff ∷ 0xfb ∷ 0xff
    ∷ 0xbf ∷ 0x80 ∷ 0xbf ∷ 0xff ∷ 0xff ∷ 0x1f ∷ 0xe0 ∷ 0xb ∷ 0xff ∷ 0xff ∷ 0x7 ∷ 0xf8 ∷ 0x0 ∷ 0x2f
    ∷ 0xf9 ∷ 0x0 ∷ 0xfe ∷ []

unfoldable pub u_0065 : List ℕ
u_0065 =
    0x0 ∷ 0x6 ∷ 0xff ∷ 0xe0 ∷ 0x0 ∷ 0x0 ∷ 0x3f ∷ 0xff ∷ 0xfe ∷ 0x0 ∷ 0x1 ∷ 0xff ∷ 0xff ∷ 0xff ∷ 0x80
    ∷ 0x3 ∷ 0xff ∷ 0xea ∷ 0xff ∷ 0xe0 ∷ 0xf ∷ 0xfd ∷ 0x0 ∷ 0x2f ∷ 0xf0 ∷ 0x1f ∷ 0xf4 ∷ 0x0 ∷ 0xf
    ∷ 0xf8 ∷ 0x2f ∷ 0xf0 ∷ 0x0 ∷ 0x7 ∷ 0xfc ∷ 0x3f ∷ 0xd0 ∷ 0x0 ∷ 0x3 ∷ 0xfd ∷ 0x7f ∷ 0xc0 ∷ 0x0
    ∷ 0x3 ∷ 0xfe ∷ 0x7f ∷ 0xc0 ∷ 0x0 ∷ 0x2 ∷ 0xfe ∷ 0xbf ∷ 0xd5 ∷ 0x55 ∷ 0x57 ∷ 0xfe ∷ 0xbf ∷ 0xff
    ∷ 0xff ∷ 0xff ∷ 0xfe ∷ 0xbf ∷ 0xff ∷ 0xff ∷ 0xff ∷ 0xfe ∷ 0xbf ∷ 0xff ∷ 0xff ∷ 0xff ∷ 0xfe
    ∷ 0xbf ∷ 0xc0 ∷ 0x0 ∷ 0x0 ∷ 0x0 ∷ 0xbf ∷ 0xc0 ∷ 0x0 ∷ 0x0 ∷ 0x0 ∷ 0x7f ∷ 0xc0 ∷ 0x0 ∷ 0x0 ∷ 0x0
    ∷ 0x7f ∷ 0xd0 ∷ 0x0 ∷ 0x0 ∷ 0x0 ∷ 0x3f ∷ 0xe0 ∷ 0x0 ∷ 0x0 ∷ 0x0 ∷ 0x2f ∷ 0xf0 ∷ 0x0 ∷ 0x0 ∷ 0x0
    ∷ 0xf ∷ 0xfc ∷ 0x0 ∷ 0x0 ∷ 0x0 ∷ 0xb ∷ 0xff ∷ 0x40 ∷ 0x0 ∷ 0xb8 ∷ 0x3 ∷ 0xff ∷ 0xfa ∷ 0xbf
    ∷ 0xf8 ∷ 0x0 ∷ 0xff ∷ 0xff ∷ 0xff ∷ 0xf8 ∷ 0x0 ∷ 0x2f ∷ 0xff ∷ 0xff ∷ 0xf4 ∷ 0x0 ∷ 0x1 ∷ 0xbf
    ∷ 0xfa ∷ 0x0 ∷ []

unfoldable pub u_0066 : List ℕ
u_0066 =
    0x0 ∷ 0x0 ∷ 0xbf ∷ 0xf9 ∷ 0x0 ∷ 0x1 ∷ 0xff ∷ 0xff ∷ 0xc0 ∷ 0x0 ∷ 0xff ∷ 0xff ∷ 0xe0 ∷ 0x0 ∷ 0xff
    ∷ 0xfa ∷ 0xf4 ∷ 0x0 ∷ 0x3f ∷ 0xf0 ∷ 0x0 ∷ 0x0 ∷ 0x1f ∷ 0xf4 ∷ 0x0 ∷ 0x0 ∷ 0xb ∷ 0xfc ∷ 0x0 ∷ 0x0
    ∷ 0x2 ∷ 0xff ∷ 0x0 ∷ 0x0 ∷ 0x0 ∷ 0xbf ∷ 0xc0 ∷ 0x0 ∷ 0x0 ∷ 0x2f ∷ 0xf0 ∷ 0x0 ∷ 0x0 ∷ 0x7f ∷ 0xff
    ∷ 0xff ∷ 0x1 ∷ 0xff ∷ 0xff ∷ 0xff ∷ 0xc0 ∷ 0x7f ∷ 0xff ∷ 0xff ∷ 0xf0 ∷ 0xa ∷ 0xbf ∷ 0xfa ∷ 0xa8
    ∷ 0x0 ∷ 0xb ∷ 0xfc ∷ 0x0 ∷ 0x0 ∷ 0x2 ∷ 0xff ∷ 0x0 ∷ 0x0 ∷ 0x0 ∷ 0xbf ∷ 0xc0 ∷ 0x0 ∷ 0x0 ∷ 0x2f
    ∷ 0xf0 ∷ 0x0 ∷ 0x0 ∷ 0xb ∷ 0xfc ∷ 0x0 ∷ 0x0 ∷ 0x2 ∷ 0xff ∷ 0x0 ∷ 0x0 ∷ 0x0 ∷ 0xbf ∷ 0xc0 ∷ 0x0
    ∷ 0x0 ∷ 0x2f ∷ 0xf0 ∷ 0x0 ∷ 0x0 ∷ 0xb ∷ 0xfc ∷ 0x0 ∷ 0x0 ∷ 0x2 ∷ 0xff ∷ 0x0 ∷ 0x0 ∷ 0x0 ∷ 0xbf
    ∷ 0xc0 ∷ 0x0 ∷ 0x0 ∷ 0x2f ∷ 0xf0 ∷ 0x0 ∷ 0x0 ∷ 0xb ∷ 0xfc ∷ 0x0 ∷ 0x0 ∷ 0x2 ∷ 0xff ∷ 0x0 ∷ 0x0
    ∷ 0x0 ∷ 0xbf ∷ 0xc0 ∷ 0x0 ∷ 0x0 ∷ 0x2f ∷ 0xf0 ∷ 0x0 ∷ 0x0 ∷ 0xb ∷ 0xfc ∷ 0x0 ∷ 0x0 ∷ 0x2 ∷ 0xff
    ∷ 0x0 ∷ 0x0 ∷ 0x0 ∷ 0xbf ∷ 0xc0 ∷ 0x0 ∷ 0x0 ∷ 0x2f ∷ 0xf0 ∷ 0x0 ∷ 0x0 ∷ 0xb ∷ 0xfc ∷ 0x0 ∷ 0x0
    ∷ 0x2 ∷ 0xff ∷ 0x0 ∷ 0x0 ∷ []

unfoldable pub u_0067 : List ℕ
u_0067 =
    0x0 ∷ 0x1 ∷ 0xff ∷ 0xff ∷ 0xff ∷ 0xf4 ∷ 0x0 ∷ 0xbf ∷ 0xff ∷ 0xff ∷ 0xff ∷ 0xd0 ∷ 0xb ∷ 0xff
    ∷ 0xff ∷ 0xff ∷ 0xff ∷ 0x40 ∷ 0x7f ∷ 0xf4 ∷ 0x1f ∷ 0xff ∷ 0x94 ∷ 0x3 ∷ 0xff ∷ 0x0 ∷ 0xf ∷ 0xf8
    ∷ 0x0 ∷ 0x1f ∷ 0xf4 ∷ 0x0 ∷ 0x1f ∷ 0xf0 ∷ 0x0 ∷ 0xbf ∷ 0xc0 ∷ 0x0 ∷ 0x3f ∷ 0xd0 ∷ 0x3 ∷ 0xff
    ∷ 0x0 ∷ 0x0 ∷ 0xff ∷ 0x80 ∷ 0xf ∷ 0xf8 ∷ 0x0 ∷ 0x3 ∷ 0xfe ∷ 0x0 ∷ 0x3f ∷ 0xe0 ∷ 0x0 ∷ 0xf ∷ 0xf8
    ∷ 0x0 ∷ 0xbf ∷ 0xc0 ∷ 0x0 ∷ 0x3f ∷ 0xe0 ∷ 0x1 ∷ 0xff ∷ 0x0 ∷ 0x1 ∷ 0xff ∷ 0x40 ∷ 0x3 ∷ 0xff
    ∷ 0x0 ∷ 0xf ∷ 0xfc ∷ 0x0 ∷ 0xb ∷ 0xff ∷ 0x41 ∷ 0xff ∷ 0xd0 ∷ 0x0 ∷ 0xf ∷ 0xff ∷ 0xff ∷ 0xfe
    ∷ 0x0 ∷ 0x0 ∷ 0xb ∷ 0xff ∷ 0xff ∷ 0xd0 ∷ 0x0 ∷ 0x0 ∷ 0x2f ∷ 0xff ∷ 0xe4 ∷ 0x0 ∷ 0x0 ∷ 0x2 ∷ 0xfc
    ∷ 0x0 ∷ 0x0 ∷ 0x0 ∷ 0x0 ∷ 0x1f ∷ 0xd0 ∷ 0x0 ∷ 0x0 ∷ 0x0 ∷ 0x0 ∷ 0xbf ∷ 0x0 ∷ 0x0 ∷ 0x0 ∷ 0x0
    ∷ 0x3 ∷ 0xfc ∷ 0x0 ∷ 0x0 ∷ 0x0 ∷ 0x0 ∷ 0xb ∷ 0xfd ∷ 0x0 ∷ 0x0 ∷ 0x0 ∷ 0x0 ∷ 0x1f ∷ 0xff ∷ 0xff
    ∷ 0xfe ∷ 0x40 ∷ 0x0 ∷ 0x2f ∷ 0xff ∷ 0xff ∷ 0xff ∷ 0xc0 ∷ 0x0 ∷ 0x7f ∷ 0xff ∷ 0xff ∷ 0xff ∷ 0xc0
    ∷ 0xf ∷ 0xff ∷ 0xff ∷ 0xff ∷ 0xff ∷ 0x40 ∷ 0xff ∷ 0x80 ∷ 0x0 ∷ 0xb ∷ 0xff ∷ 0xf ∷ 0xf4 ∷ 0x0
    ∷ 0x0 ∷ 0xb ∷ 0xfc ∷ 0x7f ∷ 0xc0 ∷ 0x0 ∷ 0x0 ∷ 0x1f ∷ 0xf1 ∷ 0xfe ∷ 0x0 ∷ 0x0 ∷ 0x0 ∷ 0x7f
    ∷ 0xcb ∷ 0xf8 ∷ 0x0 ∷ 0x0 ∷ 0x2 ∷ 0xff ∷ 0x1f ∷ 0xf0 ∷ 0x0 ∷ 0x0 ∷ 0xf ∷ 0xf4 ∷ 0x3f ∷ 0xf0
    ∷ 0x0 ∷ 0x1 ∷ 0xff ∷ 0xc0 ∷ 0xbf ∷ 0xf9 ∷ 0x55 ∷ 0xbf ∷ 0xfd ∷ 0x0 ∷ 0xff ∷ 0xff ∷ 0xff ∷ 0xff
    ∷ 0xd0 ∷ 0x0 ∷ 0xbf ∷ 0xff ∷ 0xff ∷ 0xf8 ∷ 0x0 ∷ 0x0 ∷ 0x1b ∷ 0xff ∷ 0xf9 ∷ 0x0 ∷ 0x0 ∷ []

unfoldable pub u_0068 : List ℕ
u_0068 =
    0x7f ∷ 0xc0 ∷ 0x0 ∷ 0x0 ∷ 0x0 ∷ 0x7f ∷ 0xc0 ∷ 0x0 ∷ 0x0 ∷ 0x0 ∷ 0x7f ∷ 0xc0 ∷ 0x0 ∷ 0x0 ∷ 0x0
    ∷ 0x7f ∷ 0xc0 ∷ 0x0 ∷ 0x0 ∷ 0x0 ∷ 0x7f ∷ 0xc0 ∷ 0x0 ∷ 0x0 ∷ 0x0 ∷ 0x7f ∷ 0xc0 ∷ 0x0 ∷ 0x0 ∷ 0x0
    ∷ 0x7f ∷ 0xc0 ∷ 0x0 ∷ 0x0 ∷ 0x0 ∷ 0x7f ∷ 0xc0 ∷ 0x0 ∷ 0x0 ∷ 0x0 ∷ 0x7f ∷ 0xc0 ∷ 0x0 ∷ 0x0 ∷ 0x0
    ∷ 0x7f ∷ 0xc0 ∷ 0x0 ∷ 0x0 ∷ 0x0 ∷ 0x7f ∷ 0xc0 ∷ 0x6f ∷ 0xf9 ∷ 0x0 ∷ 0x7f ∷ 0xc3 ∷ 0xff ∷ 0xff
    ∷ 0xc0 ∷ 0x7f ∷ 0xcf ∷ 0xff ∷ 0xff ∷ 0xf0 ∷ 0x7f ∷ 0xef ∷ 0xff ∷ 0xff ∷ 0xf8 ∷ 0x7f ∷ 0xff ∷ 0x0
    ∷ 0x2f ∷ 0xfc ∷ 0x7f ∷ 0xfc ∷ 0x0 ∷ 0xb ∷ 0xfd ∷ 0x7f ∷ 0xf0 ∷ 0x0 ∷ 0x3 ∷ 0xfe ∷ 0x7f ∷ 0xe0
    ∷ 0x0 ∷ 0x3 ∷ 0xfe ∷ 0x7f ∷ 0xd0 ∷ 0x0 ∷ 0x3 ∷ 0xfe ∷ 0x7f ∷ 0xd0 ∷ 0x0 ∷ 0x3 ∷ 0xfe ∷ 0x7f
    ∷ 0xc0 ∷ 0x0 ∷ 0x3 ∷ 0xfe ∷ 0x7f ∷ 0xc0 ∷ 0x0 ∷ 0x3 ∷ 0xfe ∷ 0x7f ∷ 0xc0 ∷ 0x0 ∷ 0x3 ∷ 0xfe
    ∷ 0x7f ∷ 0xc0 ∷ 0x0 ∷ 0x3 ∷ 0xfe ∷ 0x7f ∷ 0xc0 ∷ 0x0 ∷ 0x3 ∷ 0xfe ∷ 0x7f ∷ 0xc0 ∷ 0x0 ∷ 0x3
    ∷ 0xfe ∷ 0x7f ∷ 0xc0 ∷ 0x0 ∷ 0x3 ∷ 0xfe ∷ 0x7f ∷ 0xc0 ∷ 0x0 ∷ 0x3 ∷ 0xfe ∷ 0x7f ∷ 0xc0 ∷ 0x0
    ∷ 0x3 ∷ 0xfe ∷ 0x7f ∷ 0xc0 ∷ 0x0 ∷ 0x3 ∷ 0xfe ∷ 0x7f ∷ 0xc0 ∷ 0x0 ∷ 0x3 ∷ 0xfe ∷ 0x7f ∷ 0xc0
    ∷ 0x0 ∷ 0x3 ∷ 0xfe ∷ 0x7f ∷ 0xc0 ∷ 0x0 ∷ 0x3 ∷ 0xfe ∷ 0x7f ∷ 0xc0 ∷ 0x0 ∷ 0x3 ∷ 0xfe ∷ 0x7f
    ∷ 0xc0 ∷ 0x0 ∷ 0x3 ∷ 0xfe ∷ 0x7f ∷ 0xc0 ∷ 0x0 ∷ 0x3 ∷ 0xfe ∷ []

unfoldable pub u_0069 : List ℕ
u_0069 =
    0x2f ∷ 0x4b ∷ 0xfc ∷ 0xff ∷ 0xdb ∷ 0xfd ∷ 0x7f ∷ 0xc1 ∷ 0xa0 ∷ 0x0 ∷ 0x0 ∷ 0x0 ∷ 0x0 ∷ 0x0 ∷ 0x0
    ∷ 0x7f ∷ 0xc7 ∷ 0xfc ∷ 0x7f ∷ 0xc7 ∷ 0xfc ∷ 0x7f ∷ 0xc7 ∷ 0xfc ∷ 0x7f ∷ 0xc7 ∷ 0xfc ∷ 0x7f
    ∷ 0xc7 ∷ 0xfc ∷ 0x7f ∷ 0xc7 ∷ 0xfc ∷ 0x7f ∷ 0xc7 ∷ 0xfc ∷ 0x7f ∷ 0xc7 ∷ 0xfc ∷ 0x7f ∷ 0xc7
    ∷ 0xfc ∷ 0x7f ∷ 0xc7 ∷ 0xfc ∷ 0x7f ∷ 0xc7 ∷ 0xfc ∷ 0x7f ∷ 0xc7 ∷ 0xfc ∷ 0x7f ∷ 0xc7 ∷ 0xfc ∷ []

unfoldable pub u_006a : List ℕ
u_006a =
    0x0 ∷ 0xb ∷ 0xd0 ∷ 0x0 ∷ 0xbf ∷ 0xc0 ∷ 0x3 ∷ 0xff ∷ 0x40 ∷ 0xb ∷ 0xfd ∷ 0x0 ∷ 0x1f ∷ 0xf0 ∷ 0x0
    ∷ 0x1a ∷ 0x0 ∷ 0x0 ∷ 0x0 ∷ 0x0 ∷ 0x0 ∷ 0x0 ∷ 0x0 ∷ 0x0 ∷ 0x0 ∷ 0x0 ∷ 0x0 ∷ 0x0 ∷ 0x1 ∷ 0xff
    ∷ 0x0 ∷ 0x7 ∷ 0xfc ∷ 0x0 ∷ 0x1f ∷ 0xf0 ∷ 0x0 ∷ 0x7f ∷ 0xc0 ∷ 0x1 ∷ 0xff ∷ 0x0 ∷ 0x7 ∷ 0xfc ∷ 0x0
    ∷ 0x1f ∷ 0xf0 ∷ 0x0 ∷ 0x7f ∷ 0xc0 ∷ 0x1 ∷ 0xff ∷ 0x0 ∷ 0x7 ∷ 0xfc ∷ 0x0 ∷ 0x1f ∷ 0xf0 ∷ 0x0
    ∷ 0x7f ∷ 0xc0 ∷ 0x1 ∷ 0xff ∷ 0x0 ∷ 0x7 ∷ 0xfc ∷ 0x0 ∷ 0x1f ∷ 0xf0 ∷ 0x0 ∷ 0x7f ∷ 0xc0 ∷ 0x1
    ∷ 0xff ∷ 0x0 ∷ 0x7 ∷ 0xfc ∷ 0x0 ∷ 0x1f ∷ 0xf0 ∷ 0x0 ∷ 0x7f ∷ 0xc0 ∷ 0x1 ∷ 0xff ∷ 0x0 ∷ 0x7
    ∷ 0xfc ∷ 0x0 ∷ 0x1f ∷ 0xf0 ∷ 0x0 ∷ 0x7f ∷ 0xc0 ∷ 0x1 ∷ 0xff ∷ 0x0 ∷ 0x7 ∷ 0xfc ∷ 0x0 ∷ 0x1f
    ∷ 0xf0 ∷ 0x0 ∷ 0x7f ∷ 0xc0 ∷ 0x1 ∷ 0xff ∷ 0x0 ∷ 0x7 ∷ 0xfc ∷ 0x0 ∷ 0x2f ∷ 0xf0 ∷ 0x0 ∷ 0xff
    ∷ 0xc0 ∷ 0x7 ∷ 0xfe ∷ 0x2f ∷ 0xff ∷ 0xf4 ∷ 0xbf ∷ 0xff ∷ 0xc2 ∷ 0xff ∷ 0xfc ∷ 0x7 ∷ 0xff ∷ 0x40
    ∷ 0x0 ∷ []

unfoldable pub u_006b : List ℕ
u_006b =
    0x7f ∷ 0xc0 ∷ 0x0 ∷ 0x0 ∷ 0x0 ∷ 0x7f ∷ 0xc0 ∷ 0x0 ∷ 0x0 ∷ 0x0 ∷ 0x7f ∷ 0xc0 ∷ 0x0 ∷ 0x0 ∷ 0x0
    ∷ 0x7f ∷ 0xc0 ∷ 0x0 ∷ 0x0 ∷ 0x0 ∷ 0x7f ∷ 0xc0 ∷ 0x0 ∷ 0x0 ∷ 0x0 ∷ 0x7f ∷ 0xc0 ∷ 0x0 ∷ 0x0 ∷ 0x0
    ∷ 0x7f ∷ 0xc0 ∷ 0x0 ∷ 0x0 ∷ 0x0 ∷ 0x7f ∷ 0xc0 ∷ 0x0 ∷ 0x0 ∷ 0x0 ∷ 0x7f ∷ 0xc0 ∷ 0x0 ∷ 0x0 ∷ 0x0
    ∷ 0x7f ∷ 0xc0 ∷ 0x0 ∷ 0x0 ∷ 0x0 ∷ 0x7f ∷ 0xc0 ∷ 0x0 ∷ 0xf ∷ 0xfc ∷ 0x7f ∷ 0xc0 ∷ 0x0 ∷ 0x3f
    ∷ 0xf0 ∷ 0x7f ∷ 0xc0 ∷ 0x0 ∷ 0xbf ∷ 0xd0 ∷ 0x7f ∷ 0xc0 ∷ 0x1 ∷ 0xff ∷ 0x80 ∷ 0x7f ∷ 0xc0 ∷ 0x3
    ∷ 0xfe ∷ 0x0 ∷ 0x7f ∷ 0xc0 ∷ 0xf ∷ 0xfc ∷ 0x0 ∷ 0x7f ∷ 0xc0 ∷ 0x2f ∷ 0xf0 ∷ 0x0 ∷ 0x7f ∷ 0xc0
    ∷ 0x7f ∷ 0xd0 ∷ 0x0 ∷ 0x7f ∷ 0xc0 ∷ 0xff ∷ 0x80 ∷ 0x0 ∷ 0x7f ∷ 0xc3 ∷ 0xff ∷ 0x0 ∷ 0x0 ∷ 0x7f
    ∷ 0xcb ∷ 0xfc ∷ 0x0 ∷ 0x0 ∷ 0x7f ∷ 0xdf ∷ 0xfd ∷ 0x0 ∷ 0x0 ∷ 0x7f ∷ 0xff ∷ 0xff ∷ 0x0 ∷ 0x0
    ∷ 0x7f ∷ 0xff ∷ 0xff ∷ 0x80 ∷ 0x0 ∷ 0x7f ∷ 0xfd ∷ 0xff ∷ 0xc0 ∷ 0x0 ∷ 0x7f ∷ 0xf4 ∷ 0x3f ∷ 0xe0
    ∷ 0x0 ∷ 0x7f ∷ 0xd0 ∷ 0x2f ∷ 0xf4 ∷ 0x0 ∷ 0x7f ∷ 0xc0 ∷ 0xf ∷ 0xfc ∷ 0x0 ∷ 0x7f ∷ 0xc0 ∷ 0x7
    ∷ 0xfd ∷ 0x0 ∷ 0x7f ∷ 0xc0 ∷ 0x3 ∷ 0xff ∷ 0x0 ∷ 0x7f ∷ 0xc0 ∷ 0x1 ∷ 0xff ∷ 0x80 ∷ 0x7f ∷ 0xc0
    ∷ 0x0 ∷ 0xff ∷ 0xc0 ∷ 0x7f ∷ 0xc0 ∷ 0x0 ∷ 0x3f ∷ 0xf0 ∷ 0x7f ∷ 0xc0 ∷ 0x0 ∷ 0x2f ∷ 0xf4 ∷ 0x7f
    ∷ 0xc0 ∷ 0x0 ∷ 0xf ∷ 0xfc ∷ 0x7f ∷ 0xc0 ∷ 0x0 ∷ 0xb ∷ 0xfe ∷ []

unfoldable pub u_006c : List ℕ
u_006c =
    0x7f ∷ 0xc7 ∷ 0xfc ∷ 0x7f ∷ 0xc7 ∷ 0xfc ∷ 0x7f ∷ 0xc7 ∷ 0xfc ∷ 0x7f ∷ 0xc7 ∷ 0xfc ∷ 0x7f ∷ 0xc7
    ∷ 0xfc ∷ 0x7f ∷ 0xc7 ∷ 0xfc ∷ 0x7f ∷ 0xc7 ∷ 0xfc ∷ 0x7f ∷ 0xc7 ∷ 0xfc ∷ 0x7f ∷ 0xc7 ∷ 0xfc
    ∷ 0x7f ∷ 0xc7 ∷ 0xfc ∷ 0x7f ∷ 0xc7 ∷ 0xfc ∷ 0x7f ∷ 0xc7 ∷ 0xfc ∷ 0x7f ∷ 0xc7 ∷ 0xfc ∷ 0x7f
    ∷ 0xc7 ∷ 0xfc ∷ 0x7f ∷ 0xc7 ∷ 0xfc ∷ 0x7f ∷ 0xc7 ∷ 0xfc ∷ 0x7f ∷ 0xc7 ∷ 0xfc ∷ 0x7f ∷ 0xc7
    ∷ 0xfc ∷ []

unfoldable pub u_006d : List ℕ
u_006d =
    0x7f ∷ 0x0 ∷ 0x6f ∷ 0xf8 ∷ 0x0 ∷ 0xb ∷ 0xff ∷ 0x40 ∷ 0x1f ∷ 0xd0 ∷ 0xff ∷ 0xff ∷ 0xd0 ∷ 0x1f
    ∷ 0xff ∷ 0xfd ∷ 0x7 ∷ 0xf4 ∷ 0xff ∷ 0xff ∷ 0xfd ∷ 0x1f ∷ 0xff ∷ 0xff ∷ 0xc1 ∷ 0xfe ∷ 0xff ∷ 0xff
    ∷ 0xff ∷ 0xcf ∷ 0xff ∷ 0xff ∷ 0xfc ∷ 0x7f ∷ 0xfe ∷ 0x0 ∷ 0x7f ∷ 0xff ∷ 0xe0 ∷ 0x7 ∷ 0xff ∷ 0x1f
    ∷ 0xfe ∷ 0x0 ∷ 0x7 ∷ 0xff ∷ 0xd0 ∷ 0x0 ∷ 0xbf ∷ 0xd7 ∷ 0xff ∷ 0x0 ∷ 0x0 ∷ 0xff ∷ 0xf0 ∷ 0x0
    ∷ 0xf ∷ 0xf9 ∷ 0xff ∷ 0x80 ∷ 0x0 ∷ 0x3f ∷ 0xf4 ∷ 0x0 ∷ 0x3 ∷ 0xfe ∷ 0x7f ∷ 0xd0 ∷ 0x0 ∷ 0xb
    ∷ 0xfc ∷ 0x0 ∷ 0x0 ∷ 0xbf ∷ 0xdf ∷ 0xf0 ∷ 0x0 ∷ 0x2 ∷ 0xff ∷ 0x0 ∷ 0x0 ∷ 0x2f ∷ 0xf7 ∷ 0xfc
    ∷ 0x0 ∷ 0x0 ∷ 0xbf ∷ 0xc0 ∷ 0x0 ∷ 0xb ∷ 0xfd ∷ 0xff ∷ 0x0 ∷ 0x0 ∷ 0x2f ∷ 0xf0 ∷ 0x0 ∷ 0x2 ∷ 0xff
    ∷ 0x7f ∷ 0xc0 ∷ 0x0 ∷ 0xb ∷ 0xfc ∷ 0x0 ∷ 0x0 ∷ 0xbf ∷ 0xdf ∷ 0xf0 ∷ 0x0 ∷ 0x2 ∷ 0xff ∷ 0x0 ∷ 0x0
    ∷ 0x2f ∷ 0xf7 ∷ 0xfc ∷ 0x0 ∷ 0x0 ∷ 0xbf ∷ 0xc0 ∷ 0x0 ∷ 0xb ∷ 0xfd ∷ 0xff ∷ 0x0 ∷ 0x0 ∷ 0x2f
    ∷ 0xf0 ∷ 0x0 ∷ 0x2 ∷ 0xff ∷ 0x7f ∷ 0xc0 ∷ 0x0 ∷ 0xb ∷ 0xfc ∷ 0x0 ∷ 0x0 ∷ 0xbf ∷ 0xdf ∷ 0xf0
    ∷ 0x0 ∷ 0x2 ∷ 0xff ∷ 0x0 ∷ 0x0 ∷ 0x2f ∷ 0xf7 ∷ 0xfc ∷ 0x0 ∷ 0x0 ∷ 0xbf ∷ 0xc0 ∷ 0x0 ∷ 0xb ∷ 0xfd
    ∷ 0xff ∷ 0x0 ∷ 0x0 ∷ 0x2f ∷ 0xf0 ∷ 0x0 ∷ 0x2 ∷ 0xff ∷ 0x7f ∷ 0xc0 ∷ 0x0 ∷ 0xb ∷ 0xfc ∷ 0x0 ∷ 0x0
    ∷ 0xbf ∷ 0xdf ∷ 0xf0 ∷ 0x0 ∷ 0x2 ∷ 0xff ∷ 0x0 ∷ 0x0 ∷ 0x2f ∷ 0xf7 ∷ 0xfc ∷ 0x0 ∷ 0x0 ∷ 0xbf
    ∷ 0xc0 ∷ 0x0 ∷ 0xb ∷ 0xfd ∷ 0xff ∷ 0x0 ∷ 0x0 ∷ 0x2f ∷ 0xf0 ∷ 0x0 ∷ 0x2 ∷ 0xff ∷ 0x7f ∷ 0xc0
    ∷ 0x0 ∷ 0xb ∷ 0xfc ∷ 0x0 ∷ 0x0 ∷ 0xbf ∷ 0xdf ∷ 0xf0 ∷ 0x0 ∷ 0x2 ∷ 0xff ∷ 0x0 ∷ 0x0 ∷ 0x2f ∷ 0xf0
    ∷ []

unfoldable pub u_006e : List ℕ
u_006e =
    0x7f ∷ 0x0 ∷ 0x6f ∷ 0xf9 ∷ 0x0 ∷ 0x7f ∷ 0x43 ∷ 0xff ∷ 0xff ∷ 0xc0 ∷ 0x7f ∷ 0x4f ∷ 0xff ∷ 0xff
    ∷ 0xf0 ∷ 0x7f ∷ 0xaf ∷ 0xff ∷ 0xff ∷ 0xf8 ∷ 0x7f ∷ 0xff ∷ 0x0 ∷ 0x2f ∷ 0xfc ∷ 0x7f ∷ 0xf8 ∷ 0x0
    ∷ 0xb ∷ 0xfd ∷ 0x7f ∷ 0xf0 ∷ 0x0 ∷ 0x3 ∷ 0xfe ∷ 0x7f ∷ 0xe0 ∷ 0x0 ∷ 0x3 ∷ 0xfe ∷ 0x7f ∷ 0xd0
    ∷ 0x0 ∷ 0x3 ∷ 0xfe ∷ 0x7f ∷ 0xd0 ∷ 0x0 ∷ 0x3 ∷ 0xfe ∷ 0x7f ∷ 0xc0 ∷ 0x0 ∷ 0x3 ∷ 0xfe ∷ 0x7f
    ∷ 0xc0 ∷ 0x0 ∷ 0x3 ∷ 0xfe ∷ 0x7f ∷ 0xc0 ∷ 0x0 ∷ 0x3 ∷ 0xfe ∷ 0x7f ∷ 0xc0 ∷ 0x0 ∷ 0x3 ∷ 0xfe
    ∷ 0x7f ∷ 0xc0 ∷ 0x0 ∷ 0x3 ∷ 0xfe ∷ 0x7f ∷ 0xc0 ∷ 0x0 ∷ 0x3 ∷ 0xfe ∷ 0x7f ∷ 0xc0 ∷ 0x0 ∷ 0x3
    ∷ 0xfe ∷ 0x7f ∷ 0xc0 ∷ 0x0 ∷ 0x3 ∷ 0xfe ∷ 0x7f ∷ 0xc0 ∷ 0x0 ∷ 0x3 ∷ 0xfe ∷ 0x7f ∷ 0xc0 ∷ 0x0
    ∷ 0x3 ∷ 0xfe ∷ 0x7f ∷ 0xc0 ∷ 0x0 ∷ 0x3 ∷ 0xfe ∷ 0x7f ∷ 0xc0 ∷ 0x0 ∷ 0x3 ∷ 0xfe ∷ 0x7f ∷ 0xc0
    ∷ 0x0 ∷ 0x3 ∷ 0xfe ∷ 0x7f ∷ 0xc0 ∷ 0x0 ∷ 0x3 ∷ 0xfe ∷ 0x7f ∷ 0xc0 ∷ 0x0 ∷ 0x3 ∷ 0xfe ∷ 0x7f
    ∷ 0xc0 ∷ 0x0 ∷ 0x3 ∷ 0xfe ∷ []

unfoldable pub u_006f : List ℕ
u_006f =
    0x0 ∷ 0x2 ∷ 0xff ∷ 0xe4 ∷ 0x0 ∷ 0x0 ∷ 0x3 ∷ 0xff ∷ 0xff ∷ 0xf4 ∷ 0x0 ∷ 0x0 ∷ 0xff ∷ 0xff ∷ 0xff
    ∷ 0xe0 ∷ 0x0 ∷ 0x3f ∷ 0xff ∷ 0xff ∷ 0xff ∷ 0x40 ∷ 0xf ∷ 0xfe ∷ 0x0 ∷ 0x1f ∷ 0xfc ∷ 0x1 ∷ 0xff
    ∷ 0x80 ∷ 0x0 ∷ 0x7f ∷ 0xe0 ∷ 0x2f ∷ 0xf0 ∷ 0x0 ∷ 0x2 ∷ 0xff ∷ 0x3 ∷ 0xfe ∷ 0x0 ∷ 0x0 ∷ 0xf
    ∷ 0xf4 ∷ 0x7f ∷ 0xd0 ∷ 0x0 ∷ 0x0 ∷ 0xff ∷ 0x87 ∷ 0xfc ∷ 0x0 ∷ 0x0 ∷ 0xb ∷ 0xfc ∷ 0xbf ∷ 0xc0
    ∷ 0x0 ∷ 0x0 ∷ 0xbf ∷ 0xcb ∷ 0xfc ∷ 0x0 ∷ 0x0 ∷ 0x7 ∷ 0xfc ∷ 0xbf ∷ 0xc0 ∷ 0x0 ∷ 0x0 ∷ 0x7f
    ∷ 0xcb ∷ 0xfc ∷ 0x0 ∷ 0x0 ∷ 0x7 ∷ 0xfc ∷ 0xbf ∷ 0xc0 ∷ 0x0 ∷ 0x0 ∷ 0x7f ∷ 0xcb ∷ 0xfc ∷ 0x0
    ∷ 0x0 ∷ 0xb ∷ 0xfc ∷ 0x7f ∷ 0xc0 ∷ 0x0 ∷ 0x0 ∷ 0xbf ∷ 0xc7 ∷ 0xfd ∷ 0x0 ∷ 0x0 ∷ 0xf ∷ 0xf8
    ∷ 0x3f ∷ 0xe0 ∷ 0x0 ∷ 0x0 ∷ 0xff ∷ 0x42 ∷ 0xff ∷ 0x0 ∷ 0x0 ∷ 0x2f ∷ 0xf0 ∷ 0xf ∷ 0xf8 ∷ 0x0
    ∷ 0x7 ∷ 0xfe ∷ 0x0 ∷ 0xbf ∷ 0xe0 ∷ 0x1 ∷ 0xff ∷ 0xc0 ∷ 0x3 ∷ 0xff ∷ 0xfb ∷ 0xff ∷ 0xf4 ∷ 0x0
    ∷ 0xf ∷ 0xff ∷ 0xff ∷ 0xfe ∷ 0x0 ∷ 0x0 ∷ 0x2f ∷ 0xff ∷ 0xff ∷ 0x40 ∷ 0x0 ∷ 0x0 ∷ 0x2f ∷ 0xfe
    ∷ 0x40 ∷ 0x0 ∷ []
