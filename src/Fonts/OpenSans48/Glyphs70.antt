-- ===== src/Fonts/OpenSans48/Glyphs70.antt =====
-- The bytes of `glyph_bitmap` in fonts/open_sans_48.c, a list for each glyph, from U+0070 to U+007E.
use popcorn.Prelude.{ℕ, List, [], ◌∷◌}

unfoldable pub u_0070 : List ℕ
u_0070 =
    0x7f ∷ 0x0 ∷ 0x6f ∷ 0xf8 ∷ 0x0 ∷ 0x1f ∷ 0xd0 ∷ 0xbf ∷ 0xff ∷ 0xe0 ∷ 0x7 ∷ 0xf8 ∷ 0xff ∷ 0xff
    ∷ 0xff ∷ 0x1 ∷ 0xfe ∷ 0xbf ∷ 0xff ∷ 0xff ∷ 0xe0 ∷ 0x7f ∷ 0xfe ∷ 0x0 ∷ 0x2f ∷ 0xfc ∷ 0x1f ∷ 0xfe
    ∷ 0x0 ∷ 0x2 ∷ 0xff ∷ 0x87 ∷ 0xff ∷ 0x0 ∷ 0x0 ∷ 0x3f ∷ 0xf1 ∷ 0xff ∷ 0x80 ∷ 0x0 ∷ 0xb ∷ 0xfd
    ∷ 0x7f ∷ 0xd0 ∷ 0x0 ∷ 0x0 ∷ 0xff ∷ 0x5f ∷ 0xf0 ∷ 0x0 ∷ 0x0 ∷ 0x3f ∷ 0xe7 ∷ 0xfc ∷ 0x0 ∷ 0x0
    ∷ 0xf ∷ 0xf9 ∷ 0xff ∷ 0x0 ∷ 0x0 ∷ 0x3 ∷ 0xff ∷ 0x7f ∷ 0xc0 ∷ 0x0 ∷ 0x0 ∷ 0xff ∷ 0xdf ∷ 0xf0
    ∷ 0x0 ∷ 0x0 ∷ 0x3f ∷ 0xf7 ∷ 0xfc ∷ 0x0 ∷ 0x0 ∷ 0xf ∷ 0xfd ∷ 0xff ∷ 0x0 ∷ 0x0 ∷ 0x3 ∷ 0xfe ∷ 0x7f
    ∷ 0xc0 ∷ 0x0 ∷ 0x0 ∷ 0xff ∷ 0x9f ∷ 0xf4 ∷ 0x0 ∷ 0x0 ∷ 0x7f ∷ 0xd7 ∷ 0xfe ∷ 0x0 ∷ 0x0 ∷ 0x2f
    ∷ 0xf1 ∷ 0xff ∷ 0xc0 ∷ 0x0 ∷ 0xf ∷ 0xfc ∷ 0x7f ∷ 0xfc ∷ 0x0 ∷ 0xb ∷ 0xfe ∷ 0x1f ∷ 0xff ∷ 0xc0
    ∷ 0xb ∷ 0xff ∷ 0x7 ∷ 0xfe ∷ 0xff ∷ 0xff ∷ 0xff ∷ 0x41 ∷ 0xff ∷ 0x3f ∷ 0xff ∷ 0xff ∷ 0x80 ∷ 0x7f
    ∷ 0xc3 ∷ 0xff ∷ 0xff ∷ 0x80 ∷ 0x1f ∷ 0xf0 ∷ 0x1b ∷ 0xfe ∷ 0x0 ∷ 0x7 ∷ 0xfc ∷ 0x0 ∷ 0x0 ∷ 0x0
    ∷ 0x1 ∷ 0xff ∷ 0x0 ∷ 0x0 ∷ 0x0 ∷ 0x0 ∷ 0x7f ∷ 0xc0 ∷ 0x0 ∷ 0x0 ∷ 0x0 ∷ 0x1f ∷ 0xf0 ∷ 0x0 ∷ 0x0
    ∷ 0x0 ∷ 0x7 ∷ 0xfc ∷ 0x0 ∷ 0x0 ∷ 0x0 ∷ 0x1 ∷ 0xff ∷ 0x0 ∷ 0x0 ∷ 0x0 ∷ 0x0 ∷ 0x7f ∷ 0xc0 ∷ 0x0
    ∷ 0x0 ∷ 0x0 ∷ 0x1f ∷ 0xf0 ∷ 0x0 ∷ 0x0 ∷ 0x0 ∷ 0x7 ∷ 0xfc ∷ 0x0 ∷ 0x0 ∷ 0x0 ∷ 0x1 ∷ 0xff ∷ 0x0
    ∷ 0x0 ∷ 0x0 ∷ 0x0 ∷ 0x7f ∷ 0xc0 ∷ 0x0 ∷ 0x0 ∷ 0x0 ∷ 0x0 ∷ []

unfoldable pub u_0071 : List ℕ
u_0071 =
    0x0 ∷ 0xb ∷ 0xfe ∷ 0x40 ∷ 0x7f ∷ 0x80 ∷ 0x1f ∷ 0xff ∷ 0xfc ∷ 0x1f ∷ 0xe0 ∷ 0x2f ∷ 0xff ∷ 0xff
    ∷ 0xcb ∷ 0xf8 ∷ 0x1f ∷ 0xff ∷ 0xff ∷ 0xfe ∷ 0xfe ∷ 0xf ∷ 0xfe ∷ 0x0 ∷ 0x2f ∷ 0xff ∷ 0x87 ∷ 0xfe
    ∷ 0x0 ∷ 0x2 ∷ 0xff ∷ 0xe3 ∷ 0xff ∷ 0x0 ∷ 0x0 ∷ 0x3f ∷ 0xf8 ∷ 0xff ∷ 0x80 ∷ 0x0 ∷ 0xb ∷ 0xfe
    ∷ 0x7f ∷ 0xd0 ∷ 0x0 ∷ 0x1 ∷ 0xff ∷ 0xaf ∷ 0xf0 ∷ 0x0 ∷ 0x0 ∷ 0x3f ∷ 0xeb ∷ 0xfc ∷ 0x0 ∷ 0x0
    ∷ 0xf ∷ 0xfa ∷ 0xff ∷ 0x0 ∷ 0x0 ∷ 0x3 ∷ 0xfe ∷ 0xbf ∷ 0xc0 ∷ 0x0 ∷ 0x0 ∷ 0xff ∷ 0xaf ∷ 0xf0
    ∷ 0x0 ∷ 0x0 ∷ 0x3f ∷ 0xeb ∷ 0xfc ∷ 0x0 ∷ 0x0 ∷ 0xf ∷ 0xfa ∷ 0xff ∷ 0x0 ∷ 0x0 ∷ 0x3 ∷ 0xfe ∷ 0xbf
    ∷ 0xc0 ∷ 0x0 ∷ 0x0 ∷ 0xff ∷ 0x9f ∷ 0xf4 ∷ 0x0 ∷ 0x0 ∷ 0x3f ∷ 0xe3 ∷ 0xfe ∷ 0x0 ∷ 0x0 ∷ 0x2f
    ∷ 0xf8 ∷ 0xff ∷ 0xc0 ∷ 0x0 ∷ 0xf ∷ 0xfe ∷ 0x2f ∷ 0xf8 ∷ 0x0 ∷ 0xb ∷ 0xff ∷ 0x83 ∷ 0xff ∷ 0x80
    ∷ 0xb ∷ 0xff ∷ 0xe0 ∷ 0xbf ∷ 0xff ∷ 0xff ∷ 0xef ∷ 0xf8 ∷ 0xb ∷ 0xff ∷ 0xff ∷ 0xf3 ∷ 0xfe ∷ 0x0
    ∷ 0xbf ∷ 0xff ∷ 0xf0 ∷ 0xff ∷ 0x80 ∷ 0x2 ∷ 0xff ∷ 0x90 ∷ 0x3f ∷ 0xe0 ∷ 0x0 ∷ 0x0 ∷ 0x0 ∷ 0xf
    ∷ 0xf8 ∷ 0x0 ∷ 0x0 ∷ 0x0 ∷ 0x3 ∷ 0xfe ∷ 0x0 ∷ 0x0 ∷ 0x0 ∷ 0x0 ∷ 0xff ∷ 0x80 ∷ 0x0 ∷ 0x0 ∷ 0x0
    ∷ 0x3f ∷ 0xe0 ∷ 0x0 ∷ 0x0 ∷ 0x0 ∷ 0xf ∷ 0xf8 ∷ 0x0 ∷ 0x0 ∷ 0x0 ∷ 0x3 ∷ 0xfe ∷ 0x0 ∷ 0x0 ∷ 0x0
    ∷ 0x0 ∷ 0xff ∷ 0x80 ∷ 0x0 ∷ 0x0 ∷ 0x0 ∷ 0x3f ∷ 0xe0 ∷ 0x0 ∷ 0x0 ∷ 0x0 ∷ 0xf ∷ 0xf8 ∷ 0x0 ∷ 0x0
    ∷ 0x0 ∷ 0x3 ∷ 0xfe ∷ 0x0 ∷ 0x0 ∷ 0x0 ∷ 0x0 ∷ 0xff ∷ 0x80 ∷ []

unfoldable pub u_0072 : List ℕ
u_0072 =
    0x7f ∷ 0x0 ∷ 0x2f ∷ 0xf7 ∷ 0xf4 ∷ 0x2f ∷ 0xff ∷ 0x7f ∷ 0x4b ∷ 0xff ∷ 0xe7 ∷ 0xf9 ∷ 0xff ∷ 0xfe
    ∷ 0x7f ∷ 0xbf ∷ 0xe5 ∷ 0x57 ∷ 0xff ∷ 0xf0 ∷ 0x0 ∷ 0x7f ∷ 0xfc ∷ 0x0 ∷ 0x7 ∷ 0xff ∷ 0x0 ∷ 0x0
    ∷ 0x7f ∷ 0xe0 ∷ 0x0 ∷ 0x7 ∷ 0xfd ∷ 0x0 ∷ 0x0 ∷ 0x7f ∷ 0xc0 ∷ 0x0 ∷ 0x7 ∷ 0xfc ∷ 0x0 ∷ 0x0 ∷ 0x7f
    ∷ 0xc0 ∷ 0x0 ∷ 0x7 ∷ 0xfc ∷ 0x0 ∷ 0x0 ∷ 0x7f ∷ 0xc0 ∷ 0x0 ∷ 0x7 ∷ 0xfc ∷ 0x0 ∷ 0x0 ∷ 0x7f ∷ 0xc0
    ∷ 0x0 ∷ 0x7 ∷ 0xfc ∷ 0x0 ∷ 0x0 ∷ 0x7f ∷ 0xc0 ∷ 0x0 ∷ 0x7 ∷ 0xfc ∷ 0x0 ∷ 0x0 ∷ 0x7f ∷ 0xc0 ∷ 0x0
    ∷ 0x7 ∷ 0xfc ∷ 0x0 ∷ 0x0 ∷ 0x7f ∷ 0xc0 ∷ 0x0 ∷ 0x7 ∷ 0xfc ∷ 0x0 ∷ 0x0 ∷ 0x7f ∷ 0xc0 ∷ 0x0 ∷ 0x7
    ∷ 0xfc ∷ 0x0 ∷ 0x0 ∷ []

unfoldable pub u_0073 : List ℕ
u_0073 =
    0x0 ∷ 0x1b ∷ 0xff ∷ 0x90 ∷ 0x0 ∷ 0x1f ∷ 0xff ∷ 0xff ∷ 0xf4 ∷ 0x7 ∷ 0xff ∷ 0xff ∷ 0xff ∷ 0x40
    ∷ 0xff ∷ 0xfa ∷ 0xbf ∷ 0xf0 ∷ 0x2f ∷ 0xf4 ∷ 0x0 ∷ 0x1e ∷ 0x3 ∷ 0xfe ∷ 0x0 ∷ 0x0 ∷ 0x0 ∷ 0x3f
    ∷ 0xd0 ∷ 0x0 ∷ 0x0 ∷ 0x3 ∷ 0xfd ∷ 0x0 ∷ 0x0 ∷ 0x0 ∷ 0x3f ∷ 0xf0 ∷ 0x0 ∷ 0x0 ∷ 0x1 ∷ 0xff ∷ 0xd0
    ∷ 0x0 ∷ 0x0 ∷ 0xf ∷ 0xff ∷ 0xd0 ∷ 0x0 ∷ 0x0 ∷ 0x3f ∷ 0xff ∷ 0xd0 ∷ 0x0 ∷ 0x0 ∷ 0xbf ∷ 0xff
    ∷ 0xd0 ∷ 0x0 ∷ 0x0 ∷ 0xbf ∷ 0xff ∷ 0x80 ∷ 0x0 ∷ 0x0 ∷ 0xbf ∷ 0xfe ∷ 0x0 ∷ 0x0 ∷ 0x0 ∷ 0xbf
    ∷ 0xf4 ∷ 0x0 ∷ 0x0 ∷ 0x1 ∷ 0xff ∷ 0xc0 ∷ 0x0 ∷ 0x0 ∷ 0xb ∷ 0xfc ∷ 0x0 ∷ 0x0 ∷ 0x0 ∷ 0x7f ∷ 0xc0
    ∷ 0x0 ∷ 0x0 ∷ 0x7 ∷ 0xfc ∷ 0x10 ∷ 0x0 ∷ 0x0 ∷ 0xbf ∷ 0xc3 ∷ 0xe0 ∷ 0x0 ∷ 0x2f ∷ 0xf8 ∷ 0x3f
    ∷ 0xfe ∷ 0xbf ∷ 0xff ∷ 0x3 ∷ 0xff ∷ 0xff ∷ 0xff ∷ 0xd0 ∷ 0x2f ∷ 0xff ∷ 0xff ∷ 0xf4 ∷ 0x0 ∷ 0x1b
    ∷ 0xff ∷ 0xe4 ∷ 0x0 ∷ []

unfoldable pub u_0074 : List ℕ
u_0074 =
    0x0 ∷ 0x1a ∷ 0x0 ∷ 0x0 ∷ 0x0 ∷ 0xfd ∷ 0x0 ∷ 0x0 ∷ 0x3 ∷ 0xf4 ∷ 0x0 ∷ 0x0 ∷ 0x1f ∷ 0xd0 ∷ 0x0
    ∷ 0x0 ∷ 0xbf ∷ 0x40 ∷ 0x0 ∷ 0x3 ∷ 0xfd ∷ 0x0 ∷ 0x0 ∷ 0x7f ∷ 0xff ∷ 0xff ∷ 0x4f ∷ 0xff ∷ 0xff
    ∷ 0xfd ∷ 0x3f ∷ 0xff ∷ 0xff ∷ 0xf4 ∷ 0xab ∷ 0xfe ∷ 0xaa ∷ 0x80 ∷ 0xf ∷ 0xf4 ∷ 0x0 ∷ 0x0 ∷ 0x3f
    ∷ 0xd0 ∷ 0x0 ∷ 0x0 ∷ 0xff ∷ 0x40 ∷ 0x0 ∷ 0x3 ∷ 0xfd ∷ 0x0 ∷ 0x0 ∷ 0xf ∷ 0xf4 ∷ 0x0 ∷ 0x0 ∷ 0x3f
    ∷ 0xd0 ∷ 0x0 ∷ 0x0 ∷ 0xff ∷ 0x40 ∷ 0x0 ∷ 0x3 ∷ 0xfd ∷ 0x0 ∷ 0x0 ∷ 0xf ∷ 0xf4 ∷ 0x0 ∷ 0x0 ∷ 0x3f
    ∷ 0xd0 ∷ 0x0 ∷ 0x0 ∷ 0xff ∷ 0x40 ∷ 0x0 ∷ 0x3 ∷ 0xfd ∷ 0x0 ∷ 0x0 ∷ 0xf ∷ 0xf4 ∷ 0x0 ∷ 0x0 ∷ 0x3f
    ∷ 0xd0 ∷ 0x0 ∷ 0x0 ∷ 0xff ∷ 0x40 ∷ 0x0 ∷ 0x3 ∷ 0xfd ∷ 0x0 ∷ 0x0 ∷ 0xf ∷ 0xf8 ∷ 0x0 ∷ 0x0 ∷ 0x3f
    ∷ 0xf4 ∷ 0x0 ∷ 0x0 ∷ 0xbf ∷ 0xff ∷ 0xf8 ∷ 0x0 ∷ 0xff ∷ 0xff ∷ 0xe0 ∷ 0x1 ∷ 0xff ∷ 0xff ∷ 0x80
    ∷ 0x0 ∷ 0xbf ∷ 0xf8 ∷ []

unfoldable pub u_0075 : List ℕ
u_0075 =
    0xbf ∷ 0xc0 ∷ 0x0 ∷ 0x3 ∷ 0xfe ∷ 0xbf ∷ 0xc0 ∷ 0x0 ∷ 0x3 ∷ 0xfe ∷ 0xbf ∷ 0xc0 ∷ 0x0 ∷ 0x3 ∷ 0xfe
    ∷ 0xbf ∷ 0xc0 ∷ 0x0 ∷ 0x3 ∷ 0xfe ∷ 0xbf ∷ 0xc0 ∷ 0x0 ∷ 0x3 ∷ 0xfe ∷ 0xbf ∷ 0xc0 ∷ 0x0 ∷ 0x3
    ∷ 0xfe ∷ 0xbf ∷ 0xc0 ∷ 0x0 ∷ 0x3 ∷ 0xfe ∷ 0xbf ∷ 0xc0 ∷ 0x0 ∷ 0x3 ∷ 0xfe ∷ 0xbf ∷ 0xc0 ∷ 0x0
    ∷ 0x3 ∷ 0xfe ∷ 0xbf ∷ 0xc0 ∷ 0x0 ∷ 0x3 ∷ 0xfe ∷ 0xbf ∷ 0xc0 ∷ 0x0 ∷ 0x3 ∷ 0xfe ∷ 0xbf ∷ 0xc0
    ∷ 0x0 ∷ 0x3 ∷ 0xfe ∷ 0xbf ∷ 0xc0 ∷ 0x0 ∷ 0x3 ∷ 0xfe ∷ 0xbf ∷ 0xc0 ∷ 0x0 ∷ 0x3 ∷ 0xfe ∷ 0xbf
    ∷ 0xc0 ∷ 0x0 ∷ 0x3 ∷ 0xfe ∷ 0xbf ∷ 0xc0 ∷ 0x0 ∷ 0x3 ∷ 0xfe ∷ 0xbf ∷ 0xc0 ∷ 0x0 ∷ 0x3 ∷ 0xfe
    ∷ 0xbf ∷ 0xc0 ∷ 0x0 ∷ 0x7 ∷ 0xfe ∷ 0xbf ∷ 0xc0 ∷ 0x0 ∷ 0xb ∷ 0xfe ∷ 0x7f ∷ 0xd0 ∷ 0x0 ∷ 0xf
    ∷ 0xfe ∷ 0x3f ∷ 0xf0 ∷ 0x0 ∷ 0x2f ∷ 0xfe ∷ 0x3f ∷ 0xf8 ∷ 0x0 ∷ 0xbf ∷ 0xfe ∷ 0x1f ∷ 0xff ∷ 0xff
    ∷ 0xfe ∷ 0xfe ∷ 0xf ∷ 0xff ∷ 0xff ∷ 0xf1 ∷ 0xfe ∷ 0x2 ∷ 0xff ∷ 0xff ∷ 0xc0 ∷ 0xfe ∷ 0x0 ∷ 0x6f
    ∷ 0xf9 ∷ 0x0 ∷ 0xfe ∷ []

unfoldable pub u_0076 : List ℕ
u_0076 =
    0xbf ∷ 0xc0 ∷ 0x0 ∷ 0x0 ∷ 0x7f ∷ 0xd7 ∷ 0xfc ∷ 0x0 ∷ 0x0 ∷ 0xb ∷ 0xfc ∷ 0x3f ∷ 0xe0 ∷ 0x0 ∷ 0x0
    ∷ 0xff ∷ 0x83 ∷ 0xff ∷ 0x0 ∷ 0x0 ∷ 0xf ∷ 0xf4 ∷ 0x1f ∷ 0xf0 ∷ 0x0 ∷ 0x1 ∷ 0xff ∷ 0x0 ∷ 0xff
    ∷ 0x40 ∷ 0x0 ∷ 0x3f ∷ 0xf0 ∷ 0xf ∷ 0xf8 ∷ 0x0 ∷ 0x3 ∷ 0xfd ∷ 0x0 ∷ 0xbf ∷ 0xc0 ∷ 0x0 ∷ 0x7f
    ∷ 0xc0 ∷ 0x3 ∷ 0xfc ∷ 0x0 ∷ 0xb ∷ 0xfc ∷ 0x0 ∷ 0x3f ∷ 0xe0 ∷ 0x0 ∷ 0xff ∷ 0x40 ∷ 0x2 ∷ 0xff
    ∷ 0x0 ∷ 0xf ∷ 0xf0 ∷ 0x0 ∷ 0x1f ∷ 0xf0 ∷ 0x2 ∷ 0xff ∷ 0x0 ∷ 0x0 ∷ 0xff ∷ 0x40 ∷ 0x3f ∷ 0xe0
    ∷ 0x0 ∷ 0xb ∷ 0xf8 ∷ 0x3 ∷ 0xfc ∷ 0x0 ∷ 0x0 ∷ 0x7f ∷ 0xc0 ∷ 0x7f ∷ 0xc0 ∷ 0x0 ∷ 0x3 ∷ 0xfd ∷ 0xb
    ∷ 0xf8 ∷ 0x0 ∷ 0x0 ∷ 0x2f ∷ 0xe0 ∷ 0xff ∷ 0x40 ∷ 0x0 ∷ 0x1 ∷ 0xff ∷ 0xf ∷ 0xf0 ∷ 0x0 ∷ 0x0 ∷ 0xf
    ∷ 0xf2 ∷ 0xfe ∷ 0x0 ∷ 0x0 ∷ 0x0 ∷ 0xff ∷ 0x7f ∷ 0xd0 ∷ 0x0 ∷ 0x0 ∷ 0x7 ∷ 0xfb ∷ 0xfc ∷ 0x0 ∷ 0x0
    ∷ 0x0 ∷ 0x3f ∷ 0xff ∷ 0x80 ∷ 0x0 ∷ 0x0 ∷ 0x3 ∷ 0xff ∷ 0xf4 ∷ 0x0 ∷ 0x0 ∷ 0x0 ∷ 0x1f ∷ 0xff ∷ 0x0
    ∷ 0x0 ∷ 0x0 ∷ 0x0 ∷ 0xff ∷ 0xe0 ∷ 0x0 ∷ 0x0 ∷ 0x0 ∷ 0xf ∷ 0xfd ∷ 0x0 ∷ 0x0 ∷ []

unfoldable pub u_0077 : List ℕ
u_0077 =
    0x7f ∷ 0xc0 ∷ 0x0 ∷ 0xb ∷ 0xfe ∷ 0x0 ∷ 0x0 ∷ 0x3f ∷ 0xd3 ∷ 0xfd ∷ 0x0 ∷ 0x0 ∷ 0xff ∷ 0xf0 ∷ 0x0
    ∷ 0x7 ∷ 0xfc ∷ 0x3f ∷ 0xe0 ∷ 0x0 ∷ 0xf ∷ 0xff ∷ 0x0 ∷ 0x0 ∷ 0xbf ∷ 0xc2 ∷ 0xff ∷ 0x0 ∷ 0x1
    ∷ 0xff ∷ 0xf4 ∷ 0x0 ∷ 0xf ∷ 0xf8 ∷ 0x1f ∷ 0xf0 ∷ 0x0 ∷ 0x2f ∷ 0xff ∷ 0x80 ∷ 0x0 ∷ 0xff ∷ 0x40
    ∷ 0xff ∷ 0x40 ∷ 0x3 ∷ 0xfb ∷ 0xfc ∷ 0x0 ∷ 0x1f ∷ 0xf0 ∷ 0xf ∷ 0xf8 ∷ 0x0 ∷ 0x3f ∷ 0xaf ∷ 0xc0
    ∷ 0x2 ∷ 0xff ∷ 0x0 ∷ 0xbf ∷ 0x80 ∷ 0x7 ∷ 0xf5 ∷ 0xfd ∷ 0x0 ∷ 0x2f ∷ 0xe0 ∷ 0x7 ∷ 0xfc ∷ 0x0
    ∷ 0xbf ∷ 0xf ∷ 0xe0 ∷ 0x3 ∷ 0xfd ∷ 0x0 ∷ 0x3f ∷ 0xc0 ∷ 0xf ∷ 0xf0 ∷ 0xff ∷ 0x0 ∷ 0x3f ∷ 0xc0
    ∷ 0x3 ∷ 0xfd ∷ 0x0 ∷ 0xfe ∷ 0xf ∷ 0xf0 ∷ 0x7 ∷ 0xfc ∷ 0x0 ∷ 0x2f ∷ 0xe0 ∷ 0x1f ∷ 0xd0 ∷ 0xbf
    ∷ 0x40 ∷ 0xbf ∷ 0x80 ∷ 0x1 ∷ 0xff ∷ 0x2 ∷ 0xfc ∷ 0x7 ∷ 0xf8 ∷ 0xf ∷ 0xf4 ∷ 0x0 ∷ 0xf ∷ 0xf0
    ∷ 0x3f ∷ 0xc0 ∷ 0x3f ∷ 0xc0 ∷ 0xff ∷ 0x0 ∷ 0x0 ∷ 0xff ∷ 0x43 ∷ 0xf8 ∷ 0x3 ∷ 0xfc ∷ 0x1f ∷ 0xf0
    ∷ 0x0 ∷ 0xb ∷ 0xf8 ∷ 0x7f ∷ 0x40 ∷ 0x2f ∷ 0xd2 ∷ 0xfe ∷ 0x0 ∷ 0x0 ∷ 0xbf ∷ 0x8b ∷ 0xf0 ∷ 0x1
    ∷ 0xfe ∷ 0x3f ∷ 0xd0 ∷ 0x0 ∷ 0x7 ∷ 0xfc ∷ 0xff ∷ 0x0 ∷ 0xf ∷ 0xe3 ∷ 0xfc ∷ 0x0 ∷ 0x0 ∷ 0x3f
    ∷ 0xcf ∷ 0xe0 ∷ 0x0 ∷ 0xff ∷ 0x3f ∷ 0xc0 ∷ 0x0 ∷ 0x3 ∷ 0xfd ∷ 0xfd ∷ 0x0 ∷ 0xb ∷ 0xf7 ∷ 0xf8
    ∷ 0x0 ∷ 0x0 ∷ 0x2f ∷ 0xef ∷ 0xc0 ∷ 0x0 ∷ 0x7f ∷ 0xbf ∷ 0x40 ∷ 0x0 ∷ 0x1 ∷ 0xff ∷ 0xfc ∷ 0x0
    ∷ 0x3 ∷ 0xff ∷ 0xf0 ∷ 0x0 ∷ 0x0 ∷ 0xf ∷ 0xff ∷ 0x80 ∷ 0x0 ∷ 0x3f ∷ 0xff ∷ 0x0 ∷ 0x0 ∷ 0x0 ∷ 0xff
    ∷ 0xf4 ∷ 0x0 ∷ 0x2 ∷ 0xff ∷ 0xe0 ∷ 0x0 ∷ 0x0 ∷ 0xb ∷ 0xff ∷ 0x0 ∷ 0x0 ∷ 0x1f ∷ 0xfd ∷ 0x0 ∷ 0x0
    ∷ 0x0 ∷ 0x7f ∷ 0xf0 ∷ 0x0 ∷ 0x0 ∷ 0xff ∷ 0xc0 ∷ 0x0 ∷ []

unfoldable pub u_0078 : List ℕ
u_0078 =
    0x2f ∷ 0xf4 ∷ 0x0 ∷ 0x0 ∷ 0xff ∷ 0xc0 ∷ 0xff ∷ 0xc0 ∷ 0x0 ∷ 0x2f ∷ 0xf0 ∷ 0x7 ∷ 0xfd ∷ 0x0 ∷ 0x3
    ∷ 0xfe ∷ 0x0 ∷ 0x3f ∷ 0xf0 ∷ 0x0 ∷ 0xbf ∷ 0xc0 ∷ 0x1 ∷ 0xff ∷ 0x40 ∷ 0x1f ∷ 0xf8 ∷ 0x0 ∷ 0xf
    ∷ 0xfc ∷ 0x3 ∷ 0xff ∷ 0x0 ∷ 0x0 ∷ 0x3f ∷ 0xe0 ∷ 0x7f ∷ 0xd0 ∷ 0x0 ∷ 0x2 ∷ 0xff ∷ 0xf ∷ 0xfc
    ∷ 0x0 ∷ 0x0 ∷ 0xf ∷ 0xf9 ∷ 0xff ∷ 0x0 ∷ 0x0 ∷ 0x0 ∷ 0x7f ∷ 0xff ∷ 0xe0 ∷ 0x0 ∷ 0x0 ∷ 0x3 ∷ 0xff
    ∷ 0xfc ∷ 0x0 ∷ 0x0 ∷ 0x0 ∷ 0x1f ∷ 0xff ∷ 0x80 ∷ 0x0 ∷ 0x0 ∷ 0x0 ∷ 0xff ∷ 0xf0 ∷ 0x0 ∷ 0x0 ∷ 0x0
    ∷ 0xf ∷ 0xff ∷ 0x0 ∷ 0x0 ∷ 0x0 ∷ 0x2 ∷ 0xff ∷ 0xfc ∷ 0x0 ∷ 0x0 ∷ 0x0 ∷ 0x7f ∷ 0xff ∷ 0xd0 ∷ 0x0
    ∷ 0x0 ∷ 0xf ∷ 0xfe ∷ 0xff ∷ 0x0 ∷ 0x0 ∷ 0x1 ∷ 0xff ∷ 0xf ∷ 0xf8 ∷ 0x0 ∷ 0x0 ∷ 0x3f ∷ 0xe0 ∷ 0xbf
    ∷ 0xc0 ∷ 0x0 ∷ 0xb ∷ 0xfc ∷ 0x3 ∷ 0xfe ∷ 0x0 ∷ 0x0 ∷ 0xff ∷ 0x80 ∷ 0x2f ∷ 0xf4 ∷ 0x0 ∷ 0x2f
    ∷ 0xf0 ∷ 0x0 ∷ 0xff ∷ 0xc0 ∷ 0x7 ∷ 0xfe ∷ 0x0 ∷ 0x7 ∷ 0xfd ∷ 0x0 ∷ 0xff ∷ 0xc0 ∷ 0x0 ∷ 0x3f
    ∷ 0xf0 ∷ 0x1f ∷ 0xf4 ∷ 0x0 ∷ 0x1 ∷ 0xff ∷ 0x83 ∷ 0xff ∷ 0x0 ∷ 0x0 ∷ 0xf ∷ 0xfc ∷ []

unfoldable pub u_0079 : List ℕ
u_0079 =
    0xbf ∷ 0xc0 ∷ 0x0 ∷ 0x0 ∷ 0x7f ∷ 0xd7 ∷ 0xfd ∷ 0x0 ∷ 0x0 ∷ 0xb ∷ 0xfc ∷ 0x3f ∷ 0xe0 ∷ 0x0 ∷ 0x0
    ∷ 0xff ∷ 0xc2 ∷ 0xff ∷ 0x0 ∷ 0x0 ∷ 0xf ∷ 0xf4 ∷ 0x1f ∷ 0xf4 ∷ 0x0 ∷ 0x2 ∷ 0xff ∷ 0x0 ∷ 0xff
    ∷ 0x80 ∷ 0x0 ∷ 0x3f ∷ 0xf0 ∷ 0xb ∷ 0xfc ∷ 0x0 ∷ 0x3 ∷ 0xfd ∷ 0x0 ∷ 0x7f ∷ 0xc0 ∷ 0x0 ∷ 0x7f
    ∷ 0xc0 ∷ 0x3 ∷ 0xfe ∷ 0x0 ∷ 0xb ∷ 0xfc ∷ 0x0 ∷ 0x2f ∷ 0xf0 ∷ 0x0 ∷ 0xff ∷ 0x80 ∷ 0x1 ∷ 0xff
    ∷ 0x0 ∷ 0x1f ∷ 0xf0 ∷ 0x0 ∷ 0xf ∷ 0xf4 ∷ 0x2 ∷ 0xff ∷ 0x0 ∷ 0x0 ∷ 0xbf ∷ 0xc0 ∷ 0x3f ∷ 0xe0
    ∷ 0x0 ∷ 0x7 ∷ 0xfc ∷ 0x3 ∷ 0xfc ∷ 0x0 ∷ 0x0 ∷ 0x3f ∷ 0xd0 ∷ 0x7f ∷ 0xc0 ∷ 0x0 ∷ 0x2 ∷ 0xfe ∷ 0xf
    ∷ 0xf8 ∷ 0x0 ∷ 0x0 ∷ 0x1f ∷ 0xf0 ∷ 0xff ∷ 0x0 ∷ 0x0 ∷ 0x0 ∷ 0xff ∷ 0x1f ∷ 0xf0 ∷ 0x0 ∷ 0x0 ∷ 0xb
    ∷ 0xf6 ∷ 0xfe ∷ 0x0 ∷ 0x0 ∷ 0x0 ∷ 0x7f ∷ 0xbf ∷ 0xd0 ∷ 0x0 ∷ 0x0 ∷ 0x3 ∷ 0xff ∷ 0xfc ∷ 0x0 ∷ 0x0
    ∷ 0x0 ∷ 0x2f ∷ 0xff ∷ 0x80 ∷ 0x0 ∷ 0x0 ∷ 0x0 ∷ 0xff ∷ 0xf4 ∷ 0x0 ∷ 0x0 ∷ 0x0 ∷ 0xf ∷ 0xff ∷ 0x0
    ∷ 0x0 ∷ 0x0 ∷ 0x0 ∷ 0xbf ∷ 0xe0 ∷ 0x0 ∷ 0x0 ∷ 0x0 ∷ 0x7 ∷ 0xfd ∷ 0x0 ∷ 0x0 ∷ 0x0 ∷ 0x0 ∷ 0xbf
    ∷ 0xc0 ∷ 0x0 ∷ 0x0 ∷ 0x0 ∷ 0xf ∷ 0xf8 ∷ 0x0 ∷ 0x0 ∷ 0x0 ∷ 0x0 ∷ 0xff ∷ 0x40 ∷ 0x0 ∷ 0x0 ∷ 0x0
    ∷ 0x2f ∷ 0xf0 ∷ 0x0 ∷ 0x0 ∷ 0x0 ∷ 0x3 ∷ 0xfe ∷ 0x0 ∷ 0x0 ∷ 0x0 ∷ 0x0 ∷ 0xbf ∷ 0xd0 ∷ 0x0 ∷ 0x0
    ∷ 0x0 ∷ 0x2f ∷ 0xfc ∷ 0x0 ∷ 0x0 ∷ 0x3 ∷ 0xff ∷ 0xff ∷ 0x0 ∷ 0x0 ∷ 0x0 ∷ 0x3f ∷ 0xff ∷ 0xd0 ∷ 0x0
    ∷ 0x0 ∷ 0x3 ∷ 0xff ∷ 0xf4 ∷ 0x0 ∷ 0x0 ∷ 0x0 ∷ 0x3f ∷ 0xf8 ∷ 0x0 ∷ 0x0 ∷ 0x0 ∷ 0x0 ∷ []

unfoldable pub u_007a : List ℕ
u_007a =
    0x3f ∷ 0xff ∷ 0xff ∷ 0xff ∷ 0xf ∷ 0xff ∷ 0xff ∷ 0xff ∷ 0xc3 ∷ 0xff ∷ 0xff ∷ 0xff ∷ 0xf0 ∷ 0xaa
    ∷ 0xaa ∷ 0xaf ∷ 0xfc ∷ 0x0 ∷ 0x0 ∷ 0x7 ∷ 0xfd ∷ 0x0 ∷ 0x0 ∷ 0x3 ∷ 0xff ∷ 0x0 ∷ 0x0 ∷ 0x1 ∷ 0xff
    ∷ 0x40 ∷ 0x0 ∷ 0x0 ∷ 0xff ∷ 0xc0 ∷ 0x0 ∷ 0x0 ∷ 0xbf ∷ 0xc0 ∷ 0x0 ∷ 0x0 ∷ 0x3f ∷ 0xe0 ∷ 0x0 ∷ 0x0
    ∷ 0x2f ∷ 0xf0 ∷ 0x0 ∷ 0x0 ∷ 0xf ∷ 0xf8 ∷ 0x0 ∷ 0x0 ∷ 0xb ∷ 0xfc ∷ 0x0 ∷ 0x0 ∷ 0x7 ∷ 0xfe ∷ 0x0
    ∷ 0x0 ∷ 0x3 ∷ 0xff ∷ 0x0 ∷ 0x0 ∷ 0x1 ∷ 0xff ∷ 0x40 ∷ 0x0 ∷ 0x0 ∷ 0xff ∷ 0xc0 ∷ 0x0 ∷ 0x0 ∷ 0x7f
    ∷ 0xd0 ∷ 0x0 ∷ 0x0 ∷ 0x3f ∷ 0xf0 ∷ 0x0 ∷ 0x0 ∷ 0x2f ∷ 0xf0 ∷ 0x0 ∷ 0x0 ∷ 0xf ∷ 0xf8 ∷ 0x0 ∷ 0x0
    ∷ 0xb ∷ 0xfc ∷ 0x0 ∷ 0x0 ∷ 0x3 ∷ 0xff ∷ 0xaa ∷ 0xaa ∷ 0xa6 ∷ 0xff ∷ 0xff ∷ 0xff ∷ 0xfe ∷ 0xbf
    ∷ 0xff ∷ 0xff ∷ 0xff ∷ 0xaf ∷ 0xff ∷ 0xff ∷ 0xff ∷ 0xe0 ∷ []

unfoldable pub u_007b : List ℕ
u_007b =
    0x0 ∷ 0x0 ∷ 0x6 ∷ 0xfc ∷ 0x0 ∷ 0x0 ∷ 0x7f ∷ 0xfc ∷ 0x0 ∷ 0x2 ∷ 0xff ∷ 0xfc ∷ 0x0 ∷ 0x7 ∷ 0xff
    ∷ 0xe8 ∷ 0x0 ∷ 0xb ∷ 0xfd ∷ 0x0 ∷ 0x0 ∷ 0xf ∷ 0xf8 ∷ 0x0 ∷ 0x0 ∷ 0xf ∷ 0xf0 ∷ 0x0 ∷ 0x0 ∷ 0xf
    ∷ 0xf0 ∷ 0x0 ∷ 0x0 ∷ 0xf ∷ 0xf0 ∷ 0x0 ∷ 0x0 ∷ 0xf ∷ 0xf0 ∷ 0x0 ∷ 0x0 ∷ 0xf ∷ 0xf0 ∷ 0x0 ∷ 0x0
    ∷ 0xf ∷ 0xf0 ∷ 0x0 ∷ 0x0 ∷ 0xf ∷ 0xf0 ∷ 0x0 ∷ 0x0 ∷ 0xf ∷ 0xf0 ∷ 0x0 ∷ 0x0 ∷ 0xf ∷ 0xf0 ∷ 0x0
    ∷ 0x0 ∷ 0xf ∷ 0xf0 ∷ 0x0 ∷ 0x0 ∷ 0x1f ∷ 0xf0 ∷ 0x0 ∷ 0x0 ∷ 0x3f ∷ 0xe0 ∷ 0x0 ∷ 0x1 ∷ 0xff ∷ 0xc0
    ∷ 0x0 ∷ 0xbf ∷ 0xff ∷ 0x40 ∷ 0x0 ∷ 0xbf ∷ 0xf4 ∷ 0x0 ∷ 0x0 ∷ 0xbf ∷ 0xfd ∷ 0x0 ∷ 0x0 ∷ 0x6b
    ∷ 0xff ∷ 0x80 ∷ 0x0 ∷ 0x0 ∷ 0xbf ∷ 0xd0 ∷ 0x0 ∷ 0x0 ∷ 0x2f ∷ 0xf0 ∷ 0x0 ∷ 0x0 ∷ 0x1f ∷ 0xf0
    ∷ 0x0 ∷ 0x0 ∷ 0xf ∷ 0xf0 ∷ 0x0 ∷ 0x0 ∷ 0xf ∷ 0xf0 ∷ 0x0 ∷ 0x0 ∷ 0xf ∷ 0xf0 ∷ 0x0 ∷ 0x0 ∷ 0xf
    ∷ 0xf0 ∷ 0x0 ∷ 0x0 ∷ 0xf ∷ 0xf0 ∷ 0x0 ∷ 0x0 ∷ 0xf ∷ 0xf0 ∷ 0x0 ∷ 0x0 ∷ 0xf ∷ 0xf0 ∷ 0x0 ∷ 0x0
    ∷ 0xf ∷ 0xf0 ∷ 0x0 ∷ 0x0 ∷ 0xf ∷ 0xf0 ∷ 0x0 ∷ 0x0 ∷ 0xf ∷ 0xf4 ∷ 0x0 ∷ 0x0 ∷ 0xf ∷ 0xfc ∷ 0x0
    ∷ 0x0 ∷ 0xb ∷ 0xff ∷ 0x40 ∷ 0x0 ∷ 0x3 ∷ 0xff ∷ 0xfc ∷ 0x0 ∷ 0x1 ∷ 0xff ∷ 0xfc ∷ 0x0 ∷ 0x0 ∷ 0x2f
    ∷ 0xfc ∷ 0x0 ∷ 0x0 ∷ 0x0 ∷ 0x58 ∷ []

unfoldable pub u_007c : List ℕ
u_007c =
    0x2a ∷ 0x1f ∷ 0xd7 ∷ 0xf5 ∷ 0xfd ∷ 0x7f ∷ 0x5f ∷ 0xd7 ∷ 0xf5 ∷ 0xfd ∷ 0x7f ∷ 0x5f ∷ 0xd7 ∷ 0xf5
    ∷ 0xfd ∷ 0x7f ∷ 0x5f ∷ 0xd7 ∷ 0xf5 ∷ 0xfd ∷ 0x7f ∷ 0x5f ∷ 0xd7 ∷ 0xf5 ∷ 0xfd ∷ 0x7f ∷ 0x5f
    ∷ 0xd7 ∷ 0xf5 ∷ 0xfd ∷ 0x7f ∷ 0x5f ∷ 0xd7 ∷ 0xf5 ∷ 0xfd ∷ 0x7f ∷ 0x5f ∷ 0xd7 ∷ 0xf5 ∷ 0xfd
    ∷ 0x7f ∷ 0x5f ∷ 0xd7 ∷ 0xf5 ∷ 0xfd ∷ 0x7f ∷ 0x5f ∷ 0xd7 ∷ 0xf5 ∷ 0xfd ∷ 0x7f ∷ 0x5f ∷ 0xd7
    ∷ 0xf5 ∷ 0xfd ∷ 0x7f ∷ 0x5f ∷ 0xd7 ∷ 0xf5 ∷ 0xfd ∷ []

unfoldable pub u_007d : List ℕ
u_007d =
    0x3f ∷ 0x90 ∷ 0x0 ∷ 0x0 ∷ 0x3f ∷ 0xfd ∷ 0x0 ∷ 0x0 ∷ 0x3f ∷ 0xff ∷ 0x40 ∷ 0x0 ∷ 0x2b ∷ 0xff
    ∷ 0xc0 ∷ 0x0 ∷ 0x0 ∷ 0xbf ∷ 0xe0 ∷ 0x0 ∷ 0x0 ∷ 0x3f ∷ 0xf0 ∷ 0x0 ∷ 0x0 ∷ 0x1f ∷ 0xf0 ∷ 0x0 ∷ 0x0
    ∷ 0x1f ∷ 0xf0 ∷ 0x0 ∷ 0x0 ∷ 0x1f ∷ 0xf0 ∷ 0x0 ∷ 0x0 ∷ 0x1f ∷ 0xf0 ∷ 0x0 ∷ 0x0 ∷ 0x1f ∷ 0xf0
    ∷ 0x0 ∷ 0x0 ∷ 0x1f ∷ 0xf0 ∷ 0x0 ∷ 0x0 ∷ 0x1f ∷ 0xf0 ∷ 0x0 ∷ 0x0 ∷ 0x1f ∷ 0xf0 ∷ 0x0 ∷ 0x0 ∷ 0x1f
    ∷ 0xf0 ∷ 0x0 ∷ 0x0 ∷ 0x1f ∷ 0xf0 ∷ 0x0 ∷ 0x0 ∷ 0xf ∷ 0xf4 ∷ 0x0 ∷ 0x0 ∷ 0xf ∷ 0xfc ∷ 0x0 ∷ 0x0
    ∷ 0x7 ∷ 0xff ∷ 0x40 ∷ 0x0 ∷ 0x1 ∷ 0xff ∷ 0xfd ∷ 0x0 ∷ 0x0 ∷ 0x1f ∷ 0xfd ∷ 0x0 ∷ 0x0 ∷ 0xbf
    ∷ 0xfd ∷ 0x0 ∷ 0x3 ∷ 0xff ∷ 0xe8 ∷ 0x0 ∷ 0xb ∷ 0xfd ∷ 0x0 ∷ 0x0 ∷ 0xf ∷ 0xf8 ∷ 0x0 ∷ 0x0 ∷ 0x1f
    ∷ 0xf0 ∷ 0x0 ∷ 0x0 ∷ 0x1f ∷ 0xf0 ∷ 0x0 ∷ 0x0 ∷ 0x1f ∷ 0xf0 ∷ 0x0 ∷ 0x0 ∷ 0x1f ∷ 0xf0 ∷ 0x0 ∷ 0x0
    ∷ 0x1f ∷ 0xf0 ∷ 0x0 ∷ 0x0 ∷ 0x1f ∷ 0xf0 ∷ 0x0 ∷ 0x0 ∷ 0x1f ∷ 0xf0 ∷ 0x0 ∷ 0x0 ∷ 0x1f ∷ 0xf0
    ∷ 0x0 ∷ 0x0 ∷ 0x1f ∷ 0xf0 ∷ 0x0 ∷ 0x0 ∷ 0x1f ∷ 0xf0 ∷ 0x0 ∷ 0x0 ∷ 0x2f ∷ 0xf0 ∷ 0x0 ∷ 0x0 ∷ 0x3f
    ∷ 0xe0 ∷ 0x0 ∷ 0x1 ∷ 0xff ∷ 0xd0 ∷ 0x0 ∷ 0x3f ∷ 0xff ∷ 0xc0 ∷ 0x0 ∷ 0x3f ∷ 0xff ∷ 0x0 ∷ 0x0
    ∷ 0x3f ∷ 0xf8 ∷ 0x0 ∷ 0x0 ∷ 0x29 ∷ 0x0 ∷ 0x0 ∷ 0x0 ∷ []

unfoldable pub u_007e : List ℕ
u_007e =
    0x0 ∷ 0x69 ∷ 0x40 ∷ 0x0 ∷ 0x0 ∷ 0x0 ∷ 0x7f ∷ 0xff ∷ 0x80 ∷ 0x0 ∷ 0x9 ∷ 0x2f ∷ 0xff ∷ 0xff ∷ 0x80
    ∷ 0x3 ∷ 0xd3 ∷ 0xff ∷ 0xff ∷ 0xff ∷ 0xeb ∷ 0xfd ∷ 0x3e ∷ 0x40 ∷ 0xbf ∷ 0xff ∷ 0xff ∷ 0xc3 ∷ 0x40
    ∷ 0x0 ∷ 0x7f ∷ 0xff ∷ 0xf4 ∷ 0x10 ∷ 0x0 ∷ 0x0 ∷ 0x6f ∷ 0xf8 ∷ 0x0 ∷ 0x0 ∷ 0x0 ∷ 0x0 ∷ 0x0 ∷ 0x0
    ∷ []
