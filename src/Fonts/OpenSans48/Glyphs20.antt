-- ===== src/Fonts/OpenSans48/Glyphs20.antt =====
-- The bytes of `glyph_bitmap` in fonts/open_sans_48.c, a list for each glyph, from U+0020 to U+002F.
use popcorn.Prelude.{ℕ, List, [], ◌∷◌}

unfoldable pub u_0020 : List ℕ
u_0020 = []

unfoldable pub u_0021 : List ℕ
u_0021 =
    0xbf ∷ 0xeb ∷ 0xfe ∷ 0x7f ∷ 0xe7 ∷ 0xfe ∷ 0x7f ∷ 0xe7 ∷ 0xfe ∷ 0x7f ∷ 0xd7 ∷ 0xfd ∷ 0x3f ∷ 0xd3
    ∷ 0xfd ∷ 0x3f ∷ 0xd3 ∷ 0xfd ∷ 0x3f ∷ 0xc3 ∷ 0xfc ∷ 0x3f ∷ 0xc3 ∷ 0xfc ∷ 0x3f ∷ 0xc3 ∷ 0xfc
    ∷ 0x3f ∷ 0xc3 ∷ 0xfc ∷ 0x2f ∷ 0xc2 ∷ 0xfc ∷ 0x2f ∷ 0xc2 ∷ 0xfc ∷ 0x0 ∷ 0x0 ∷ 0x0 ∷ 0x0 ∷ 0x0
    ∷ 0x50 ∷ 0x3f ∷ 0xdb ∷ 0xff ∷ 0xff ∷ 0xff ∷ 0xff ∷ 0xbf ∷ 0xe2 ∷ 0xf8 ∷ []

unfoldable pub u_0022 : List ℕ
u_0022 =
    0x3f ∷ 0xe0 ∷ 0x1f ∷ 0xf4 ∷ 0xff ∷ 0x80 ∷ 0x7f ∷ 0xd3 ∷ 0xfe ∷ 0x0 ∷ 0xff ∷ 0x4f ∷ 0xf8 ∷ 0x3
    ∷ 0xfc ∷ 0x3f ∷ 0xd0 ∷ 0xf ∷ 0xf0 ∷ 0xbf ∷ 0x40 ∷ 0x3f ∷ 0xc2 ∷ 0xfd ∷ 0x0 ∷ 0xff ∷ 0xb ∷ 0xf0
    ∷ 0x3 ∷ 0xfc ∷ 0x2f ∷ 0xc0 ∷ 0xf ∷ 0xf0 ∷ 0x7f ∷ 0x0 ∷ 0x2f ∷ 0xc1 ∷ 0xfc ∷ 0x0 ∷ 0xbe ∷ 0x7
    ∷ 0xf0 ∷ 0x2 ∷ 0xf8 ∷ 0x0 ∷ 0x0 ∷ 0x0 ∷ 0x0 ∷ []

unfoldable pub u_0023 : List ℕ
u_0023 =
    0x0 ∷ 0x0 ∷ 0x3f ∷ 0x40 ∷ 0xf ∷ 0xc0 ∷ 0x0 ∷ 0x0 ∷ 0x1f ∷ 0xc0 ∷ 0x7 ∷ 0xf0 ∷ 0x0 ∷ 0x0 ∷ 0xb
    ∷ 0xf0 ∷ 0x1 ∷ 0xfc ∷ 0x0 ∷ 0x0 ∷ 0x2 ∷ 0xfc ∷ 0x0 ∷ 0xbf ∷ 0x0 ∷ 0x0 ∷ 0x0 ∷ 0xfe ∷ 0x0 ∷ 0x3f
    ∷ 0x80 ∷ 0x0 ∷ 0x0 ∷ 0x3f ∷ 0x40 ∷ 0xf ∷ 0xd0 ∷ 0x0 ∷ 0x0 ∷ 0xf ∷ 0xd0 ∷ 0x3 ∷ 0xf4 ∷ 0x0 ∷ 0x0
    ∷ 0x7 ∷ 0xf0 ∷ 0x1 ∷ 0xfc ∷ 0x0 ∷ 0x0 ∷ 0x1 ∷ 0xfc ∷ 0x0 ∷ 0x7f ∷ 0x0 ∷ 0x0 ∷ 0x0 ∷ 0xbf ∷ 0x0
    ∷ 0x2f ∷ 0xc0 ∷ 0x2 ∷ 0xff ∷ 0xff ∷ 0xff ∷ 0xff ∷ 0xff ∷ 0xfc ∷ 0xbf ∷ 0xff ∷ 0xff ∷ 0xff ∷ 0xff
    ∷ 0xff ∷ 0x2f ∷ 0xff ∷ 0xff ∷ 0xff ∷ 0xff ∷ 0xff ∷ 0xc1 ∷ 0x55 ∷ 0xfd ∷ 0x55 ∷ 0xbf ∷ 0x55
    ∷ 0x40 ∷ 0x0 ∷ 0x7f ∷ 0x0 ∷ 0x1f ∷ 0xc0 ∷ 0x0 ∷ 0x0 ∷ 0x2f ∷ 0xc0 ∷ 0xb ∷ 0xf0 ∷ 0x0 ∷ 0x0 ∷ 0xb
    ∷ 0xe0 ∷ 0x2 ∷ 0xf8 ∷ 0x0 ∷ 0x0 ∷ 0x3 ∷ 0xf8 ∷ 0x0 ∷ 0xfe ∷ 0x0 ∷ 0x0 ∷ 0x0 ∷ 0xfd ∷ 0x0 ∷ 0x3f
    ∷ 0x40 ∷ 0x0 ∷ 0x0 ∷ 0x3f ∷ 0x0 ∷ 0xf ∷ 0xc0 ∷ 0x0 ∷ 0x55 ∷ 0x6f ∷ 0xd5 ∷ 0x5b ∷ 0xf5 ∷ 0x54
    ∷ 0x3f ∷ 0xff ∷ 0xff ∷ 0xff ∷ 0xff ∷ 0xff ∷ 0x4f ∷ 0xff ∷ 0xff ∷ 0xff ∷ 0xff ∷ 0xff ∷ 0xd3
    ∷ 0xff ∷ 0xff ∷ 0xff ∷ 0xff ∷ 0xff ∷ 0xf4 ∷ 0x0 ∷ 0x3f ∷ 0x40 ∷ 0xf ∷ 0xd0 ∷ 0x0 ∷ 0x0 ∷ 0xf
    ∷ 0xd0 ∷ 0x3 ∷ 0xf4 ∷ 0x0 ∷ 0x0 ∷ 0x7 ∷ 0xf0 ∷ 0x1 ∷ 0xfc ∷ 0x0 ∷ 0x0 ∷ 0x1 ∷ 0xfc ∷ 0x0 ∷ 0xbf
    ∷ 0x0 ∷ 0x0 ∷ 0x0 ∷ 0xbf ∷ 0x0 ∷ 0x2f ∷ 0xc0 ∷ 0x0 ∷ 0x0 ∷ 0x3f ∷ 0x80 ∷ 0xf ∷ 0xe0 ∷ 0x0 ∷ 0x0
    ∷ 0xf ∷ 0xd0 ∷ 0x3 ∷ 0xf4 ∷ 0x0 ∷ 0x0 ∷ 0x3 ∷ 0xf4 ∷ 0x0 ∷ 0xfd ∷ 0x0 ∷ 0x0 ∷ 0x0 ∷ 0xfc ∷ 0x0
    ∷ 0x7f ∷ 0x0 ∷ 0x0 ∷ 0x0 ∷ 0x7f ∷ 0x0 ∷ 0x2f ∷ 0xc0 ∷ 0x0 ∷ 0x0 ∷ []

unfoldable pub u_0024 : List ℕ
u_0024 =
    0x0 ∷ 0x0 ∷ 0x7d ∷ 0x0 ∷ 0x0 ∷ 0x0 ∷ 0x0 ∷ 0x7d ∷ 0x0 ∷ 0x0 ∷ 0x0 ∷ 0x0 ∷ 0x7d ∷ 0x0 ∷ 0x0 ∷ 0x0
    ∷ 0x0 ∷ 0x7e ∷ 0x0 ∷ 0x0 ∷ 0x0 ∷ 0x2f ∷ 0xff ∷ 0xfe ∷ 0x40 ∷ 0x1 ∷ 0xff ∷ 0xff ∷ 0xff ∷ 0xf8
    ∷ 0xb ∷ 0xff ∷ 0xff ∷ 0xff ∷ 0xf8 ∷ 0x1f ∷ 0xff ∷ 0xbe ∷ 0xaf ∷ 0xf4 ∷ 0x3f ∷ 0xf0 ∷ 0x7d ∷ 0x0
    ∷ 0xb0 ∷ 0x7f ∷ 0xc0 ∷ 0x7d ∷ 0x0 ∷ 0x0 ∷ 0xbf ∷ 0x80 ∷ 0x7d ∷ 0x0 ∷ 0x0 ∷ 0xbf ∷ 0x80 ∷ 0x7d
    ∷ 0x0 ∷ 0x0 ∷ 0xbf ∷ 0x80 ∷ 0x7d ∷ 0x0 ∷ 0x0 ∷ 0x7f ∷ 0xc0 ∷ 0x7d ∷ 0x0 ∷ 0x0 ∷ 0x3f ∷ 0xe0
    ∷ 0x7d ∷ 0x0 ∷ 0x0 ∷ 0x2f ∷ 0xfd ∷ 0x7d ∷ 0x0 ∷ 0x0 ∷ 0xf ∷ 0xff ∷ 0xfd ∷ 0x0 ∷ 0x0 ∷ 0x3 ∷ 0xff
    ∷ 0xff ∷ 0x80 ∷ 0x0 ∷ 0x0 ∷ 0x7f ∷ 0xff ∷ 0xf8 ∷ 0x0 ∷ 0x0 ∷ 0x7 ∷ 0xff ∷ 0xff ∷ 0x80 ∷ 0x0
    ∷ 0x0 ∷ 0x7f ∷ 0xff ∷ 0xf0 ∷ 0x0 ∷ 0x0 ∷ 0x7e ∷ 0xbf ∷ 0xfc ∷ 0x0 ∷ 0x0 ∷ 0x7d ∷ 0xf ∷ 0xfd
    ∷ 0x0 ∷ 0x0 ∷ 0x7d ∷ 0x3 ∷ 0xfe ∷ 0x0 ∷ 0x0 ∷ 0x7d ∷ 0x1 ∷ 0xff ∷ 0x0 ∷ 0x0 ∷ 0x7d ∷ 0x0 ∷ 0xff
    ∷ 0x0 ∷ 0x0 ∷ 0x7d ∷ 0x1 ∷ 0xff ∷ 0x0 ∷ 0x0 ∷ 0x7d ∷ 0x2 ∷ 0xfe ∷ 0xa0 ∷ 0x0 ∷ 0x7d ∷ 0x7 ∷ 0xfd
    ∷ 0xbf ∷ 0x90 ∷ 0x7e ∷ 0x7f ∷ 0xfc ∷ 0xbf ∷ 0xff ∷ 0xff ∷ 0xff ∷ 0xf0 ∷ 0xbf ∷ 0xff ∷ 0xff
    ∷ 0xff ∷ 0xc0 ∷ 0x1f ∷ 0xff ∷ 0xff ∷ 0xfd ∷ 0x0 ∷ 0x0 ∷ 0x5a ∷ 0xfe ∷ 0x40 ∷ 0x0 ∷ 0x0 ∷ 0x0
    ∷ 0x7d ∷ 0x0 ∷ 0x0 ∷ 0x0 ∷ 0x0 ∷ 0x7d ∷ 0x0 ∷ 0x0 ∷ 0x0 ∷ 0x0 ∷ 0x7d ∷ 0x0 ∷ 0x0 ∷ 0x0 ∷ 0x0
    ∷ 0x7d ∷ 0x0 ∷ 0x0 ∷ 0x0 ∷ 0x0 ∷ 0x29 ∷ 0x0 ∷ 0x0 ∷ []

unfoldable pub u_0025 : List ℕ
u_0025 =
    0x0 ∷ 0x15 ∷ 0x0 ∷ 0x0 ∷ 0x0 ∷ 0x0 ∷ 0x0 ∷ 0x0 ∷ 0x0 ∷ 0xbf ∷ 0xf8 ∷ 0x0 ∷ 0x0 ∷ 0x3 ∷ 0xf8
    ∷ 0x0 ∷ 0x0 ∷ 0xff ∷ 0xff ∷ 0xc0 ∷ 0x0 ∷ 0x1 ∷ 0xfd ∷ 0x0 ∷ 0x0 ∷ 0xbf ∷ 0xef ∷ 0xf8 ∷ 0x0 ∷ 0x0
    ∷ 0xff ∷ 0x0 ∷ 0x0 ∷ 0x3f ∷ 0xc0 ∷ 0xff ∷ 0x0 ∷ 0x0 ∷ 0x7f ∷ 0x40 ∷ 0x0 ∷ 0x1f ∷ 0xd0 ∷ 0x1f
    ∷ 0xd0 ∷ 0x0 ∷ 0x3f ∷ 0xc0 ∷ 0x0 ∷ 0xb ∷ 0xf0 ∷ 0x3 ∷ 0xf8 ∷ 0x0 ∷ 0xf ∷ 0xd0 ∷ 0x0 ∷ 0x3 ∷ 0xfc
    ∷ 0x0 ∷ 0xff ∷ 0x0 ∷ 0xb ∷ 0xf0 ∷ 0x0 ∷ 0x0 ∷ 0xff ∷ 0x0 ∷ 0x2f ∷ 0xc0 ∷ 0x3 ∷ 0xf8 ∷ 0x0 ∷ 0x0
    ∷ 0x3f ∷ 0x80 ∷ 0xb ∷ 0xf0 ∷ 0x2 ∷ 0xfc ∷ 0x0 ∷ 0x0 ∷ 0xf ∷ 0xe0 ∷ 0x2 ∷ 0xfc ∷ 0x0 ∷ 0xfe ∷ 0x0
    ∷ 0x0 ∷ 0x3 ∷ 0xf8 ∷ 0x0 ∷ 0xbf ∷ 0x0 ∷ 0xbf ∷ 0x0 ∷ 0x0 ∷ 0x0 ∷ 0xfe ∷ 0x0 ∷ 0x2f ∷ 0xc0 ∷ 0x3f
    ∷ 0x80 ∷ 0x0 ∷ 0x0 ∷ 0x3f ∷ 0xc0 ∷ 0xb ∷ 0xf0 ∷ 0x1f ∷ 0xc0 ∷ 0x0 ∷ 0x0 ∷ 0xb ∷ 0xf0 ∷ 0x3
    ∷ 0xfc ∷ 0xf ∷ 0xf0 ∷ 0x2f ∷ 0xf8 ∷ 0x1 ∷ 0xfc ∷ 0x0 ∷ 0xfe ∷ 0x7 ∷ 0xf4 ∷ 0x3f ∷ 0xff ∷ 0xc0
    ∷ 0x3f ∷ 0x80 ∷ 0x7f ∷ 0x43 ∷ 0xfc ∷ 0x3f ∷ 0xff ∷ 0xfc ∷ 0xf ∷ 0xf4 ∷ 0x7f ∷ 0xc1 ∷ 0xfd ∷ 0x1f
    ∷ 0xe0 ∷ 0xbf ∷ 0x41 ∷ 0xff ∷ 0xff ∷ 0xd0 ∷ 0xff ∷ 0xb ∷ 0xf0 ∷ 0xf ∷ 0xf0 ∷ 0x1f ∷ 0xff ∷ 0xe0
    ∷ 0x3f ∷ 0x43 ∷ 0xf8 ∷ 0x2 ∷ 0xfc ∷ 0x1 ∷ 0xff ∷ 0xd0 ∷ 0x2f ∷ 0xc0 ∷ 0xfe ∷ 0x0 ∷ 0x7f ∷ 0x40
    ∷ 0x0 ∷ 0x0 ∷ 0xf ∷ 0xe0 ∷ 0x7f ∷ 0x40 ∷ 0xf ∷ 0xe0 ∷ 0x0 ∷ 0x0 ∷ 0xb ∷ 0xf0 ∷ 0x1f ∷ 0xd0 ∷ 0x3
    ∷ 0xf8 ∷ 0x0 ∷ 0x0 ∷ 0x3 ∷ 0xf8 ∷ 0x7 ∷ 0xf4 ∷ 0x0 ∷ 0xfe ∷ 0x0 ∷ 0x0 ∷ 0x2 ∷ 0xfc ∷ 0x1 ∷ 0xfd
    ∷ 0x0 ∷ 0x3f ∷ 0x80 ∷ 0x0 ∷ 0x0 ∷ 0xfe ∷ 0x0 ∷ 0x7f ∷ 0x40 ∷ 0xf ∷ 0xe0 ∷ 0x0 ∷ 0x0 ∷ 0x7f ∷ 0x0
    ∷ 0x1f ∷ 0xd0 ∷ 0x3 ∷ 0xf8 ∷ 0x0 ∷ 0x0 ∷ 0x3f ∷ 0xc0 ∷ 0x3 ∷ 0xf4 ∷ 0x0 ∷ 0xfe ∷ 0x0 ∷ 0x0
    ∷ 0x1f ∷ 0xd0 ∷ 0x0 ∷ 0xfe ∷ 0x0 ∷ 0x7f ∷ 0x40 ∷ 0x0 ∷ 0xf ∷ 0xf0 ∷ 0x0 ∷ 0x3f ∷ 0xc0 ∷ 0x2f
    ∷ 0xc0 ∷ 0x0 ∷ 0x7 ∷ 0xf4 ∷ 0x0 ∷ 0xb ∷ 0xf0 ∷ 0xf ∷ 0xf0 ∷ 0x0 ∷ 0x2 ∷ 0xfc ∷ 0x0 ∷ 0x0 ∷ 0xff
    ∷ 0x5b ∷ 0xf4 ∷ 0x0 ∷ 0x0 ∷ 0xfd ∷ 0x0 ∷ 0x0 ∷ 0x2f ∷ 0xff ∷ 0xfc ∷ 0x0 ∷ 0x0 ∷ 0xbf ∷ 0x0 ∷ 0x0
    ∷ 0x2 ∷ 0xff ∷ 0xfc ∷ 0x0 ∷ 0x0 ∷ 0x3f ∷ 0x80 ∷ 0x0 ∷ 0x0 ∷ 0x1f ∷ 0xf8 ∷ 0x0 ∷ []

unfoldable pub u_0026 : List ℕ
u_0026 =
    0x0 ∷ 0x0 ∷ 0x15 ∷ 0x50 ∷ 0x0 ∷ 0x0 ∷ 0x0 ∷ 0x0 ∷ 0x0 ∷ 0xbf ∷ 0xff ∷ 0x80 ∷ 0x0 ∷ 0x0 ∷ 0x0
    ∷ 0x0 ∷ 0xff ∷ 0xff ∷ 0xfc ∷ 0x0 ∷ 0x0 ∷ 0x0 ∷ 0x0 ∷ 0xff ∷ 0xff ∷ 0xff ∷ 0x80 ∷ 0x0 ∷ 0x0 ∷ 0x0
    ∷ 0xbf ∷ 0xe0 ∷ 0x3f ∷ 0xf0 ∷ 0x0 ∷ 0x0 ∷ 0x0 ∷ 0x3f ∷ 0xe0 ∷ 0x3 ∷ 0xfe ∷ 0x0 ∷ 0x0 ∷ 0x0 ∷ 0xf
    ∷ 0xf4 ∷ 0x0 ∷ 0xbf ∷ 0x80 ∷ 0x0 ∷ 0x0 ∷ 0x3 ∷ 0xfc ∷ 0x0 ∷ 0x1f ∷ 0xf0 ∷ 0x0 ∷ 0x0 ∷ 0x0 ∷ 0xff
    ∷ 0x0 ∷ 0x7 ∷ 0xfc ∷ 0x0 ∷ 0x0 ∷ 0x0 ∷ 0x3f ∷ 0xd0 ∷ 0x2 ∷ 0xfe ∷ 0x0 ∷ 0x0 ∷ 0x0 ∷ 0xf ∷ 0xf8
    ∷ 0x0 ∷ 0xff ∷ 0x40 ∷ 0x0 ∷ 0x0 ∷ 0x2 ∷ 0xff ∷ 0x0 ∷ 0x7f ∷ 0xc0 ∷ 0x0 ∷ 0x0 ∷ 0x0 ∷ 0x3f ∷ 0xe0
    ∷ 0x7f ∷ 0xe0 ∷ 0x0 ∷ 0x0 ∷ 0x0 ∷ 0xb ∷ 0xfc ∷ 0x7f ∷ 0xf0 ∷ 0x0 ∷ 0x0 ∷ 0x0 ∷ 0x0 ∷ 0xff ∷ 0xff
    ∷ 0xf0 ∷ 0x0 ∷ 0x0 ∷ 0x0 ∷ 0x0 ∷ 0x1f ∷ 0xff ∷ 0xf0 ∷ 0x0 ∷ 0x0 ∷ 0x0 ∷ 0x0 ∷ 0x3 ∷ 0xff ∷ 0xf0
    ∷ 0x0 ∷ 0x0 ∷ 0x0 ∷ 0x0 ∷ 0x7 ∷ 0xff ∷ 0xf8 ∷ 0x0 ∷ 0x0 ∷ 0x0 ∷ 0x0 ∷ 0xb ∷ 0xff ∷ 0xff ∷ 0x40
    ∷ 0x0 ∷ 0xbf ∷ 0x80 ∷ 0xb ∷ 0xfe ∷ 0x3f ∷ 0xf4 ∷ 0x0 ∷ 0x3f ∷ 0xe0 ∷ 0x7 ∷ 0xfe ∷ 0x3 ∷ 0xff
    ∷ 0x0 ∷ 0xf ∷ 0xf4 ∷ 0x3 ∷ 0xff ∷ 0x0 ∷ 0x3f ∷ 0xf0 ∷ 0xb ∷ 0xfc ∷ 0x2 ∷ 0xff ∷ 0x0 ∷ 0x7 ∷ 0xff
    ∷ 0x3 ∷ 0xfe ∷ 0x0 ∷ 0xff ∷ 0xc0 ∷ 0x0 ∷ 0xbf ∷ 0xe1 ∷ 0xff ∷ 0x40 ∷ 0x3f ∷ 0xe0 ∷ 0x0 ∷ 0xb
    ∷ 0xfe ∷ 0xff ∷ 0xc0 ∷ 0xf ∷ 0xf8 ∷ 0x0 ∷ 0x0 ∷ 0xff ∷ 0xff ∷ 0xd0 ∷ 0x3 ∷ 0xfe ∷ 0x0 ∷ 0x0
    ∷ 0xf ∷ 0xff ∷ 0xf0 ∷ 0x0 ∷ 0xff ∷ 0xc0 ∷ 0x0 ∷ 0x0 ∷ 0xff ∷ 0xf4 ∷ 0x0 ∷ 0x3f ∷ 0xf0 ∷ 0x0
    ∷ 0x0 ∷ 0x7f ∷ 0xfc ∷ 0x0 ∷ 0xb ∷ 0xff ∷ 0x0 ∷ 0x0 ∷ 0x7f ∷ 0xff ∷ 0xc0 ∷ 0x0 ∷ 0xff ∷ 0xf4
    ∷ 0x1 ∷ 0xff ∷ 0xff ∷ 0xf8 ∷ 0x0 ∷ 0x2f ∷ 0xff ∷ 0xff ∷ 0xff ∷ 0xf7 ∷ 0xff ∷ 0x80 ∷ 0x2 ∷ 0xff
    ∷ 0xff ∷ 0xff ∷ 0xf0 ∷ 0x3f ∷ 0xf4 ∷ 0x0 ∷ 0x1f ∷ 0xff ∷ 0xff ∷ 0xe0 ∷ 0x7 ∷ 0xff ∷ 0x0 ∷ 0x0
    ∷ 0x6f ∷ 0xfe ∷ 0x40 ∷ 0x0 ∷ 0xbf ∷ 0xf0 ∷ []

unfoldable pub u_0027 : List ℕ
u_0027 =
    0x3f ∷ 0xe3 ∷ 0xfe ∷ 0x3f ∷ 0xe3 ∷ 0xfe ∷ 0x3f ∷ 0xd2 ∷ 0xfd ∷ 0x2f ∷ 0xd2 ∷ 0xfc ∷ 0x2f ∷ 0xc1
    ∷ 0xfc ∷ 0x1f ∷ 0xc1 ∷ 0xfc ∷ 0x0 ∷ 0x0 ∷ []

unfoldable pub u_0028 : List ℕ
u_0028 =
    0x0 ∷ 0x7 ∷ 0xf8 ∷ 0x0 ∷ 0xf ∷ 0xf0 ∷ 0x0 ∷ 0x3f ∷ 0xd0 ∷ 0x0 ∷ 0x7f ∷ 0xc0 ∷ 0x0 ∷ 0xff ∷ 0x40
    ∷ 0x1 ∷ 0xff ∷ 0x0 ∷ 0x3 ∷ 0xfd ∷ 0x0 ∷ 0x7 ∷ 0xfc ∷ 0x0 ∷ 0xb ∷ 0xf8 ∷ 0x0 ∷ 0xf ∷ 0xf4 ∷ 0x0
    ∷ 0x1f ∷ 0xf0 ∷ 0x0 ∷ 0x2f ∷ 0xe0 ∷ 0x0 ∷ 0x3f ∷ 0xd0 ∷ 0x0 ∷ 0x3f ∷ 0xc0 ∷ 0x0 ∷ 0x7f ∷ 0xc0
    ∷ 0x0 ∷ 0xbf ∷ 0xc0 ∷ 0x0 ∷ 0xbf ∷ 0xc0 ∷ 0x0 ∷ 0xbf ∷ 0x80 ∷ 0x0 ∷ 0xff ∷ 0x80 ∷ 0x0 ∷ 0xff
    ∷ 0x80 ∷ 0x0 ∷ 0xff ∷ 0x80 ∷ 0x0 ∷ 0xff ∷ 0x80 ∷ 0x0 ∷ 0xff ∷ 0x80 ∷ 0x0 ∷ 0xff ∷ 0x80 ∷ 0x0
    ∷ 0xbf ∷ 0x80 ∷ 0x0 ∷ 0xbf ∷ 0xc0 ∷ 0x0 ∷ 0x7f ∷ 0xc0 ∷ 0x0 ∷ 0x7f ∷ 0xc0 ∷ 0x0 ∷ 0x3f ∷ 0xd0
    ∷ 0x0 ∷ 0x3f ∷ 0xe0 ∷ 0x0 ∷ 0x2f ∷ 0xf0 ∷ 0x0 ∷ 0x1f ∷ 0xf0 ∷ 0x0 ∷ 0xf ∷ 0xf4 ∷ 0x0 ∷ 0xb
    ∷ 0xfc ∷ 0x0 ∷ 0x3 ∷ 0xfc ∷ 0x0 ∷ 0x3 ∷ 0xfe ∷ 0x0 ∷ 0x1 ∷ 0xff ∷ 0x0 ∷ 0x0 ∷ 0xff ∷ 0x80 ∷ 0x0
    ∷ 0x3f ∷ 0xc0 ∷ 0x0 ∷ 0x1f ∷ 0xe0 ∷ 0x0 ∷ 0xb ∷ 0xf4 ∷ 0x0 ∷ 0x2 ∷ 0xa4 ∷ []

unfoldable pub u_0029 : List ℕ
u_0029 =
    0x7f ∷ 0x80 ∷ 0x0 ∷ 0x2f ∷ 0xe0 ∷ 0x0 ∷ 0xf ∷ 0xf0 ∷ 0x0 ∷ 0x7 ∷ 0xfc ∷ 0x0 ∷ 0x3 ∷ 0xfd ∷ 0x0
    ∷ 0x1 ∷ 0xff ∷ 0x0 ∷ 0x0 ∷ 0xff ∷ 0x40 ∷ 0x0 ∷ 0xbf ∷ 0xc0 ∷ 0x0 ∷ 0x3f ∷ 0xc0 ∷ 0x0 ∷ 0x3f
    ∷ 0xe0 ∷ 0x0 ∷ 0x2f ∷ 0xf0 ∷ 0x0 ∷ 0x1f ∷ 0xf0 ∷ 0x0 ∷ 0xf ∷ 0xf4 ∷ 0x0 ∷ 0xf ∷ 0xf8 ∷ 0x0 ∷ 0xb
    ∷ 0xf8 ∷ 0x0 ∷ 0x7 ∷ 0xfc ∷ 0x0 ∷ 0x7 ∷ 0xfc ∷ 0x0 ∷ 0x7 ∷ 0xfc ∷ 0x0 ∷ 0x3 ∷ 0xfc ∷ 0x0 ∷ 0x3
    ∷ 0xfc ∷ 0x0 ∷ 0x3 ∷ 0xfd ∷ 0x0 ∷ 0x3 ∷ 0xfd ∷ 0x0 ∷ 0x3 ∷ 0xfc ∷ 0x0 ∷ 0x3 ∷ 0xfc ∷ 0x0 ∷ 0x7
    ∷ 0xfc ∷ 0x0 ∷ 0x7 ∷ 0xfc ∷ 0x0 ∷ 0xb ∷ 0xfc ∷ 0x0 ∷ 0xb ∷ 0xf8 ∷ 0x0 ∷ 0xf ∷ 0xf8 ∷ 0x0 ∷ 0xf
    ∷ 0xf4 ∷ 0x0 ∷ 0x1f ∷ 0xf0 ∷ 0x0 ∷ 0x2f ∷ 0xe0 ∷ 0x0 ∷ 0x3f ∷ 0xd0 ∷ 0x0 ∷ 0x7f ∷ 0xc0 ∷ 0x0
    ∷ 0xff ∷ 0x80 ∷ 0x0 ∷ 0xff ∷ 0x0 ∷ 0x2 ∷ 0xfe ∷ 0x0 ∷ 0x3 ∷ 0xfc ∷ 0x0 ∷ 0xb ∷ 0xf8 ∷ 0x0 ∷ 0x1f
    ∷ 0xf0 ∷ 0x0 ∷ 0x3f ∷ 0xc0 ∷ 0x0 ∷ 0x2a ∷ 0x40 ∷ 0x0 ∷ []

unfoldable pub u_002a : List ℕ
u_002a =
    0x0 ∷ 0x0 ∷ 0xff ∷ 0x80 ∷ 0x0 ∷ 0x0 ∷ 0x0 ∷ 0x2f ∷ 0xe0 ∷ 0x0 ∷ 0x0 ∷ 0x0 ∷ 0xb ∷ 0xf4 ∷ 0x0
    ∷ 0x0 ∷ 0x0 ∷ 0x1 ∷ 0xfd ∷ 0x0 ∷ 0x0 ∷ 0x0 ∷ 0x0 ∷ 0x7f ∷ 0x0 ∷ 0x0 ∷ 0x1 ∷ 0x0 ∷ 0x1f ∷ 0xc0
    ∷ 0x1 ∷ 0x2 ∷ 0xf9 ∷ 0x3 ∷ 0xf0 ∷ 0x1b ∷ 0xe0 ∷ 0xff ∷ 0xfe ∷ 0xfe ∷ 0xff ∷ 0xf8 ∷ 0x3f ∷ 0xff
    ∷ 0xff ∷ 0xff ∷ 0xff ∷ 0xb ∷ 0xff ∷ 0xff ∷ 0xff ∷ 0xff ∷ 0x80 ∷ 0x0 ∷ 0x2f ∷ 0xfd ∷ 0x0 ∷ 0x0
    ∷ 0x0 ∷ 0xf ∷ 0xff ∷ 0x80 ∷ 0x0 ∷ 0x0 ∷ 0xb ∷ 0xf7 ∷ 0xf8 ∷ 0x0 ∷ 0x0 ∷ 0x7 ∷ 0xf8 ∷ 0xff ∷ 0x40
    ∷ 0x0 ∷ 0x7 ∷ 0xfc ∷ 0x1f ∷ 0xf0 ∷ 0x0 ∷ 0x3 ∷ 0xfe ∷ 0x3 ∷ 0xff ∷ 0x0 ∷ 0x2 ∷ 0xff ∷ 0x0 ∷ 0x7f
    ∷ 0xd0 ∷ 0x0 ∷ 0x1f ∷ 0x80 ∷ 0xf ∷ 0xd0 ∷ 0x0 ∷ 0x0 ∷ 0x80 ∷ 0x0 ∷ 0x80 ∷ 0x0 ∷ []

unfoldable pub u_002b : List ℕ
u_002b =
    0x0 ∷ 0x0 ∷ 0x1a ∷ 0x80 ∷ 0x0 ∷ 0x0 ∷ 0x0 ∷ 0x2 ∷ 0xfc ∷ 0x0 ∷ 0x0 ∷ 0x0 ∷ 0x0 ∷ 0x2f ∷ 0xc0
    ∷ 0x0 ∷ 0x0 ∷ 0x0 ∷ 0x2 ∷ 0xfc ∷ 0x0 ∷ 0x0 ∷ 0x0 ∷ 0x0 ∷ 0x2f ∷ 0xc0 ∷ 0x0 ∷ 0x0 ∷ 0x0 ∷ 0x2
    ∷ 0xfc ∷ 0x0 ∷ 0x0 ∷ 0x0 ∷ 0x0 ∷ 0x2f ∷ 0xc0 ∷ 0x0 ∷ 0x0 ∷ 0x0 ∷ 0x2 ∷ 0xfc ∷ 0x0 ∷ 0x0 ∷ 0x0
    ∷ 0x0 ∷ 0x2f ∷ 0xc0 ∷ 0x0 ∷ 0x0 ∷ 0x0 ∷ 0x2 ∷ 0xfc ∷ 0x0 ∷ 0x0 ∷ 0x3f ∷ 0xff ∷ 0xff ∷ 0xff
    ∷ 0xff ∷ 0xd3 ∷ 0xff ∷ 0xff ∷ 0xff ∷ 0xff ∷ 0xfd ∷ 0x3f ∷ 0xff ∷ 0xff ∷ 0xff ∷ 0xff ∷ 0xd2
    ∷ 0xaa ∷ 0xab ∷ 0xfe ∷ 0xaa ∷ 0xa8 ∷ 0x0 ∷ 0x0 ∷ 0x2f ∷ 0xc0 ∷ 0x0 ∷ 0x0 ∷ 0x0 ∷ 0x2 ∷ 0xfc
    ∷ 0x0 ∷ 0x0 ∷ 0x0 ∷ 0x0 ∷ 0x2f ∷ 0xc0 ∷ 0x0 ∷ 0x0 ∷ 0x0 ∷ 0x2 ∷ 0xfc ∷ 0x0 ∷ 0x0 ∷ 0x0 ∷ 0x0
    ∷ 0x2f ∷ 0xc0 ∷ 0x0 ∷ 0x0 ∷ 0x0 ∷ 0x2 ∷ 0xfc ∷ 0x0 ∷ 0x0 ∷ 0x0 ∷ 0x0 ∷ 0x2f ∷ 0xc0 ∷ 0x0 ∷ 0x0
    ∷ 0x0 ∷ 0x2 ∷ 0xfc ∷ 0x0 ∷ 0x0 ∷ 0x0 ∷ 0x0 ∷ 0x2f ∷ 0xc0 ∷ 0x0 ∷ 0x0 ∷ []

unfoldable pub u_002c : List ℕ
u_002c =
    0x2 ∷ 0xaa ∷ 0x3 ∷ 0xff ∷ 0x7 ∷ 0xfe ∷ 0x7 ∷ 0xfc ∷ 0xb ∷ 0xfc ∷ 0xf ∷ 0xf8 ∷ 0xf ∷ 0xf4 ∷ 0xf
    ∷ 0xf0 ∷ 0x1f ∷ 0xe0 ∷ 0x2f ∷ 0xc0 ∷ 0x3f ∷ 0xc0 ∷ 0x3f ∷ 0x40 ∷ []

unfoldable pub u_002d : List ℕ
u_002d =
    0x0 ∷ 0x0 ∷ 0x0 ∷ 0x7f ∷ 0xff ∷ 0xff ∷ 0x7f ∷ 0xff ∷ 0xff ∷ 0x7f ∷ 0xff ∷ 0xff ∷ 0x7f ∷ 0xff
    ∷ 0xff ∷ []

unfoldable pub u_002e : List ℕ
u_002e = 0x5 ∷ 0x7 ∷ 0xfc ∷ 0xff ∷ 0xef ∷ 0xff ∷ 0xff ∷ 0xfb ∷ 0xfe ∷ 0x2f ∷ 0x80 ∷ []

unfoldable pub u_002f : List ℕ
u_002f =
    0x0 ∷ 0x0 ∷ 0x0 ∷ 0x3f ∷ 0xd0 ∷ 0x0 ∷ 0x0 ∷ 0x3 ∷ 0xfc ∷ 0x0 ∷ 0x0 ∷ 0x0 ∷ 0xbf ∷ 0x80 ∷ 0x0
    ∷ 0x0 ∷ 0xf ∷ 0xf4 ∷ 0x0 ∷ 0x0 ∷ 0x1 ∷ 0xff ∷ 0x0 ∷ 0x0 ∷ 0x0 ∷ 0x2f ∷ 0xe0 ∷ 0x0 ∷ 0x0 ∷ 0x3
    ∷ 0xfc ∷ 0x0 ∷ 0x0 ∷ 0x0 ∷ 0x7f ∷ 0xc0 ∷ 0x0 ∷ 0x0 ∷ 0xf ∷ 0xf4 ∷ 0x0 ∷ 0x0 ∷ 0x0 ∷ 0xff ∷ 0x0
    ∷ 0x0 ∷ 0x0 ∷ 0x2f ∷ 0xe0 ∷ 0x0 ∷ 0x0 ∷ 0x3 ∷ 0xfd ∷ 0x0 ∷ 0x0 ∷ 0x0 ∷ 0x7f ∷ 0xc0 ∷ 0x0 ∷ 0x0
    ∷ 0xb ∷ 0xf8 ∷ 0x0 ∷ 0x0 ∷ 0x0 ∷ 0xff ∷ 0x0 ∷ 0x0 ∷ 0x0 ∷ 0x1f ∷ 0xf0 ∷ 0x0 ∷ 0x0 ∷ 0x3 ∷ 0xfd
    ∷ 0x0 ∷ 0x0 ∷ 0x0 ∷ 0x3f ∷ 0xc0 ∷ 0x0 ∷ 0x0 ∷ 0xb ∷ 0xf8 ∷ 0x0 ∷ 0x0 ∷ 0x0 ∷ 0xff ∷ 0x40 ∷ 0x0
    ∷ 0x0 ∷ 0x1f ∷ 0xf0 ∷ 0x0 ∷ 0x0 ∷ 0x2 ∷ 0xfe ∷ 0x0 ∷ 0x0 ∷ 0x0 ∷ 0x3f ∷ 0xc0 ∷ 0x0 ∷ 0x0 ∷ 0x7
    ∷ 0xfc ∷ 0x0 ∷ 0x0 ∷ 0x0 ∷ 0xff ∷ 0x40 ∷ 0x0 ∷ 0x0 ∷ 0xf ∷ 0xf0 ∷ 0x0 ∷ 0x0 ∷ 0x2 ∷ 0xfe ∷ 0x0
    ∷ 0x0 ∷ 0x0 ∷ 0x3f ∷ 0xd0 ∷ 0x0 ∷ 0x0 ∷ 0x7 ∷ 0xfc ∷ 0x0 ∷ 0x0 ∷ 0x0 ∷ 0xbf ∷ 0x80 ∷ 0x0 ∷ 0x0
    ∷ 0xf ∷ 0xf0 ∷ 0x0 ∷ 0x0 ∷ 0x1 ∷ 0xff ∷ 0x0 ∷ 0x0 ∷ 0x0 ∷ 0x3f ∷ 0xd0 ∷ 0x0 ∷ 0x0 ∷ 0x3 ∷ 0xfc
    ∷ 0x0 ∷ 0x0 ∷ 0x0 ∷ []
