-- ===== src/Fonts/OpenSans48/Placement.antt =====
-- The tables of fonts/open_sans_48.c fit together: each glyph's bytes are where its description
-- says, every printable ASCII character has a glyph, and the glyphs stay within the line.
use popcorn.Prelude.{
  ℕ, ◌+◌, ◌-◌, ◌≤◌, ◌<◌, ◌≡◌, refl, true, some, List, length, get_elem?, get_elem?_of_lt, arith, ap,
  ◌∙◌,
}
use popcorn.Prelude.Checks.{all_of, all_of_sound}
use popcorn.Prelude.Int.{pos, ◌+ℤ◌, ◌≤ℤ◌}
use popcorn.Fonts.Format.{
  GlyphDsc, Cmap, format0_tiny, Placed, is_packed, is_packed-Placed, in_line, in_line_lem,
}
use popcorn.Fonts.OpenSans48.Tables.{
  glyph_bitmaps, glyph_bitmap, glyph_dsc, cmaps, font_dsc, open_sans_48,
}

packed : is_packed 2 0 glyph_dsc glyph_bitmaps ≡ true
unfolding is_packed glyph_dsc glyph_bitmaps
packed = refl

-- The bytes that follow a glyph's index are its own, as many as its box of two-bit pixels takes.
pub glyph_dsc-Placed :
    (id : ℕ) (d : GlyphDsc) (b : List ℕ)
    → get_elem? glyph_dsc id ≡ some d
    → get_elem? glyph_bitmaps id ≡ some b
    → Placed font_dsc.bpp 0 font_dsc.glyph_bitmap d b
unfolding glyph_bitmap font_dsc
glyph_dsc-Placed id d b = is_packed-Placed 2 0 glyph_dsc glyph_bitmaps id d b packed

all_in_line : all_of (in_line 48 11) glyph_dsc ≡ true
unfolding all_of in_line glyph_dsc ◌+ℤ◌
all_in_line = refl

-- No glyph's box reaches below the line or above it.
pub glyph_dsc-in_line :
    (id : ℕ) (d : GlyphDsc)
    → get_elem? glyph_dsc id ≡ some d
    → (pos 0 ≤ℤ d.ofs_y +ℤ pos open_sans_48.base_line)
      × (d.ofs_y +ℤ pos d.box_h +ℤ pos open_sans_48.base_line ≤ℤ pos open_sans_48.line_height)
unfolding open_sans_48
glyph_dsc-in_line id d e =
    in_line_lem 48 11 d (all_of_sound (in_line 48 11) glyph_dsc id all_in_line e)

length-glyph_dsc : (length glyph_dsc ≡ 96) × (length glyph_bitmaps ≡ 96)
unfolding glyph_dsc glyph_bitmaps
length-glyph_dsc = (refl, refl)

-- What a client of a table in the format `LV_FONT_FMT_TXT_CMAP_FORMAT0_TINY` relies on: code
-- points from `range_start` on have the glyphs from `glyph_id_start` on, in order.
abbrev pub ReadsFormat0 : (Cmap → ℕ → ℕ) → Type 0
ReadsFormat0 glyph_id =
    (m : Cmap) (c : ℕ)
    → m.cmap_type ≡ format0_tiny
    → m.range_start ≤ c
    → c < m.range_start + m.range_length
    → glyph_id m c ≡ m.glyph_id_start + (c - m.range_start)

-- Whatever reads the character map in that way finds for each printable ASCII character, from
-- the space to the tilde, the description and the bytes of the glyph of that character's place
-- after the reserved one, and the bytes are where the description says.
pub printable_has_glyph :
    (glyph_id : Cmap → ℕ → ℕ) (m : Cmap) (c : ℕ)
    → ReadsFormat0 glyph_id
    → get_elem? font_dsc.cmaps 0 ≡ some m
    → 0x20 ≤ c
    → c ≤ 0x7e
    → (glyph_id m c ≡ c - 0x1f)
      × (d : GlyphDsc) × (b : List ℕ) × (get_elem? font_dsc.glyph_dsc (glyph_id m c) ≡ some d)
      × (get_elem? glyph_bitmaps (c - 0x1f) ≡ some b)
      × Placed font_dsc.bpp 0 font_dsc.glyph_bitmap d b
unfolding font_dsc cmaps
printable_has_glyph glyph_id m c reads e lo hi =
    let (d, at_d) = get_elem?_of_lt glyph_dsc (c - 0x1f) (omega (arith, length-glyph_dsc)) in
    let (b, at_b) = get_elem?_of_lt glyph_bitmaps (c - 0x1f) (omega (arith, length-glyph_dsc)) in
    let own : glyph_id m c ≡ c - 0x1f = ground (arith, reads m c) in
    (
      own,
      d,
      b,
      ap (get_elem? glyph_dsc) own ∙ at_d,
      at_b,
      glyph_dsc-Placed (c - 0x1f) d b at_d at_b,
    )
