-- ===== src/Fonts/Format/Types.antt =====
-- One record for each structure that the initialisers in fonts/*.c fill in, with the fields that
-- they name. The structures' own declarations belong to LVGL.
use popcorn.Prelude.{ℕ, Option, List}
use popcorn.Prelude.Int.{ℤ}

-- `lv_font_fmt_txt_glyph_dsc_t`: where the glyph's bits start, and its box in pixels.
pub record GlyphDsc : Type 0 where
  pub bitmap_index : ℕ
  pub adv_w : ℕ
  pub box_w : ℕ
  pub box_h : ℕ
  pub ofs_x : ℤ
  pub ofs_y : ℤ

-- The two values of `lv_font_fmt_txt_cmap_type_t` that the files use.
pub data CmapType : Type 0 where
  format0_tiny sparse_tiny : CmapType

-- `lv_font_fmt_txt_cmap_t`; `none` is NULL.
pub record Cmap : Type 0 where
  pub range_start : ℕ
  pub range_length : ℕ
  pub glyph_id_start : ℕ
  pub unicode_list : Option (List ℕ)
  pub glyph_id_ofs_list : Option (List ℕ)
  pub list_length : ℕ
  pub cmap_type : CmapType

-- `lv_font_fmt_txt_kern_pair_t`: left and right glyph of each pair in turn.
pub record KernPair : Type 0 where
  pub glyph_ids : List ℕ
  pub values : List ℤ
  pub pair_cnt : ℕ
  pub glyph_ids_size : ℕ

-- `lv_font_fmt_txt_dsc_t`, less the cache that LVGL fills in.
pub record FontDsc : Type 0 where
  pub glyph_bitmap : List ℕ
  pub glyph_dsc : List GlyphDsc
  pub cmaps : List Cmap
  pub kern_dsc : Option KernPair
  pub kern_scale : ℕ
  pub cmap_num : ℕ
  pub bpp : ℕ
  pub kern_classes : ℕ
  pub bitmap_format : ℕ

-- `lv_font_t`, less the two functions of LVGL that read the description.
pub record Font : Type 0 where
  pub line_height : ℕ
  pub base_line : ℕ
  pub underline_position : ℤ
  pub underline_thickness : ℕ
  pub dsc : FontDsc

-- An entry of a glyph table, its fields in the order of the initialisers.
abbrev pub glyph : ℕ → ℕ → ℕ → ℕ → ℤ → ℤ → GlyphDsc
glyph index adv w h x y = record {
  bitmap_index = index;
  adv_w = adv;
  box_w = w;
  box_h = h;
  ofs_x = x;
  ofs_y = y;
}
