-- ===== src/Tests/FontTables.antt =====
-- The font tables at a letter and at a symbol.
use popcorn.Prelude.{
  ℕ, zero, suc, ◌+◌, ◌-◌, ◌<◌, ◌≡◌, refl, arith, Option, some, none, get_elem?, List, [], ◌∷◌, ◌==◌,
  if◌then◌else◌, true,
}
use popcorn.Prelude.Int.{pos, negsuc}
use popcorn.Fonts.Format.{
  GlyphDsc, glyph, Cmap, format0_tiny, sparse_tiny, Placed, ReadsSparse, is_ascending,
}
use popcorn.Fonts.Quicksand200.Tables as Letters
use popcorn.Fonts.Quicksand200.Placement.{listed_has_letter}
use popcorn.Fonts.OpenSans48.Tables
use popcorn.Fonts.OpenSans48.Placement.{printable_has_glyph}
use popcorn.Fonts.SfSymbols48.Tables as Symbols
use popcorn.Fonts.SfSymbols48.Placement.{listed_has_symbol}

abbrev upper_a : GlyphDsc
upper_a = glyph 4477 426 27 34 (pos 0) (pos 0)

abbrev ascii : Cmap
ascii = record {
  range_start = 32;
  range_length = 95;
  glyph_id_start = 1;
  unicode_list = none;
  glyph_id_ofs_list = none;
  list_length = 0;
  cmap_type = format0_tiny;
}

-- A reader as the format prescribes it.
abbrev by_offset : Cmap → ℕ → ℕ
by_offset m c = m.glyph_id_start + (c - m.range_start)

printable_has_glyph_example :
    (by_offset ascii 0x41 ≡ 0x41 - 0x1f)
    × (d : GlyphDsc) × (b : List ℕ) × (get_elem? Tables.font_dsc.glyph_dsc (by_offset ascii 0x41)
        ≡ some d)
    × (get_elem? Tables.glyph_bitmaps (0x41 - 0x1f) ≡ some b)
    × Placed Tables.font_dsc.bpp 0 Tables.font_dsc.glyph_bitmap d b
unfolding Tables.font_dsc Tables.cmaps
printable_has_glyph_example =
    printable_has_glyph by_offset ascii 0x41 (λ m c p lo hi. refl) refl (omega arith) (omega arith)

abbrev first_symbol : GlyphDsc
first_symbol = glyph 0 797 42 51 (pos 4) (negsuc 5)

abbrev listed : Cmap
listed = record {
  range_start = 1048904;
  range_length = 97;
  glyph_id_start = 1;
  unicode_list = some (0x0 ∷ 0x60 ∷ []);
  glyph_id_ofs_list = none;
  list_length = 2;
  cmap_type = sparse_tiny;
}

-- A reader that looks the offset up in the list from its front.
index_of : ℕ → List ℕ → ℕ
index_of x [] = 0
index_of x (y ∷ l) = if x == y then 0 else suc (index_of x l)

abbrev by_search : Cmap → ℕ → ℕ
by_search m c = m.glyph_id_start + index_of (c - m.range_start) (Option-list m.unicode_list)
  where
    Option-list : Option (List ℕ) → List ℕ
    Option-list none = []
    Option-list (some l) = l

first_below :
    (y : ℕ) (l : List ℕ) (i u : ℕ) → is_ascending (y ∷ l) ≡ true → get_elem? l i ≡ some u → y < u
unfolding is_ascending
first_below y [] i u a e = cc
first_below y (z ∷ l) zero u a e = ground arith
first_below y (z ∷ l) (suc i) u a e = ground (arith, first_below z l i u)

ascending_tail : (y : ℕ) (l : List ℕ) → is_ascending (y ∷ l) ≡ true → is_ascending l ≡ true
unfolding is_ascending
ascending_tail y [] a = refl
ascending_tail y (z ∷ l) a = ground arith

index_of-ascending :
    (l : List ℕ) (i u : ℕ) → is_ascending l ≡ true → get_elem? l i ≡ some u → index_of u l ≡ i
unfolding index_of
index_of-ascending [] i u a e = cc
index_of-ascending (y ∷ l) zero u a e = ground arith
index_of-ascending (y ∷ l) (suc i) u a e =
    ground (arith, first_below y l i u a e, index_of-ascending l i u (ascending_tail y l a) e)

by_search-ReadsSparse : ReadsSparse by_search
by_search-ReadsSparse m l i u t e a n at small =
    let offset : m.range_start + u - m.range_start ≡ u = omega arith in
    ground (arith, index_of-ascending l i u a at)

listed_has_symbol_example :
    (by_search listed (1048904 + 0x60) ≡ 1 + 1)
    × (d : GlyphDsc) × (b : List ℕ) × (get_elem? Symbols.font_dsc.glyph_dsc
          (by_search listed (1048904 + 0x60))
        ≡ some d)
    × (get_elem? Symbols.glyph_bitmaps (1 + 1) ≡ some b)
    × Placed Symbols.font_dsc.bpp 0 Symbols.font_dsc.glyph_bitmap d b
unfolding Symbols.font_dsc Symbols.cmaps Symbols.unicode_list_0
listed_has_symbol_example =
    listed_has_symbol by_search listed 1 0x60 by_search-ReadsSparse refl refl

abbrev letters : Cmap
letters = record {
  range_start = 80;
  range_length = 35;
  glyph_id_start = 1;
  unicode_list = some (0x0 ∷ 0x13 ∷ 0x1e ∷ 0x1f ∷ 0x20 ∷ 0x22 ∷ []);
  glyph_id_ofs_list = none;
  list_length = 6;
  cmap_type = sparse_tiny;
}

-- The letter o.
listed_has_letter_example :
    (by_search letters (80 + 0x1f) ≡ 3 + 1)
    × (d : GlyphDsc) × (b : List ℕ) × (get_elem? Letters.font_dsc.glyph_dsc
          (by_search letters (80 + 0x1f))
        ≡ some d)
    × (get_elem? Letters.glyph_bitmaps (3 + 1) ≡ some b)
    × Placed Letters.font_dsc.bpp 0 Letters.font_dsc.glyph_bitmap d b
unfolding Letters.font_dsc Letters.cmaps Letters.unicode_list_0
listed_has_letter_example =
    listed_has_letter by_search letters 3 0x1f by_search-ReadsSparse refl refl
