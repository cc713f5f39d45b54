-- ===== src/Fonts/Format/Sparse.antt =====
-- Character maps that list the code points they have.
use mathlib.Core.List.{flatten}
use popcorn.Prelude.{
  ℕ, suc, ◌+◌, ◌<◌, ◌≡◌, Bool, true, ◌&&◌, some, List, [], ◌∷◌, length, get_elem?, get_elem?_of_lt,
  lt_of_get_elem?, arith, ltb, ap, ◌∙◌,
}
use popcorn.Prelude.Checks.{all_of, all_of_sound}
use popcorn.Fonts.Format.Types.{GlyphDsc, Cmap, sparse_tiny}
use popcorn.Fonts.Format.Packed.{Placed, is_packed, is_packed-Placed}

-- The offsets ascend, as a binary search needs them to.
unfoldable pub is_ascending : List ℕ → Bool
is_ascending [] = true
is_ascending (x ∷ []) = true
is_ascending (x ∷ y ∷ l) = ltb x y && is_ascending (y ∷ l)

-- What a client of a table in the format `LV_FONT_FMT_TXT_CMAP_SPARSE_TINY` relies on: for an
-- ascending list of its stated length, the code point `range_start + unicode_list[i]` within the
-- range has the glyph `glyph_id_start + i`.
abbrev pub ReadsSparse : (Cmap → ℕ → ℕ) → Type 0
ReadsSparse glyph_id =
    (m : Cmap) (l : List ℕ) (i u : ℕ)
    → m.cmap_type ≡ sparse_tiny
    → m.unicode_list ≡ some l
    → is_ascending l ≡ true
    → m.list_length ≡ length l
    → get_elem? l i ≡ some u
    → u < m.range_length
    → glyph_id m (m.range_start + u) ≡ m.glyph_id_start + i

-- A map that passes the checks, over packed tables with a glyph for each entry after a first one:
-- whatever reads it finds the glyph of the entry's place.
pub listed_lem :
    (glyph_id : Cmap → ℕ → ℕ) (m : Cmap) (l : List ℕ) (bpp : ℕ) (ds : List GlyphDsc)
    (bs : List (List ℕ)) (i u : ℕ)
    → ReadsSparse glyph_id
    → (m.cmap_type ≡ sparse_tiny)
      × (m.unicode_list ≡ some l)
      × (m.list_length ≡ length l)
      × (m.glyph_id_start ≡ 1)
    → is_ascending l ≡ true
    → all_of (λ v. ltb v m.range_length) l ≡ true
    → (length ds ≡ suc (length l)) × (length bs ≡ suc (length l))
    → is_packed bpp 0 ds bs ≡ true
    → get_elem? l i ≡ some u
    → (glyph_id m (m.range_start + u) ≡ i + 1)
      × (d : GlyphDsc) × (b : List ℕ) × (get_elem? ds (glyph_id m (m.range_start + u)) ≡ some d)
      × (get_elem? bs (i + 1) ≡ some b)
      × Placed bpp 0 (flatten bs) d b
listed_lem glyph_id m l bpp ds bs i u reads fields up small sizes packed at_u =
    let near : i < length l = lt_of_get_elem? l i at_u in
    let (d, at_d) = get_elem?_of_lt ds (i + 1) (omega (arith, sizes)) in
    let (b, at_b) = get_elem?_of_lt bs (i + 1) (omega (arith, sizes)) in
    let in_range : ltb u m.range_length ≡ true =
      all_of_sound (λ v. ltb v m.range_length) l i small at_u in
    let own : glyph_id m (m.range_start + u) ≡ i + 1 =
      ground (arith, reads m l i u fields.0 fields.1 up fields.2 at_u, fields) in
    (
      own,
      d,
      b,
      ap (get_elem? ds) own ∙ at_d,
      at_b,
      is_packed-Placed bpp 0 ds bs (i + 1) d b packed at_d at_b,
    )
