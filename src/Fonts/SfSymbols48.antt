-- ===== src/Fonts/SfSymbols48.antt =====
-- The 48 px symbol font of fonts/sf_symbols_48.c: two symbols, four bits for each pixel.
pub mod Glyph100148
pub mod Glyph1001A8
pub mod Tables
pub mod Placement
