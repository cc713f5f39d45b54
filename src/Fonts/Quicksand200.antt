-- ===== src/Fonts/Quicksand200.antt =====
-- The 200 px display font of fonts/quicksand_200.c: the letters of the system's name, two bits for
-- each pixel.
mod Glyph0050
mod Glyph0063
mod Glyph006E
mod Glyph006F
mod Glyph0070
mod Glyph0072
pub mod Tables
pub mod Placement
