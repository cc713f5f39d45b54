-- ===== src/Fonts/OpenSans48.antt =====
-- The 48 px text font of fonts/open_sans_48.c: printable ASCII, two bits for each pixel.
pub mod Glyphs20
pub mod Glyphs30
pub mod Glyphs40
pub mod Glyphs50
pub mod Glyphs60
pub mod Glyphs70
pub mod Tables
pub mod Placement
