-- ===== src/Fonts.antt =====
-- The fonts under fonts/: tables that LVGL's text renderer reads. `Format` has the records that
-- the files fill in and the checks that such tables must pass; one child for each font.
pub mod Format
pub mod OpenSans48
pub mod Quicksand200
pub mod SfSymbols48
