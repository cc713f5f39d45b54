-- ===== src/Fonts/Format.antt =====
-- The shape of the tables in fonts/*.c, and when such tables fit together.
mod Types
mod Packed
mod Runs
mod Sparse
pub use Types.*
unfoldable pub use Packed.*
unfoldable pub use Runs.*
unfoldable pub use Sparse.*
