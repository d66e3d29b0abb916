-- ===== src/Word.antt =====
-- Unsigned machine words of any width: the operations, and what they compute.
mod Defs
mod Steps
mod Count
mod Mask
unfoldable pub use Defs.{count_ones, trailing_zeros, leading_ones}
pub use Defs.*
pub use Count.*
pub use Mask.*
