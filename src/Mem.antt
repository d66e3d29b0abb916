-- ===== src/Mem.antt =====
-- crates/core/src/mem: alignments and address masks.
pub mod Repr
pub mod Private
pub mod Align
pub mod Mask
pub mod Layout
pub mod Convert
pub mod Traits
pub mod Documented
pub mod Types
mod Tests
