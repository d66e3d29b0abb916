-- ===== src/Ptr.antt =====
-- crates/core/src/ptr: raw pointers, their components and their layouts.
pub mod Layout
pub mod Metadata
pub mod Pointer
mod Tests
