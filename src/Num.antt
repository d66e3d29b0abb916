-- ===== src/Num.antt =====
-- crates/core/src/num: extra numeric types.
pub mod PowerOfTwo
pub mod Errors
mod Tests
