-- ===== src/Refcount.antt =====
-- crates/core/src/arc.rs and rc.rs: shared pointers, and their fallible cyclic constructors.
pub mod Cell
pub mod Creation
pub mod Counts
pub mod Arc
pub mod Rc
mod Tests
