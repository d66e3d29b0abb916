-- ===== src/Capture.antt =====
-- crates/capture-linux: screen capture for Linux.
pub mod Channel
pub mod Memory
pub mod SharedCache
mod Tests
pub mod Screen
pub mod Sources
