-- ===== src/Platform.antt =====
-- crates/platform-linux: utilities for Linux.
pub mod Errno
pub mod AtomicFd
pub mod DmaBuf
pub mod CoreDmaBuf
mod Tests
