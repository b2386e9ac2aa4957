-- ===== src/Log.antt =====
-- kernel/log.c: the write-ahead log of the file system.
mod Defs
pub mod Install
pub mod Crash
pub mod Space
mod Tests
unfoldable pub use Defs.*
