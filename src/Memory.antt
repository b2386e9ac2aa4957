-- ===== src/Memory.antt =====
-- kernel/string.c (so24lab3g02): bytes and strings in memory.
mod Defs
pub mod Copy
pub mod Text
mod Tests
unfoldable pub use Defs.*
