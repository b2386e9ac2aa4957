-- ===== src/Pipe.antt =====
-- kernel/pipe.c: the byte queue between two processes.
mod Defs
pub mod Queue
mod Tests
unfoldable pub use Defs.*
