-- ===== src/Bio.antt =====
-- kernel/bio.c and kernel/sleeplock.c (so24lab3g02): the cache of disk blocks and the locks on its buffers.
mod Defs
pub mod Search
pub mod Copies
mod Tests
unfoldable pub use Defs.*
