-- ===== src/Semaphore.antt =====
-- kernel/semaphore.c: the counting semaphores of the second laboratory.
mod Defs
pub mod Table
pub mod System
pub mod Killed
mod Tests
unfoldable pub use Defs.*
