-- ===== src/Spinlock.antt =====
-- kernel/spinlock.c (so24lab3g02): interrupts off and on in matched pairs, and the lock itself.
mod Defs
pub mod Interrupts
pub mod Exclusion
mod Tests
unfoldable pub use Defs.*
