-- ===== src/Vm.antt =====
-- kernel/vm.c (so24lab3g02): page tables of three levels, and memory through them.
mod Defs
mod Px
pub mod Tree
mod Grow
mod Walk
mod Page
pub mod Map
mod User
mod Clear
pub mod Unmap
pub mod Copy
mod Tests
unfoldable pub use Defs.*
unfoldable pub use User.*
