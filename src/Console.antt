-- ===== src/Console.antt =====
-- kernel/console.c (so24lab3g02): the line that is typed, and the lines ready to be read.
mod Defs
mod Ring
mod Moves
pub mod Edit
pub mod Read
pub mod Typed
mod Tests
unfoldable pub use Defs.*
