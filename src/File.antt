-- ===== src/File.antt =====
-- kernel/file.c (so24lab3g02): the table of open files and its reference counts.
mod Defs
pub mod Count
mod Tests
unfoldable pub use Defs.*
