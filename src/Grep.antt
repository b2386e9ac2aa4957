-- ===== src/Grep.antt =====
-- user/grep.c (so24lab3g02): the matcher of regular expressions.
mod Defs
pub mod Language
mod Tests
unfoldable pub use Defs.*
