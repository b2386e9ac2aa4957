-- ===== src/Print.antt =====
-- user/printf.c and user/ulib.c (so24lab3g02): numbers as text.
mod Defs
mod Digits
pub mod RoundTrip
mod Tests
unfoldable pub use Defs.*
