-- ===== src/Fs.antt =====
-- kernel/fs.c (so24lab3g02): the bitmap of blocks, and the blocks of a file.
mod Bits
mod Defs
pub mod Bitmap
mod Content
mod Slots
mod Logged
mod Room
mod Grow
mod Give
pub mod Bmap
mod Writei
mod Store
mod Patch
mod Round
mod Loop
pub mod Write
mod Readi
pub mod Read
mod Tests
unfoldable pub use Defs.*
unfoldable pub use Logged.*
unfoldable pub use Content.*
unfoldable pub use Writei.*
unfoldable pub use Readi.*
