-- ===== src/Nand.antt =====
-- ssd.h and ssd.c: the flash array, its timing, and the write buffer.
mod State
mod Start
mod Advance
pub mod Access
pub mod WriteBuffer
pub mod Timing
pub mod Command
pub mod Total
unfoldable pub use State.*
unfoldable pub use Start.*
unfoldable pub use Advance.*
