-- ===== src/Ftl.antt =====
-- conv_ftl.c and conv_ftl.h: the page-mapped translation layer with the SLC cache.
mod State
mod Mapping
mod Lines
pub mod Pages
pub mod Advance
pub mod Victim
pub mod Policy
pub mod Collect
pub mod Start
pub mod Namespace
pub mod Read
pub mod Write
pub mod Host
pub mod Index
pub mod Addresses
pub mod Sweep
pub mod Blocks
pub mod Counts
pub mod CountMarks
pub mod LineSums
pub mod Recount
pub mod Relines
pub mod MarkValid
pub mod Queue
pub mod MarkInvalid
pub mod Consistency
pub mod Retag
pub mod Managers
pub mod Handover
pub mod Touch
pub mod Release
pub mod Remap
pub mod Fresh
pub mod Prepare
pub mod Boot
pub mod FreeLines
pub mod Freed
pub mod Onward
pub mod Progress
pub mod Unwritten
unfoldable pub use State.*
unfoldable pub use Mapping.*
unfoldable pub use Lines.*
