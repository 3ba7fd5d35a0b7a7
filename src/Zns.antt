-- ===== src/Zns.antt =====
-- zns_ftl.h, nvme_zns.h, zns_ftl.c, zns_mgmt_send.c, zns_mgmt_recv.c and zns_read_write.c: the zoned
-- namespace, whose zones are written at their write pointers only.
mod State
mod Zones
unfoldable pub use State.*
unfoldable pub use Zones.*
pub mod Send
pub mod Manage
pub mod Access
pub mod Write
pub mod Zrwa
pub mod Read
pub mod Report
pub mod Start
pub mod Host
pub mod Accounts
pub mod Moves
pub mod Releases
pub mod Sends
pub mod Opens
pub mod Spans
pub mod Flushes
pub mod Sent
pub mod ManySent
pub mod Appends
pub mod Admits
pub mod Loops
pub mod Reaches
pub mod WriteLoops
pub mod Tables
pub mod Drives
pub mod Writes
pub mod Initial
pub mod Commands
