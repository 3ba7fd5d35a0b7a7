-- ===== src/Io.antt =====
-- io.c: the workers, their queues of requests in flight, and the doorbells of the host.
mod State
mod Queue
mod Work
unfoldable pub use State.*
unfoldable pub use Queue.*
unfoldable pub use Work.*
pub mod Chains
pub mod Places
pub mod Inserts
pub mod Ordered
pub mod Workers
pub mod Requests
pub mod Relinks
pub mod Releases
pub mod Reclaims
pub mod Starts
pub mod Visits
pub mod Passes
