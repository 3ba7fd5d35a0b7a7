-- ===== src/Params.antt =====
-- The parameters of the drive: ssd_config.h, `struct ssdparams` (ssd.h) and their initialisation
-- (ssd.c).
mod Constants
mod Fields
pub mod Shape
pub mod Tlc
pub mod Slc
pub mod Init
pub mod Geometry
unfoldable pub use Constants.*
unfoldable pub use Fields.*
