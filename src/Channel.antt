-- ===== src/Channel.antt =====
-- channel_model.c and channel_model.h: the bandwidth model of a NAND channel and of the PCIe link.
-- A ring of credit entries, one for each 4000 ns, starts at `head`; a transfer takes credits from
-- the entry of its request time on, and is delayed by the entries that it has to go past.
mod Step
pub mod Invariant
unfoldable pub use Step.*
