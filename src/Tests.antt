-- ===== src/Tests.antt =====
-- Runs at concrete data, and the theorems applied to it.
mod Params
mod Instance
mod Mapping
mod Flash
mod Lines
mod Progress
mod Zones
mod Workers
mod Units
