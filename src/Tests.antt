-- ===== src/Tests.antt =====
-- Runs of the code at concrete inputs: a theorem of each module, applied.
pub mod Fixtures
mod Locking
mod Pools
mod Frames
mod Tables
mod Batches
mod Settings
mod Starting
mod Listening
mod Upgrades
mod Auditing
mod Tools
