-- ===== src/Server.antt =====
-- The crate crates/server: the rooms that synchronise the playback of a user's devices.
pub mod Sync
pub mod Tasks
mod Tests
