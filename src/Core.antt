-- ===== src/Core.antt =====
-- The crate crates/core: retries.
pub mod Retry
mod Tests
