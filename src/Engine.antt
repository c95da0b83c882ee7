-- ===== src/Engine.antt =====
-- The crate crates/engine: file names, captions, the planning of ZIP parts and the download queue.
pub mod Caption
pub mod Filename
pub mod Inflight
pub mod Priority
pub mod Queue
pub mod Storage
pub mod ZipState
pub mod ZipPlan
mod Tests
