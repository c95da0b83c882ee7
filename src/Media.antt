-- ===== src/Media.antt =====
-- The crate crates/media: the durations of fragmented MP4 files.
pub mod Fragmented
mod Tests
