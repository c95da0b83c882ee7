-- ===== src/Stream.antt =====
-- The crate crates/stream: byte ranges, the chunk pipe, the choice of a worker, its circuit breaker and
-- the metrics.
pub mod Breaker
pub mod Fetch
pub mod Metrics
pub mod Pipe
pub mod Pool
pub mod Range
pub mod Upload
mod Tests
