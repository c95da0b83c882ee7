-- ===== src/Apple.antt =====
-- The crate crates/apple: the choice of the mirror, and the playlists.
pub mod Mirror
pub mod Playlist
mod Tests
