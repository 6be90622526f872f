-- ===== src/Tracking.antt =====
-- vision_os/perception/tracking: the life of a track, its record, and the table of a camera's tracks.
pub mod Lifecycle
pub mod Record
pub mod Table
mod Tests
