-- ===== src/Egfx.antt =====
-- The graphics pipeline: src/egfx.
pub mod Shared
pub mod Factory
pub mod OutputQueue
pub mod ClearCodec
pub mod Transport
pub mod Surface
pub mod Avc
pub mod Session
mod Tests
