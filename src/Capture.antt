-- ===== src/Capture.antt =====
-- Screen capture: src/capture.
pub mod Damage
pub mod Pacer
pub mod Frame
mod Tests
mod FrameTests
