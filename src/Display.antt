-- ===== src/Display.antt =====
-- The display geometry of src/display/.
pub mod Geometry
mod Tests
