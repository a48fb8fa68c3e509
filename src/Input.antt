-- ===== src/Input.antt =====
-- Keyboard input: src/input.
pub mod Keymap
pub mod Keyboard
pub mod Depressed
pub mod Actor
mod Tests
