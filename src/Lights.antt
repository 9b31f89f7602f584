-- ===== src/Lights.antt =====
-- lights/lights.c: the lights HAL.
pub mod Defs
pub mod Brightness
pub mod Leds
pub mod Priority
mod Examples
