-- ===== src/Engine.antt =====
-- The decision rules of src/engine, which touch neither Wayland nor a clock.
pub mod Focus
pub mod Timing
