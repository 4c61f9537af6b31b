-- ===== src/Keyboard.antt =====
-- The keyboard pipeline of src/wayland: the state that its files share, and one module per file.
pub mod State
pub mod Tracker
pub mod Bridge
pub mod Lifecycle
pub mod Arbiter
pub mod Modifiers
pub mod Selection
pub mod Router
pub mod Dispatch
