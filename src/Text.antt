-- ===== src/Text.antt =====
-- The growing text buffers of the program and what is built in them.
pub mod Bytes
pub mod Buffer
pub mod Preedit
mod Examples
