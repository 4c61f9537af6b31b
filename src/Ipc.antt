-- ===== src/Ipc.antt =====
-- The IPC server of the daemon (src/ipc).
pub mod Client
pub mod Deframe
pub mod Reader
pub mod Topics
mod Examples
pub mod Json
