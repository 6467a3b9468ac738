-- ===== src/Server.antt =====
-- The server engine, crates/server.
pub mod Live
pub mod Config
pub mod Slots
pub mod Host
pub mod Readback
pub mod Push
pub mod Pull
pub mod External
