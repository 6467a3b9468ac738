-- ===== src/Client.antt =====
-- The client engine, crates/client.
pub mod Connection
pub mod Pulls
pub mod Queue
pub mod Push
pub mod Rejected
pub mod Report
pub mod Authority
pub mod Rebase
pub mod State
pub mod Downlink
pub mod Live
pub mod Acknowledge
