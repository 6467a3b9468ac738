-- ===== src/Core.antt =====
-- What both sides share, crates/core: JSON values, counters, records, pages and live frames.
pub mod Json
pub mod Counter
pub mod Record
pub mod Page
pub mod Push
pub mod Encode
pub mod Subscribe
pub mod Schema
