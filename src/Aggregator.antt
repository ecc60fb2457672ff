-- ===== src/Aggregator.antt =====
-- The aggregator: from the message stream into the database (cmd/aggregator).
pub mod Messages
pub mod Roundtrip
pub mod Consumer
pub mod System
pub mod Process
mod Examples
