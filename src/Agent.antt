-- ===== src/Agent.antt =====
-- The agent: samples in, telemetry and alerts out (cmd/agent).
pub mod Client
pub mod Hostname
pub mod Status
pub mod Alerter
pub mod Send
pub mod Thresholds
pub mod Edge
pub mod Rounds
pub mod Heartbeat
pub mod Network
pub mod Interleaving
pub mod Process
mod Examples
