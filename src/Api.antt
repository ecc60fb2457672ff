-- ===== src/Api.antt =====
-- The API gateway (cmd/api).
pub mod Thresholds
pub mod Handler
pub mod Services
pub mod Stream
pub mod Router
pub mod Process
mod Examples
