-- ===== src/Collector.antt =====
-- The collector: telemetry in over HTTP and gRPC, out to the message stream (cmd/collector).
pub mod Requests
pub mod Publisher
pub mod Grpc
pub mod Handler
pub mod RateLimit
pub mod Server
pub mod Process
mod Examples
