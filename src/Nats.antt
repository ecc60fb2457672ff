-- ===== src/Nats.antt =====
-- The message stream (internal/nats/jetstream.go). JetStream is a parameter, with what the code
-- relies on: an acknowledged publication is appended to the stream, and one that fails is in the
-- stream or is not.
pub mod Defs
pub mod Subscription
pub mod Connection
pub use Defs.{JetStream, Delivery, ack, nak, subject_metrics, subject_logs, subject_spans}
