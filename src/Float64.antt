-- ===== src/Float64.antt =====
-- Go's float64 by its IEEE 754 bit pattern, with the comparisons that the source uses
-- (cmd/agent/collector.go, cmd/agent/config_poller.go, cmd/api/thresholds.go).
-- The sign is bit 63. A magnitude above that of infinity is NaN, and every comparison with it fails.
mod Order
pub use Order.*
mod Defs
pub use Defs.{FloatOps}
unfoldable pub use Defs.{Float64, infinity_bits, negative, magnitude, is_nan, is_finite, ltf, lef}
unfoldable pub use Defs.{zero_f, one_f, hundred_f, eighty_five_f, ninety_f}
