-- ===== src/Harness/Perf.antt =====
-- internal/harness/perf.go: the measurements of throughput and latency.
mod Stamps
mod Latency
mod Throughput
unfoldable pub use Stamps.*
unfoldable pub use Latency.*
unfoldable pub use Throughput.*
pub mod Measured
pub mod Percentiles
pub mod Counted
pub mod Pace
