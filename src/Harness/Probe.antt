-- ===== src/Harness/Probe.antt =====
-- internal/harness/probe.go: the frames of the tests and how they are captured.
mod Frames
unfoldable pub use Frames.*
pub mod RoundTrip
pub mod Captured
