-- ===== src/Harness/Sockets.antt =====
-- The sockets of the harness (internal/harness/probe.go, internal/harness/perf.go): how they are
-- opened in a network namespace, used and closed.
mod Namespaces
mod Captures
mod Meters
unfoldable pub use Namespaces.*
unfoldable pub use Captures.*
unfoldable pub use Meters.*
pub mod Restored
pub mod Held
pub mod Closed
