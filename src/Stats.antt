-- ===== src/Stats.antt =====
-- internal/goswitch/stats.go: the read-only snapshots of an engine.
mod Snapshots
unfoldable pub use Snapshots.*
pub mod Rows
