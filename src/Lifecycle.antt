-- ===== src/Lifecycle.antt =====
-- The goroutines of an engine: `Start`, `Stop` and `gcLoop` (internal/goswitch/engine.go) and
-- `rxLoop` (internal/goswitch/afpacket.go), as a step relation over all interleavings.
mod Steps
unfoldable pub use Steps.*
pub mod Shutdown
pub mod Drain
pub mod Bound
