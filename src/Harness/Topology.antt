-- ===== src/Harness/Topology.antt =====
-- internal/harness/topology.go: the hosts of a test, their namespaces and how they are built.
mod Hosts
mod Commands
unfoldable pub use Hosts.*
unfoldable pub use Commands.*
pub mod Names
pub mod CleanUp
