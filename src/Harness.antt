-- ===== src/Harness.antt =====
-- internal/harness: the test harness. Probe has its frames and captures, Perf the measurements,
-- Adapter and Bridge the switches that it tests, Topology the hosts and namespaces.
pub mod Running
pub mod Probe
pub mod Perf
pub mod Adapter
pub mod Topology
pub mod Fixture
pub mod Through
pub mod Sockets
