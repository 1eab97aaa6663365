-- ===== src/Harness/Through.antt =====
-- A test frame (internal/harness/probe.go) on its way through the engine
-- (internal/goswitch/engine.go).
pub mod Views
pub mod Packets
pub mod Delivery
