-- ===== src/Harness/Adapter.antt =====
-- internal/harness/switch.go: the switches under test. GoSwitch has the adapter of this
-- repository's engine, Bridge the commands that configure a kernel bridge.
mod GoSwitch
mod Bridge
unfoldable pub use GoSwitch.*
unfoldable pub use Bridge.*
pub mod Handles
pub mod SameVlans
