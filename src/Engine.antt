-- ===== src/Engine.antt =====
-- internal/goswitch/engine.go: the forwarding engine. `Ports` has its state, `Build` the
-- constructor, `Forward` the handling of one frame; the other children are about these.
mod Ports
mod Build
mod Forward
pub mod Wired
pub mod Construct
pub mod Deliver
pub mod Step
pub mod Switching
pub mod Admission
pub mod Isolation
pub mod Run
pub mod Heard
pub mod LastHeard
pub mod Reply
pub mod Egress
pub mod Config
pub mod Handles
pub mod Counters
pub mod Outcome
pub mod Accounts
unfoldable pub use Ports.*
unfoldable pub use Build.*
unfoldable pub use Forward.*
