-- ===== src/Control/Server.antt =====
-- The server of the control socket (internal/control/service.go): `Serve`, `acceptLoop` and
-- `Close`.
mod Steps
pub use Steps.*
pub mod Invariant
pub mod Shutdown
