-- ===== src/Vlan.antt =====
-- internal/goswitch/vlan.go: port roles, and the VLAN of an ingress frame. The tag handling of
-- egress frames is in Frame.antt.
mod Rules
unfoldable pub use Rules.*
pub mod Classify
