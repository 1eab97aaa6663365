-- ===== src/Frame.antt =====
-- Frames: what the engine takes from gopacket, which is a parameter, and the tag handling of
-- internal/goswitch/vlan.go and internal/goswitch/engine.go.
mod Layers
mod View
unfoldable pub use Layers.*
unfoldable pub use View.*
