-- ===== src/Transport.antt =====
-- internal/goswitch/afpacket.go: what a port's handle is opened with, and its filter. The filter
-- programs of internal/harness stand here too, beside the one that they copy.
mod Bpf
mod Open
unfoldable pub use Bpf.*
unfoldable pub use Open.*
pub mod Filters
pub mod Opening
