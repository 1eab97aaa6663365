-- ===== src/Command.antt =====
-- cmd/vibe-switch/main.go: the command line. Text is a list of code points.
mod Text
mod Flags
unfoldable pub use Text.*
unfoldable pub use Flags.*
pub mod Vid
pub mod Ports
pub mod Start
pub mod Handles
