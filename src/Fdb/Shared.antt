-- ===== src/Fdb/Shared.antt =====
-- The forwarding database (internal/goswitch/fdb.go) as its callers share it: entries on a heap,
-- the read lock and the write lock, and the accesses behind the locks one by one.
mod Steps
pub use Steps.*
pub mod Invariant
pub mod Answers
pub mod Shown
pub mod Paused
pub mod Learning
pub mod Looking
pub mod Keys
pub mod Reaping
pub mod Sweeping
pub mod Alone
