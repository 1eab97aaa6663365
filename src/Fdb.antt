-- ===== src/Fdb.antt =====
-- internal/goswitch/fdb.go: the MAC learning table. Times are `UnixNano` values, natural numbers
-- below 2^63, so `now - seenAt` does not leave `int64`; the ageing duration is an `int64`.
-- Table has each method as one step, Shared the accesses of each one by one.
mod Table
unfoldable pub use Table.*
pub mod Laws
pub mod Ageing
pub mod History
pub mod Shared
