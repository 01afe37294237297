-- ===== src/Wire/Tcp.antt =====
-- listener/canary/tcp/tcp.go: the header, its options and `Unmarshal`.
-- `Marshal` is in Tcp/Marshal, the checksum in Tcp/Checksum.
pub mod Marshal
pub mod Checksum
pub mod Options
pub mod RoundTrip
pub mod Panics
mod Defs
unfoldable pub use Defs.*
