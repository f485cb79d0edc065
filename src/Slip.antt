-- ===== src/Slip.antt =====
-- TCP/IP header compression for serial lines: generic/net/slcompress.c and slcompress.h.
pub mod Header
pub mod Encoding
pub mod States
pub mod Changes
pub mod Compress
pub mod Uncompress
pub mod Saved
pub mod Deltas
pub mod Fields
pub mod Special
pub mod Whole
pub mod Line
pub mod Lru
pub mod Synced
pub mod Arrivals
pub mod RoundTrip
pub mod Runs
pub mod Order
pub mod Errors
mod Tests
