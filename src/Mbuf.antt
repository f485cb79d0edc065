-- ===== src/Mbuf.antt =====
-- Mbufs and chains of mbufs: generic/kern/uipc_mbuf.c with the macros of generic/sys/mbuf.h.
pub mod Chain
pub mod Trim
pub mod Adj
pub mod Copy
pub mod Build
pub mod Pullup
pub mod Split
pub mod Located
pub mod Parts
pub mod Cluster
pub mod CountTable
pub mod References
pub mod Prepended
pub mod Contiguous
pub mod Copied
mod Tests
