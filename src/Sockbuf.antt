-- ===== src/Sockbuf.antt =====
-- Socket buffers: generic/kern/uipc_socket2.c with generic/sys/socketvar.h.
pub mod Buffer
pub mod Append
pub mod Drop
pub mod Counts
pub mod Growing
pub mod Shrinking
pub mod Invariant
pub mod Contents
pub mod Dropped
pub mod Flushed
pub mod Space
pub mod Records
pub mod Lock
pub mod Locking
pub mod Reserve
pub mod Reserving
mod Tests
