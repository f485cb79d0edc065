-- ===== src/Bpf.antt =====
-- The BSD packet filter: generic/net/bpf_filter.c with the encodings of generic/net/bpf.h.
pub mod Insn
pub mod Packet
pub mod Filter
pub mod Validate
pub mod Rows
pub mod Checked
pub mod Safety
pub mod Backward
pub mod Loads
pub mod Chains
mod Tests
