-- ===== src/Lib.antt =====
-- anp is the 4.4BSD network stack as a user-space program: the kernel code under generic/, and
-- under uspace/ the clock, the threads and the descriptor table that stand in for the rest of the
-- kernel. A packet is a chain of mbufs, which the protocols cut and join, the packet filter reads,
-- and the socket buffers keep; the timers drive the protocols.
--
-- The parts:
-- - Prelude: Boolean tests, lists, slices and integers over the native numbers, and words of 32
--   bits.
-- - Bpf: generic/net/bpf_filter.c with the encodings of generic/net/bpf.h. Insn has the
--   instructions and the `switch` as a table, Packet the loads, Filter the interpreter, Validate
--   `bpf_validate`. A round of the loop gives an `Outcome`; what C leaves undefined is the outcome
--   `undefined`, with its cause. Registers and `k` are 32-bit words, and a signed comparison is
--   written out on them.
-- - Timers: uspace/timers.c. TimeVal has the `timeval` arithmetic, Callout the queue of
--   uspace/callout.h as a list with the differences of ticks that the source keeps. Steps of the
--   clock, of the kernel and of the softclock thread are the relation `Step`, since the threads
--   run one at a time under `kern_lock`.
-- - Fdtbl: uspace/anp_fdtbl.c, the table from descriptors to sockets.
-- - Mbuf: generic/kern/uipc_mbuf.c with the macros of generic/sys/mbuf.h. A chain is the list of
--   its mbufs, an mbuf has the bytes at `m_data`, the offset of `m_data` in its storage and its
--   flags. Trim has `m_adj`, `m_copydata` and `m_cat`, Build `m_copym` and `M_PREPEND`, Pullup
--   `m_pullup`, Split `m_split`, Cluster the table of cluster references. The references that
--   chains hold are not tied to that table: the source counts those of `m_copym` and `m_split`
--   elsewhere. Whether there is memory for the table to grow is an argument.
-- - Sockbuf: generic/kern/uipc_socket2.c with generic/sys/socketvar.h. Buffer has `struct sockbuf`
--   and its macros, Append what adds records to it, Drop what takes bytes and records from it,
--   Lock its lock, waits and wakeups, Reserve `soreserve` and `sbrelease`; what a thread meets
--   when it wakes up is a parameter. `sb_mb` is the list of its records; `sb_cc` and `sb_mbcnt`
--   are words that wrap.
-- - Sockets: the queues of a listening socket and the states of a connection in
--   generic/kern/uipc_socket2.c, on the fields of `struct socket` that they change. Sockets have
--   numbers and live in a heap, since the queues run through them by pointers; Changes has the
--   functions from `soisconnecting` on, which return the wakeups. A null pointer that is followed
--   has no result.
-- - Slip: generic/net/slcompress.c. Header has the two headers with the checksum, Encoding the
--   macros for numbers, States and Changes the parts of `sl_compress_tcp` in Compress, Uncompress
--   `sl_uncompress_tcp`, Line their calls in generic/net/if_sl.c at the two ends of a line. The
--   circular list of states is a list from the most recently used one; headers are records in the
--   order of the network, of 5 words or more, and the first mbuf of a packet holds them. What the
--   source would read behind the end of memory or write behind `cs_hdr` is an outcome of its own.
-- - Serial: the line under Slip. Clist is the queue of generic/kern/tty_subr.c, a list of the
--   blocks of generic/sys/aclist.h, with `ser_oproc` of uspace/serline.c; Output has the frames of
--   `slstart` and Input the state machine of `slinput`, both of generic/net/if_sl.c. `putc` and
--   `b_to_q` do not fail, since memory that runs out ends the program, and the number that `write`
--   returns is an argument.
-- - Cksum: `in_cksum` of generic/netinet/in_cksum.c on the chains of Mbuf, whose storage begins at
--   even addresses. Words are read in the order of the network.
--
-- Fuel and bounds: `run` of Bpf takes the number of rounds; as many as instructions are enough for
-- a filter that jumps forward. The loop of `m_pullup` takes a round for each mbuf, and that of
-- `sbflush` one for each record and one more; `m_split` calls itself at most once. The loops over
-- the bytes of an mbuf in `slstart` and `b_to_q` take a round for each byte at most, and those
-- over the queues of Sockets one for each socket and one more. Every other loop follows a list.
-- `long` and `int` have 32 bits; the ticks and times of Timers are integers that are taken not to
-- overflow. Allocation is a number of mbufs that are left: MGET fails when it is 0.
--
-- Not modelled: the protocols (generic/netinet), routing and the other parts of the interfaces
-- (generic/net), the counters of statistics of generic/net/slcompress.c, sockets and system calls
-- (generic/kern/uipc_socket.c, generic/kern/uipc_syscalls.c, uspace/anp_syscall.c), `sonewconn1`
-- of generic/kern/uipc_socket2.c, the memory allocator, pthreads and the SPARC code. Freed memory
-- is not tracked.
pub mod Prelude
pub mod Bpf
pub mod Timers
pub mod Fdtbl
pub mod Mbuf
pub mod Sockbuf
pub mod Slip
pub mod Serial
pub mod Cksum
pub mod Sockets
