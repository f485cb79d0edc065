-- ===== src/Sockets.antt =====
-- The states of a connection and the queues of a listening socket: generic/kern/uipc_socket2.c with
-- `struct socket` of generic/sys/socketvar.h.
pub mod Links
pub mod Fields
pub mod Queues
pub mod Removal
pub mod Changes
pub mod Listens
mod Tests
use anp.Prelude.{
  ℕ, zero, suc, ◌+◌, ◌%◌, Bool, true, false, Option, none, some, List, [], ◌∷◌, ◌++◌, ◌==◌,
  if◌then◌else◌,
}

-- The flags of `so_state` that these functions change.
pub record SoState : Type 0 where
  pub connected : Bool
  pub connecting : Bool
  pub disconnecting : Bool
  pub cant_send_more : Bool
  pub cant_rcv_more : Bool
  pub confirming : Bool

-- A pointer is the number of a socket, or null. `so_q0` links the connections that are not complete,
-- `so_q` those that are. The lengths are the 16 bits of a `short`.
pub record Socket : Type 0 where
  pub so_state : SoState
  pub so_head : Option ℕ
  pub so_q0 : Option ℕ
  pub so_q : Option ℕ
  pub so_q0len : ℕ
  pub so_qlen : ℕ

abbrev pub Heap : Type 0
Heap = ℕ → Socket

abbrev pub update : Heap → ℕ → Socket → Heap
update h a s b = if b == a then s else h b

-- The argument `q`: the queue `so_q` if it is true.
abbrev pub link : Bool → Socket → Option ℕ
link true s = s.so_q
link false s = s.so_q0

abbrev pub with_link : Bool → Option ℕ → Socket → Socket
with_link true v s = record s { so_q = v }
with_link false v s = record s { so_q0 = v }

abbrev pub set_link : Bool → ℕ → Option ℕ → Heap → Heap
set_link q a v h = update h a (with_link q v (h a))

abbrev pub count : Bool → Socket → ℕ
count true s = s.so_qlen
count false s = s.so_q0len

abbrev pub with_count : Bool → ℕ → Socket → Socket
with_count true n s = record s { so_qlen = n }
with_count false n s = record s { so_q0len = n }

abbrev pub set_count : Bool → ℕ → ℕ → Heap → Heap
set_count q a n h = update h a (with_count q n (h a))

abbrev pub set_head : ℕ → Option ℕ → Heap → Heap
set_head a v h = update h a (record (h a) { so_head = v })

-- The walk to the last socket of a queue, from `a` on. `none` is fuel that ran out.
unfoldable pub last_from : ℕ → Bool → Heap → ℕ → Option ℕ
last_from zero q h a = none
last_from (suc fuel) q h a = elim (link q (h a)) [ none ↦ some a | some x ↦ last_from fuel q h x ]

abbrev pub append_to : Bool → ℕ → Heap → Option ℕ → Option Heap
append_to q so h none = none
append_to q so h (some last) = some (set_link q last (some so) h)

unfoldable pub soqinsque : ℕ → ℕ → ℕ → Bool → Heap → Option Heap
unfolding last_from
soqinsque fuel head so q h =
    let h1 = set_head so (some head) h in
    let h2 = set_count q head ((count q (h1 head) + 1) % 65536) h1 in
    let h3 = set_link q so none h2 in append_to q so h3 (last_from fuel q h3 head)

-- The search of `soqremque`: the socket before `so`, or the end of the queue.
pub data Search : Type 0 where
  before : ℕ → Search
  missing : Search
  out_of_fuel : Search

unfoldable pub find_from : ℕ → Bool → Heap → ℕ → ℕ → Search
find_from zero q h so a = out_of_fuel
find_from (suc fuel) q h so a = elim (link q (h a)) [
  | none ↦ missing
  | some x ↦ let rest = find_from fuel q h so x in if x == so then before a else rest
]

unfoldable pub unlink : ℕ → ℕ → ℕ → Bool → Heap → Heap
unlink head prev so q h =
    let h1 = set_link q prev (link q (h so)) h in
    let h2 = set_count q head ((count q (h1 head) + 65535) % 65536) h1 in
    let h3 = set_link false so none (set_link true so none h2) in set_head so none h3

-- The heap, and whether the result is 1. `none` is fuel that ran out, or a null pointer.
unfoldable pub remove_found : ℕ → ℕ → Bool → Heap → Search → Option (Heap × Bool)
unfolding unlink
remove_found head so q h (before prev) = some (unlink head prev so q h, true)
remove_found head so q h missing = some (h, false)
remove_found head so q h out_of_fuel = none

unfoldable pub soqremque : ℕ → ℕ → Bool → Heap → Option (Heap × Bool)
unfolding find_from remove_found
soqremque fuel so q h = elim ((h so).so_head) [
  | none ↦ none
  | some head ↦ remove_found head so q h (find_from fuel q h so head)
]
