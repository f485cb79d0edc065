-- ===== src/Serial/Output.antt =====
-- The frames that `slstart` of generic/net/if_sl.c puts into the queue of the line.
use anp.Prelude.{
  ℕ, zero, suc, Bool, ◌||◌, Option, none, some, List, [], ◌∷◌, length, ◌==◌, if◌then◌else◌,
}
use anp.Serial.Clist.{Clist, putc, b_to_q, write_once}
use anp.Serial.Queue.{◌>>=◌, then_out}

abbrev pub frame_end : ℕ
frame_end = 0xc0

abbrev pub frame_escape : ℕ
frame_escape = 0xdb

abbrev pub trans_frame_end : ℕ
trans_frame_end = 0xdc

abbrev pub trans_frame_escape : ℕ
trans_frame_escape = 0xdd

abbrev pub is_special : ℕ → Bool
is_special b = (b == frame_escape) || (b == frame_end)

-- The bytes of an mbuf up to the first special one, and those from it on.
unfoldable pub plain_run : List ℕ → List ℕ
plain_run [] = []
plain_run (b ∷ bs) = if is_special b then [] else b ∷ plain_run bs

unfoldable pub after_run : List ℕ → List ℕ
after_run [] = []
after_run (b ∷ bs) = if is_special b then b ∷ bs else after_run bs

abbrev pub put_run : List ℕ → Clist → Clist
put_run run c = if length run == 0 then c else b_to_q run c

-- A special byte in its different form. `putc` and `b_to_q` do not fail, so that the loop is never
-- left by a `break`.
abbrev pub put_special : ℕ → Clist → Option Clist
put_special b c = do
  c' ← putc frame_escape c
  putc (if b == frame_escape then trans_frame_escape else trans_frame_end) c'

-- The loop over the bytes of an mbuf. A round takes a byte at least, so `length` rounds are enough;
-- `none` stands for more, as for a fault of the queue.
unfoldable pub put_bytes : ℕ → List ℕ → Clist → Option Clist
put_bytes fuel [] c = some c
put_bytes zero (b ∷ bs) c = none
put_bytes (suc fuel) (b ∷ bs) c = elim (after_run (b ∷ bs)) [
  | [] ↦ some (put_run (plain_run (b ∷ bs)) c)
  | x ∷ rest ↦ put_special x (put_run (plain_run (b ∷ bs)) c) >>= put_bytes fuel rest
]

-- The mbufs of a packet, each by its bytes.
unfoldable pub put_chain : List (List ℕ) → Clist → Option Clist
unfolding put_bytes
put_chain [] c = some c
put_chain (m ∷ ms) c = put_bytes (length m) m c >>= put_chain ms

-- A packet in the loop of `slstart`, from the test of an idle line on.
unfoldable pub send_frame : List (List ℕ) → Clist → Option Clist
unfolding put_chain
send_frame ms c = do
  c1 ← (if c.c_cc == 0 then putc frame_end c else some c)
  c2 ← put_chain ms c1
  putc frame_end c2

-- What goes on at a line: a packet, or a round of the output routine.
pub data Event : Type 0 where
  send : List (List ℕ) → Event
  write : ℕ → Event

unfoldable pub run_line : List Event → Clist → Option (List ℕ × Clist)
unfolding send_frame write_once
run_line [] c = some ([], c)
run_line (send ms ∷ es) c = send_frame ms c >>= run_line es
run_line (write n ∷ es) c = do (out, c') ← write_once n c; run_line es c' >>= then_out out
