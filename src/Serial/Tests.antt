-- ===== src/Serial/Tests.antt =====
-- Runs of a serial line: generic/net/if_sl.c over generic/kern/tty_subr.c.
use anp.Prelude.{ℕ, ◌≡◌, refl, true, false, some, List, [], ◌∷◌, ◌++◌, arith}
use anp.Serial.Clist.{Clist, no_chars, putc, b_to_q}
use anp.Serial.Fifo.{queued, chars_of, IsClist, Moves}
use anp.Serial.Queue.{Op, put, put_all, run_ops, run_ops-Moves}
use anp.Serial.Output.{Event, send, run_line, plain_run, after_run}
use anp.Serial.Input.{Softc, clean, end_frame, feed, with_frame, line_error}
use anp.Serial.Frames.{run_line_round_trip}

-- A packet with both special bytes, over two mbufs.
abbrev events : List Event
events =
    send ((1 ∷ 0xc0 ∷ []) ∷ (0xdb ∷ 2 ∷ []) ∷ [])
    ∷ Event.write 3
    ∷ send ((7 ∷ 8 ∷ 9 ∷ []) ∷ [])
    ∷ []

-- In the middle of a frame, behind an escape.
abbrev broken : Softc
broken = record { chars = 5 ∷ []; sc_escape = true; sc_error = false }

written :
    run_line events no_chars
    ≡ some (
      0xc0 ∷ [],
      record {
        c_cc = 11;
        blocks =
            record { ac_start = 0; chars = 1 ∷ 0xdb ∷ 0xdc ∷ 0xdb ∷ 0xdd ∷ [] }
            ∷ record { ac_start = 0; chars = 2 ∷ 0xc0 ∷ [] }
            ∷ record { ac_start = 0; chars = 7 ∷ 8 ∷ 9 ∷ 0xc0 ∷ [] }
            ∷ [];
      },
    )
unfolding run_line plain_run after_run putc b_to_q
written = refl

run_line_round_trip_example :
    (out : List ℕ) × (after : Clist) × (run_line events no_chars ≡ some (out, after))
    × (feed 100 (0xc0 ∷ (out ++ queued after)) broken ≡ (
      clean,
      with_frame (end_frame broken).1 ((1 ∷ 0xc0 ∷ 0xdb ∷ 2 ∷ []) ∷ (7 ∷ 8 ∷ 9 ∷ []) ∷ []),
    ))
run_line_round_trip_example = run_line_round_trip 100 events broken (omega arith)

abbrev one_block : Clist
one_block = record { c_cc = 2; blocks = record { ac_start = 3; chars = 7 ∷ 8 ∷ [] } ∷ [] }

one_block-IsClist : IsClist one_block
unfolding chars_of
one_block-IsClist = record {
  counted = refl;
  all_blocks = (record { has_chars = omega arith; inside = omega arith }, tt);
}

run_ops-Moves_example :
    Moves
      (run_ops (Op.write 1 ∷ put 9 ∷ put_all (1 ∷ 2 ∷ []) ∷ Op.write 5 ∷ []) one_block)
      (queued one_block ++ (9 ∷ 1 ∷ 2 ∷ []))
run_ops-Moves_example =
    run_ops-Moves (Op.write 1 ∷ put 9 ∷ put_all (1 ∷ 2 ∷ []) ∷ Op.write 5 ∷ []) one_block
      one_block-IsClist

-- A character with an error drops the frame that it stands in, and that frame only.
after_error :
    (feed 100 (6 ∷ 7 ∷ 0xc0 ∷ 1 ∷ 2 ∷ 3 ∷ 0xc0 ∷ []) (line_error broken)).1 ≡ (1 ∷ 2 ∷ 3 ∷ []) ∷ []
unfolding feed line_error
after_error = refl
