-- ===== src/Serial/Clist.antt =====
-- The queue of characters of generic/kern/tty_subr.c in the blocks of generic/sys/aclist.h, and
-- `ser_oproc` of uspace/serline.c, which writes it out.
use Prim.Native.Nat.{min}
use anp.Prelude.{
  ℕ, zero, suc, ◌+◌, ◌-◌, Option, none, some, List, [], ◌∷◌, ◌++◌, length, take, drop, leb, ◌==◌,
  if◌then◌else◌,
}

abbrev pub acbufsize : ℕ
acbufsize = 56

-- `chars` are the `ac_len` characters from `ac_start` on.
pub record Block : Type 0 where
  pub ac_start : ℕ
  pub chars : List ℕ

pub record Clist : Type 0 where
  pub c_cc : ℕ
  pub blocks : List Block

abbrev pub new_block : List ℕ → Block
new_block cs = record { ac_start = 0; chars = cs }

-- A character behind those of the last block, or in a new block if that is full. `none` is a queue
-- with characters and no block, where the source goes through a null pointer.
unfoldable pub put_last : ℕ → List Block → Option (List Block)
put_last a [] = none
put_last a (b ∷ []) =
    if leb acbufsize (b.ac_start + length b.chars)
    then some (b ∷ new_block (a ∷ []) ∷ [])
    else some (record b { chars = b.chars ++ (a ∷ []) } ∷ [])
put_last a (b ∷ b' ∷ bs) = elim (put_last a (b' ∷ bs)) [ none ↦ none | some rest ↦ some (b ∷ rest) ]

abbrev with_blocks : ℕ → Option (List Block) → Option Clist
with_blocks n none = none
with_blocks n (some bs) = some (record { c_cc = n; blocks = bs })

-- It always returns 0.
unfoldable pub putc : ℕ → Clist → Option Clist
unfolding put_last
putc a c =
    with_blocks (c.c_cc + 1)
      (if c.c_cc == 0 then some (new_block (a ∷ []) ∷ []) else put_last a c.blocks)

-- The blocks of the loop in `b_to_q`. A round takes a byte at least, so `length` rounds are enough.
unfoldable pub blocks_of : ℕ → List ℕ → List Block
blocks_of fuel [] = []
blocks_of zero (x ∷ xs) = []
blocks_of (suc fuel) (x ∷ xs) =
    new_block (take acbufsize (x ∷ xs)) ∷ blocks_of fuel (drop acbufsize (x ∷ xs))

-- It always returns 0.
unfoldable pub b_to_q : List ℕ → Clist → Clist
unfolding blocks_of
b_to_q buf c = record {
  c_cc = c.c_cc + length buf;
  blocks = c.blocks ++ blocks_of (length buf) buf;
}

-- A round of the loop in `ser_oproc`, with the number that `write` returns, which is at most
-- `ac_len`: the characters that are written, and the queue after it. An error of `write` ends the
-- program.
unfoldable pub write_front : ℕ → ℕ → List Block → Option (List ℕ × Clist)
write_front n cc [] = none
write_front n cc (b ∷ bs) =
    let written = min n (length b.chars) in
    let left = drop written b.chars in
    some (
      take written b.chars,
      record {
        c_cc = cc - written;
        blocks =
            if length left == 0
            then bs
            else record { ac_start = b.ac_start + written; chars = left } ∷ bs;
      },
    )

-- The loop ends when `c_cc` is 0.
unfoldable pub write_once : ℕ → Clist → Option (List ℕ × Clist)
unfolding write_front
write_once n c = if c.c_cc == 0 then some ([], c) else write_front n c.c_cc c.blocks

abbrev pub no_chars : Clist
no_chars = record { c_cc = 0; blocks = [] }
