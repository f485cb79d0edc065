-- ===== src/Cksum.antt =====
-- The checksum of the Internet protocols: generic/netinet/in_cksum.c, over chains of mbufs.
pub mod Sum
pub mod Pairs
pub mod Mbufs
pub mod Chains
mod Tests
use Prim.Native.Nat.{min}
use anp.Prelude.{
  ℕ, zero, suc, ◌+◌, ◌-◌, ◌*◌, ◌/◌, ◌%◌, Bool, true, false, ◌&&◌, Option, none, some, List, [], ◌∷◌,
  length, take, drop, ltb, ◌==◌, if◌then◌else◌,
}
use anp.Mbuf.Chain.{Mbuf, m_len}

-- `sum` is the bit pattern of the `int`, which stays below 2 ^ 32 for 65535 bytes. `pending` is
-- `s_util.c[0]` while `mlen` is -1: a byte that waits for the low byte of its word.
pub record Partial : Type 0 where
  pub sum : ℕ
  pub pending : Option ℕ

-- `REDUCE` with `ADDCARRY`.
unfoldable pub reduce : ℕ → ℕ
reduce sum =
    let folded = sum % 65536 + sum / 65536 in if ltb 65535 folded then folded - 65535 else folded

-- The 16-bit words of the bytes, in the order of the network, and the byte behind the last one.
unfoldable pub sum_pairs : List ℕ → ℕ
sum_pairs [] = 0
sum_pairs (a ∷ []) = 0
sum_pairs (a ∷ b ∷ bs) = a * 256 + b + sum_pairs bs

unfoldable pub odd_byte : List ℕ → Option ℕ
odd_byte [] = none
odd_byte (a ∷ []) = some a
odd_byte (a ∷ b ∷ bs) = odd_byte bs

-- The bytes that the two unrolled loops add, by 32 and by 8, and the remaining.
abbrev pub unrolled : List ℕ → List ℕ
unrolled bs = take (length bs / 8 * 8) bs

abbrev pub remaining : List ℕ → List ℕ
remaining bs = drop (length bs / 8 * 8) bs

-- The bytes of an mbuf from an even address on.
unfoldable pub add_even : List ℕ → ℕ → Partial
add_even bs sum =
    let sum' = sum + sum_pairs (unrolled bs) in
    if length (remaining bs) == 0
    then record { sum = sum'; pending = none }
    else record { sum = reduce sum' + sum_pairs (remaining bs); pending = odd_byte (remaining bs) }

-- The last byte from an odd address on makes a word with the first one, or the first one waits.
unfoldable pub pair_up : ℕ → ℕ → Option ℕ → Partial
pair_up first sum (some last) = record { sum = sum + (first * 256 + last); pending = none }
pair_up first sum none = record { sum = sum; pending = some first }

-- The bytes from an odd address on, behind the first one.
unfoldable pub add_swapped : ℕ → List ℕ → ℕ → Partial
unfolding pair_up
add_swapped first bs sum =
    let sum1 = reduce sum * 256 + sum_pairs (unrolled bs) in
    let sum2 = reduce sum1 + sum_pairs (remaining bs) in
    pair_up first (reduce sum2 * 256) (odd_byte (remaining bs))

unfoldable pub add_bytes : Bool → List ℕ → ℕ → Partial
unfolding add_even add_swapped
add_bytes odd [] sum = add_even [] sum
add_bytes odd (b ∷ bs) sum = if odd then add_swapped b bs sum else add_even (b ∷ bs) sum

abbrev pub is_odd : ℕ → Bool
is_odd w = w % 2 == 1

-- At most `len` bytes of an mbuf that has some. Its storage begins at an even address.
unfoldable pub add_mbuf : ℕ → List ℕ → ℕ → Partial → Partial
unfolding add_bytes
add_mbuf w [] len p = p
add_mbuf w (b ∷ bs) len p = elim p.pending [
  | none ↦ add_bytes (is_odd w) (take len (b ∷ bs)) p.sum
  | some c ↦ add_bytes (is_odd (w + 1)) (take (len - 1) bs) (p.sum + (c * 256 + b))
]

-- The loop over the mbufs: what is summed, and the bytes that are missing.
unfoldable pub add_chain : List Mbuf → ℕ → Partial → Partial × ℕ
unfolding add_mbuf
add_chain [] len p = (p, len)
add_chain (m ∷ ms) len p =
    let rest = add_chain ms (len - min len (m_len m)) (add_mbuf m.offset m.contents len p) in
    if len == 0 then (p, len) else rest

abbrev pub with_pending : Partial → ℕ
with_pending p = elim p.pending [ none ↦ p.sum | some c ↦ p.sum + (c * 256 + 0) ]

-- The checksum, and the bytes that are missing, of which the source prints a message.
unfoldable pub in_cksum : List Mbuf → ℕ → ℕ × ℕ
unfolding add_chain
in_cksum ms len =
    let (p, left) = add_chain ms len (record { sum = 0; pending = none }) in
    (65535 - reduce (with_pending p) % 65536, left)
