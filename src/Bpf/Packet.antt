-- ===== src/Bpf/Packet.antt =====
-- How `bpf_filter` reads a packet: the `EXTRACT_*` and `MINDEX` macros, `m_xword`, `m_xhalf`, and
-- the load cases of the `switch` in generic/net/bpf_filter.c.
use anp.Prelude.{
  ℕ, ◌+◌, ◌-◌, ◌*◌, ◌^◌, Bool, Option, none, some, List, [], ◌∷◌, ltb, leb, ◌==◌, length, get_elem?,
  if◌then◌else◌,
}
use anp.Prelude.Word.{add32, is_neg}
use anp.Bpf.Insn.{Size, word, half, byte}

-- What `p` points to: `buflen` bytes, or, when `buflen` is 0, a chain of mbufs, each the list of
-- its `m_len` bytes.
pub data Packet : Type 0 where
  flat : List ℕ → Packet
  chain : List (List ℕ) → Packet

-- A load gives a value, makes the filter return 0, or leaves the bytes of the packet.
pub data Load : Type 0 where
  value : ℕ → Load
  reject fault : Load

abbrev pub buflen : Packet → ℕ
buflen (flat bytes) = length bytes
buflen (chain ms) = 0

abbrev pub in_bounds : Option ℕ → Load
in_bounds none = fault
in_bounds (some v) = value v

infixl 5 ◌>>=◌
abbrev pub ◌>>=◌ {ℓ κ} : {A : Type ℓ} {B : Type κ} → Option A → (A → Option B) → Option B
none >>= f = none
some a >>= f = f a

-- Four bytes and two bytes in network order.
abbrev pub join4 : ℕ → ℕ → ℕ → ℕ → ℕ
join4 a b c d = a * 2 ^ 24 + b * 2 ^ 16 + c * 2 ^ 8 + d

abbrev pub join2 : ℕ → ℕ → ℕ
join2 a b = a * 2 ^ 8 + b

unfoldable pub extract_long : List ℕ → ℕ → Option ℕ
extract_long p k = do
  a ← get_elem? p k
  b ← get_elem? p (k + 1)
  c ← get_elem? p (k + 2)
  d ← get_elem? p (k + 3)
  some (join4 a b c d)

unfoldable pub extract_short : List ℕ → ℕ → Option ℕ
extract_short p k = do a ← get_elem? p k; b ← get_elem? p (k + 1); some (join2 a b)

-- The loop of `MINDEX`: the mbuf that holds byte `k`, those behind it, and the index in it.
unfoldable pub mindex : List ℕ → List (List ℕ) → ℕ → Option (List ℕ × List (List ℕ) × ℕ)
mindex m [] k = if leb (length m) k then none else some (m, [], k)
mindex m (n ∷ rest) k =
    if leb (length m) k then mindex n rest (k - length m) else some (m, n ∷ rest, k)

-- The `switch (len - k)` of `m_xword`. `cp` already stands at `k`, so `cp[k]` is byte `k + k`.
unfoldable pub xword_across : List ℕ → List ℕ → ℕ → Option ℕ
xword_across m m0 k =
    if length m - k == 1
    then (do
      a ← get_elem? m (k + k)
      b ← get_elem? m0 0
      c ← get_elem? m0 1
      d ← get_elem? m0 2
      some (join4 a b c d))
    else if length m - k == 2
    then (do
      a ← get_elem? m (k + k)
      b ← get_elem? m (k + k + 1)
      c ← get_elem? m0 0
      d ← get_elem? m0 1
      some (join4 a b c d))
    else (do
      a ← get_elem? m (k + k)
      b ← get_elem? m (k + k + 1)
      c ← get_elem? m (k + k + 2)
      d ← get_elem? m0 0
      some (join4 a b c d))

-- `m_xword` past its loop. `*err = 1` is `reject`.
unfoldable pub xword_at : List ℕ → List (List ℕ) → ℕ → Load
xword_at m [] k = if leb 4 (length m - k) then in_bounds (extract_long m k) else reject
xword_at m (m0 ∷ rest) k =
    if leb 4 (length m - k)
    then in_bounds (extract_long m k)
    else if ltb (length m0 + length m - k) 4
    then reject
    else in_bounds (xword_across m m0 k)

unfoldable pub xhalf_at : List ℕ → List (List ℕ) → ℕ → Load
xhalf_at m [] k = if leb 2 (length m - k) then in_bounds (extract_short m k) else reject
xhalf_at m (m0 ∷ rest) k =
    if leb 2 (length m - k)
    then in_bounds (extract_short m k)
    else in_bounds (do a ← get_elem? m (k + k); b ← get_elem? m0 0; some (join2 a b))

unfoldable pub byte_at : List ℕ → List (List ℕ) → ℕ → Load
byte_at m rest k = in_bounds (get_elem? m k)

-- The read at the mbuf that the loop has found.
unfoldable pub mbuf_load : Size → List ℕ → List (List ℕ) → ℕ → Load
mbuf_load word m rest k = xword_at m rest k
mbuf_load half m rest k = xhalf_at m rest k
mbuf_load byte m rest k = byte_at m rest k

-- A negative `int k` never enters the loop, and reads in front of the first mbuf.
unfoldable pub chain_load : Size → List (List ℕ) → ℕ → Load
chain_load s [] k = fault
chain_load s (m ∷ rest) k =
    if is_neg k
    then fault
    else elim (mindex m rest k) [ none ↦ reject | some (m', rest', j) ↦ mbuf_load s m' rest' j ]

-- The test against `buflen`. A sum with `sizeof` is unsigned, and wraps.
unfoldable pub past_end : Size → ℕ → ℕ → Bool
past_end word k len = ltb len (add32 k 4)
past_end half k len = ltb len (add32 k 2)
past_end byte k len = leb len k

unfoldable pub flat_read : Size → List ℕ → ℕ → Load
flat_read word p k = in_bounds (extract_long p k)
flat_read half p k = in_bounds (extract_short p k)
flat_read byte p k = in_bounds (get_elem? p k)

-- A load at `k`, an `int`. Inside the buffer by the test, `p[k]` is still in front of it for a
-- negative `k`. With `buflen` 0 the pointer is taken for an mbuf.
unfoldable pub load : Size → Packet → ℕ → Load
load s (flat []) k = fault
load s (flat (b ∷ bytes)) k =
    if past_end s k (length (b ∷ bytes))
    then reject
    else if is_neg k
    then fault
    else flat_read s (b ∷ bytes) k
load s (chain ms) k = if past_end s k 0 then chain_load s ms k else fault

-- `BPF_LD|BPF_H|BPF_ABS` ignores the error of `m_xhalf`, which has returned 0.
unfoldable pub ignore_error : Size → Packet → Load → Load
ignore_error half (chain ms) reject = value 0
ignore_error _ _ r = r

unfoldable pub load_abs : Size → Packet → ℕ → Load
load_abs s p k = ignore_error s p (load s p k)

-- `BPF_LD|BPF_B|BPF_IND` reads an mbuf through `char *`, which is signed.
unfoldable pub sign_extend : Size → Packet → Load → Load
sign_extend byte (chain ms) (value b) = value (if leb 128 b then b + 2 ^ 32 - 256 else b)
sign_extend _ _ r = r

unfoldable pub load_ind : Size → Packet → ℕ → Load
load_ind s p k = sign_extend s p (load s p k)
