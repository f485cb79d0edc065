-- ===== src/Mbuf/Trim.antt =====
-- `m_adj`, `m_copydata` and `m_cat` of generic/kern/uipc_mbuf.c.
use Prim.Native.Nat.{min}
use anp.Prelude.{
  ℕ, zero, suc, ◌+◌, ◌-◌, ◌||◌, Option, none, some, List, [], ◌∷◌, ◌++◌, take, drop, ltb, leb, ◌==◌,
  if◌then◌else◌, map,
}
use anp.Prelude.Int.{ℤ, pos, negsuc, ◌-ℤ◌}
use anp.Mbuf.Chain.{Mbuf, m_len, is_ext, total, mlen}

abbrev pub no_data : Mbuf → Mbuf
no_data m = record m { contents = [] }

-- The loop of `m_adj` from the head, with what is left of `len`.
unfoldable pub trim_head : List Mbuf → ℕ → List Mbuf × ℕ
trim_head [] len = ([], len)
trim_head (m ∷ ms) len =
    let (ms', left) = trim_head ms (len - m_len m) in
    if len == 0
    then (m ∷ ms, 0)
    else if leb (m_len m) len
    then (no_data m ∷ ms', left)
    else (record m { contents = drop len m.contents; offset = m.offset + len } ∷ ms, 0)

abbrev pub shorten : ℤ → List Mbuf → List Mbuf
shorten n [] = []
shorten n (m ∷ ms) = (if m.pkthdr then record m { len = m.len -ℤ n } else m) ∷ ms

abbrev pub set_len : ℕ → List Mbuf → List Mbuf
set_len n [] = []
set_len n (m ∷ ms) = (if m.pkthdr then record m { len = pos n } else m) ∷ ms

-- The mbuf in which the data end after `count` bytes, and no data behind it.
unfoldable pub truncate : ℕ → List Mbuf → List Mbuf
truncate count [] = []
truncate count (m ∷ ms) =
    if leb count (m_len m)
    then record m { contents = take count m.contents } ∷ map no_data ms
    else m ∷ truncate (count - m_len m) ms

-- The data of the last mbuf, shortened by `len`.
unfoldable pub shorten_last : ℕ → List Mbuf → List Mbuf
shorten_last len [] = []
shorten_last len (m ∷ []) = record m { contents = take (m_len m - len) m.contents } ∷ []
shorten_last len (m ∷ n ∷ ms) = m ∷ shorten_last len (n ∷ ms)

unfoldable pub last_len : List Mbuf → ℕ
last_len [] = 0
last_len (m ∷ []) = m_len m
last_len (m ∷ n ∷ ms) = last_len (n ∷ ms)

-- `count < 0` becomes 0, as the difference of natural numbers does.
unfoldable pub trim_tail : List Mbuf → ℕ → List Mbuf
trim_tail ms len =
    if leb len (last_len ms)
    then shorten (pos len) (shorten_last len ms)
    else truncate (total ms - len) (set_len (total ms - len) ms)

unfoldable pub m_adj : List Mbuf → ℤ → List Mbuf
m_adj ms (pos n) = let (ms', left) = trim_head ms n in shorten (pos n -ℤ pos left) ms'
m_adj ms (negsuc n) = trim_tail ms (suc n)

-- The search for byte `off`. `none` is the panic at the end of the chain.
unfoldable pub skip : List Mbuf → ℕ → Option (List Mbuf × ℕ)
skip ms zero = some (ms, 0)
skip [] (suc off) = none
skip (m ∷ ms) (suc off) =
    if ltb (suc off) (m_len m) then some (m ∷ ms, suc off) else skip ms (suc off - m_len m)

unfoldable pub copy_bytes : List Mbuf → ℕ → ℕ → Option (List ℕ)
copy_bytes ms off zero = some []
copy_bytes [] off (suc len) = none
copy_bytes (m ∷ ms) off (suc len) =
    let count = min (m_len m - off) (suc len) in
    elim (copy_bytes ms 0 (suc len - count)) [
      | none ↦ none
      | some rest ↦ some (take count (drop off m.contents) ++ rest)
    ]

unfoldable pub m_copydata : List Mbuf → ℕ → ℕ → Option (List ℕ)
m_copydata ms off len = elim (skip ms off) [
  | none ↦ none
  | some (ms', off') ↦ copy_bytes ms' off' len
]

-- The second loop of `m_cat`, at the last mbuf `m` of the first chain.
unfoldable pub cat_onto : Mbuf → List Mbuf → List Mbuf
cat_onto m [] = m ∷ []
cat_onto m (n ∷ ns) =
    if is_ext m || leb mlen (m.offset + m_len m + m_len n)
    then m ∷ n ∷ ns
    else cat_onto (record m { contents = m.contents ++ n.contents }) ns

unfoldable pub m_cat : Mbuf → List Mbuf → List Mbuf → List Mbuf
m_cat m [] ns = cat_onto m ns
m_cat m (m' ∷ ms) ns = m ∷ m_cat m' ms ns
