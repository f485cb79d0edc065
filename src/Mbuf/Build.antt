-- ===== src/Mbuf/Build.antt =====
-- `m_copym` and `m_prepend` of generic/kern/uipc_mbuf.c, and `M_PREPEND` of generic/sys/mbuf.h. Each
-- takes the number of mbufs that the allocator still has: MGET fails when it is 0.
use Prim.Native.Nat.{min}
use anp.Prelude.{
  ℕ, ◌+◌, ◌-◌, ◌*◌, ◌/◌, Bool, false, ◌&&◌, Option, none, some, List, [], ◌∷◌, ◌++◌, length, take,
  drop, ltb, leb, ◌==◌, if◌then◌else◌,
}
use anp.Prelude.Int.{ℤ, pos, ◌+ℤ◌, ◌-ℤ◌}
use anp.Mbuf.Chain.{Mbuf, m_len, is_ext, mhlen}
use anp.Mbuf.Trim.{skip}

-- A new chain, the null result, or a panic.
pub data Built : Type 0 where
  chain : List Mbuf → Built
  null : Built
  panic : Built

-- The mbuf of MGET, and of MGETHDR.
abbrev pub fresh : ℕ → Mbuf
fresh t = record {
  contents = [];
  offset = 0;
  ext = none;
  pkthdr = false;
  eor = false;
  bcast = false;
  mcast = false;
  kind = t;
  len = pos 0;
  rcvif = 0;
}

-- `M_COPY_PKTHDR`
abbrev pub copy_pkthdr : Mbuf → Mbuf → Mbuf
copy_pkthdr to from = record to {
  offset = 8;
  pkthdr = from.pkthdr;
  eor = from.eor;
  bcast = from.bcast;
  mcast = from.mcast;
  len = from.len;
  rcvif = from.rcvif;
}

-- `M_COPYALL` is `none`.
abbrev pub shorter : Option ℕ → ℕ → ℕ
shorter none n = n
shorter (some len) n = min len n

abbrev pub header_len : Option ℕ → Mbuf → ℕ → ℤ
header_len none m off0 = m.len -ℤ pos off0
header_len (some len) m off0 = pos len

-- One new mbuf of `m_copym`: the packet header, if `copyhdr`, then the data, shared or copied.
unfoldable pub copy_mbuf : Bool → Option ℕ → ℕ → ℕ → Mbuf → Mbuf
copy_mbuf copyhdr len off0 off m =
    let n =
      if copyhdr
      then record (copy_pkthdr (fresh m.kind) m) { len = header_len len m off0 }
      else fresh m.kind in
    record n {
      contents = take (shorter len (m_len m - off)) (drop off m.contents);
      offset = if is_ext m then m.offset + off else n.offset;
      ext = m.ext;
    }

abbrev pub cons_chain : Mbuf → Built → Built
cons_chain n (chain ns) = chain (n ∷ ns)
cons_chain n null = null
cons_chain n panic = panic

abbrev pub done : Option ℕ → Bool
done none = false
done (some len) = len == 0

abbrev pub less : Option ℕ → ℕ → Option ℕ
less none n = none
less (some len) n = some (len - min len n)

-- The copying loop of `m_copym`.
unfoldable pub copy_chain : ℕ → Bool → Option ℕ → ℕ → ℕ → List Mbuf → Built
copy_chain mbufs copyhdr len off0 off [] =
    if done len then chain [] else elim len [ none ↦ chain [] | some k ↦ panic ]
copy_chain mbufs copyhdr len off0 off (m ∷ ms) =
    let rest = copy_chain (mbufs - 1) false (less len (m_len m - off)) off0 0 ms in
    if done len
    then chain []
    else if mbufs == 0
    then null
    else cons_chain (copy_mbuf copyhdr len off0 off m) rest

abbrev pub has_header : List Mbuf → Bool
has_header [] = false
has_header (m ∷ ms) = m.pkthdr

-- `top`, which is null if no mbuf was made. The counter `MCFail` is left out.
abbrev pub top_of : Built → Built
top_of (chain []) = null
top_of (chain (n ∷ ns)) = chain (n ∷ ns)
top_of null = null
top_of panic = panic

unfoldable pub m_copym : ℕ → List Mbuf → ℕ → Option ℕ → Built
m_copym mbufs ms off0 len = elim (skip ms off0) [
  | none ↦ panic
  | some (ms', off) ↦ top_of (copy_chain mbufs (off0 == 0 && has_header ms) len off0 off ms')
]

abbrev pub align : ℕ → ℕ
align n = n / 4 * 4

-- `contents` are the `len` bytes that the caller is to fill in.
unfoldable pub m_prepend : ℕ → Mbuf → List Mbuf → List ℕ → Built
m_prepend mbufs m ms bytes =
    let mn = if m.pkthdr then copy_pkthdr (fresh m.kind) m else fresh m.kind in
    let len = length bytes in
    if mbufs == 0
    then null
    else chain (
        record mn {
          contents = bytes;
          offset = if ltb len mhlen then mn.offset + align (mhlen - len) else mn.offset;
        }
        ∷ record m { pkthdr = false }
        ∷ ms)

-- `M_LEADINGSPACE`
abbrev pub leading_space : Mbuf → ℕ
leading_space m = if is_ext m then 0 else if m.pkthdr then m.offset - 8 else m.offset

abbrev pub add_len : ℕ → Built → Built
add_len n (chain []) = chain []
add_len n (chain (m ∷ ms)) =
    chain ((if m.pkthdr then record m { len = m.len +ℤ pos n } else m) ∷ ms)
add_len n null = null
add_len n panic = panic

-- `M_PREPEND`
unfoldable pub prepend : ℕ → Mbuf → List Mbuf → List ℕ → Built
prepend mbufs m ms bytes =
    let len = length bytes in
    add_len len (
      if leb len (leading_space m)
      then chain (record m { contents = bytes ++ m.contents; offset = m.offset - len } ∷ ms)
      else m_prepend mbufs m ms bytes)
