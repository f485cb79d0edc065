-- ===== src/Mbuf/Split.antt =====
-- `m_split` of generic/kern/uipc_mbuf.c. `mbufs` is the number of mbufs that the allocator still has.
use anp.Prelude.{
  ℕ, zero, suc, ◌+◌, ◌-◌, true, Option, none, some, List, [], ◌∷◌, ◌++◌, take, drop, ltb, ◌==◌,
  if◌then◌else◌,
}
use anp.Prelude.Int.{pos, ◌-ℤ◌}
use anp.Mbuf.Chain.{Mbuf, m_len, is_ext, mlen, mhlen}
use anp.Mbuf.Build.{fresh, align, has_header}

-- What is left at `m0`, and the result, where an empty chain is the null pointer. A failure is the
-- null result with the chain as it was but for its packet header.
pub data Split : Type 0 where
  parted : List Mbuf → List Mbuf → Split
  failed : List Mbuf → Split
  out_of_fuel : Split

-- The loop: the mbufs before the one with byte `len`, that mbuf, those behind it, and `len` in it.
unfoldable pub locate : List Mbuf → ℕ → Option (List Mbuf × Mbuf × List Mbuf × ℕ)
locate [] len = none
locate (m ∷ ms) len =
    let rest = locate ms (len - m_len m) in
    if ltb (m_len m) len
    then elim rest [ none ↦ none | some (front, n, back, left) ↦ some (m ∷ front, n, back, left) ]
    else some ([], m, ms, len)

-- `ext_size = 0`, and `m_len = len`.
abbrev pub cut : ℕ → Mbuf → Mbuf
cut len m = record m {
  contents = take len m.contents;
  ext = elim m.ext [ none ↦ none | some e ↦ some (record e { ext_size = 0 }) ];
}

-- `n` with the data of `m` from `len` on, shared or copied.
abbrev pub moved : ℕ → Mbuf → Mbuf → Mbuf
moved len m n = record n {
  contents = drop len m.contents;
  offset = if is_ext m then m.offset + len else n.offset;
  ext = m.ext;
}

-- `m0->m_pkthdr.len = len0`
abbrev pub header_cut : ℕ → List Mbuf → List Mbuf
header_cut len0 [] = []
header_cut len0 (m ∷ ms) = record m { len = pos len0 } ∷ ms

-- The new packet header.
abbrev pub tail_header : ℕ → List Mbuf → Mbuf
tail_header len0 [] = fresh 0
tail_header len0 (m ∷ ms) = record (fresh m.kind) {
  offset = 8;
  pkthdr = true;
  len = m.len -ℤ pos len0;
  rcvif = m.rcvif;
}

-- What a split of the mbuf `m` on its own gives, put back into the chain: `m_len` of `n` is not set
-- there, and takes in the bytes `junk`.
abbrev pub behind_header : ℕ → Mbuf → List ℕ → List Mbuf → List Mbuf → Split → Split
behind_header len0 n junk front whole (parted ms []) = failed (header_cut len0 (front ++ ms))
behind_header len0 n junk front whole (parted ms (t ∷ ts)) =
    parted (header_cut len0 (front ++ ms))
      (record n { contents = junk; offset = 8 + mhlen } ∷ t ∷ ts)
behind_header len0 n junk front whole (failed ms) = failed (header_cut len0 (front ++ ms))
behind_header len0 n junk front whole out_of_fuel = out_of_fuel

-- The part of `m_split` behind the loop, for a chain without a packet header.
abbrev pub split_plain : ℕ → List Mbuf → List Mbuf → Mbuf → List Mbuf → ℕ → Split
split_plain mbufs whole front m back len =
    if m_len m == len
    then parted (front ++ (m ∷ [])) back
    else if mbufs == 0
    then failed whole
    else parted (front ++ (cut len m ∷ []))
        (moved len m (record (fresh m.kind) { offset = align (mlen - (m_len m - len)) }) ∷ back)

-- The same for a packet, where the bytes left fit behind the new header or lie in a cluster.
abbrev pub split_packet : ℕ → List Mbuf → List Mbuf → Mbuf → List Mbuf → ℕ → Split
split_packet len0 whole front m back len =
    let n = tail_header len0 whole in
    parted (header_cut len0 (front ++ (cut len m ∷ [])))
      (moved len m (record n { offset = 8 + align (mhlen - (m_len m - len)) }) ∷ back)

-- `m`, whose header is already cut if it is the lead packet.
abbrev pub at_split : ℕ → List Mbuf → Mbuf → Mbuf
at_split len0 [] m = record m { len = pos len0 }
at_split len0 (f ∷ front) m = m

unfoldable pub m_split : ℕ → ℕ → List ℕ → List Mbuf → ℕ → Split
m_split zero mbufs junk ms len0 = out_of_fuel
m_split (suc fuel) mbufs junk ms len0 = elim (locate ms len0) [
  | none ↦ failed ms
  | some (front, m, back, len) ↦
      let inner = m_split fuel (mbufs - 1) junk (at_split len0 front m ∷ back) len in
      if has_header ms
      then (if mbufs == 0
          then failed ms
          else if is_ext m
          then split_packet len0 ms front m back len
          else if ltb mhlen (m_len m - len)
          then behind_header len0 (tail_header len0 ms) junk front ms inner
          else split_packet len0 ms front m back len)
      else split_plain mbufs ms front m back len
]
