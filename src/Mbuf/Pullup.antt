-- ===== src/Mbuf/Pullup.antt =====
-- `m_pullup` of generic/kern/uipc_mbuf.c. `mbufs` is the number of mbufs that the allocator still
-- has, and `max_protohdr` the global of generic/kern/uipc_domain.c.
use Prim.Native.Nat.{min, max}
use anp.Prelude.{
  ℕ, zero, suc, ◌+◌, ◌-◌, Bool, true, false, ◌||◌, ◌&&◌, not, List, [], ◌∷◌, ◌++◌, take, drop, ltb,
  leb, ◌==◌, if◌then◌else◌,
}
use anp.Mbuf.Chain.{Mbuf, m_len, is_ext, mlen, mhlen}
use anp.Mbuf.Build.{fresh, copy_pkthdr}

-- The chain, the null result, or a loop that has not ended on the fuel.
pub data Pulled : Type 0 where
  pulled : List Mbuf → Pulled
  no_space : Pulled
  out_of_fuel : Pulled

-- After the loop: too few bytes, or the mbufs that are left go behind `m`.
abbrev pub finish : ℕ → Mbuf → List Mbuf → Pulled
finish len m ns = if ltb 0 len then no_space else pulled (m ∷ ns)

abbrev pub piece : ℕ → ℕ → ℕ → Mbuf → ℕ
piece max_protohdr len space n = min (min (max len max_protohdr) space) (m_len n)

-- `m` after a round, and what is left of `n`.
abbrev pub filled : ℕ → Mbuf → Mbuf → Mbuf
filled count m n = record m { contents = m.contents ++ take count n.contents }

abbrev pub advanced : ℕ → Mbuf → Mbuf
advanced count n = record n { contents = drop count n.contents; offset = n.offset + count }

-- The `do` loop. `space` falls with each byte that `m` takes, and an empty `n` is freed.
unfoldable pub pull : ℕ → ℕ → ℕ → ℕ → Mbuf → Mbuf → List Mbuf → Pulled
pull zero max_protohdr len space m n ns = out_of_fuel
pull (suc fuel) max_protohdr len space m n [] =
    let count = piece max_protohdr len space n in
    let again =
      pull fuel max_protohdr (len - count) (space - count) (filled count m n) (advanced count n)
        [] in
    if m_len n == count
    then finish (len - count) (filled count m n) []
    else if ltb 0 (len - count)
    then again
    else finish (len - count) (filled count m n) (advanced count n ∷ [])
pull (suc fuel) max_protohdr len space m n (n₁ ∷ ns) =
    let count = piece max_protohdr len space n in
    let onward = pull fuel max_protohdr (len - count) (space - count) (filled count m n) n₁ ns in
    let again =
      pull fuel max_protohdr (len - count) (space - count) (filled count m n) (advanced count n)
        (n₁ ∷ ns) in
    if ltb 0 (len - count)
    then (if m_len n == count then onward else again)
    else if m_len n == count
    then finish (len - count) (filled count m n) (n₁ ∷ ns)
    else finish (len - count) (filled count m n) (advanced count n ∷ n₁ ∷ ns)

abbrev pub nonempty : List Mbuf → Bool
nonempty [] = false
nonempty (n ∷ ns) = true

-- The first mbuf takes the bytes itself, where it has room and a successor.
abbrev pub has_room : Mbuf → List Mbuf → ℕ → Bool
has_room n ns len = not (is_ext n) && ltb (n.offset + len) mlen && nonempty ns

abbrev pub into_first : ℕ → ℕ → ℕ → Mbuf → List Mbuf → Pulled
into_first fuel max_protohdr len n [] = no_space
into_first fuel max_protohdr len n (n₁ ∷ ns) =
    pull fuel max_protohdr (len - m_len n) (mlen - (n.offset + m_len n)) n n₁ ns

abbrev pub without_header : Mbuf → Mbuf
without_header n = if n.pkthdr then record n { pkthdr = false } else n

abbrev pub header_of : Mbuf → Mbuf
header_of n = if n.pkthdr then copy_pkthdr (fresh n.kind) n else fresh n.kind

unfoldable pub m_pullup : ℕ → ℕ → ℕ → Mbuf → List Mbuf → ℕ → Pulled
m_pullup fuel mbufs max_protohdr n ns len =
    if has_room n ns len
    then (if leb len (m_len n) then pulled (n ∷ ns) else into_first fuel max_protohdr len n ns)
    else if ltb mhlen len || mbufs == 0
    then no_space
    else pull fuel max_protohdr len (mlen - (header_of n).offset) (header_of n) (without_header n)
        ns
