-- ===== src/Mbuf/Tests.antt =====
-- Runs of the operations of generic/kern/uipc_mbuf.c on small chains.
use anp.Prelude.{ℕ, ◌≡◌, refl, true, false, none, some, List, [], ◌∷◌, arith, take, drop}
use anp.Prelude.Int.{pos, negsuc, ◌-ℤ◌}
use anp.Mbuf.Chain.{Mbuf, bytes_of, Fits}
use anp.Mbuf.Trim.{skip, m_adj, m_copydata, m_cat}
use anp.Mbuf.Build.{null, copy_chain, fresh, m_copym, prepend}
use anp.Mbuf.Pullup.{m_pullup}
use anp.Mbuf.Adj.{m_adj-bytes_of}
use anp.Mbuf.Copy.{m_copydata_lem, m_cat-bytes_of}
use anp.Mbuf.Contiguous.{IsPulledUp, m_pullup-IsPulledUp}
use anp.Mbuf.Copied.{IsCopy, m_copym-IsCopy}
use anp.Mbuf.Split.{Split, parted, locate, m_split}
use anp.Mbuf.Parts.{IsSplit, m_split-IsSplit}
use anp.Mbuf.Cluster.{
  Clusters, count_of, cl_rc_insert, add_clusters, panicked, mclalloc, mclfree_one,
}
use anp.Mbuf.CountTable.{IsSound, Counted, CountSet}
use anp.Mbuf.References.{IsGot, mclalloc-IsGot, mclfree_one-IsSound}
use anp.Mbuf.Prepended.{IsPrepended, prepend-IsPrepended}

-- A packet of five bytes, two in the first mbuf and three in a cluster.
abbrev lead : Mbuf
lead = record (fresh 1) {
  contents = 1 ∷ 2 ∷ [];
  offset = 24;
  pkthdr = true;
  len = pos 5;
  rcvif = 1;
}

abbrev tail : Mbuf
tail = record (fresh 1) {
  contents = 3 ∷ 4 ∷ 5 ∷ [];
  offset = 16;
  ext = some (record { ext_buf = 1; ext_size = 2048 });
}

abbrev packet : List Mbuf
packet = lead ∷ tail ∷ []

packet-Fits : Fits packet
packet-Fits = (λ _. (omega arith, omega arith), (λ e. absurd cc, tt))

m_adj-bytes_of_example :
    (bytes_of (m_adj packet (pos 3)) ≡ drop 3 (1 ∷ 2 ∷ 3 ∷ 4 ∷ 5 ∷ []))
    × (bytes_of (m_adj packet (negsuc 3)) ≡ take 1 (1 ∷ 2 ∷ 3 ∷ 4 ∷ 5 ∷ []))
m_adj-bytes_of_example = m_adj-bytes_of packet 3

m_copydata_lem_example : m_copydata packet 1 3 ≡ some (2 ∷ 3 ∷ 4 ∷ [])
m_copydata_lem_example = m_copydata_lem packet 1 3

m_cat-bytes_of_example :
    (bytes_of (m_cat lead [] packet) ≡ 1 ∷ 2 ∷ 1 ∷ 2 ∷ 3 ∷ 4 ∷ 5 ∷ []) × Fits (m_cat lead [] packet)
m_cat-bytes_of_example = m_cat-bytes_of lead [] packet (packet-Fits.0, tt) packet-Fits

-- No bytes are asked for.
copy_of_nothing : m_copym 8 packet 0 (some 0) ≡ null
unfolding m_copym copy_chain skip
copy_of_nothing = refl

m_copym-IsCopy_example : IsCopy packet 1 (some 3) 8 (m_copym 8 packet 1 (some 3))
m_copym-IsCopy_example = m_copym-IsCopy 8 packet 1 (some 3)

m_pullup-IsPulledUp_example :
    IsPulledUp (1 ∷ 2 ∷ 3 ∷ 4 ∷ 5 ∷ []) 4 8 (m_pullup 2 8 52 lead (tail ∷ []) 4)
m_pullup-IsPulledUp_example =
    m_pullup-IsPulledUp 2 8 52 lead (tail ∷ []) 4 (omega arith) packet-Fits

abbrev IsPacket : ℕ → Split → Type 0
IsPacket n (parted a (t ∷ b)) = t.len ≡ pos n
IsPacket n _ = ⊥

m_split-IsSplit_example : IsSplit packet 3 8 [] (m_split 2 8 [] packet 3)
m_split-IsSplit_example = m_split-IsSplit 8 [] packet 3 packet-Fits

-- The second part gets a packet header with the length that is left.
split_header : IsPacket 2 (m_split 2 8 [] packet 3)
unfolding m_split locate ◌-ℤ◌
split_header = refl

prepend-IsPrepended_example :
    IsPrepended lead (tail ∷ []) (9 ∷ 8 ∷ []) 1 (prepend 1 lead (tail ∷ []) (9 ∷ 8 ∷ []))
prepend-IsPrepended_example =
    prepend-IsPrepended 1 lead (tail ∷ []) (9 ∷ 8 ∷ []) packet-Fits (λ _. refl) (omega arith)

-- Cluster 40 is in use, and 41 is free.
abbrev two_clusters : Clusters
two_clusters = record {
  cl_rc_tbl = (40, 1) ∷ (41, 0) ∷ [];
  cl_rc_limit = 2;
  mclfree = 41 ∷ [];
  m_clfree = 1;
  m_clusters = 2;
}

two_clusters-IsSound : IsSound two_clusters
unfolding count_of
two_clusters-IsSound = ((refl, tt, tt), refl, omega arith)

-- Both are in use, and the table is full: cluster 42 is new.
abbrev all_in_use : Clusters
all_in_use = record {
  cl_rc_tbl = (40, 1) ∷ (41, 1) ∷ [];
  cl_rc_limit = 2;
  mclfree = [];
  m_clfree = 0;
  m_clusters = 2;
}

all_in_use-IsSound : IsSound all_in_use
all_in_use-IsSound = (tt, refl, omega arith)

unknown : Counted none (42 ∷ []) all_in_use.cl_rc_tbl
unfolding count_of
unknown = (refl, tt, tt)

in_use : count_of 40 two_clusters.cl_rc_tbl ≡ some 1
unfolding count_of
in_use = refl

cannot_grow : mclalloc (λ limit. false) (42 ∷ []) all_in_use ≡ panicked
unfolding mclalloc add_clusters cl_rc_insert
cannot_grow = refl

mclalloc-IsGot_example :
    IsGot (λ limit. true) (42 ∷ []) all_in_use (mclalloc (λ limit. true) (42 ∷ []) all_in_use)
mclalloc-IsGot_example =
    mclalloc-IsGot (λ limit. true) (42 ∷ []) all_in_use all_in_use-IsSound unknown

mclfree_one-IsSound_example :
    (c' : Clusters) × (mclfree_one 40 two_clusters ≡ some c')
    × IsSound c'
    × CountSet 40 0 two_clusters.cl_rc_tbl c'.cl_rc_tbl
    × (c'.mclfree ≡ 40 ∷ 41 ∷ [])
mclfree_one-IsSound_example =
    mclfree_one-IsSound 40 0 two_clusters two_clusters-IsSound in_use (omega arith)
