-- ===== src/Cksum/Tests.antt =====
-- Checksums of generic/netinet/in_cksum.c.
use anp.Prelude.{ℕ, ◌-◌, ◌≡◌, refl, false, none, List, [], ◌∷◌, take, arith}
use anp.Prelude.Int.{pos}
use anp.Mbuf.Chain.{Mbuf, bytes_of, total}
use anp.Cksum.{in_cksum, reduce, sum_pairs, odd_byte}
use anp.Cksum.Sum.{norm}
use anp.Cksum.Pairs.{word_sum}
use anp.Cksum.Chains.{in_cksum-word_sum}

abbrev mbuf_at : ℕ → List ℕ → Mbuf
mbuf_at offset bytes = record {
  contents = bytes;
  offset = offset;
  ext = none;
  pkthdr = false;
  eor = false;
  bcast = false;
  mcast = false;
  kind = 1;
  len = pos 0;
  rcvif = 0;
}

-- Words across the ends of mbufs, from odd and even addresses.
abbrev chain : List Mbuf
chain =
    mbuf_at 21 (0x45 ∷ 0 ∷ 0 ∷ [])
    ∷ mbuf_at 20 (0x2a ∷ 0 ∷ [])
    ∷ mbuf_at 21 []
    ∷ mbuf_at 21 (1 ∷ 0xff ∷ 0xff ∷ [])
    ∷ []

checksum : in_cksum chain 9 ≡ (47828, 1)
unfolding in_cksum reduce sum_pairs odd_byte
checksum = refl

in_cksum-word_sum_example :
    in_cksum chain 9 ≡ (65535 - norm (word_sum (take 9 (bytes_of chain))), 9 - total chain)
in_cksum-word_sum_example = in_cksum-word_sum chain 9 (omega arith) (omega arith)
