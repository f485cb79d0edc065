-- ===== src/Sockbuf/Shrinking.antt =====
-- The counts of a socket buffer and its records under the operations of
-- generic/kern/uipc_socket2.c that drop from it.
use anp.Prelude.{
  ℕ, zero, suc, ◌+◌, ◌-◌, ◌<◌, ◌≡◌, refl, Option, none, some, List, [], ◌∷◌, arith, length-drop,
  ltb, ◌==◌, Bool-cases, inl, inr,
}
use anp.Mbuf.Chain.{Mbuf, m_len, total}
use anp.Sockbuf.Buffer.{SockBuf, sbfree}
use anp.Sockbuf.Drop.{
  drop_bytes, free_empty, finish_drop, first_record, other_records, sbdrop, sbfree_all,
  sbdroprecord,
}
use anp.Sockbuf.Counts.{costs, cc_of, mbcnt_of, Counts, sbfree-Counts}
use anp.Sockbuf.Growing.{Counted, put_front-counts}

-- The counts behind the first loop of `sbdrop`, if it ends without a panic.
abbrev pub LeftCounted : Option (List Mbuf × List (List Mbuf) × SockBuf) → Type 0
LeftCounted none = Unit
LeftCounted (some (m, next, sb)) = Counts sb (total m + cc_of next) (costs m + mbcnt_of next)

drop_bytes-Counts :
    (next : List (List Mbuf)) (m : List Mbuf) (len : ℕ) (sb : SockBuf)
    → Counts sb (total m + cc_of next) (costs m + mbcnt_of next)
    → LeftCounted (drop_bytes next m len sb)
unfolding drop_bytes
drop_bytes-Counts next m zero sb h = h
drop_bytes-Counts [] [] (suc len) sb h = tt
drop_bytes-Counts (r ∷ next) [] (suc len) sb h =
    drop_bytes-Counts next r (suc len) sb (omega arith, omega arith)
drop_bytes-Counts next (m ∷ ms) (suc len) sb h = elim (Bool-cases (ltb (suc len) (m_len m))) [
  | inl part ↦
      let l = length-drop (suc len) m.contents in
      let lt : suc len < m_len m = ground arith in rw (drop_bytes, part) (omega arith, omega arith)
  | inr all ↦
      rw (drop_bytes, all)
        (drop_bytes-Counts next ms (suc len - m_len m) (sbfree m sb)
          (sbfree-Counts m sb _ _ _ _ h (omega arith) (omega arith)))
]

free_empty-Counts :
    (m : List Mbuf) (sb : SockBuf) (c b : ℕ)
    → Counts sb (total m + c) (costs m + b)
    → let (m', sb') = free_empty m sb in Counts sb' (total m' + c) (costs m' + b)
unfolding free_empty
free_empty-Counts [] sb c b h = h
free_empty-Counts (m ∷ ms) sb c b h = elim (Bool-cases (m_len m == 0)) [
  | inl e ↦
      rw (free_empty, e)
        (free_empty-Counts ms (sbfree m sb) c b
          (sbfree-Counts m sb _ _ _ _ h (omega arith) (omega arith)))
  | inr e ↦ rw (free_empty, e) h
]

-- A socket buffer whose counts agree, or no socket buffer, after a panic.
abbrev pub AllCounted : Option SockBuf → Type 0
AllCounted none = Unit
AllCounted (some sb) = Counted sb

finish_drop-Counted :
    (r : Option (List Mbuf × List (List Mbuf) × SockBuf))
    → LeftCounted r
    → AllCounted (elim r [ none ↦ none | some (m, next, sb') ↦ some (finish_drop m next sb') ])
finish_drop-Counted none h = tt
finish_drop-Counted (some (m, next, sb)) h =
    let k = free_empty-Counts m sb (cc_of next) (mbcnt_of next) h in
    let (pc, pb) = put_front-counts (free_empty m sb).0 next in (omega arith, omega arith)

first_record-counts :
    (ts : List (List Mbuf))
    → (total (first_record ts) + cc_of (other_records ts) ≡ cc_of ts)
      × (costs (first_record ts) + mbcnt_of (other_records ts) ≡ mbcnt_of ts)
first_record-counts [] = (omega arith, omega arith)
first_record-counts (t ∷ ts) = (refl, refl)

pub sbdrop-Counted : (sb : SockBuf) (len : ℕ) → Counted sb → AllCounted (sbdrop sb len)
unfolding sbdrop
sbdrop-Counted sb len h =
    let (c, b) = first_record-counts sb.sb_mb in
    finish_drop-Counted (drop_bytes (other_records sb.sb_mb) (first_record sb.sb_mb) len sb) (
      drop_bytes-Counts (other_records sb.sb_mb) (first_record sb.sb_mb) len sb
        (omega arith, omega arith))

sbfree_all-Counts :
    (m : List Mbuf) (sb : SockBuf) (c b : ℕ)
    → Counts sb (total m + c) (costs m + b)
    → Counts (sbfree_all m sb) c b
unfolding sbfree_all
sbfree_all-Counts [] sb c b h = (omega arith, omega arith)
sbfree_all-Counts (m ∷ ms) sb c b h =
    sbfree_all-Counts ms (sbfree m sb) c b
      (sbfree-Counts m sb _ _ _ _ h (omega arith) (omega arith))

pub sbdroprecord-Counted : (sb : SockBuf) → Counted sb → Counted (sbdroprecord sb)
unfolding sbdroprecord
sbdroprecord-Counted sb h =
    let (c, b) = first_record-counts sb.sb_mb in
    sbfree_all-Counts (first_record sb.sb_mb) sb (cc_of (other_records sb.sb_mb))
      (mbcnt_of (other_records sb.sb_mb)) (omega arith, omega arith)
