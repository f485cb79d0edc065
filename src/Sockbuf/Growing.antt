-- ===== src/Sockbuf/Growing.antt =====
-- The counts of a socket buffer and its records under the operations of
-- generic/kern/uipc_socket2.c that append to it.
use anp.Prelude.{
  ℕ, ◌+◌, ◌≡◌, refl, false, none, some, List, [], ◌∷◌, ◌++◌, arith, Bool-cases, inl, inr,
}
use anp.Mbuf.Chain.{Mbuf, m_len, msize, total}
use anp.Sockbuf.Buffer.{SockBuf, ext_cost, sballoc, put_front}
use anp.Sockbuf.Append.{
  sbcompress, pass_eor, new_record, sbappendrecord, insert_behind_oob, sbinsertoob, last_apart,
  append_last, sbappend, last_has_eor, sballoc_all, add_record, is_oob,
}
use anp.Sockbuf.Counts.{
  costs, cc_of, mbcnt_of, Counts, sballoc-Counts, sbcompress-Counts, total-append, costs-append,
}

-- The counts agree with the records.
abbrev pub Counted : SockBuf → Type 0
Counted sb = Counts sb (cc_of sb.sb_mb) (mbcnt_of sb.sb_mb)

pub cc_of-append :
    (a : List (List Mbuf)) (r : List Mbuf) → cc_of (a ++ (r ∷ [])) ≡ cc_of a + total r
cc_of-append [] r = omega arith
cc_of-append (t ∷ a) r = omega (arith, cc_of-append a r)

mbcnt_of-append :
    (a : List (List Mbuf)) (r : List Mbuf) → mbcnt_of (a ++ (r ∷ [])) ≡ mbcnt_of a + costs r
mbcnt_of-append [] r = omega arith
mbcnt_of-append (t ∷ a) r = omega (arith, mbcnt_of-append a r)

pass_eor-first :
    (m0 : Mbuf) (ms : List Mbuf)
    → (m_len (pass_eor m0 ms).0 ≡ m_len m0) × (ext_cost (pass_eor m0 ms).0 ≡ ext_cost m0)
pass_eor-first m0 [] = (refl, refl)
pass_eor-first m0 (m ∷ ms) = ground arith

new_record-Counts :
    (m0 : Mbuf) (ms : List Mbuf) (sb : SockBuf) (c b : ℕ)
    → Counts sb c b
    → let (r, sb') = new_record m0 ms sb in Counts sb' (c + total r) (b + costs r)
unfolding new_record
new_record-Counts m0 ms sb c b h =
    let (l, x) = pass_eor-first m0 ms in
    sbcompress-Counts false (some (pass_eor m0 ms).0) (pass_eor m0 ms).1 (sballoc m0 sb) c b
      (sballoc-Counts m0 sb c b _ _ h (omega arith) (omega arith))

pub sbappendrecord-Counted :
    (sb : SockBuf) (ms : List Mbuf) → Counted sb → Counted (sbappendrecord sb ms)
unfolding sbappendrecord
sbappendrecord-Counted sb [] h = h
sbappendrecord-Counted sb (m0 ∷ ms) h =
    let n = new_record-Counts m0 ms sb _ _ h in
    let c = cc_of-append sb.sb_mb (new_record m0 ms sb).0 in
    let b = mbcnt_of-append sb.sb_mb (new_record m0 ms sb).0 in (omega arith, omega arith)

insert_behind_oob-counts :
    (r : List Mbuf) (ts : List (List Mbuf))
    → (cc_of (insert_behind_oob r ts) ≡ cc_of ts + total r)
      × (mbcnt_of (insert_behind_oob r ts) ≡ mbcnt_of ts + costs r)
unfolding insert_behind_oob
insert_behind_oob-counts r [] = (omega arith, omega arith)
insert_behind_oob-counts r (t ∷ ts) = elim (Bool-cases (is_oob t)) [
  | inl e ↦
      let (c, b) = insert_behind_oob-counts r ts in
      rw (insert_behind_oob, e) (omega arith, omega arith)
  | inr e ↦ rw (insert_behind_oob, e) (omega arith, omega arith)
]

pub sbinsertoob-Counted : (sb : SockBuf) (ms : List Mbuf) → Counted sb → Counted (sbinsertoob sb ms)
unfolding sbinsertoob
sbinsertoob-Counted sb [] h = h
sbinsertoob-Counted sb (m0 ∷ ms) h =
    let n = new_record-Counts m0 ms sb _ _ h in
    let (c, b) = insert_behind_oob-counts (new_record m0 ms sb).0 sb.sb_mb in
    (omega arith, omega arith)

last_apart-counts :
    (n : Mbuf) (ns : List Mbuf)
    → let (front, last) = last_apart n ns in
      (total (n ∷ ns) ≡ total front + m_len last)
      × (costs (n ∷ ns) ≡ costs front + (msize + ext_cost last))
last_apart-counts n [] = (omega arith, omega arith)
last_apart-counts n (n₁ ∷ ns) = let (c, b) = last_apart-counts n₁ ns in (omega arith, omega arith)

pub put_front-counts :
    (r : List Mbuf) (ts : List (List Mbuf))
    → (cc_of (put_front r ts) ≡ total r + cc_of ts)
      × (mbcnt_of (put_front r ts) ≡ costs r + mbcnt_of ts)
put_front-counts [] ts = (omega arith, omega arith)
put_front-counts (m ∷ ms) ts = (refl, refl)

append_last-Counts :
    (ts : List (List Mbuf)) (ms : List Mbuf) (sb : SockBuf) (c b : ℕ)
    → Counts sb (c + cc_of ts) (b + mbcnt_of ts)
    → let (ts', sb') = append_last ts ms sb in Counts sb' (c + cc_of ts') (b + mbcnt_of ts')
unfolding append_last
append_last-Counts [] ms sb c b h =
    let k = sbcompress-Counts false none ms sb c b h in
    let (pc, pb) = put_front-counts (sbcompress false none ms sb).0 [] in (omega arith, omega arith)
append_last-Counts ([] ∷ []) ms sb c b h =
    let k = sbcompress-Counts false none ms sb c b (omega arith, omega arith) in
    let (pc, pb) = put_front-counts (sbcompress false none ms sb).0 [] in (omega arith, omega arith)
append_last-Counts ((n ∷ ns) ∷ []) ms sb c b h =
    let (front, last) = last_apart n ns in
    let (lc, lb) = last_apart-counts n ns in
    let k =
      sbcompress-Counts false (some (last_apart n ns).1) ms sb (c + total (last_apart n ns).0)
        (b + costs (last_apart n ns).0) (omega arith, omega arith) in
    let tc =
      total-append (last_apart n ns).0 (sbcompress false (some (last_apart n ns).1) ms sb).0 in
    let tb =
      costs-append (last_apart n ns).0 (sbcompress false (some (last_apart n ns).1) ms sb).0 in
    (omega arith, omega arith)
append_last-Counts (t ∷ t₁ ∷ ts) ms sb c b h =
    let k =
      append_last-Counts (t₁ ∷ ts) ms sb (c + total t) (b + costs t) (omega arith, omega arith) in
    (omega arith, omega arith)

pub sbappend-Counted : (sb : SockBuf) (ms : List Mbuf) → Counted sb → Counted (sbappend sb ms)
unfolding sbappend
sbappend-Counted sb [] h = h
sbappend-Counted sb (m ∷ ms) h = elim (Bool-cases (last_has_eor sb.sb_mb)) [
  | inl e ↦ rw (sbappend, e) (sbappendrecord-Counted sb (m ∷ ms) h)
  | inr e ↦
      let k = append_last-Counts sb.sb_mb (m ∷ ms) sb 0 0 (omega arith, omega arith) in
      rw (sbappend, e) (omega arith, omega arith)
]

sballoc_all-Counts :
    (r : List Mbuf) (sb : SockBuf) (c b : ℕ)
    → Counts sb c b
    → Counts (sballoc_all r sb) (c + total r) (b + costs r)
unfolding sballoc_all
sballoc_all-Counts [] sb c b h = (omega arith, omega arith)
sballoc_all-Counts (m ∷ ms) sb c b h =
    let k =
      sballoc_all-Counts ms (sballoc m sb) (c + m_len m) (b + (msize + ext_cost m))
        (sballoc-Counts m sb c b _ _ h refl refl) in
    (omega arith, omega arith)

pub add_record-Counted : (sb : SockBuf) (r : List Mbuf) → Counted sb → Counted (add_record sb r)
add_record-Counted sb r h =
    let k = sballoc_all-Counts r sb _ _ h in
    let c = cc_of-append sb.sb_mb r in
    let b = mbcnt_of-append sb.sb_mb r in (omega arith, omega arith)
