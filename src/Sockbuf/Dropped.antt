-- ===== src/Sockbuf/Dropped.antt =====
-- What `sbdrop` of generic/kern/uipc_socket2.c leaves of the bytes of a socket buffer.
use anp.Prelude.{
  ℕ, zero, suc, ◌-◌, ◌≤◌, ◌<◌, ◌≡◌, refl, Option, none, some, List, [], ◌∷◌, ◌++◌, arith, length,
  length-append, ltb, ◌==◌, drop, Bool-cases, inl, inr, sym, ap, ◌∙◌, append_assoc,
  drop-append_left, drop-append_right, ==_iff,
}
use anp.Mbuf.Chain.{Mbuf, m_len, bytes_of}
use anp.Sockbuf.Buffer.{SockBuf, sbfree}
use anp.Sockbuf.Drop.{drop_bytes, free_empty, finish_drop, first_record, other_records, sbdrop}
use anp.Sockbuf.Contents.{data_of, no_bytes, put_front-data_of}

-- The first loop of `sbdrop` on the bytes `bs`: they are too few, or `len` are dropped.
abbrev pub LoopDrops : List ℕ → ℕ → Option (List Mbuf × List (List Mbuf) × SockBuf) → Type 0
LoopDrops bs len none = length bs < len
LoopDrops bs len (some (m, next, sb)) =
    (len ≤ length bs) × (bytes_of m ++ data_of next ≡ drop len bs)

past_mbuf :
    (xs bs : List ℕ) (len : ℕ) (r : Option (List Mbuf × List (List Mbuf) × SockBuf))
    → length xs ≤ len
    → LoopDrops bs (len - length xs) r
    → LoopDrops (xs ++ bs) len r
past_mbuf xs bs len none l h = omega (arith, length-append xs bs)
past_mbuf xs bs len (some (m, next, sb)) l (h, e) =
    (omega (arith, length-append xs bs), e ∙ sym (drop-append_right len xs bs l))

pub drop_bytes-LoopDrops :
    (next : List (List Mbuf)) (m : List Mbuf) (len : ℕ) (sb : SockBuf)
    → LoopDrops (bytes_of m ++ data_of next) len (drop_bytes next m len sb)
unfolding drop_bytes
drop_bytes-LoopDrops next m zero sb = (omega arith, refl)
drop_bytes-LoopDrops [] [] (suc len) sb = omega arith
drop_bytes-LoopDrops (r ∷ next) [] (suc len) sb = drop_bytes-LoopDrops next r (suc len) sb
drop_bytes-LoopDrops next (m ∷ ms) (suc len) sb = elim (Bool-cases (ltb (suc len) (m_len m))) [
  | inl part ↦
      let lt : suc len < m_len m = ground arith in
      rw (drop_bytes, part, append_assoc)
        (
          omega (arith, length-append m.contents (bytes_of ms ++ data_of next)),
          append_assoc (drop (suc len) m.contents) (bytes_of ms) (data_of next)
              ∙ sym (
                  drop-append_left (suc len) m.contents (bytes_of ms ++ data_of next)
                    (omega arith)),
        )
  | inr all ↦
      let le : m_len m ≤ suc len = ground arith in
      rw (drop_bytes, all, append_assoc)
        (past_mbuf m.contents (bytes_of ms ++ data_of next) (suc len) _ le
          (drop_bytes-LoopDrops next ms (suc len - m_len m) (sbfree m sb)))
]

pub free_empty-bytes_of : (m : List Mbuf) (sb : SockBuf) → bytes_of (free_empty m sb).0 ≡ bytes_of m
unfolding free_empty
free_empty-bytes_of [] sb = refl
free_empty-bytes_of (m ∷ ms) sb = elim (Bool-cases (m_len m == 0)) [
  | inl e ↦
      let z = no_bytes m.contents ((==_iff (m_len m) 0).0 e) in
      rw (free_empty, e)
        (free_empty-bytes_of ms (sbfree m sb) ∙ ap (λ bs. bs ++ bytes_of ms) (sym z))
  | inr e ↦ rw (free_empty, e)
]

-- `len` bytes are dropped from the bytes `bs`, or they are too few.
abbrev pub Drops : List ℕ → ℕ → Option SockBuf → Type 0
Drops bs len none = length bs < len
Drops bs len (some sb) = (len ≤ length bs) × (data_of sb.sb_mb ≡ drop len bs)

finish_drop-Drops :
    (bs : List ℕ) (len : ℕ) (r : Option (List Mbuf × List (List Mbuf) × SockBuf))
    → LoopDrops bs len r
    → Drops bs len (elim r [ none ↦ none | some (m, next, sb') ↦ some (finish_drop m next sb') ])
finish_drop-Drops bs len none h = h
finish_drop-Drops bs len (some (m, next, sb)) (l, e) =
    (l, put_front-data_of (free_empty m sb).0 next ∙ rw (free_empty-bytes_of m sb) e)

pub first_record-data_of :
    (ts : List (List Mbuf)) → bytes_of (first_record ts) ++ data_of (other_records ts) ≡ data_of ts
first_record-data_of [] = refl
first_record-data_of (t ∷ ts) = refl

-- `sbdrop` drops `len` bytes from the front of the socket buffer, over the ends of records, and
-- keeps the others in their order. It panics exactly where there are fewer than `len`.
pub sbdrop-Drops : (sb : SockBuf) (len : ℕ) → Drops (data_of sb.sb_mb) len (sbdrop sb len)
unfolding sbdrop
sbdrop-Drops sb len =
    finish_drop-Drops (data_of sb.sb_mb) len
      (drop_bytes (other_records sb.sb_mb) (first_record sb.sb_mb) len sb)
      (let h = drop_bytes-LoopDrops (other_records sb.sb_mb) (first_record sb.sb_mb) len sb in
        rw (first_record-data_of sb.sb_mb) at h)
