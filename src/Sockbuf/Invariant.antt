-- ===== src/Sockbuf/Invariant.antt =====
-- The counts of a socket buffer and its records under sequences of the operations of
-- generic/kern/uipc_socket2.c on its data: what `sbcheck` tests there.
use anp.Prelude.{
  ℕ, ◌+◌, ◌||◌, Option, none, some, List, [], ◌∷◌, ◌++◌, arith, length, ltb, ◌==◌, Bool-cases,
  Option-cases, inl, inr,
}
use anp.Prelude.Int.{ltb_ℤ, pos, ◌+ℤ◌}
use anp.Mbuf.Chain.{Mbuf, mlen, total}
use anp.Sockbuf.Buffer.{SockBuf, sbspace, sbreserve}
use anp.Sockbuf.Append.{
  sbappendrecord, sbinsertoob, sbappend, Appended, added, refused, panicked, sbappendaddr,
  sbappendcontrol, packet_len, name_mbuf,
}
use anp.Sockbuf.Drop.{sbdrop, sbdroprecord}
use anp.Sockbuf.Growing.{
  Counted, sbappendrecord-Counted, sbinsertoob-Counted, sbappend-Counted, add_record-Counted,
}
use anp.Sockbuf.Shrinking.{AllCounted, sbdrop-Counted, sbdroprecord-Counted}

-- The operations on the data of a socket buffer, with their arguments.
pub data Op : Type 0 where
  append append_record insert_oob : List Mbuf → Op
  append_addr : ℕ → List ℕ → List Mbuf → List Mbuf → Op
  append_control : List Mbuf → List Mbuf → Op
  reserve : ℕ → ℕ → Op
  drop_front : ℕ → Op
  drop_record : Op

-- The socket buffer behind a call of `sbappendaddr` or `sbappendcontrol`.
abbrev pub after : SockBuf → Appended → Option SockBuf
after sb (added sb') = some sb'
after sb refused = some sb
after sb panicked = none

abbrev pub after_reserve : SockBuf → Option SockBuf → Option SockBuf
after_reserve sb none = some sb
after_reserve sb (some sb') = some sb'

-- `none` is a panic.
abbrev pub apply : Op → SockBuf → Option SockBuf
apply (append ms) sb = some (sbappend sb ms)
apply (append_record ms) sb = some (sbappendrecord sb ms)
apply (insert_oob ms) sb = some (sbinsertoob sb ms)
apply (append_addr mbufs asa m0 control) sb = after sb (sbappendaddr mbufs sb asa m0 control)
apply (append_control m0 control) sb = after sb (sbappendcontrol sb m0 control)
apply (reserve sb_max cc') sb = after_reserve sb (sbreserve sb_max sb cc')
apply (drop_front len) sb = sbdrop sb len
apply drop_record sb = some (sbdroprecord sb)

abbrev pub apply_all : List Op → SockBuf → Option SockBuf
apply_all [] sb = some sb
apply_all (op ∷ ops) sb = elim (apply op sb) [ none ↦ none | some sb' ↦ apply_all ops sb' ]

sbappendaddr-Counted :
    (mbufs : ℕ) (sb : SockBuf) (asa : List ℕ) (m0 control : List Mbuf)
    → Counted sb
    → AllCounted (after sb (sbappendaddr mbufs sb asa m0 control))
unfolding sbappendaddr
sbappendaddr-Counted mbufs sb asa m0 control h = elim (Option-cases (packet_len m0)) [
  | inl e ↦ rw (sbappendaddr, e) tt
  | inr (len, e) ↦
      elim (Bool-cases (ltb_ℤ (sbspace sb) (pos (length asa + total control) +ℤ len))) [
        | inl full ↦ rw (sbappendaddr, e, full) h
        | inr fits ↦ elim (Bool-cases (ltb mlen (length asa) || mbufs == 0)) [
          | inl bad ↦ rw (sbappendaddr, e, fits, bad) h
          | inr good ↦
              rw (sbappendaddr, e, fits, good)
                (add_record-Counted sb (name_mbuf asa ∷ control ++ m0) h)
        ]
      ]
]

sbappendcontrol-Counted :
    (sb : SockBuf) (m0 control : List Mbuf)
    → Counted sb
    → AllCounted (after sb (sbappendcontrol sb m0 control))
unfolding sbappendcontrol
sbappendcontrol-Counted sb m0 [] h = tt
sbappendcontrol-Counted sb m0 (c ∷ control) h =
    elim (Bool-cases (ltb_ℤ (sbspace sb) (pos (total (c ∷ control) + total m0)))) [
      | inl full ↦ rw (sbappendcontrol, full) h
      | inr fits ↦ rw (sbappendcontrol, fits) (add_record-Counted sb ((c ∷ control) ++ m0) h)
    ]

sbreserve-Counted :
    (sb_max cc' : ℕ) (sb : SockBuf)
    → Counted sb
    → AllCounted (after_reserve sb (sbreserve sb_max sb cc'))
unfolding sbreserve
sbreserve-Counted sb_max cc' sb h = ground arith

apply-Counted : (op : Op) (sb : SockBuf) → Counted sb → AllCounted (apply op sb)
apply-Counted (append ms) sb h = sbappend-Counted sb ms h
apply-Counted (append_record ms) sb h = sbappendrecord-Counted sb ms h
apply-Counted (insert_oob ms) sb h = sbinsertoob-Counted sb ms h
apply-Counted (append_addr mbufs asa m0 control) sb h =
    sbappendaddr-Counted mbufs sb asa m0 control h
apply-Counted (append_control m0 control) sb h = sbappendcontrol-Counted sb m0 control h
apply-Counted (reserve sb_max cc') sb h = sbreserve-Counted sb_max cc' sb h
apply-Counted (drop_front len) sb h = sbdrop-Counted sb len h
apply-Counted drop_record sb h = sbdroprecord-Counted sb h

-- If the counts of a socket buffer agree with its records, they do so after every sequence of
-- operations that does not panic: `sb_cc` is the number of bytes, and `sb_mbcnt` the storage of the
-- mbufs and of their clusters, as words.
pub apply_all-Counted : (ops : List Op) (sb : SockBuf) → Counted sb → AllCounted (apply_all ops sb)
apply_all-Counted [] sb h = h
apply_all-Counted (op ∷ ops) sb h = elim (Option-cases (apply op sb)) [
  | inl e ↦ rw (apply_all, e) tt
  | inr (sb', e) ↦
      let k = apply-Counted op sb h in
      let k' = rw e at k in rw (apply_all, e) (apply_all-Counted ops sb' k')
]
