-- ===== src/Sockbuf/Append.antt =====
-- `sbcompress`, `sbappend`, `sbappendrecord`, `sbinsertoob`, `sbappendaddr` and `sbappendcontrol` of
-- generic/kern/uipc_socket2.c.
use anp.Prelude.{
  ℕ, ◌+◌, Bool, true, false, not, ◌&&◌, ◌||◌, Option, none, some, List, [], ◌∷◌, ◌++◌, length, ltb,
  ◌==◌, if◌then◌else◌,
}
use anp.Prelude.Int.{ℤ, pos, ◌+ℤ◌, ltb_ℤ}
use anp.Prelude.Word.{add32}
use anp.Mbuf.Chain.{Mbuf, m_len, is_ext, mlen, total}
use anp.Mbuf.Build.{fresh}
use anp.Sockbuf.Buffer.{SockBuf, sballoc, sbspace, put_front}

-- What a round of `sbcompress` does with an mbuf: free it, copy it into the one in front, which
-- grows, or link it.
pub data Placing : Type 0 where
  discard : Placing
  merge : Mbuf → Placing
  link : Placing

-- `o = m->m_next`, or else `o = n`, is there and has the type.
abbrev pub type_kept : ℕ → List Mbuf → Option Mbuf → Bool
type_kept t (o ∷ ms) n = o.kind == t
type_kept t [] none = false
type_kept t [] (some o) = o.kind == t

abbrev pub takes : Mbuf → Mbuf → Bool
takes n m =
    not (is_ext n) && not n.eor && ltb (n.offset + m_len n + m_len m) mlen && n.kind == m.kind

abbrev pub joined_to : Option Mbuf → Mbuf → Placing
joined_to none m = link
joined_to (some n) m =
    if takes n m then merge (record n { contents = n.contents ++ m.contents }) else link

unfoldable pub place : Bool → Option Mbuf → Mbuf → List Mbuf → Placing
place eor n m ms =
    if m_len m == 0 && (not eor || type_kept m.kind ms n) then discard else joined_to n m

abbrev pub chain_of : Option Mbuf → List Mbuf
chain_of none = []
chain_of (some n) = n ∷ []

abbrev pub without_eor : Mbuf → Mbuf
without_eor m = record m { eor = false }

-- `n->m_flags |= eor` behind the loop.
abbrev pub mark : Bool → Option Mbuf → List Mbuf
mark eor none = []
mark eor (some n) = record n { eor = n.eor || eor } ∷ []

-- The loop of `sbcompress` with `eor` and the mbuf `n` that the chain goes behind. It gives the
-- chain from `n` on.
unfoldable pub sbcompress : Bool → Option Mbuf → List Mbuf → SockBuf → List Mbuf × SockBuf
sbcompress eor n [] sb = (mark eor n, sb)
sbcompress eor n (m ∷ ms) sb = elim (place (eor || m.eor) n m ms) [
  | discard ↦ sbcompress (eor || m.eor) n ms sb
  | merge n' ↦
      sbcompress (eor || m.eor) (some n') ms (record sb { sb_cc = add32 sb.sb_cc (m_len m) })
  | link ↦
      let (ns, sb') = sbcompress (eor || m.eor) (some (without_eor m)) ms (sballoc m sb) in
      (chain_of n ++ ns, sb')
]

-- `M_EOR` of the first mbuf goes to the second, if there is one.
abbrev pub pass_eor : Mbuf → List Mbuf → Mbuf × List Mbuf
pass_eor m0 [] = (m0, [])
pass_eor m0 (m ∷ ms) =
    if m0.eor then (without_eor m0, record m { eor = true } ∷ ms) else (m0, m ∷ ms)

-- The record that begins with `m0`.
unfoldable pub new_record : Mbuf → List Mbuf → SockBuf → List Mbuf × SockBuf
new_record m0 ms sb =
    let (m0', ms') = pass_eor m0 ms in sbcompress false (some m0') ms' (sballoc m0 sb)

unfoldable pub sbappendrecord : SockBuf → List Mbuf → SockBuf
sbappendrecord sb [] = sb
sbappendrecord sb (m0 ∷ ms) =
    let (r, sb') = new_record m0 ms sb in record sb' { sb_mb = sb.sb_mb ++ (r ∷ []) }

-- `MT_OOBDATA`, and `MT_CONTROL` before it.
abbrev pub is_oob : List Mbuf → Bool
is_oob [] = false
is_oob (m ∷ ms) = if m.kind == 15 then true else if m.kind == 14 then is_oob ms else false

unfoldable pub insert_behind_oob : List Mbuf → List (List Mbuf) → List (List Mbuf)
insert_behind_oob r [] = r ∷ []
insert_behind_oob r (t ∷ ts) = if is_oob t then t ∷ insert_behind_oob r ts else r ∷ t ∷ ts

unfoldable pub sbinsertoob : SockBuf → List Mbuf → SockBuf
sbinsertoob sb [] = sb
sbinsertoob sb (m0 ∷ ms) =
    let (r, sb') = new_record m0 ms sb in record sb' { sb_mb = insert_behind_oob r sb.sb_mb }

-- A record with its last mbuf apart.
abbrev pub last_apart : Mbuf → List Mbuf → List Mbuf × Mbuf
last_apart n [] = ([], n)
last_apart n (n₁ ∷ ns) = let (front, last) = last_apart n₁ ns in (n ∷ front, last)

abbrev pub has_eor : List Mbuf → Bool
has_eor [] = false
has_eor (n ∷ ns) = n.eor || has_eor ns

-- The last record grows by `ms`. No record is empty in the source, and an empty one counts as none.
unfoldable pub append_last : List (List Mbuf) → List Mbuf → SockBuf → List (List Mbuf) × SockBuf
append_last [] ms sb = let (r, sb') = sbcompress false none ms sb in (put_front r [], sb')
append_last ([] ∷ []) ms sb = let (r, sb') = sbcompress false none ms sb in (put_front r [], sb')
append_last ((n ∷ ns) ∷ []) ms sb =
    let (front, last) = last_apart n ns in
    let (r, sb') = sbcompress false (some last) ms sb in ((front ++ r) ∷ [], sb')
append_last (t ∷ t₁ ∷ ts) ms sb = let (ts', sb') = append_last (t₁ ∷ ts) ms sb in (t ∷ ts', sb')

abbrev pub last_has_eor : List (List Mbuf) → Bool
last_has_eor [] = false
last_has_eor (t ∷ []) = has_eor t
last_has_eor (t ∷ t₁ ∷ ts) = last_has_eor (t₁ ∷ ts)

unfoldable pub sbappend : SockBuf → List Mbuf → SockBuf
sbappend sb [] = sb
sbappend sb (m ∷ ms) =
    if last_has_eor sb.sb_mb
    then sbappendrecord sb (m ∷ ms)
    else (let (mb, sb') = append_last sb.sb_mb (m ∷ ms) sb in record sb' { sb_mb = mb })

-- The result 1, the result 0, or a panic.
pub data Appended : Type 0 where
  added : SockBuf → Appended
  refused : Appended
  panicked : Appended

unfoldable pub sballoc_all : List Mbuf → SockBuf → SockBuf
sballoc_all [] sb = sb
sballoc_all (m ∷ ms) sb = sballoc_all ms (sballoc m sb)

abbrev pub add_record : SockBuf → List Mbuf → SockBuf
add_record sb r = record (sballoc_all r sb) { sb_mb = sb.sb_mb ++ (r ∷ []) }

-- `MT_SONAME` is 8.
abbrev pub name_mbuf : List ℕ → Mbuf
name_mbuf asa = record (fresh 8) { contents = asa }

-- The length of a packet by its header. `none` is the panic for a packet without one.
abbrev pub packet_len : List Mbuf → Option ℤ
packet_len [] = some (pos 0)
packet_len (m ∷ ms) = if m.pkthdr then some m.len else none

-- `asa` is the address, of `sa_len` bytes, and `mbufs` the number of mbufs left. An empty chain is
-- the null pointer.
unfoldable pub sbappendaddr : ℕ → SockBuf → List ℕ → List Mbuf → List Mbuf → Appended
sbappendaddr mbufs sb asa m0 control = elim (packet_len m0) [
  | none ↦ panicked
  | some len ↦
      if ltb_ℤ (sbspace sb) (pos (length asa + total control) +ℤ len)
      then refused
      else if ltb mlen (length asa) || mbufs == 0
      then refused
      else added (add_record sb (name_mbuf asa ∷ control ++ m0))
]

unfoldable pub sbappendcontrol : SockBuf → List Mbuf → List Mbuf → Appended
sbappendcontrol sb m0 [] = panicked
sbappendcontrol sb m0 (c ∷ control) =
    if ltb_ℤ (sbspace sb) (pos (total (c ∷ control) + total m0))
    then refused
    else added (add_record sb ((c ∷ control) ++ m0))
